-- ===== src/Log/Les.antt =====
-- `LesLog` of src/decode/message_log.h.
pub mod Newest
mod Tests
use inmar_scope.Prelude.{ℕ, ◌+◌, List, [], ◌∷◌, Bool, true, false, if◌then◌else◌, length}
use inmar_scope.Log.Bounded.{push_bounded}
use inmar_scope.Log.Types.{LesMessage, StoreCall, store_les}
use inmar_scope.Log.Messages.{u64}

abbrev pub les_max : ℕ
les_max = 2000

pub record LesLog (D : Type 0) : Type 0 where
  pub msgs : List (LesMessage D)
  pub archive : List (LesMessage D)
  pub view_archive : Bool
  pub count_ : ℕ
  pub has_store : Bool

module _ {D : Type 0} where
  pub les_set_store : LesLog D → Bool → LesLog D
  les_set_store l on = record l { has_store = on }

  -- `now` is the time of the store call.
  unfoldable pub les_add : D → LesLog D → LesMessage D → LesLog D × List (StoreCall D)
  les_add now l m = (
    record l { msgs = push_bounded les_max l.msgs m; count_ = u64 (l.count_ + 1) },
    if l.has_store then store_les now m ∷ [] else [],
  )

  unfoldable pub les_snapshot : LesLog D → List (LesMessage D)
  les_snapshot l = if l.view_archive then l.archive else l.msgs

  unfoldable pub les_count : LesLog D → ℕ
  les_count l = if l.view_archive then length l.archive else l.count_

  unfoldable pub les_clear : LesLog D → LesLog D
  les_clear l = record l { msgs = []; archive = []; view_archive = false }

  unfoldable pub les_set_archive : LesLog D → List (LesMessage D) → LesLog D
  les_set_archive l items = record l { archive = items; view_archive = true }

  unfoldable pub les_clear_archive : LesLog D → LesLog D
  les_clear_archive l = record l { archive = []; view_archive = false }
