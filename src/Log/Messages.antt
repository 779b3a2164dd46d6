-- ===== src/Log/Messages.antt =====
-- `MessageLog` and `CassignLog` of src/decode/message_log.h.
pub mod Refine
mod Tests
use inmar_scope.Prelude.{
  ℕ, suc, ◌+◌, ◌%◌, ◌^◌, ◌≤◌, ◌≡◌, refl, ap, ◌∙◌, List, [], ◌∷◌, ◌++◌, Bool, true, false, arith,
  if◌then◌else◌, length,
}
use inmar_scope.Log.Bounded.{push_bounded, push_all, push_all-last_of, last_of}
use inmar_scope.Log.Types.{DecodedMessage, CassignEntry, StoreCall, store_acars, store_su}

abbrev pub u64 : ℕ → ℕ
u64 n = n % 2 ^ 64

abbrev pub message_max : ℕ
message_max = 2000

abbrev pub cassign_max : ℕ
cassign_max = 1000

-- `has_store` says that the store pointer is not null.
pub record MessageLog (D : Type 0) : Type 0 where
  pub msgs : List (DecodedMessage D)
  pub archive : List (DecodedMessage D)
  pub view_archive : Bool
  pub count_ : ℕ
  pub has_store : Bool

module _ {D : Type 0} where
  pub set_store : MessageLog D → Bool → MessageLog D
  set_store l on = record l { has_store = on }

  unfoldable pub add : MessageLog D → DecodedMessage D → MessageLog D
  add l m = record l { msgs = push_bounded message_max l.msgs m; count_ = u64 (l.count_ + 1) }

  unfoldable pub add_and_store :
      MessageLog D → DecodedMessage D → ℕ → MessageLog D × List (StoreCall D)
  unfolding add
  add_and_store l m baud = (add l m, if l.has_store then store_acars m baud ∷ [] else [])

  unfoldable pub add_su_and_store :
      MessageLog D → DecodedMessage D → ℕ → MessageLog D × List (StoreCall D)
  unfolding add
  add_su_and_store l m baud = (add l m, if l.has_store then store_su m baud ∷ [] else [])

  unfoldable pub snapshot : MessageLog D → List (DecodedMessage D)
  snapshot l = if l.view_archive then l.archive else l.msgs

  unfoldable pub count : MessageLog D → ℕ
  count l = if l.view_archive then length l.archive else l.count_

  unfoldable pub clear : MessageLog D → MessageLog D
  clear l = record l { msgs = []; archive = []; view_archive = false }

  unfoldable pub set_archive : MessageLog D → List (DecodedMessage D) → MessageLog D
  set_archive l items = record l { archive = items; view_archive = true }

  unfoldable pub clear_archive : MessageLog D → MessageLog D
  clear_archive l = record l { archive = []; view_archive = false }

  unfoldable pub has_archive : MessageLog D → Bool
  has_archive l = l.view_archive

-- The methods that change the log.
pub data Op (D : Type 0) : Type 0 where
  add_op : DecodedMessage D → Op D
  acars_op : DecodedMessage D → ℕ → Op D
  su_op : DecodedMessage D → ℕ → Op D
  clear_op : Op D
  archive_op : List (DecodedMessage D) → Op D
  live_op : Op D

module _ {D : Type 0} where
  -- A method on the log, with the calls of the store that were made before it and by it.
  unfoldable pub step : MessageLog D × List (StoreCall D) → Op D → MessageLog D × List (StoreCall D)
  unfolding add add_and_store add_su_and_store clear set_archive clear_archive
  step (l, calls) (add_op m) = (add l m, calls)
  step (l, calls) (acars_op m baud) = let (l', more) = add_and_store l m baud in (l', calls ++ more)
  step (l, calls) (su_op m baud) = let (l', more) = add_su_and_store l m baud in (l', calls ++ more)
  step (l, calls) clear_op = (clear l, calls)
  step (l, calls) (archive_op items) = (set_archive l items, calls)
  step (l, calls) live_op = (clear_archive l, calls)

  unfoldable pub run :
      MessageLog D × List (StoreCall D) → List (Op D) → MessageLog D × List (StoreCall D)
  run s [] = s
  run s (o ∷ os) = run (step s o) os

-- `CassignLog`.
pub record CassignLog (D : Type 0) : Type 0 where
  pub items : List (CassignEntry D)
  pub count_ : ℕ

module _ {D : Type 0} where
  unfoldable pub cassign_add : CassignLog D → CassignEntry D → CassignLog D
  cassign_add l e = record {
    items = push_bounded cassign_max l.items e;
    count_ = u64 (l.count_ + 1);
  }

  unfoldable pub cassign_clear : CassignLog D → CassignLog D
  cassign_clear l = record l { items = [] }
