-- ===== src/Log/Egc.antt =====
-- `EgcLog` of src/decode/message_log.h: segments of one message are joined.
pub mod Segments
pub mod Joining
pub mod History
mod Tests
use inmar_scope.Prelude.{
  ℕ, ◌+◌, ◌%◌, List, [], ◌∷◌, ◌++◌, Option, none, some, Bool, true, false, ◌&&◌, ◌==◌,
  if◌then◌else◌, length, Text, is_empty,
}
use inmar_scope.Log.Bounded.{push_bounded}
use inmar_scope.Log.Types.{EgcMessage, StoreCall, store_egc}
use inmar_scope.Log.Messages.{u64}

abbrev pub egc_max : ℕ
egc_max = 2000

pub record EgcLog (D : Type 0) : Type 0 where
  pub msgs : List (EgcMessage D)
  pub archive : List (EgcMessage D)
  pub view_archive : Bool
  pub count_ : ℕ
  pub has_store : Bool

-- The text of an entry with that of a further segment.
unfoldable pub join_text : Text → Text → Text
join_text old new = if is_empty new then old else if is_empty old then new else old ++ 10 ∷ new

module _ {D : Type 0} where
  pub egc_set_store : EgcLog D → Bool → EgcLog D
  egc_set_store l on = record l { has_store = on }

  -- The test of the loop of `add`.
  unfoldable pub same_message : ℕ → ℕ → EgcMessage D → Bool
  same_message channel id x = (x.channel_id == channel) && (x.message_id == id)

  -- What the loop does to the entry that it finds.
  unfoldable pub join_segment : EgcMessage D → EgcMessage D → EgcMessage D
  unfolding join_text
  join_segment x m = record x {
    text = join_text x.text m.text;
    frame_number = m.frame_number;
    time_utc = m.time_utc;
  }

  -- The loop from the newest entry, which stands last; `none` if no entry is of the message.
  unfoldable pub join_newest : EgcMessage D → List (EgcMessage D) → Option (List (EgcMessage D))
  join_newest m [] = none
  join_newest m (x ∷ xs) = elim (join_newest m xs) [
    | some xs' ↦ some (x ∷ xs')
    | none ↦ if same_message m.channel_id m.message_id x then some (join_segment x m ∷ xs) else none
  ]

  -- `now` is the time of the store call.
  unfoldable pub egc_add : D → EgcLog D → EgcMessage D → EgcLog D × List (StoreCall D)
  egc_add now l m = elim (join_newest m l.msgs) [
    | some joined ↦ (record l { msgs = joined; count_ = u64 (l.count_ + 1) }, [])
    | none ↦ (
      record l { msgs = push_bounded egc_max l.msgs m; count_ = u64 (l.count_ + 1) },
      if l.has_store then store_egc now m ∷ [] else [],
    )
  ]

  unfoldable pub egc_snapshot : EgcLog D → List (EgcMessage D)
  egc_snapshot l = if l.view_archive then l.archive else l.msgs

  unfoldable pub egc_count : EgcLog D → ℕ
  egc_count l = if l.view_archive then length l.archive else l.count_

  unfoldable pub egc_clear : EgcLog D → EgcLog D
  egc_clear l = record l { msgs = []; archive = []; view_archive = false }

  unfoldable pub egc_set_archive : EgcLog D → List (EgcMessage D) → EgcLog D
  egc_set_archive l items = record l { archive = items; view_archive = true }

  unfoldable pub egc_clear_archive : EgcLog D → EgcLog D
  egc_clear_archive l = record l { archive = []; view_archive = false }
