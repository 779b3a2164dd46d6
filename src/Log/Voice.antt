-- ===== src/Log/Voice.antt =====
-- `VoiceCallLog` of src/decode/message_log.h, as built for systems other than Windows.
mod Tests
pub mod Ends
use inmar_scope.Prelude.{
  ℕ, ◌+◌, ◌%◌, List, [], ◌∷◌, Option, none, some, Bool, true, false, ◌&&◌, ◌||◌, ◌==◌,
  if◌then◌else◌, Text, is_empty,
}
use inmar_scope.Log.Bounded.{push_bounded}
use inmar_scope.Log.Types.{VoiceCallRecord, StoreCall, store_voice}
use inmar_scope.Log.Messages.{u64}
use inmar_scope.Double.{Double}

abbrev pub voice_max : ℕ
voice_max = 500

unfoldable pub has_slash : Text → Bool
has_slash [] = false
has_slash (c ∷ s) = (c == 47) || has_slash s

-- What stands behind the last `/`, as `strrchr` finds it, or the whole text.
unfoldable pub base_name : Text → Text
unfolding has_slash
base_name [] = []
base_name (c ∷ s) =
    let rest = base_name s in if has_slash s then rest else if c == 47 then s else c ∷ s

module _ (F : Double) where
  open F use {Real, literal, less}

  pub record VoiceCallLog : Type 0 where
    pub items : List (VoiceCallRecord Real)
    pub count_ : ℕ
    pub has_store : Bool

  pub voice_set_store : VoiceCallLog → Bool → VoiceCallLog
  voice_set_store l on = record l { has_store = on }

  unfoldable pub voice_add : VoiceCallLog → VoiceCallRecord Real → VoiceCallLog
  voice_add l r = record l { items = push_bounded voice_max l.items r; count_ = u64 (l.count_ + 1) }

  unfoldable pub is_channel : ℕ → Option ℕ → Bool
  is_channel id none = false
  is_channel id (some c) = c == id

  -- What the loop does to the record that it finds.
  unfoldable pub end_record : Real → Text → VoiceCallRecord Real → VoiceCallRecord Real
  unfolding base_name
  end_record duration filename r = record r {
    recording = false;
    duration_sec = duration;
    filename = if is_empty filename then r.filename else base_name filename;
  }

  -- The loop of `updateEnd` from the newest record, which stands last: the records with the one
  -- that it ends, and that one.
  unfoldable pub end_newest :
      ℕ
      → Real
      → Text
      → List (VoiceCallRecord Real)
      → Option (List (VoiceCallRecord Real) × VoiceCallRecord Real)
  unfolding is_channel end_record
  end_newest id duration filename [] = none
  end_newest id duration filename (r ∷ rs) = elim (end_newest id duration filename rs) [
    | some (rs', ended) ↦ some (r ∷ rs', ended)
    | none ↦
        if is_channel id r.channel_id && r.recording
        then some (end_record duration filename r ∷ rs, end_record duration filename r)
        else none
  ]

  unfoldable pub update_end : VoiceCallLog → ℕ → Real → Text → VoiceCallLog × List (StoreCall Real)
  update_end l id duration filename = elim (end_newest id duration filename l.items) [
    | none ↦ (l, [])
    | some (rs, ended) ↦ (
      record l { items = rs },
      if l.has_store && less (literal 0 0) ended.duration_sec then store_voice ended ∷ [] else [],
    )
  ]

  unfoldable pub voice_clear : VoiceCallLog → VoiceCallLog
  voice_clear l = record l { items = [] }
