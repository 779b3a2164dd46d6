-- ===== src/Log/Voice/Tests.antt =====
-- `VoiceCallLog` at the end of a call.
use inmar_scope.Prelude.{ℕ, ◌≡◌, refl, [], ◌∷◌, some, true, codes, Bool}
use inmar_scope.Log.Types.{VoiceCallRecord, store_voice}
use inmar_scope.Log.Voice.{VoiceCallLog, is_channel, end_record, update_end, base_name}
use inmar_scope.Log.Voice.Ends.{is_live, none_live, update_end-newest, update_end-missing}
use inmar_scope.Double.{scaled}

abbrev call : ℕ → Bool → VoiceCallRecord ℕ
call channel recording = record {
  time_sec = 100;
  duration_sec = 0;
  freq_mhz = 1545;
  channel_id = some channel;
  aes_id = 7;
  icao = [];
  filename = [];
  recording = recording;
}

-- Two live calls of channel 3, and a later one of channel 4.
abbrev calls : VoiceCallLog scaled
calls = record {
  items = call 3 true ∷ call 3 true ∷ call 4 true ∷ [];
  count_ = 3;
  has_store = true;
}

directories_dropped : base_name (codes "rec/2026/call.wav") ≡ codes "call.wav"
unfolding base_name
directories_dropped = refl

update_end-newest_example :
    let ended = end_record scaled 5_000_000 (codes "rec/call.wav") (call 3 true) in
    update_end scaled calls 3 5_000_000 (codes "rec/call.wav")
    ≡ (record calls { items = call 3 true ∷ ended ∷ call 4 true ∷ [] }, store_voice ended ∷ [])
unfolding is_live none_live is_channel
update_end-newest_example =
    update_end-newest scaled calls 3 5_000_000 (codes "rec/call.wav") (call 3 true ∷ [])
      (call 4 true ∷ []) (call 3 true) refl refl refl

unknown_channel_ignored : update_end scaled calls 9 5_000_000 [] ≡ (calls, [])
unfolding is_live none_live is_channel
unknown_channel_ignored = update_end-missing scaled calls 9 5_000_000 [] refl
