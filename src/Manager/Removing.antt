-- ===== src/Manager/Removing.antt =====
-- `DecoderManager::removeDecoder`.
use inmar_scope.Prelude.{
  ℕ, ◌-◌, List, [], ◌∷◌, Bool, false, ◌&&◌, ◌==◌, if◌then◌else◌, Option, none, some, is_empty,
}
use inmar_scope.Double.{Double}
use inmar_scope.Log.Voice.{VoiceCallLog, update_end}
use inmar_scope.Log.Types.{StoreCall}
use inmar_scope.Manager.{Decoder, SubBand, Worker, DecoderManager, decoder_weight, is_voice}

abbrev pub monitors : Option ℕ → ℕ → Bool
monitors none id = false
monitors (some i) id = i == id

-- The first decoder with the id taken out of the list.
unfoldable pub take_decoder :
    {D : Type 0} → ℕ → List (Decoder D) → Option (Decoder D × List (Decoder D))
take_decoder id [] = none
take_decoder id (d ∷ ds) =
    let rest = take_decoder id ds in
    if d.channel_id == id
    then some (d, ds)
    else elim rest [ none ↦ none | some (found, left) ↦ some (found, d ∷ left) ]

-- A sub-band that is empty then is dropped.
unfoldable pub kept_subband :
    {D : Type 0} → SubBand D → List (Decoder D) → List (SubBand D) → List (SubBand D)
kept_subband sb left sbs = if is_empty left then sbs else record sb { decoders = left } ∷ sbs

unfoldable pub take_from_subbands :
    {D : Type 0} → ℕ → List (SubBand D) → Option (Decoder D × List (SubBand D))
unfolding take_decoder kept_subband
take_from_subbands id [] = none
take_from_subbands id (sb ∷ sbs) =
    let rest = take_from_subbands id sbs in
    elim (take_decoder id sb.decoders) [
      | some (found, left) ↦ some (found, kept_subband sb left sbs)
      | none ↦ elim rest [ none ↦ none | some (found, sbs') ↦ some (found, sb ∷ sbs') ]
    ]

unfoldable pub take_from_workers :
    {D B : Type 0} → ℕ → List (Worker D B) → Option (Decoder D × List (Worker D B))
unfolding take_from_subbands
take_from_workers id [] = none
take_from_workers id (w ∷ ws) =
    let rest = take_from_workers id ws in
    elim (take_from_subbands id w.subbands) [
      | some (found, sbs) ↦ some (
        found,
        record w {
          subbands = sbs;
          count = w.count - 1;
          weight = w.weight - decoder_weight found.baud;
        }
            ∷ ws,
      )
      | none ↦ elim rest [ none ↦ none | some (found, ws') ↦ some (found, w ∷ ws') ]
    ]

module _ (F : Double) (B : Type 0) where
  open F use {Real, literal, mul, sub, fabs, less, leq, of_int}

  -- The log and the store at the end of a call that is recorded; a frame lasts 20 ms.
  unfoldable pub end_call :
      VoiceCallLog F → ℕ → Decoder Real → VoiceCallLog F × List (StoreCall Real)
  end_call l id d =
      if is_voice d && d.recording_now
      then update_end F l id (mul (of_int d.voice_frames) (literal 2 2)) d.recording_path
      else (l, [])

  -- The manager when the loops have found the decoder, or have not.
  unfoldable pub after_removal :
      DecoderManager F B
      → ℕ
      → Option (Decoder Real × List (Worker Real B))
      → DecoderManager F B × List (StoreCall Real)
  unfolding end_call
  after_removal m id none = (m, [])
  after_removal m id (some (found, ws)) = (
    record m {
      workers = ws;
      voice_monitor = if monitors m.voice_monitor id then none else m.voice_monitor;
      voice_call_log = (end_call m.voice_call_log id found).0;
    },
    (end_call m.voice_call_log id found).1,
  )

  unfoldable pub remove_decoder :
      DecoderManager F B → ℕ → DecoderManager F B × List (StoreCall Real)
  unfolding take_from_workers after_removal
  remove_decoder m id = after_removal m id (take_from_workers id m.workers)
