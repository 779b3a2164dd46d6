-- ===== src/Manager/Monitor.antt =====
-- `DecoderManager::autoMonitor`, and the methods that only read.
use inmar_scope.Prelude.{
  ℕ, ◌+◌, List, [], ◌∷◌, Bool, true, false, not, ◌&&◌, ◌||◌, ◌==◌, if◌then◌else◌, Option, none,
  some, length, Text, is_empty,
}
use inmar_scope.Double.{Double}
use inmar_scope.Log.Aircraft.{icao_of}
use inmar_scope.Log.Country.{country_listed}
use inmar_scope.Manager.{Decoder, Worker, DecoderManager, wav, is_voice, set_decoder_recording}
use inmar_scope.Manager.Control.{
  all_of_workers, map_decoders, change_decoder, first_decoder, has_decoder, has_id,
}

module _ (F : Double) (B : Type 0) where
  open F use {Real, div, literal, less}

  abbrev pub icao_of_decoder : DecoderManager F B → Decoder Real → Text
  icao_of_decoder m d = icao_of F m.ac_table d.voice_aes_id

  -- The decoders that the first two loops accept.
  unfoldable pub eligible : DecoderManager F B → List Text → Decoder Real → Bool
  eligible m blacklist d =
      is_voice d
      && (is_empty blacklist
          || (not (d.voice_aes_id == 0)
              && not (is_empty (icao_of_decoder m d))
              && not (country_listed (icao_of_decoder m d) blacklist)))

  -- The decoders whose recording the last loop stops.
  unfoldable pub blacklisted : DecoderManager F B → List Text → Decoder Real → Bool
  blacklisted m blacklist d =
      is_voice d && not (d.voice_aes_id == 0) && country_listed (icao_of_decoder m d) blacklist

  unfoldable pub stop_blacklisted : DecoderManager F B → List Text → DecoderManager F B
  unfolding blacklisted
  stop_blacklisted m blacklist = if is_empty blacklist then m else record m {
    workers =
        map_decoders
          (λ d. if blacklisted m blacklist d then set_decoder_recording false [] wav d else d)
          m.workers;
  }

  unfoldable pub is_monitor : Option ℕ → Decoder Real → Bool
  is_monitor none d = false
  is_monitor (some id) d = is_voice d && has_id id d

  unfoldable pub after_choice :
      DecoderManager F B → List Text → Option (Decoder Real) → DecoderManager F B
  unfolding eligible stop_blacklisted
  after_choice m blacklist (some d) = record m {
    voice_monitor = some d.channel_id;
    workers = change_decoder (eligible m blacklist) (λ e. record e { monitored = true }) m.workers;
  }
  after_choice m blacklist none = stop_blacklisted (record m { voice_monitor = none }) blacklist

  unfoldable pub auto_monitor : DecoderManager F B → List Text → DecoderManager F B
  unfolding is_monitor eligible after_choice
  auto_monitor m blacklist =
      if has_decoder (is_monitor m.voice_monitor) (all_of_workers m.workers)
      then m
      else after_choice m blacklist
          (first_decoder (eligible m blacklist) (all_of_workers m.workers))

  unfoldable pub recordings : List (Decoder Real) → ℕ
  recordings [] = 0
  recordings (d ∷ ds) = (if is_voice d && d.recording_now then 1 else 0) + recordings ds

  unfoldable pub recording_count : DecoderManager F B → ℕ
  unfolding recordings
  recording_count m = recordings (all_of_workers m.workers)

  unfoldable pub voice_frames_of : DecoderManager F B → ℕ → ℕ
  voice_frames_of m id = elim (first_decoder (has_id id) (all_of_workers m.workers)) [
    | none ↦ 0
    | some d ↦ d.voice_frames
  ]

  unfoldable pub voice_aes : DecoderManager F B → ℕ
  voice_aes m = elim m.voice_monitor [
    | none ↦ 0
    | some id ↦ elim (first_decoder (has_id id) (all_of_workers m.workers)) [
      | none ↦ 0
      | some d ↦ d.voice_aes_id
    ]
  ]

  unfoldable pub total_count : List (Worker Real B) → ℕ
  total_count [] = 0
  total_count (w ∷ ws) = w.count + total_count ws

  unfoldable pub decoder_count : DecoderManager F B → ℕ
  unfolding total_count
  decoder_count m = total_count m.workers

  unfoldable pub total_subbands : List (Worker Real B) → ℕ
  total_subbands [] = 0
  total_subbands (w ∷ ws) = length w.subbands + total_subbands ws

  unfoldable pub subband_count : DecoderManager F B → ℕ
  unfolding total_subbands
  subband_count m = total_subbands m.workers

  abbrev pub freq_mhz : Decoder Real → Real
  freq_mhz d = div d.freq_hz (literal 1000000 0)

  -- `std::sort` by the frequency, which is free to order equal ones; here the first stays first.
  unfoldable pub insert_by_freq : Decoder Real → List (Decoder Real) → List (Decoder Real)
  insert_by_freq d [] = d ∷ []
  insert_by_freq d (e ∷ es) =
      if less (freq_mhz e) (freq_mhz d) then e ∷ insert_by_freq d es else d ∷ e ∷ es

  unfoldable pub sort_by_freq : List (Decoder Real) → List (Decoder Real)
  unfolding insert_by_freq
  sort_by_freq [] = []
  sort_by_freq (d ∷ ds) = insert_by_freq d (sort_by_freq ds)

  -- `status`; a row is the decoder that it describes.
  unfoldable pub status : DecoderManager F B → List (Decoder Real)
  unfolding sort_by_freq
  status m = sort_by_freq (all_of_workers m.workers)
