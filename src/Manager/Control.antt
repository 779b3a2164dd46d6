-- ===== src/Manager/Control.antt =====
-- The other methods of `DecoderManager`: workers, blocks, settings and queries. The loops over
-- workers, sub-bands and decoders are loops over the decoders in this order.
use inmar_scope.Prelude.{
  ℕ, ◌+◌, List, [], ◌∷◌, ◌++◌, map, Bool, true, false, not, ◌&&◌, ◌||◌, ◌==◌, ltb, leb,
  if◌then◌else◌, Option, none, some, length, Text, is_empty, replicate,
}
use inmar_scope.Double.{Double}
use inmar_scope.Manager.{
  RecordFormat, Decoder, SubBand, Worker, DecoderManager, start_audio, stop_audio, clear_audio,
  is_voice, set_decoder_recording,
}
use inmar_scope.Log.Messages.{u64}

abbrev pub all_of_subbands : {D : Type 0} → List (SubBand D) → List (Decoder D)
all_of_subbands [] = []
all_of_subbands (sb ∷ sbs) = sb.decoders ++ all_of_subbands sbs

abbrev pub all_of_workers : {D B : Type 0} → List (Worker D B) → List (Decoder D)
all_of_workers [] = []
all_of_workers (w ∷ ws) = all_of_subbands w.subbands ++ all_of_workers ws

abbrev pub map_subband : {D : Type 0} → (Decoder D → Decoder D) → SubBand D → SubBand D
map_subband f sb = record sb { decoders = map f sb.decoders }

abbrev pub map_worker : {D B : Type 0} → (Decoder D → Decoder D) → Worker D B → Worker D B
map_worker f w = record w { subbands = map (map_subband f) w.subbands }

abbrev pub map_decoders :
    {D B : Type 0} → (Decoder D → Decoder D) → List (Worker D B) → List (Worker D B)
map_decoders f ws = map (map_worker f) ws

unfoldable pub first_decoder :
    {D : Type 0} → (Decoder D → Bool) → List (Decoder D) → Option (Decoder D)
first_decoder p [] = none
first_decoder p (d ∷ ds) = if p d then some d else first_decoder p ds

unfoldable pub has_decoder : {D : Type 0} → (Decoder D → Bool) → List (Decoder D) → Bool
has_decoder p [] = false
has_decoder p (d ∷ ds) = p d || has_decoder p ds

abbrev pub has_id : {D : Type 0} → ℕ → Decoder D → Bool
has_id id d = d.channel_id == id

abbrev pub max_queue : ℕ
max_queue = 192

-- A block at the end of a queue; the oldest one leaves a full queue.
unfoldable pub push_block : {B : Type 0} → List B → B → List B
push_block [] b = b ∷ []
push_block (q ∷ qs) b = if leb max_queue (length (q ∷ qs)) then qs ++ b ∷ [] else (q ∷ qs) ++ b ∷ []

unfoldable pub feed_worker : {D B : Type 0} → B → Worker D B → Worker D B
unfolding push_block
feed_worker b w = if w.count == 0 then w else record w { queue = push_block w.queue b }

-- The blocks dropped, one for each worker whose queue is full.
unfoldable pub dropped : {D B : Type 0} → List (Worker D B) → ℕ
dropped [] = 0
dropped (w ∷ ws) =
    (if not (w.count == 0) && leb max_queue (length w.queue) then 1 else 0) + dropped ws

-- What `workerLoop` takes from the queue in a round.
unfoldable pub take_block : {D B : Type 0} → Worker D B → Option B × Worker D B
take_block w = elim w.queue [ [] ↦ (none, w) | b ∷ bs ↦ (some b, record w { queue = bs }) ]

abbrev pub new_worker : {D B : Type 0} → Worker D B
new_worker = record { queue = []; subbands = []; count = 0; weight = 0 }

-- `subbands.clear()`, the count and the queue; the weight stays.
unfoldable pub clear_worker : {D B : Type 0} → Worker D B → Worker D B
clear_worker w = record w { queue = []; subbands = []; count = 0 }

-- The number of workers on `hw` processors.
unfoldable pub worker_total : ℕ → ℕ → ℕ
worker_total hw max_workers =
    let n = if ltb 2 hw then hw else 1 in
    let capped = if ltb max_workers n then max_workers else n in if ltb capped 1 then 1 else capped

-- The first decoder of a list that passes the test, changed.
unfoldable pub change_first :
    {D : Type 0}
    → (Decoder D → Bool)
    → (Decoder D → Decoder D)
    → List (Decoder D)
    → List (Decoder D)
change_first p f [] = []
change_first p f (d ∷ ds) = if p d then f d ∷ ds else d ∷ change_first p f ds

unfoldable pub change_in_subbands :
    {D : Type 0}
    → (Decoder D → Bool)
    → (Decoder D → Decoder D)
    → List (SubBand D)
    → List (SubBand D)
unfolding change_first
change_in_subbands p f [] = []
change_in_subbands p f (sb ∷ sbs) =
    if has_decoder p sb.decoders
    then record sb { decoders = change_first p f sb.decoders } ∷ sbs
    else sb ∷ change_in_subbands p f sbs

unfoldable pub change_decoder :
    {D B : Type 0}
    → (Decoder D → Bool)
    → (Decoder D → Decoder D)
    → List (Worker D B)
    → List (Worker D B)
unfolding change_in_subbands
change_decoder p f [] = []
change_decoder p f (w ∷ ws) =
    if has_decoder p (all_of_subbands w.subbands)
    then record w { subbands = change_in_subbands p f w.subbands } ∷ ws
    else w ∷ change_decoder p f ws

module _ (F : Double) (B : Type 0) where
  open F use {Real, less}

  unfoldable pub configure : DecoderManager F B → Real → Real → DecoderManager F B
  configure m fs center = record m { fs = fs; center_hz = center }

  unfoldable pub set_audio_enabled : DecoderManager F B → Bool → DecoderManager F B
  set_audio_enabled m on = record m { audio_enabled = on }

  unfoldable pub set_max_workers : DecoderManager F B → ℕ → DecoderManager F B
  set_max_workers m n = record m { max_workers = if ltb 0 n then n else 1 }

  unfoldable pub start : DecoderManager F B → ℕ → DecoderManager F B
  unfolding worker_total
  start m hw = if m.run then m else record m {
    run = true;
    workers = replicate (worker_total hw m.max_workers) new_worker;
    audio = if m.audio_enabled then m.audio ++ start_audio 8000 ∷ [] else m.audio;
  }

  unfoldable pub stop : DecoderManager F B → DecoderManager F B
  stop m = record m {
    run = false;
    workers = [];
    audio = if m.audio_enabled then m.audio ++ stop_audio ∷ [] else m.audio;
    voice_monitor = none;
  }

  unfoldable pub feed : DecoderManager F B → B → DecoderManager F B
  unfolding feed_worker dropped
  feed m b =
      if m.run
      then record m {
        workers = map (feed_worker b) m.workers;
        drops = u64 (m.drops + dropped m.workers);
      }
      else m

  unfoldable pub remove_all : DecoderManager F B → DecoderManager F B
  unfolding clear_worker
  remove_all m = record m { workers = map clear_worker m.workers; voice_monitor = none }

  unfoldable pub monitor_only : Option ℕ → Decoder Real → Decoder Real
  monitor_only none d = record d { monitored = false }
  monitor_only (some id) d = record d { monitored = is_voice d && has_id id d }

  unfoldable pub set_voice_monitor : DecoderManager F B → Option ℕ → DecoderManager F B
  unfolding monitor_only
  set_voice_monitor m id = record m {
    voice_monitor = id;
    workers = map_decoders (monitor_only id) m.workers;
    audio = m.audio ++ clear_audio ∷ [];
  }

  -- `jaero_..._set_cpu_reduce`, for each decoder the last value that it was given.
  unfoldable pub set_cpu_reduce : DecoderManager F B → Bool → DecoderManager F B
  set_cpu_reduce m on = record m {
    workers = map_decoders (λ d. record d { cpu_reduce = on }) m.workers;
  }

  abbrev pub record_voice : Bool → Text → RecordFormat → Decoder Real → Decoder Real
  record_voice on dir fmt d = if is_voice d then set_decoder_recording on dir fmt d else d

  unfoldable pub set_recording : DecoderManager F B → Bool → Text → DecoderManager F B
  set_recording m on dir =
      let dir' = if is_empty dir then m.record_dir else dir in
      record m {
        record_on = on;
        record_dir = dir';
        workers = map_decoders (record_voice on dir' m.record_fmt) m.workers;
      }

  unfoldable pub set_record_format : DecoderManager F B → RecordFormat → DecoderManager F B
  set_record_format m fmt = record m {
    record_fmt = fmt;
    workers = map_decoders (record_voice m.record_on m.record_dir fmt) m.workers;
  }

  unfoldable pub set_decoder_freq : DecoderManager F B → ℕ → Real → DecoderManager F B
  set_decoder_freq m id freq = record m {
    workers = change_decoder (has_id id) (λ d. record d { freq_hz = freq }) m.workers;
  }
