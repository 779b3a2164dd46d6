-- ===== src/Manager/Runs.antt =====
-- The steps of a `DecoderManager`: its methods, the rounds of its workers, what the decoders do to
-- their own fields, and any change of its table of aircraft and its log of calls.
use inmar_scope.Prelude.{
  ℕ, ◌≡◌, refl, ap, List, [], none, Option, Bool, true, false, Text, codes, Bool-cases, inl, inr,
  ◌||◌, arith, if◌then◌else◌, is_empty, some,
}
use inmar_scope.Double.{Double}
use inmar_scope.Manager.{
  decoder_weight, Decoder, Worker, DecoderManager, RecordFormat, wav, modify_at,
  set_decoder_recording,
}
use inmar_scope.Manager.Adding.{add_decoder}
use inmar_scope.Manager.Removing.{remove_decoder, after_removal}
use inmar_scope.Manager.Control.{
  has_decoder, all_of_workers, configure, start, stop, feed, remove_all, set_voice_monitor,
  set_cpu_reduce, set_recording, set_record_format, set_decoder_freq, map_decoders, take_block,
  monitor_only, record_voice, set_audio_enabled, set_max_workers,
}
use inmar_scope.Log.Aircraft.{AircraftTable}
use inmar_scope.Log.Voice.{VoiceCallLog}
use inmar_scope.Manager.Monitor.{
  after_choice, auto_monitor, stop_blacklisted, blacklisted, is_monitor,
}
use inmar_scope.Manager.Measure.{Unseen}
use inmar_scope.Manager.Counts.{
  AllCounted, take_from_workers-Left, Left, map_decoders-AllCounted, change_decoder-AllCounted,
  clear_worker-AllCounted, feed_worker-AllCounted, replicate-AllCounted, take_block-AllCounted,
  place_decoder-AllCounted, weight_of,
}

-- A change of a decoder that leaves its channel and its baud.
pub record Keeps {D : Type 0} (g : Decoder D → Decoder D) : Type 0 where
  pub same_id : (d : Decoder D) → (g d).channel_id ≡ d.channel_id
  pub same_baud : (d : Decoder D) → (g d).baud ≡ d.baud

pub weight_of-Unseen : {D : Type 0} {g : Decoder D → Decoder D} → Keeps g → Unseen weight_of g
weight_of-Unseen k d = ap decoder_weight (k.same_baud d)

module _ (F : Double) (B : Type 0) where
  open F use {Real, literal}

  pub data Step : DecoderManager F B → DecoderManager F B → Type 0 where
    configured : (m : DecoderManager F B) (fs center : Real) → Step m (configure F B m fs center)
    started : (m : DecoderManager F B) (hw : ℕ) → Step m (start F B m hw)
    stopped : (m : DecoderManager F B) → Step m (stop F B m)
    fed : (m : DecoderManager F B) (b : B) → Step m (feed F B m b)
    taken :
        (m : DecoderManager F B) (wi : ℕ)
        → Step m (record m { workers = modify_at wi (λ w. (take_block w).1) m.workers })
    added :
        (m : DecoderManager F B) (freq : Real) (baud aes : ℕ)
        → Step m (add_decoder F B m freq baud aes).0
    removed : (m : DecoderManager F B) (id : ℕ) → Step m (remove_decoder F B m id).0
    wiped : (m : DecoderManager F B) → Step m (remove_all F B m)
    monitored : (m : DecoderManager F B) (id : Option ℕ) → Step m (set_voice_monitor F B m id)
    chosen :
        (m : DecoderManager F B) (blacklist : List Text) → Step m (auto_monitor F B m blacklist)
    reduced : (m : DecoderManager F B) (on : Bool) → Step m (set_cpu_reduce F B m on)
    recorded :
        (m : DecoderManager F B) (on : Bool) (dir : Text) → Step m (set_recording F B m on dir)
    reformatted :
        (m : DecoderManager F B) (fmt : RecordFormat) → Step m (set_record_format F B m fmt)
    tuned :
        (m : DecoderManager F B) (id : ℕ) (freq : Real) → Step m (set_decoder_freq F B m id freq)
    decoded :
        (m : DecoderManager F B) (g : Decoder Real → Decoder Real)
        → Keeps g
        → Step m (record m { workers = map_decoders g m.workers })
    sounding : (m : DecoderManager F B) (on : Bool) → Step m (set_audio_enabled F B m on)
    limited : (m : DecoderManager F B) (n : ℕ) → Step m (set_max_workers F B m n)
    -- What the decoders, the user interface and the store write to the table of the aircraft and to
    -- the log of the calls is left open.
    heard : (m : DecoderManager F B) (t : AircraftTable F) → Step m (record m { ac_table = t })
    logged :
        (m : DecoderManager F B) (l : VoiceCallLog F) → Step m (record m { voice_call_log = l })

  -- A manager as it is made, with an empty call log.
  abbrev pub new_manager : DecoderManager F B
  new_manager = record {
    fs = literal 0 0;
    center_hz = literal 0 0;
    workers = [];
    run = false;
    next_id = 1;
    drops = 0;
    voice_monitor = none;
    record_on = false;
    record_dir = codes "recordings";
    record_fmt = wav;
    voice_call_log = record { items = []; count_ = 0; has_store = false };
    ac_table = [];
    audio_enabled = true;
    max_workers = 8;
    audio = [];
  }

  pub data Reach : DecoderManager F B → Type 0 where
    initial : Reach new_manager
    next : {m n : DecoderManager F B} → Reach m → Step m n → Reach n

  pub monitor_only-Keeps : (id : Option ℕ) → Keeps (monitor_only F B id)
  unfolding monitor_only
  monitor_only-Keeps none = record { same_id = λ d. refl; same_baud = λ d. refl }
  monitor_only-Keeps (some id) = record { same_id = λ d. refl; same_baud = λ d. refl }

  pub record_voice-Keeps :
      (on : Bool) (dir : Text) (fmt : RecordFormat) → Keeps (record_voice F B on dir fmt)
  unfolding set_decoder_recording
  record_voice-Keeps on dir fmt = record {
    same_id = λ d. ground arith;
    same_baud = λ d. ground arith;
  }

  pub stop_blacklisted-Keeps :
      (m : DecoderManager F B) (blacklist : List Text)
      → Keeps
          (λ d. if blacklisted F B m blacklist d then set_decoder_recording false [] wav d else d)
  unfolding set_decoder_recording
  stop_blacklisted-Keeps m blacklist = record {
    same_id = λ d. ground arith;
    same_baud = λ d. ground arith;
  }

  add_decoder-AllCounted :
      (m : DecoderManager F B) (freq : Real) (baud aes : ℕ)
      → AllCounted m.workers
      → AllCounted (add_decoder F B m freq baud aes).0.workers
  unfolding add_decoder
  add_decoder-AllCounted m freq baud aes c =
      elim (Bool-cases (F.leq m.fs (literal 0 0) || is_empty m.workers)) [
        | inl idle ↦ rw idle c
        | inr ready ↦ rw ready (place_decoder-AllCounted F B m _ _ c)
      ]

  after_removal-AllCounted :
      (m : DecoderManager F B) (id : ℕ) (o : Option (Decoder Real × List (Worker Real B)))
      → Left o
      → AllCounted m.workers
      → AllCounted (after_removal F B m id o).0.workers
  unfolding after_removal
  after_removal-AllCounted m id none left c = c
  after_removal-AllCounted m id (some (found, ws)) left c = left

  remove_decoder-AllCounted :
      (m : DecoderManager F B) (id : ℕ)
      → AllCounted m.workers
      → AllCounted (remove_decoder F B m id).0.workers
  unfolding remove_decoder
  remove_decoder-AllCounted m id c =
      after_removal-AllCounted m id _ (take_from_workers-Left id m.workers c) c

  after_choice-AllCounted :
      (m : DecoderManager F B) (blacklist : List Text) (o : Option (Decoder Real))
      → AllCounted m.workers
      → AllCounted (after_choice F B m blacklist o).workers
  unfolding after_choice stop_blacklisted
  after_choice-AllCounted m blacklist (some d) c =
      change_decoder-AllCounted _ _ (λ e. refl) m.workers c
  after_choice-AllCounted m blacklist none c = elim (Bool-cases (is_empty blacklist)) [
    | inl free ↦ rw free c
    | inr some_listed ↦ rw some_listed (
        map_decoders-AllCounted _
          (weight_of-Unseen (stop_blacklisted-Keeps (record m { voice_monitor = none }) blacklist))
          m.workers c)
  ]

  auto_monitor-AllCounted :
      (m : DecoderManager F B) (blacklist : List Text)
      → AllCounted m.workers
      → AllCounted (auto_monitor F B m blacklist).workers
  unfolding auto_monitor
  auto_monitor-AllCounted m blacklist c =
      elim (Bool-cases (has_decoder (is_monitor F B m.voice_monitor) (all_of_workers m.workers))) [
        | inl alive ↦ rw alive c
        | inr gone ↦ rw gone (after_choice-AllCounted m blacklist _ c)
      ]

  step-AllCounted :
      {m n : DecoderManager F B} → Step m n → AllCounted m.workers → AllCounted n.workers
  unfolding configure start stop feed remove_all set_voice_monitor set_cpu_reduce set_recording
      set_record_format set_decoder_freq set_audio_enabled set_max_workers
  step-AllCounted (configured m fs center) c = c
  step-AllCounted (started m hw) c = elim (Bool-cases m.run) [
    | inl on ↦ rw on c
    | inr off ↦ rw off (replicate-AllCounted Real B _)
  ]
  step-AllCounted (stopped m) c = tt
  step-AllCounted (fed m b) c = elim (Bool-cases m.run) [
    | inl on ↦ rw on (feed_worker-AllCounted b m.workers c)
    | inr off ↦ rw off c
  ]
  step-AllCounted (taken m wi) c = take_block-AllCounted wi m.workers c
  step-AllCounted (added m freq baud aes) c = add_decoder-AllCounted m freq baud aes c
  step-AllCounted (removed m id) c = remove_decoder-AllCounted m id c
  step-AllCounted (wiped m) c = clear_worker-AllCounted m.workers
  step-AllCounted (monitored m id) c =
      map_decoders-AllCounted _ (weight_of-Unseen (monitor_only-Keeps id)) m.workers c
  step-AllCounted (chosen m blacklist) c = auto_monitor-AllCounted m blacklist c
  step-AllCounted (reduced m on) c = map_decoders-AllCounted _ (λ d. refl) m.workers c
  step-AllCounted (recorded m on dir) c =
      map_decoders-AllCounted _ (weight_of-Unseen (record_voice-Keeps on _ m.record_fmt)) m.workers
        c
  step-AllCounted (reformatted m fmt) c =
      map_decoders-AllCounted _ (weight_of-Unseen (record_voice-Keeps m.record_on m.record_dir fmt))
        m.workers c
  step-AllCounted (tuned m id freq) c = change_decoder-AllCounted _ _ (λ d. refl) m.workers c
  step-AllCounted (sounding m on) c = c
  step-AllCounted (limited m n) c = c
  step-AllCounted (heard m t) c = c
  step-AllCounted (logged m l) c = c
  step-AllCounted (decoded m g k) c = map_decoders-AllCounted g (weight_of-Unseen k) m.workers c

  -- In every state that a manager can reach, the counter of
  -- each worker is the number of the decoders in its sub-bands and its weight is at least the sum
  -- of their weights.
  pub Reach-AllCounted : {m : DecoderManager F B} → Reach m → AllCounted m.workers
  Reach-AllCounted initial = tt
  Reach-AllCounted (next r s) = step-AllCounted s (Reach-AllCounted r)
