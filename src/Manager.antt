-- ===== src/Manager.antt =====
-- `DecoderManager` of src/decode/decoder_manager.cpp: its decoders in sub-bands on workers, and
-- `addDecoder` and `removeDecoder`.
pub mod Adding
pub mod Removing
pub mod Control
pub mod Monitor
pub mod Measure
pub mod Counts
pub mod Totals
pub mod Runs
pub mod Holders
pub mod Numbered
pub mod Unique
pub mod Channels
pub mod Queues
mod Tests
use inmar_scope.Prelude.{
  ℕ, zero, suc, ◌+◌, ◌-◌, ◌*◌, ◌^◌, List, [], ◌∷◌, ◌++◌, Bool, true, false, not, ◌&&◌, ◌||◌, ◌==◌,
  ltb, leb, if◌then◌else◌, Option, none, some, length, get_elem?, get_or, Text, is_empty, codes,
}
use inmar_scope.Double.{Double}
use inmar_scope.Log.Voice.{VoiceCallLog, update_end}
use inmar_scope.Log.Aircraft.{AircraftTable}
use inmar_scope.Dsp.Ddc.{output_rate}

-- `enum class RecordFormat`
pub data RecordFormat : Type 0 where
  wav : RecordFormat
  ogg : RecordFormat

unfoldable pub same_format : RecordFormat → RecordFormat → Bool
same_format wav wav = true
same_format ogg ogg = true
same_format wav ogg = false
same_format ogg wav = false

abbrev pub egc_baud : ℕ
egc_baud = 1

unfoldable pub decoder_weight : ℕ → ℕ
decoder_weight baud =
    if baud == egc_baud then 1 else if (baud == 8400) || (baud == 10500) then 2 else 3

-- What the manager reads and writes of a `Decoder`.
pub record Decoder (D : Type 0) : Type 0 where
  pub channel_id : ℕ
  pub freq_hz : D
  pub baud : ℕ
  pub monitored : Bool
  pub cpu_reduce : Bool
  pub voice_aes_id : ℕ
  pub voice_frames : ℕ
  pub record_enabled : Bool
  pub recording_now : Bool
  pub record_fmt : RecordFormat
  pub record_dir : Text
  pub recording_path : Text

abbrev pub is_voice : {D : Type 0} → Decoder D → Bool
is_voice d = d.baud == 8400

pub record SubBand (D : Type 0) : Type 0 where
  pub center_hz : D
  pub sub_rate : D
  pub decoders : List (Decoder D)

-- A block of samples of type `B`; `count` and `weight` are the atomic counters.
pub record Worker (D B : Type 0) : Type 0 where
  pub queue : List B
  pub subbands : List (SubBand D)
  pub count : ℕ
  pub weight : ℕ

-- The decoder after `Decoder::setRecording`; a file that is open is closed when the format changes.
unfoldable pub set_decoder_recording :
    {D : Type 0} → Bool → Text → RecordFormat → Decoder D → Decoder D
unfolding same_format
set_decoder_recording on dir fmt d = record d {
  record_dir = if on && not (is_empty dir) then dir else d.record_dir;
  recording_now =
      if d.record_enabled && not (same_format fmt d.record_fmt) then false else d.recording_now;
  record_fmt = fmt;
  record_enabled = on;
}

-- A call of the audio output, which the manager records in order.
pub data AudioCall : Type 0 where
  start_audio : ℕ → AudioCall
  stop_audio : AudioCall
  clear_audio : AudioCall

-- The element at an index changed.
abbrev pub modify_at {ℓ} : {A : Type ℓ} → ℕ → (A → A) → List A → List A
modify_at i f [] = []
modify_at zero f (x ∷ xs) = f x ∷ xs
modify_at (suc i) f (x ∷ xs) = x ∷ modify_at i f xs

abbrev pub is_none : Option ℕ → Bool
is_none none = true
is_none (some i) = false

module _ (F : Double) (B : Type 0) where
  open F use {Real, literal, mul, sub, fabs, less, leq, of_int}

  pub record DecoderManager : Type 0 where
    pub fs : Real
    pub center_hz : Real
    pub workers : List (Worker Real B)
    pub run : Bool
    pub next_id : ℕ
    pub drops : ℕ
    pub voice_monitor : Option ℕ
    pub record_on : Bool
    pub record_dir : Text
    pub record_fmt : RecordFormat
    pub voice_call_log : VoiceCallLog F
    pub ac_table : AircraftTable F
    pub audio_enabled : Bool
    pub max_workers : ℕ
    pub audio : List AudioCall

  -- `new Decoder`, as far as the manager sees it.
  unfoldable pub new_decoder : Real → ℕ → ℕ → Decoder Real
  new_decoder freq baud id = record {
    channel_id = id;
    freq_hz = freq;
    baud = baud;
    monitored = false;
    cpu_reduce = false;
    voice_aes_id = 0;
    voice_frames = 0;
    record_enabled = false;
    recording_now = false;
    record_fmt = wav;
    record_dir = codes "recordings";
    recording_path = [];
  }

  -- A voice decoder gets the speakers if nobody has them, and the settings of the recordings.
  unfoldable pub equip : DecoderManager → ℕ → Decoder Real → Decoder Real
  unfolding set_decoder_recording
  equip m aes d =
      let heard =
        if is_voice d && is_none m.voice_monitor then record d { monitored = true } else d in
      if is_voice d
      then record (set_decoder_recording m.record_on m.record_dir m.record_fmt heard) {
        voice_aes_id = aes;
      }
      else heard

  unfoldable pub monitor_after : DecoderManager → ℕ → ℕ → Option ℕ
  monitor_after m baud id =
      if (baud == 8400) && is_none m.voice_monitor then some id else m.voice_monitor
