-- ===== src/Voice.antt =====
-- `voice_ops.cpp` of src/voice/: what the program keeps of its radios, views and decoders for the
-- voice follow, and the retuning of a radio.
pub mod Follow
pub mod Keeping
pub mod Refused
pub mod Shown
pub mod Home
mod Tests
use inmar_scope.Prelude.{
  ℕ, List, [], ◌∷◌, ◌++◌, Bool, true, false, ◌&&◌, ◌==◌, ltb, leb, if◌then◌else◌, Option, none,
  some, Text, codes,
}
use inmar_scope.Double.{Double}
use inmar_scope.Log.Types.{CassignEntry, StoreCall}
use inmar_scope.Log.Messages.{CassignLog}
use inmar_scope.Manager.{Decoder, DecoderManager}
use inmar_scope.Manager.Adding.{add_decoder}
use inmar_scope.Manager.Removing.{remove_decoder}
use inmar_scope.Manager.Control.{configure, remove_all}
use inmar_scope.Manager.Monitor.{status, freq_mhz}

-- A source of samples: the center that it has, its rate, and whether it runs.
pub record Radio (D : Type 0) : Type 0 where
  pub center_hz : D
  pub sample_rate : D
  pub running : Bool

-- A spectrum: `axis` has the center, the rate and the size of the last `updateFreqAxis`.
pub record View (D : Type 0) : Type 0 where
  pub reset_view : Bool
  pub cur_n : ℕ
  pub axis : Option (D × D × ℕ)

unfoldable pub is_voice_assign : ℕ → Bool
is_voice_assign type = leb 0x31 type && leb type 0x34

module _ (F : Double) (B : Type 0) where
  open F use {Real, literal, sub, mul, div, fabs, less, leq}

  -- The fields of `App` for the two receivers; `stored` has the calls of the message store.
  pub record App : Type 0 where
    pub dual_mode : Bool
    pub source_mode : ℕ
    pub voice_follow : Bool
    pub follow_hold_sec : Real
    pub following : Bool
    pub follow_retuned : Bool
    pub follow_ever_locked : Bool
    pub follow_channel_id : Option ℕ
    pub follow_home_mhz : Real
    pub follow_seen_count : ℕ
    pub follow_voice_frames : ℕ
    pub follow_home : List (Real × ℕ)
    pub follow_activity : Real
    pub center_freq_mhz : Real
    pub center_freq_mhz_b : Real
    pub active : Radio Real
    pub active_b : Radio Real
    pub decoders : DecoderManager F B
    pub decoders_b : DecoderManager F B
    pub cassign_log : CassignLog Real
    pub blacklist_countries : List Text
    pub view_a : View Real
    pub view_b : View Real
    pub selected_decoder : Option ℕ
    pub status_text : Text
    pub stored : List (StoreCall Real)

  abbrev pub mega : Real
  mega = literal 1000000 0

  abbrev pub to_hz : Real → Real
  to_hz mhz = mul mhz mega

  -- `std::min` and `std::max`
  abbrev pub min_real : Real → Real → Real
  min_real a b = if less b a then b else a

  abbrev pub max_real : Real → Real → Real
  max_real a b = if less a b then b else a

  -- The distance that keeps a carrier off the center.
  unfoldable pub tune_offset : Radio Real → Real
  tune_offset r = min_real (literal 2 1) (mul (literal 25 2) (div r.sample_rate mega))

  unfoldable pub in_band : Radio Real → Real → Bool
  in_band r rx =
      leq (fabs (sub rx (div r.center_hz mega))) (mul (div r.sample_rate mega) (literal 45 2))

  -- A view whose axis is set again if it has a spectrum.
  abbrev pub set_axis : Real → Real → View Real → View Real
  set_axis center rate v =
      if ltb 0 v.cur_n then record v { axis = some (center, rate, v.cur_n) } else v

  -- The manager with no decoder at a new center.
  abbrev pub moved : DecoderManager F B → Real → Real → DecoderManager F B
  moved m rate center = configure F B (remove_all F B m) rate center

  -- `retuneActive`; the radio answers `tune hz` for the center `hz` that it is asked for.
  unfoldable pub retune_active : (Real → Real) → App → Real → App
  retune_active tune a center_mhz =
      let hz = tune (to_hz center_mhz) in
      record a {
        center_freq_mhz = div hz mega;
        active = record (a.active) { center_hz = hz };
        decoders = moved a.decoders a.active.sample_rate hz;
        view_a = set_axis hz a.active.sample_rate (record (a.view_a) { reset_view = true });
      }

  -- The frequency in MHz and the baud of each decoder.
  unfoldable pub listed_decoders : List (Decoder Real) → List (Real × ℕ)
  listed_decoders [] = []
  listed_decoders (d ∷ ds) = (freq_mhz F B d, d.baud) ∷ listed_decoders ds

  -- Decoders added again, one after the other.
  unfoldable pub add_listed : DecoderManager F B → List (Real × ℕ) → DecoderManager F B
  add_listed m [] = m
  add_listed m ((mhz, baud) ∷ ks) = add_listed (add_decoder F B m (to_hz mhz) baud 0).0 ks

  unfoldable pub retune_preserving : (Real → Real) → App → Real → App
  unfolding listed_decoders add_listed
  retune_preserving tune a center_mhz =
      let hz = tune (to_hz center_mhz) in
      record a {
        center_freq_mhz = div hz mega;
        active = record (a.active) { center_hz = hz };
        decoders =
            add_listed (moved a.decoders a.active.sample_rate hz)
              (listed_decoders (status F B a.decoders));
      }

  abbrev pub remove_channel :
      DecoderManager F B → Option ℕ → DecoderManager F B × List (StoreCall Real)
  remove_channel m none = (m, [])
  remove_channel m (some id) = remove_decoder F B m id
