-- ===== src/Voice/Tests.antt =====
-- The voice follow with one receiver of 2.4 MHz around 1545 MHz.
use inmar_scope.Prelude.{ℕ, ◌+◌, ◌≡◌, refl, List, [], ◌∷◌, none, true, false, codes, Bool}
use inmar_scope.Double.{scaled}
use inmar_scope.Log.Types.{CassignEntry}
use inmar_scope.Log.Aircraft.{set_icao}
use inmar_scope.Manager.{DecoderManager, decoder_weight}
use inmar_scope.Manager.Adding.{place_decoder, add_decoder}
use inmar_scope.Manager.Control.{
  remove_all, worker_total, configure, start, set_max_workers, set_audio_enabled, set_voice_monitor,
}
use inmar_scope.Manager.Runs
use inmar_scope.Manager.Runs.{
  new_manager, Reach, initial, next, configured, added, sounding, limited, heard,
}
use inmar_scope.Manager.Totals.{total}
use inmar_scope.Voice.{retune_active, is_voice_assign, App, to_hz, in_band}
use inmar_scope.Voice.Follow.{
  update_voice_follow, leave_home, end_a, seen_all, follow_a, spawn, started,
}
use inmar_scope.Voice.Keeping.{IsKept, update_voice_follow-IsKept}
use inmar_scope.Voice.Shown.{shown, shown_again}
use inmar_scope.Voice.Home.{end_a-follow_a}
use inmar_scope.Voice.Refused.{update_voice_follow-seen_all, last_refused}

-- A radio that has any center it is asked for, by 100 Hz.
abbrev tune_far : ℕ → ℕ
tune_far hz = hz + 100_000_000

abbrev manager : DecoderManager scaled ℕ
manager =
    start scaled ℕ
      (configure scaled ℕ (new_manager scaled ℕ) 2_400_000_000_000 1_545_000_000_000_000) 4

abbrev with_data : DecoderManager scaled ℕ
with_data = (add_decoder scaled ℕ manager 1_545_150_000_000_000 600 0).0

manager-Reach : Reach scaled ℕ manager
manager-Reach = next (next initial (configured _ _ _)) (Runs.started _ 4)

with_data-Reach : Reach scaled ℕ with_data
with_data-Reach = next manager-Reach (added _ 1_545_150_000_000_000 600 0)

-- A voice assignment and an entry that is none.
abbrev assignment : ℕ → ℕ → CassignEntry ℕ
assignment type rx = record {
  channel_id = 1;
  type = type;
  aes_id = 7;
  ges_id = 0x44;
  rx_mhz = rx;
  tx_mhz = 0;
}

abbrev app : Bool → List (CassignEntry ℕ) → App scaled ℕ
app on entries = record {
  dual_mode = false;
  source_mode = 0;
  voice_follow = on;
  follow_hold_sec = 6_000_000;
  following = false;
  follow_retuned = false;
  follow_ever_locked = false;
  follow_channel_id = none;
  follow_home_mhz = 0;
  follow_seen_count = 0;
  follow_voice_frames = 0;
  follow_home = [];
  follow_activity = 0;
  center_freq_mhz = 1_545_000_000;
  center_freq_mhz_b = 0;
  active = record {
    center_hz = 1_545_000_000_000_000;
    sample_rate = 2_400_000_000_000;
    running = true;
  };
  active_b = record { center_hz = 0; sample_rate = 0; running = false };
  decoders = with_data;
  decoders_b = new_manager scaled ℕ;
  cassign_log = record { items = entries; count_ = 2 };
  blacklist_countries = [];
  view_a = record { reset_view = false; cur_n = 0; axis = none };
  view_b = record { reset_view = false; cur_n = 0; axis = none };
  selected_decoder = none;
  status_text = codes "Idle";
  stored = [];
}

abbrev far_call : App scaled ℕ
far_call = app true (assignment 0x31 1_549_000_000 ∷ assignment 0x40 1_545_000_000 ∷ [])

-- The second manager of two: without sound, and with two workers at most.
abbrev second : DecoderManager scaled ℕ
second =
    start scaled ℕ
      (configure scaled ℕ
        (set_max_workers scaled ℕ (set_audio_enabled scaled ℕ (new_manager scaled ℕ) false) 2)
        2_400_000_000_000 1_549_000_000_000_000)
      4

second-Reach : Reach scaled ℕ second
second-Reach =
    next (next (next (next initial (sounding _ false)) (limited _ 2)) (configured _ _ _))
      (Runs.started _ 4)

-- The first manager has heard an aircraft.
abbrev heard_one : DecoderManager scaled ℕ
heard_one = record with_data { ac_table = set_icao scaled with_data.ac_table 7 (codes "3C6586") 5 }

abbrev dual_call : App scaled ℕ
dual_call = record far_call {
  dual_mode = true;
  decoders = heard_one;
  decoders_b = second;
  active_b = record {
    center_hz = 1_549_000_000_000_000;
    sample_rate = 2_400_000_000_000;
    running = true;
  };
  blacklist_countries = codes "FR" ∷ [];
}

update_voice_follow-IsKept_example :
    IsKept scaled ℕ (update_voice_follow scaled ℕ tune_far 5_000_000 dual_call)
update_voice_follow-IsKept_example =
    update_voice_follow-IsKept scaled ℕ tune_far 5_000_000 dual_call (record {
      reach = next with_data-Reach (heard with_data _);
      reach_b = second-Reach;
      channel = refl;
    })

-- No entry is a usable assignment: the one on a voice channel has no frequency.
update_voice_follow-seen_all_example :
    let a = app true (assignment 0x31 0 ∷ assignment 0x40 1_545_000_000 ∷ []) in
    update_voice_follow scaled ℕ tune_far 5_000_000 a ≡ seen_all scaled ℕ a
unfolding last_refused is_voice_assign
update_voice_follow-seen_all_example =
    update_voice_follow-seen_all scaled ℕ tune_far 5_000_000
      (app true (assignment 0x31 0 ∷ assignment 0x40 1_545_000_000 ∷ [])) refl refl refl

-- The follow of `far_call` before its end.
abbrev call : CassignEntry ℕ
call = assignment 0x31 1_549_000_000

abbrev away : App scaled ℕ
away = follow_a scaled ℕ tune_far 5_000_000 far_call call

end_a-follow_a_example :
    ((end_a scaled ℕ tune_far away).following ≡ false)
    × ((end_a scaled ℕ tune_far away).active.center_hz ≡ tune_far (to_hz scaled ℕ 1_545_000_000))
    × (total
          (shown scaled ℕ (λ freq baud. freq + baud))
          (end_a scaled ℕ tune_far away).decoders.workers
        ≡ total (shown_again scaled ℕ (λ freq baud. freq + baud)) far_call.decoders.workers)
unfolding follow_a leave_home retune_active configure remove_all start worker_total add_decoder
    place_decoder in_band spawn started set_voice_monitor decoder_weight
end_a-follow_a_example =
    end_a-follow_a scaled ℕ tune_far 5_000_000 far_call away call (λ freq baud. freq + baud) refl
      refl refl refl refl refl refl
