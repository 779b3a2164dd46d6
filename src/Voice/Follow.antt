-- ===== src/Voice/Follow.antt =====
-- `updateVoiceFollow` and `tuneToVoice` of src/voice/voice_ops.cpp. The time `now` and the answer
-- `tune` of the radio to a new center are arguments.
use inmar_scope.Prelude.{
  ℕ, List, [], ◌∷◌, ◌++◌, Bool, true, false, not, ◌&&◌, ◌||◌, ◌==◌, ltb, leb, if◌then◌else◌, Option,
  none, some, codes,
}
use inmar_scope.Double.{Double}
use inmar_scope.Log.Types.{CassignEntry}
use inmar_scope.Log.Country.{aes_blacklisted}
use inmar_scope.Manager.{DecoderManager}
use inmar_scope.Manager.Adding.{add_decoder}
use inmar_scope.Manager.Control.{set_voice_monitor}
use inmar_scope.Manager.Monitor.{voice_frames_of, status}
use inmar_scope.Voice.{
  App, is_voice_assign, to_hz, max_real, tune_offset, in_band, set_axis, moved, retune_active,
  listed_decoders, add_listed, retune_preserving, remove_channel,
}

module _ (F : Double) (B : Type 0) where
  open F use {Real, literal, sub, mul, div, less, leq, fixed}

  abbrev pub usable : CassignEntry Real → Bool
  usable e = is_voice_assign e.type && less (literal 1 0) e.rx_mhz

  -- The newest usable assignment; the newest entry stands last.
  unfoldable pub newest_voice : List (CassignEntry Real) → Option (CassignEntry Real)
  newest_voice [] = none
  newest_voice (e ∷ es) = elim (newest_voice es) [
    | some later ↦ some later
    | none ↦ if usable e then some e else none
  ]

  abbrev pub seen_all : App F B → App F B
  seen_all a = record a { follow_seen_count = a.cassign_log.count_ }

  abbrev pub is_blacklisted : App F B → ℕ → Bool
  is_blacklisted a aes = aes_blacklisted F a.decoders.ac_table a.blacklist_countries aes

  abbrev pub fresh_follow : Real → App F B → App F B
  fresh_follow now a = record a {
    following = true;
    follow_ever_locked = false;
    follow_voice_frames = 0;
    follow_activity = now;
  }

  -- The second receiver, at a center beside the carrier.
  abbrev pub park_b : App F B → Real → App F B
  park_b a center = record a {
    active_b = record (a.active_b) { center_hz = to_hz F B center };
    decoders_b = moved F B a.decoders_b a.active_b.sample_rate (to_hz F B center);
    view_b =
        set_axis F B (to_hz F B center) a.active_b.sample_rate
          (record (a.view_b) { reset_view = true });
  }

  -- The result of `addDecoder` on the second receiver.
  unfoldable pub started_b : Real → Real → Real → App F B → Option ℕ → App F B
  started_b now rx center a none = record a { follow_channel_id = none }
  started_b now rx center a (some id) = record (fresh_follow now a) {
    follow_channel_id = some id;
    decoders_b = set_voice_monitor F B a.decoders_b (some id);
    center_freq_mhz_b = center;
    follow_retuned = true;
    status_text = codes "Voice SDR following " ++ fixed 4 rx ++ codes " MHz";
  }

  unfoldable pub follow_b : Real → App F B → CassignEntry Real → App F B
  unfolding started_b
  follow_b now a e =
      let center = sub e.rx_mhz (tune_offset F B a.active_b) in
      let p = park_b a center in
      let (m, id) = add_decoder F B p.decoders_b (to_hz F B e.rx_mhz) 8400 e.aes_id in
      started_b now e.rx_mhz center (record p { decoders_b = m }) id

  -- The result of `addDecoder` on the only receiver.
  unfoldable pub started : Real → Real → App F B → Option ℕ → App F B
  started now rx a none = record a { follow_channel_id = none }
  started now rx a (some id) = record (fresh_follow now a) {
    follow_channel_id = some id;
    decoders = set_voice_monitor F B a.decoders (some id);
    selected_decoder = some id;
    status_text = codes "Following voice " ++ fixed 4 rx ++ codes " MHz";
  }

  unfoldable pub spawn : Real → App F B → CassignEntry Real → App F B
  unfolding started
  spawn now a e =
      let (m, id) = add_decoder F B a.decoders (to_hz F B e.rx_mhz) 8400 e.aes_id in
      started now e.rx_mhz (record a { decoders = m }) id

  -- The receiver leaves for the carrier, and its decoders are kept as the way home.
  unfoldable pub leave_home : (Real → Real) → App F B → Real → App F B
  leave_home tune a rx =
      let kept = record a { follow_home = listed_decoders F B (status F B a.decoders) } in
      record (retune_active F B tune kept (sub rx (tune_offset F B a.active))) {
        follow_retuned = true;
      }

  unfoldable pub follow_a : (Real → Real) → Real → App F B → CassignEntry Real → App F B
  unfolding spawn leave_home
  follow_a tune now a e =
      let h = record a { follow_home_mhz = a.center_freq_mhz; follow_retuned = false } in
      if in_band F B a.active e.rx_mhz
      then spawn now h e
      else if a.source_mode == 1
      then h
      else spawn now (leave_home tune h e.rx_mhz) e

  unfoldable pub follow_pick :
      (App F B → CassignEntry Real → App F B) → App F B → Option (CassignEntry Real) → App F B
  follow_pick follow a none = a
  follow_pick follow a (some e) = if is_blacklisted a e.aes_id then a else follow a e

  -- The branch for no active follow, of either receiver.
  unfoldable pub look : (App F B → CassignEntry Real → App F B) → App F B → App F B
  unfolding newest_voice follow_pick
  look follow a =
      if not a.voice_follow
      then seen_all a
      else if leb a.cassign_log.count_ a.follow_seen_count
      then a
      else follow_pick follow (seen_all a) (newest_voice a.cassign_log.items)

  abbrev pub frames_of : DecoderManager F B → Option ℕ → ℕ
  frames_of m none = 0
  frames_of m (some id) = voice_frames_of F B m id

  -- New voice frames since the last look.
  unfoldable pub observe : Real → ℕ → App F B → App F B
  observe now frames a =
      if ltb a.follow_voice_frames frames
      then record a {
        follow_voice_frames = frames;
        follow_activity = now;
        follow_ever_locked = true;
      }
      else a

  unfoldable pub grace : App F B → Real
  grace a =
      if a.follow_ever_locked
      then a.follow_hold_sec
      else max_real F B a.follow_hold_sec (literal 12 0)

  unfoldable pub is_over : Real → App F B → Bool
  unfolding grace
  is_over now a = less (grace a) (sub now a.follow_activity) || not a.voice_follow

  unfoldable pub end_b : App F B → App F B
  end_b a =
      let (m, calls) = remove_channel F B a.decoders_b a.follow_channel_id in
      record a {
        decoders_b = m;
        stored = a.stored ++ calls;
        follow_channel_id = none;
        following = false;
        status_text = codes "Running (dual SDR)";
      }

  -- The receiver goes home with the decoders that it had there.
  unfoldable pub go_home : (Real → Real) → App F B → App F B
  go_home tune a =
      let home = retune_active F B tune a a.follow_home_mhz in
      record home { decoders = add_listed F B home.decoders a.follow_home; follow_home = [] }

  -- The follow without its decoder.
  abbrev pub left_channel : App F B → App F B
  left_channel a = record a {
    decoders = (remove_channel F B a.decoders a.follow_channel_id).0;
    stored = a.stored ++ (remove_channel F B a.decoders a.follow_channel_id).1;
    follow_channel_id = none;
  }

  abbrev pub finished : App F B → App F B
  finished a = record a { following = false; status_text = codes "Running" }

  unfoldable pub end_a : (Real → Real) → App F B → App F B
  unfolding go_home
  end_a tune a =
      finished (if a.follow_retuned then go_home tune (left_channel a) else left_channel a)

  unfoldable pub watch : Real → DecoderManager F B → (App F B → App F B) → App F B → App F B
  unfolding observe is_over
  watch now m finish a =
      let seen = observe now (frames_of m a.follow_channel_id) a in
      if is_over now seen then finish seen else seen

  unfoldable pub update_voice_follow : (Real → Real) → Real → App F B → App F B
  unfolding look watch follow_a follow_b end_a end_b
  update_voice_follow tune now a =
      if a.dual_mode
      then if a.following then watch now a.decoders_b end_b a else look (follow_b now) a
      else if a.following
      then watch now a.decoders (end_a tune) a
      else look (follow_a tune now) a

  unfoldable pub tuned_to : App F B → Option ℕ → App F B
  tuned_to a none = a
  tuned_to a (some id) = record a {
    decoders = set_voice_monitor F B a.decoders (some id);
    selected_decoder = some id;
  }

  unfoldable pub add_voice : App F B → Real → ℕ → App F B
  unfolding tuned_to
  add_voice a rx aes =
      let (m, id) = add_decoder F B a.decoders (to_hz F B rx) 8400 aes in
      tuned_to (record a { decoders = m }) id

  unfoldable pub tune_to_voice : (Real → Real) → App F B → Real → ℕ → App F B
  unfolding add_voice
  tune_to_voice tune a rx aes =
      if leq rx (literal 1 0) || not a.active.running
      then a
      else if is_blacklisted a aes
      then a
      else if in_band F B a.active rx
      then add_voice a rx aes
      else if a.source_mode == 1
      then a
      else add_voice (retune_preserving F B tune a (sub rx (tune_offset F B a.active))) rx aes
