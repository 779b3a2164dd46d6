-- ===== src/Voice/Keeping.antt =====
-- What every look at the voice follow keeps.
use inmar_scope.Prelude.{
  ℕ, ◌≡◌, refl, arith, List, [], ◌∷◌, false, not, leb, ltb, ◌==◌, Option, none, some, if_either,
}
use inmar_scope.Double.{Double}
use inmar_scope.Log.Types.{CassignEntry}
use inmar_scope.Manager.{DecoderManager, is_none}
use inmar_scope.Manager.Adding.{add_decoder}
use inmar_scope.Manager.Control.{remove_all}
use inmar_scope.Manager.Runs.{Reach, next, configured, added, removed, wiped, monitored}
use inmar_scope.Voice.{
  App, to_hz, tune_offset, in_band, moved, retune_active, add_listed, remove_channel,
}
use inmar_scope.Voice.Follow.{
  newest_voice, seen_all, is_blacklisted, park_b, started_b, follow_b, started, spawn, leave_home,
  follow_a, follow_pick, look, frames_of, observe, is_over, end_b, finished, go_home, end_a, watch,
  update_voice_follow,
}

module _ (F : Double) (B : Type 0) where
  open F use {Real, literal, sub}

  -- Both managers are in states that they can reach, and there is a decoder for the follow exactly
  -- while one is active.
  pub record IsKept (a : App F B) : Type 0 where
    pub reach : Reach F B a.decoders
    pub reach_b : Reach F B a.decoders_b
    pub channel : is_none a.follow_channel_id ≡ not a.following

  add_listed-Reach :
      (ks : List (Real × ℕ)) (m : DecoderManager F B)
      → Reach F B m
      → Reach F B (add_listed F B m ks)
  unfolding add_listed
  add_listed-Reach [] m r = r
  add_listed-Reach ((mhz, baud) ∷ ks) m r =
      add_listed-Reach ks _ (next r (added m (to_hz F B mhz) baud 0))

  moved-Reach :
      (m : DecoderManager F B) (rate center : Real)
      → Reach F B m
      → Reach F B (moved F B m rate center)
  moved-Reach m rate center r = next (next r (wiped m)) (configured (remove_all F B m) rate center)

  remove_channel-Reach :
      (m : DecoderManager F B) (id : Option ℕ) → Reach F B m → Reach F B (remove_channel F B m id).0
  remove_channel-Reach m none r = r
  remove_channel-Reach m (some id) r = next r (removed m id)

  started_b-IsKept :
      (now rx center : Real) (a : App F B) (id : Option ℕ)
      → a.following ≡ false
      → IsKept a
      → IsKept (started_b F B now rx center a id)
  unfolding started_b
  started_b-IsKept now rx center a none idle k = record {
    reach = k.reach;
    reach_b = k.reach_b;
    channel = ground (arith, idle);
  }
  started_b-IsKept now rx center a (some id) idle k = record {
    reach = k.reach;
    reach_b = next k.reach_b (monitored a.decoders_b (some id));
    channel = refl;
  }

  follow_b-IsKept :
      (now : Real) (a : App F B) (e : CassignEntry Real)
      → a.following ≡ false
      → IsKept a
      → IsKept (follow_b F B now a e)
  unfolding follow_b
  follow_b-IsKept now a e idle k =
      let p = park_b F B a (sub e.rx_mhz (tune_offset F B a.active_b)) in
      started_b-IsKept now e.rx_mhz _ _
        (add_decoder F B p.decoders_b (to_hz F B e.rx_mhz) 8400 e.aes_id).1 idle
        (record {
          reach = k.reach;
          reach_b =
              next (moved-Reach a.decoders_b _ _ k.reach_b) (added p.decoders_b _ 8400 e.aes_id);
          channel = k.channel;
        })

  started-IsKept :
      (now rx : Real) (a : App F B) (id : Option ℕ)
      → a.following ≡ false
      → IsKept a
      → IsKept (started F B now rx a id)
  unfolding started
  started-IsKept now rx a none idle k = record {
    reach = k.reach;
    reach_b = k.reach_b;
    channel = ground (arith, idle);
  }
  started-IsKept now rx a (some id) idle k = record {
    reach = next k.reach (monitored a.decoders (some id));
    reach_b = k.reach_b;
    channel = refl;
  }

  spawn-IsKept :
      (now : Real) (a : App F B) (e : CassignEntry Real)
      → a.following ≡ false
      → IsKept a
      → IsKept (spawn F B now a e)
  unfolding spawn
  spawn-IsKept now a e idle k =
      started-IsKept now e.rx_mhz _
        (add_decoder F B a.decoders (to_hz F B e.rx_mhz) 8400 e.aes_id).1 idle
        (record {
          reach = next k.reach (added a.decoders _ 8400 e.aes_id);
          reach_b = k.reach_b;
          channel = k.channel;
        })

  leave_home-IsKept :
      (tune : Real → Real) (a : App F B) (rx : Real) → IsKept a → IsKept (leave_home F B tune a rx)
  unfolding leave_home retune_active
  leave_home-IsKept tune a rx k = record {
    reach = moved-Reach a.decoders _ _ k.reach;
    reach_b = k.reach_b;
    channel = k.channel;
  }

  leave_home_following :
      (tune : Real → Real) (a : App F B) (rx : Real)
      → a.following ≡ false
      → (leave_home F B tune a rx).following ≡ false
  unfolding leave_home retune_active
  leave_home_following tune a rx idle = idle

  follow_a-IsKept :
      (tune : Real → Real) (now : Real) (a : App F B) (e : CassignEntry Real)
      → a.following ≡ false
      → IsKept a
      → IsKept (follow_a F B tune now a e)
  unfolding follow_a
  follow_a-IsKept tune now a e idle k =
      let h : App F B = record a { follow_home_mhz = a.center_freq_mhz; follow_retuned = false } in
      let kept : IsKept h = record { reach = k.reach; reach_b = k.reach_b; channel = k.channel } in
      if_either IsKept (in_band F B a.active e.rx_mhz) (λ inside. spawn-IsKept now h e idle kept)
        (λ outside.
          if_either IsKept (a.source_mode == 1) (λ wav_file. kept)
            (λ live.
              spawn-IsKept now _ e (leave_home_following tune h e.rx_mhz idle)
                (leave_home-IsKept tune h e.rx_mhz kept)))

  seen_all-IsKept : (a : App F B) → IsKept a → IsKept (seen_all F B a)
  seen_all-IsKept a k = record { reach = k.reach; reach_b = k.reach_b; channel = k.channel }

  follow_pick-IsKept :
      (follow : App F B → CassignEntry Real → App F B)
      → ((a : App F B) (e : CassignEntry Real)
          → a.following ≡ false
          → IsKept a
          → IsKept (follow a e))
      → (a : App F B) (o : Option (CassignEntry Real)) → a.following ≡ false
      → IsKept a
      → IsKept (follow_pick F B follow a o)
  unfolding follow_pick
  follow_pick-IsKept follow keep a none idle k = k
  follow_pick-IsKept follow keep a (some e) idle k =
      if_either IsKept (is_blacklisted F B a e.aes_id) (λ refused. k) (λ fine. keep a e idle k)

  look-IsKept :
      (follow : App F B → CassignEntry Real → App F B)
      → ((a : App F B) (e : CassignEntry Real)
          → a.following ≡ false
          → IsKept a
          → IsKept (follow a e))
      → (a : App F B) → a.following ≡ false
      → IsKept a
      → IsKept (look F B follow a)
  unfolding look
  look-IsKept follow keep a idle k =
      let s = seen_all-IsKept a k in
      if_either IsKept (not a.voice_follow) (λ off. s)
        (λ on.
          if_either IsKept (leb a.cassign_log.count_ a.follow_seen_count) (λ nothing_new. k)
            (λ more.
              follow_pick-IsKept follow keep (seen_all F B a) (newest_voice F B a.cassign_log.items)
                idle s))

  observe-IsKept :
      (now : Real) (frames : ℕ) (a : App F B) → IsKept a → IsKept (observe F B now frames a)
  unfolding observe
  observe-IsKept now frames a k =
      if_either IsKept (ltb a.follow_voice_frames frames)
        (λ more. record { reach = k.reach; reach_b = k.reach_b; channel = k.channel })
        (λ none_new. k)

  end_b-IsKept : (a : App F B) → IsKept a → IsKept (end_b F B a)
  unfolding end_b
  end_b-IsKept a k = record {
    reach = k.reach;
    reach_b = remove_channel-Reach a.decoders_b a.follow_channel_id k.reach_b;
    channel = refl;
  }

  -- After `removeDecoder` and, if the receiver has left its center, the way home.
  end_a-IsKept : (tune : Real → Real) (a : App F B) → IsKept a → IsKept (end_a F B tune a)
  unfolding end_a go_home retune_active
  end_a-IsKept tune a k =
      let r = remove_channel-Reach a.decoders a.follow_channel_id k.reach in
      if_either (λ (x : App F B). IsKept (finished F B x)) a.follow_retuned
        (λ away. record {
          reach = add_listed-Reach a.follow_home _ (moved-Reach _ _ _ r);
          reach_b = k.reach_b;
          channel = refl;
        })
        (λ here. record { reach = r; reach_b = k.reach_b; channel = refl })

  watch-IsKept :
      (now : Real) (m : DecoderManager F B) (finish : App F B → App F B)
      → ((a : App F B) → IsKept a → IsKept (finish a))
      → (a : App F B) → IsKept a
      → IsKept (watch F B now m finish a)
  unfolding watch
  watch-IsKept now m finish keep a k =
      let s = observe-IsKept now (frames_of F B m a.follow_channel_id) a k in
      if_either IsKept (is_over F B now (observe F B now (frames_of F B m a.follow_channel_id) a))
        (λ over. keep _ s) (λ still. s)

  -- Every `updateVoiceFollow` keeps, with one receiver and
  -- with two: both decoder managers in states that their methods reach, and a channel for the
  -- follow exactly while one is active.
  pub update_voice_follow-IsKept :
      (tune : Real → Real) (now : Real) (a : App F B)
      → IsKept a
      → IsKept (update_voice_follow F B tune now a)
  unfolding update_voice_follow
  update_voice_follow-IsKept tune now a k =
      if_either IsKept a.dual_mode
        (λ two.
          if_either IsKept a.following
            (λ active. watch-IsKept now a.decoders_b (end_b F B) end_b-IsKept a k)
            (λ idle. look-IsKept (follow_b F B now) (follow_b-IsKept now) a idle k))
        (λ one.
          if_either IsKept a.following
            (λ active. watch-IsKept now a.decoders (end_a F B tune) (end_a-IsKept tune) a k)
            (λ idle. look-IsKept (follow_a F B tune now) (follow_a-IsKept tune now) a idle k))
