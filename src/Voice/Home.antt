-- ===== src/Voice/Home.antt =====
-- A follow that leaves the center of the receiver, and its way home.
use inmar_scope.Prelude.{
  ℕ, ◌≡◌, refl, ap, ◌∙◌, arith, List, Bool, true, false, Option, none, some, ◌==◌, if◌then◌else◌,
  is_empty, if_true,
}
use inmar_scope.Double.{Double}
use inmar_scope.Manager.Adding.{add_decoder}
use inmar_scope.Manager.Control.{all_of_workers}
use inmar_scope.Manager.Monitor.{status}
use inmar_scope.Manager.Totals.{total}
use inmar_scope.Voice.{App, retune_active, remove_channel, to_hz, in_band}
use inmar_scope.Log.Types.{CassignEntry}
use inmar_scope.Voice.Follow.{
  finished, left_channel, leave_home, go_home, end_a, started, spawn, follow_a,
}
use inmar_scope.Voice.Shown.{
  shown, shown_again, shown_list, add_listed_shown, sort_by_freq-sum_of, listed_decoders_shown,
  remove_channel_empty, moved_ready, moved_total,
}

module _ (F : Double) (B : Type 0) where
  open F use {Real, literal, leq}

  -- What `followHome` gets.
  shown_left :
      (f : Real → ℕ → ℕ) (tune : Real → Real) (a : App F B) (rx : Real)
      → shown_list F B f (leave_home F B tune a rx).follow_home
        ≡ total (shown_again F B f) a.decoders.workers
  unfolding leave_home retune_active status
  shown_left f tune a rx =
      listed_decoders_shown F B f (status F B a.decoders)
      ∙ sort_by_freq-sum_of F B (shown_again F B f) (all_of_workers a.decoders.workers)

  end_a_away :
      (tune : Real → Real) (b : App F B)
      → b.follow_retuned ≡ true
      → end_a F B tune b ≡ finished F B (go_home F B tune (left_channel F B b))
  unfolding end_a
  end_a_away tune b retuned =
      ap (finished F B) (if_true b.follow_retuned (left_channel F B b) retuned refl)

  -- What `followHome`, `followHomeMHz` and `followRetuned` hold.
  abbrev pub Route : Type 0
  Route = List (Real × ℕ) × Real × Bool

  abbrev pub route : App F B → Route
  route a = (a.follow_home, a.follow_home_mhz, a.follow_retuned)

  route-started :
      (now rx : Real) (a : App F B) (id : Option ℕ) → route (started F B now rx a id) ≡ route a
  unfolding started
  route-started now rx a none = refl
  route-started now rx a (some id) = refl

  route-spawn :
      (now : Real) (a : App F B) (e : CassignEntry Real) → route (spawn F B now a e) ≡ route a
  unfolding spawn
  route-spawn now a e =
      let (m, id) = add_decoder F B a.decoders (to_hz F B e.rx_mhz) 8400 e.aes_id in
      route-started now e.rx_mhz (record a { decoders = m }) id

  abbrev pub starting : App F B → App F B
  starting a = record a { follow_home_mhz = a.center_freq_mhz; follow_retuned = false }

  -- A follow of a carrier out of the band of a receiver that can be retuned.
  route-follow_a :
      (tune : Real → Real) (now : Real) (a : App F B) (e : CassignEntry Real)
      → in_band F B a.active e.rx_mhz ≡ false
      → (a.source_mode == 1) ≡ false
      → route (follow_a F B tune now a e)
        ≡ ((leave_home F B tune (starting a) e.rx_mhz).follow_home, a.center_freq_mhz, true)
  unfolding follow_a leave_home retune_active
  route-follow_a tune now a e out mode =
      let h = starting a in
      let away = spawn F B now (leave_home F B tune h e.rx_mhz) e in
      let choose : Bool → Bool → Route =
        λ inside fixed. route (if inside then spawn F B now h e else if fixed then h else away) in
      ap (λ (inside : Bool). choose inside (a.source_mode == 1)) out
      ∙ ap (choose false) mode
      ∙ route-spawn now (leave_home F B tune h e.rx_mhz) e

  -- A follow leaves the center of the only receiver for a carrier out of its band, the receiver being
  -- no file, and ends in any later state in which what `followHome`, `followHomeMHz` and
  -- `followRetuned` hold has not changed. Then the receiver is asked for the center that it had
  -- when the follow began, and there is a decoder with the frequency and the baud of each that there
  -- was then, and no other: every measure of these has the same sum, up to the rounding of a frequency
  -- to MHz and back. The manager has workers at the end and the rate of the receiver is positive.
  pub end_a-follow_a :
      (tune : Real → Real) (now : Real) (a b : App F B) (e : CassignEntry Real) (f : Real → ℕ → ℕ)
      → in_band F B a.active e.rx_mhz ≡ false
      → (a.source_mode == 1) ≡ false
      → b.follow_home ≡ (follow_a F B tune now a e).follow_home
      → b.follow_home_mhz ≡ (follow_a F B tune now a e).follow_home_mhz
      → b.follow_retuned ≡ (follow_a F B tune now a e).follow_retuned
      → is_empty b.decoders.workers ≡ false
      → leq b.active.sample_rate (literal 0 0) ≡ false
      → ((end_a F B tune b).following ≡ false)
        × ((end_a F B tune b).active.center_hz ≡ tune (to_hz F B a.center_freq_mhz))
        × (total (shown F B f) (end_a F B tune b).decoders.workers
            ≡ total (shown_again F B f) a.decoders.workers)
  unfolding end_a retune_active
  end_a-follow_a tune now a b e f out mode home mhz retuned busy rate =
      let left = route-follow_a tune now a e out mode in
      let m = (remove_channel F B b.decoders b.follow_channel_id).0 in
      let hz = tune (to_hz F B b.follow_home_mhz) in
      let ended = end_a_away tune b (retuned ∙ ap (λ (r : Route). r.2) left) in
      let ready =
        moved_ready F B m b.active.sample_rate hz
          (remove_channel_empty F B b.decoders b.follow_channel_id ∙ busy) rate in
      (
        refl,
        ap (λ (x : App F B). x.active.center_hz) ended
            ∙ ap (λ (x : Real). tune (to_hz F B x)) (mhz ∙ ap (λ (r : Route). r.1) left),
        ap (λ (x : App F B). total (shown F B f) x.decoders.workers) ended
            ∙ add_listed_shown F B f b.follow_home _ ready
            ∙ omega (
              arith,
              moved_total F B f m b.active.sample_rate hz,
              ap (shown_list F B f) (home ∙ ap (λ (r : Route). r.0) left),
              shown_left f tune (starting a) e.rx_mhz,
            ),
      )
