-- ===== src/BandPlan/Windows.antt =====
-- What `bandPlanGroups` covers.
use inmar_scope.Prelude.{
  ℕ, zero, suc, ◌+◌, ◌≤◌, ◌≡◌, refl, sym, ap, ◌∙◌, arith, List, [], ◌∷◌, ◌++◌, map, Bool, true,
  false, ◌||◌, not, ◌==◌, if◌then◌else◌, Text, length, Bool-cases, inl, inr, if_either,
}
use inmar_scope.Double.{Double}
use inmar_scope.BandPlan.{BandPlanEntry, BandPlan}
use inmar_scope.BandPlan.Groups.{
  BandPlanGroup, has_channel, channels_of, insert_channel, sort_channels, split_window, make_group,
  windows, service_groups, all_groups, services_of, band_plan_groups,
}
use inmar_scope.BandPlan.Services.{text_count, AllServed, services_of-AllServed}

-- How often an index stands in a list.
abbrev pub occurrences : ℕ → List ℕ → ℕ
occurrences i [] = 0
occurrences i (j ∷ js) = (if j == i then 1 else 0) + occurrences i js

occurrences-append :
    (i : ℕ) (xs ys : List ℕ) → occurrences i (xs ++ ys) ≡ occurrences i xs + occurrences i ys
occurrences-append i [] ys = omega arith
occurrences-append i (x ∷ xs) ys = omega (arith, occurrences-append i xs ys)

module _ (F : Double) where
  open F use {Real, literal, mul, div, sub, leq, is_finite}

  abbrev pub indices : List (ℕ × Real) → List ℕ
  indices cs = map (λ (c : ℕ × Real). c.0) cs

  -- The channels of all groups.
  abbrev pub covered : List (BandPlanGroup Real) → List ℕ
  covered [] = []
  covered (g ∷ gs) = g.channels ++ covered gs

  split_window-append :
      (usable lo : Real) (cs : List (ℕ × Real))
      → indices (split_window F usable lo cs).0 ++ indices (split_window F usable lo cs).1
        ≡ indices cs
  unfolding split_window
  split_window-append usable lo [] = refl
  split_window-append usable lo (c ∷ cs) = elim (Bool-cases (leq (sub c.1 lo) usable)) [
    | inl within ↦ rw within (ap (λ (is : List ℕ). c.0 ∷ is) (split_window-append usable lo cs))
    | inr behind ↦ rw behind refl
  ]

  split_window_shorter :
      (usable lo : Real) (cs : List (ℕ × Real)) → length (split_window F usable lo cs).1 ≤ length cs
  unfolding split_window
  split_window_shorter usable lo [] = omega arith
  split_window_shorter usable lo (c ∷ cs) = ground (arith, split_window_shorter usable lo cs)

  windows-covered :
      (rounds : ℕ) (service : Text) (rate : Real) (cs : List (ℕ × Real))
      → length cs ≤ rounds
      → covered (windows F rounds service rate cs) ≡ indices cs
  unfolding windows make_group
  windows-covered zero service rate [] h = refl
  windows-covered zero service rate (c ∷ cs) h = absurd (omega arith)
  windows-covered (suc rounds) service rate [] h = refl
  windows-covered (suc rounds) service rate (c ∷ cs) h =
      let split = split_window F (mul rate (literal 8 1)) c.1 cs in
      ap (λ (is : List ℕ). c.0 ∷ indices split.0 ++ is)
        (windows-covered rounds service rate split.1
          (omega (arith, split_window_shorter (mul rate (literal 8 1)) c.1 cs)))
      ∙ ap (λ (is : List ℕ). c.0 ∷ is) (split_window-append (mul rate (literal 8 1)) c.1 cs)

  insert_channel-occurrences :
      (i : ℕ) (c : ℕ × Real) (cs : List (ℕ × Real))
      → occurrences i (indices (insert_channel F c cs))
        ≡ (if c.0 == i then 1 else 0) + occurrences i (indices cs)
  unfolding insert_channel
  insert_channel-occurrences i c [] = refl
  insert_channel-occurrences i c (d ∷ cs) = ground (arith, insert_channel-occurrences i c cs)

  sort_channels-occurrences :
      (i : ℕ) (cs : List (ℕ × Real))
      → occurrences i (indices (sort_channels F cs)) ≡ occurrences i (indices cs)
  unfolding sort_channels
  sort_channels-occurrences i [] = refl
  sort_channels-occurrences i (c ∷ cs) =
      omega
        (arith, insert_channel-occurrences i c (sort_channels F cs), sort_channels-occurrences i cs)

  service_groups-occurrences :
      (i : ℕ) (rate : Real) (es : List (BandPlanEntry Real)) (service : Text)
      → occurrences i (covered (service_groups F rate es service))
        ≡ occurrences i (indices (channels_of F service 0 es))
  unfolding service_groups
  service_groups-occurrences i rate es service =
      ap (occurrences i) (
        windows-covered _ service rate (sort_channels F (channels_of F service 0 es)) (omega arith))
      ∙ sort_channels-occurrences i (channels_of F service 0 es)

  -- How many of the services the band `i` has a channel of.
  unfoldable served : List Text → ℕ → List (BandPlanEntry Real) → ℕ
  unfolding text_count
  served ss i [] = 0
  served ss zero (e ∷ es) = if has_channel F e then text_count e.service ss else 0
  served ss (suc i) (e ∷ es) = served ss i es

  -- Whether the band `i` of a plan is a channel.
  abbrev pub channel_at : ℕ → List (BandPlanEntry Real) → Bool
  channel_at i [] = false
  channel_at zero (e ∷ es) = has_channel F e
  channel_at (suc i) (e ∷ es) = channel_at i es

  channels_of_before :
      (service : Text) (i j : ℕ) (es : List (BandPlanEntry Real))
      → i + 1 ≤ j
      → occurrences i (indices (channels_of F service j es)) ≡ 0
  unfolding channels_of
  channels_of_before service i j [] h = refl
  channels_of_before service i j (e ∷ es) h =
      ground (arith, channels_of_before service i (j + 1) es (omega arith), h)

  channels_of-served :
      (service : Text) (i j k : ℕ) (es : List (BandPlanEntry Real))
      → k ≡ j + i
      → occurrences k (indices (channels_of F service j es)) ≡ served (service ∷ []) i es
  unfolding channels_of served text_count
  channels_of-served service i j k [] h = refl
  channels_of-served service zero j k (e ∷ es) h =
      ground (arith, h, channels_of_before service k (j + 1) es (omega arith))
  channels_of-served service (suc i) j k (e ∷ es) h =
      ground (arith, h, channels_of-served service i (j + 1) k es (omega arith))

  served_nothing : (i : ℕ) (es : List (BandPlanEntry Real)) → served [] i es ≡ 0
  unfolding served text_count
  served_nothing i [] = refl
  served_nothing zero (e ∷ es) = ground arith
  served_nothing (suc i) (e ∷ es) = served_nothing i es

  served_more :
      (s : Text) (ss : List Text) (i : ℕ) (es : List (BandPlanEntry Real))
      → served (s ∷ ss) i es ≡ served (s ∷ []) i es + served ss i es
  unfolding served text_count
  served_more s ss i [] = refl
  served_more s ss zero (e ∷ es) = ground arith
  served_more s ss (suc i) (e ∷ es) = served_more s ss i es

  served_once :
      (ss : List Text) (i : ℕ) (es : List (BandPlanEntry Real))
      → AllServed F ss es
      → served ss i es ≡ (if channel_at i es then 1 else 0)
  unfolding served
  served_once ss i [] all = refl
  served_once ss zero (e ∷ es) all = ground (arith, all.0)
  served_once ss (suc i) (e ∷ es) all = served_once ss i es all.1

  covered-append :
      (i : ℕ) (gs hs : List (BandPlanGroup Real))
      → occurrences i (covered (gs ++ hs)) ≡ occurrences i (covered gs) + occurrences i (covered hs)
  covered-append i [] hs = omega arith
  covered-append i (g ∷ gs) hs = omega (
    arith,
    occurrences-append i g.channels (covered (gs ++ hs)),
    occurrences-append i g.channels (covered gs),
    covered-append i gs hs,
  )

  all_groups-served :
      (i : ℕ) (rate : Real) (es : List (BandPlanEntry Real)) (ss : List Text)
      → occurrences i (covered (all_groups F rate es ss)) ≡ served ss i es
  unfolding all_groups
  all_groups-served i rate es [] = sym (served_nothing i es)
  all_groups-served i rate es (s ∷ ss) = omega (
    arith,
    covered-append i (service_groups F rate es s) (all_groups F rate es ss),
    service_groups-occurrences i rate es s,
    channels_of-served s i 0 i es (omega arith),
    all_groups-served i rate es ss,
    served_more s ss i es,
  )

  -- The groups of a valid plan at a finite rate above zero hold each band that has a channel
  -- frequency above zero exactly once, in one of the groups, and no other band; so
  -- the loop that cuts the channels into windows comes to its end.
  pub band_plan_groups-covered :
      (p : BandPlan Real) (rate : Real)
      → p.valid ≡ true
      → is_finite rate ≡ true
      → leq rate (literal 0 0) ≡ false
      → (i : ℕ)
      → occurrences i (covered (band_plan_groups F p rate))
        ≡ (if channel_at i p.entries then 1 else 0)
  unfolding band_plan_groups
  band_plan_groups-covered p rate valid finite positive i =
      if_either
        (λ (gs : List (BandPlanGroup Real)).
          occurrences i (covered gs) ≡ (if channel_at i p.entries then 1 else 0))
        (not p.valid || not (is_finite rate) || leq rate (literal 0 0))
        (λ refused. absurd (ground (arith, refused, valid, finite, positive)))
        (λ taken.
          all_groups-served i (div rate (literal 1000000 0)) p.entries (services_of F p.entries)
          ∙ served_once (services_of F p.entries) i p.entries (services_of-AllServed F p.entries))
