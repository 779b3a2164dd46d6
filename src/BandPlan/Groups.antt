-- ===== src/BandPlan/Groups.antt =====
-- `bandPlanGroups` and `bandPlanLabel` of src/decode/band_plan.cpp.
use inmar_scope.Prelude.{
  ℕ, zero, suc, ◌+◌, List, [], ◌∷◌, ◌++◌, map, Bool, false, not, ◌&&◌, ◌||◌, if◌then◌else◌, Text,
  is_empty, text_eq, codes, length,
}
use inmar_scope.Double.{Double}
use inmar_scope.BandPlan.{BandPlanEntry, BandPlan}
use inmar_scope.Log.Country.{text_mem}

pub record BandPlanGroup (D : Type 0) : Type 0 where
  pub service : Text
  pub lo_mhz : D
  pub hi_mhz : D
  pub center_mhz : D
  pub channels : List ℕ

-- The labels of both kinds of places, joined by commas.
unfoldable pub join_scopes : Text → List Text → Text
join_scopes label [] = label
join_scopes label (s ∷ ss) = join_scopes (if is_empty label then s else label ++ codes ", " ++ s) ss

-- The services that come first.
abbrev pub preference : List Text
preference = codes "Aero data" ∷ codes "Aero voice" ∷ codes "STD-C" ∷ []

module _ (F : Double) where
  open F use {Real, literal, add, sub, mul, div, fabs, less, leq, is_finite}

  unfoldable pub band_plan_label : BandPlan Real → Text
  unfolding join_scopes
  band_plan_label p =
      let places = join_scopes (join_scopes [] p.regions) p.countries in
      let label = if is_empty places then [] else places ++ codes " / " in
      (if is_empty p.designator then label else label ++ p.designator ++ codes " - ") ++ p.name

  abbrev pub has_channel : BandPlanEntry Real → Bool
  has_channel e = less (literal 0 0) e.frequency_mhz

  -- Some channel has the service.
  unfoldable pub offers : Text → List (BandPlanEntry Real) → Bool
  offers service [] = false
  offers service (e ∷ es) = (has_channel e && text_eq e.service service) || offers service es

  unfoldable pub preferred_services : List Text → List (BandPlanEntry Real) → List Text
  unfolding offers
  preferred_services [] es = []
  preferred_services (s ∷ ss) es =
      let rest = preferred_services ss es in if offers s es then s ∷ rest else rest

  unfoldable pub add_services : List Text → List (BandPlanEntry Real) → List Text
  add_services services [] = services
  add_services services (e ∷ es) =
      add_services
        (if has_channel e && not (text_mem e.service services)
          then services ++ e.service ∷ []
          else services)
        es

  unfoldable pub services_of : List (BandPlanEntry Real) → List Text
  unfolding preferred_services add_services
  services_of es = add_services (preferred_services preference es) es

  -- The channels of a service, each with its index in the plan, from index `i` on.
  unfoldable pub channels_of : Text → ℕ → List (BandPlanEntry Real) → List (ℕ × Real)
  channels_of service i [] = []
  channels_of service i (e ∷ es) =
      let rest = channels_of service (i + 1) es in
      if has_channel e && text_eq e.service service then (i, e.frequency_mhz) ∷ rest else rest

  -- `std::sort` by frequency, which is free to order equal ones.
  unfoldable pub insert_channel : ℕ × Real → List (ℕ × Real) → List (ℕ × Real)
  insert_channel c [] = c ∷ []
  insert_channel c (d ∷ ds) = if less d.1 c.1 then d ∷ insert_channel c ds else c ∷ d ∷ ds

  unfoldable pub sort_channels : List (ℕ × Real) → List (ℕ × Real)
  unfolding insert_channel
  sort_channels [] = []
  sort_channels (c ∷ cs) = insert_channel c (sort_channels cs)

  -- The channels that follow in a window from `lo`, and those behind it.
  unfoldable pub split_window : Real → Real → List (ℕ × Real) → List (ℕ × Real) × List (ℕ × Real)
  split_window usable lo [] = ([], [])
  split_window usable lo (c ∷ cs) =
      let rest = split_window usable lo cs in
      if leq (sub c.1 lo) usable then (c ∷ rest.0, rest.1) else ([], c ∷ cs)

  -- The frequency of the last channel.
  unfoldable pub last_mhz : Real → List (ℕ × Real) → Real
  last_mhz f [] = f
  last_mhz f (c ∷ cs) = last_mhz c.1 cs

  abbrev pub min_real : Real → Real → Real
  min_real a b = if less b a then b else a

  -- The distance of a frequency from the nearest channel, at most `distance`.
  unfoldable pub clearance : Real → Real → List (ℕ × Real) → Real
  clearance candidate distance [] = distance
  clearance candidate distance (c ∷ cs) =
      clearance candidate (min_real distance (fabs (sub candidate c.1))) cs

  -- The rate in MHz, the guard, the midpoint and the bounds of a center.
  pub record Fit : Type 0 where
    pub rate : Real
    pub guard : Real
    pub nominal : Real
    pub lower : Real
    pub upper : Real

  unfoldable pub try_center : Fit → List (ℕ × Real) → Real → Real × Real → Real × Real
  unfolding clearance
  try_center fit window candidate (center, shift) =
      let moved = fabs (sub candidate fit.nominal) in
      if leq fit.lower candidate
        && leq candidate fit.upper
        && leq (sub fit.guard (literal 1 9)) (clearance candidate fit.rate window)
        && less moved shift
      then (candidate, moved)
      else (center, shift)

  -- Beside each channel, below it and then above it.
  unfoldable pub try_centers : Fit → List (ℕ × Real) → List (ℕ × Real) → Real × Real → Real × Real
  unfolding try_center
  try_centers fit window [] best = best
  try_centers fit window (c ∷ cs) best =
      try_centers fit window cs
        (try_center fit window (add c.1 fit.guard) (try_center fit window (sub c.1 fit.guard) best))

  unfoldable pub choose_center : Real → Real → Real → List (ℕ × Real) → Real
  unfolding try_centers clearance
  choose_center rate lo hi window =
      let nominal = mul (add lo hi) (literal 5 1) in
      let guard = min_real (literal 1 2) (mul rate (literal 2 2)) in
      let fit : Fit = record {
        rate = rate;
        guard = guard;
        nominal = nominal;
        lower = sub hi (mul rate (literal 44 2));
        upper = add lo (mul rate (literal 44 2));
      } in
      if less (clearance nominal rate window) guard
      then (try_centers fit window window (nominal, rate)).0
      else nominal

  unfoldable pub make_group : Text → Real → ℕ × Real → List (ℕ × Real) → BandPlanGroup Real
  unfolding last_mhz choose_center
  make_group service rate c cs =
      let hi = last_mhz c.1 cs in
      record {
        service = if is_empty service then codes "Channels" else service;
        lo_mhz = c.1;
        hi_mhz = hi;
        center_mhz = choose_center rate c.1 hi (c ∷ cs);
        channels = map (λ (d : ℕ × Real). d.0) (c ∷ cs);
      }

  -- The loop that cuts the channels of a service into windows, at most `rounds` of them.
  unfoldable pub windows : ℕ → Text → Real → List (ℕ × Real) → List (BandPlanGroup Real)
  unfolding split_window make_group
  windows zero service rate cs = []
  windows (suc rounds) service rate [] = []
  windows (suc rounds) service rate (c ∷ cs) =
      let split = split_window (mul rate (literal 8 1)) c.1 cs in
      make_group service rate c split.0 ∷ windows rounds service rate split.1

  -- Each window takes a channel, so the number of channels is enough rounds.
  unfoldable pub service_groups :
      Real → List (BandPlanEntry Real) → Text → List (BandPlanGroup Real)
  unfolding channels_of sort_channels windows
  service_groups rate es service =
      let sorted = sort_channels (channels_of service 0 es) in
      windows (length sorted) service rate sorted

  unfoldable pub all_groups :
      Real → List (BandPlanEntry Real) → List Text → List (BandPlanGroup Real)
  unfolding service_groups
  all_groups rate es [] = []
  all_groups rate es (s ∷ ss) = service_groups rate es s ++ all_groups rate es ss

  unfoldable pub band_plan_groups : BandPlan Real → Real → List (BandPlanGroup Real)
  unfolding services_of all_groups
  band_plan_groups p sample_rate =
      if not p.valid || not (is_finite sample_rate) || leq sample_rate (literal 0 0)
      then []
      else all_groups (div sample_rate (literal 1000000 0)) p.entries (services_of p.entries)
