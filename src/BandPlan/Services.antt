-- ===== src/BandPlan/Services.antt =====
-- The services of a band plan: each service of a channel once.
use inmar_scope.Prelude.{
  ℕ, ◌+◌, ◌≤◌, ◌≡◌, refl, ap, arith, List, [], ◌∷◌, ◌++◌, true, false, ◌&&◌, not, ltb,
  if◌then◌else◌, Text, text_eq, text_eq_sound, text_eq_refl, codes, Bool-cases, inl, inr, if_either,
}
use inmar_scope.Double.{Double}
use inmar_scope.BandPlan.{BandPlanEntry}
use inmar_scope.BandPlan.Groups.{
  has_channel, add_services, preferred_services, preference, services_of,
}
use inmar_scope.Log.Country.{text_mem}

-- How often a text stands in a list.
unfoldable pub text_count : Text → List Text → ℕ
text_count t [] = 0
text_count t (s ∷ ss) = (if text_eq t s then 1 else 0) + text_count t ss

text_count-append :
    (t : Text) (ss us : List Text) → text_count t (ss ++ us) ≡ text_count t ss + text_count t us
unfolding text_count
text_count-append t [] us = omega arith
text_count-append t (s ∷ ss) us = omega (arith, text_count-append t ss us)

text_eq_flip : (s t : Text) → text_eq s t ≡ text_eq t s
unfolding text_eq
text_eq_flip [] [] = refl
text_eq_flip [] (y ∷ t) = refl
text_eq_flip (x ∷ s) [] = refl
text_eq_flip (x ∷ s) (y ∷ t) = ground (arith, text_eq_flip s t)

text_mem-text_count : (t : Text) (ss : List Text) → text_mem t ss ≡ ltb 0 (text_count t ss)
unfolding text_mem text_count
text_mem-text_count t [] = refl
text_mem-text_count t (s ∷ ss) = ground (arith, text_mem-text_count t ss, text_eq_flip s t)

-- Two equal texts are counted alike.
text_count_same :
    (s t : Text) (ss : List Text) → text_eq t s ≡ true → text_count t ss ≡ text_count s ss
text_count_same s t ss e = ap (λ (u : Text). text_count u ss) (text_eq_sound t s e)

not_both : (t a b : Text) → text_eq a b ≡ false → (text_eq t a && text_eq t b) ≡ false
not_both t a b differ = elim (Bool-cases (text_eq t a)) [
  | inl first ↦
      let as_a : text_eq t b ≡ text_eq a b =
        ap (λ (u : Text). text_eq u b) (text_eq_sound t a first) in
      ground (arith, first, as_a, differ)
  | inr other ↦ ground (arith, other)
]

preference_once : (t : Text) → text_count t preference ≤ 1
unfolding text_count
preference_once t =
    let ab = not_both t (codes "Aero data") (codes "Aero voice") (unfold text_eq in refl) in
    let ac = not_both t (codes "Aero data") (codes "STD-C") (unfold text_eq in refl) in
    let bc = not_both t (codes "Aero voice") (codes "STD-C") (unfold text_eq in refl) in
    ground (arith, ab, ac, bc)

module _ (F : Double) where
  open F use {Real}

  preferred_services_fewer :
      (t : Text) (ss : List Text) (es : List (BandPlanEntry Real))
      → text_count t (preferred_services F ss es) ≤ text_count t ss
  unfolding preferred_services text_count
  preferred_services_fewer t [] es = omega arith
  preferred_services_fewer t (s ∷ ss) es = ground (arith, preferred_services_fewer t ss es)

  -- One entry more.
  abbrev pub one_more : List Text → BandPlanEntry Real → List Text
  one_more services e =
      if has_channel F e && not (text_mem e.service services)
      then services ++ e.service ∷ []
      else services

  one_more_count :
      (t : Text) (services : List Text) (e : BandPlanEntry Real)
      → (text_count t services ≤ text_count t (one_more services e))
        × (text_count t services ≤ 1 → text_count t (one_more services e) ≤ 1)
        × (has_channel F e ≡ true → 1 ≤ text_count e.service (one_more services e))
  unfolding text_count
  one_more_count t services e =
      let mem = text_mem-text_count e.service services in
      let self = text_eq_refl e.service in
      let grown = text_count-append t services (e.service ∷ []) in
      let grown_self = text_count-append e.service services (e.service ∷ []) in
      let alike : text_eq t e.service ≡ true
          → text_count t services ≡ text_count e.service services =
        text_count_same e.service t services in
      (
        ground (arith, grown),
        λ once. ground (arith, grown, mem, alike, once),
        λ on. ground (arith, on, mem, self, grown_self),
      )

  add_services_grows :
      (t : Text) (es : List (BandPlanEntry Real)) (services : List Text)
      → text_count t services ≤ text_count t (add_services F services es)
  unfolding add_services
  add_services_grows t [] services = omega arith
  add_services_grows t (e ∷ es) services =
      omega (arith, (one_more_count t services e).0, add_services_grows t es (one_more services e))

  add_services_once :
      (t : Text) (es : List (BandPlanEntry Real)) (services : List Text)
      → text_count t services ≤ 1
      → text_count t (add_services F services es) ≤ 1
  unfolding add_services
  add_services_once t [] services h = h
  add_services_once t (e ∷ es) services h =
      add_services_once t es (one_more services e) ((one_more_count t services e).1 h)

  -- Each entry with a channel has its service in the list.
  abbrev pub AllServed : List Text → List (BandPlanEntry Real) → Type 0
  AllServed services [] = Unit {0}
  AllServed services (e ∷ es) =
      ((if has_channel F e then text_count e.service services else 1) ≡ 1) × AllServed services es

  add_services-AllServed :
      (all : List Text) (es : List (BandPlanEntry Real)) (services : List Text)
      → all ≡ add_services F services es
      → ((t : Text) → text_count t all ≤ 1)
      → AllServed all es
  unfolding add_services
  add_services-AllServed all [] services same once = tt
  add_services-AllServed all (e ∷ es) services same once = (
    if_either (λ (n : ℕ). n ≡ 1) (has_channel F e)
        (λ on. omega (
          arith,
          once e.service,
          (one_more_count e.service services e).2 on,
          add_services_grows e.service es (one_more services e),
          ap (text_count e.service) same,
        ))
        (λ off. refl),
    add_services-AllServed all es (one_more services e) same once,
  )

  pub services_of-AllServed : (es : List (BandPlanEntry Real)) → AllServed (services_of F es) es
  unfolding services_of
  services_of-AllServed es =
      add_services-AllServed _ es (preferred_services F preference es) refl (λ t.
        add_services_once t es (preferred_services F preference es)
          (omega (arith, preferred_services_fewer t preference es, preference_once t)))
