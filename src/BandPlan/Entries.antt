-- ===== src/BandPlan/Entries.antt =====
-- What holds of a band that `loadBandPlan` accepts.
use inmar_scope.Prelude.{
  ℕ, ◌≡◌, refl, arith, Bool, true, false, not, ◌&&◌, ◌||◌, ◌==◌, Option, none, some, Text, is_empty,
  text_eq, if_either, codes,
}
use inmar_scope.Double.{Double}
use inmar_scope.BandPlan.{Jansson, BandPlanEntry, Checked, ok, reject, ◌>>=◌, ◌>>◌, require}
use inmar_scope.BandPlan.Loading.{
  band_prefix, text_of, number_of, read_limits, check_frequency, check_decoder, read_frequency,
  is_aero_baud, aero_baud, read_baud, read_decoder, color_text, check_color, read_entry,
}

-- A test of the value, if there is one.
abbrev pub Accepts : {A : Type 0} → (A → Bool) → Checked A → Type 0
Accepts test (ok a) = test a ≡ true
Accepts test (reject why) = Unit {0}

pub Accepts-bind :
    {A C : Type 0} (test : A → Bool) (goal : C → Bool) (m : Checked A) (f : A → Checked C)
    → Accepts test m
    → ((a : A) → test a ≡ true → Accepts goal (f a))
    → Accepts goal (m >>= f)
Accepts-bind test goal (ok a) f t next = next a t
Accepts-bind test goal (reject why) f t next = tt

pub Accepts-any :
    {A C : Type 0} (goal : C → Bool) (m : Checked A) (f : A → Checked C)
    → ((a : A) → Accepts goal (f a))
    → Accepts goal (m >>= f)
Accepts-any goal (ok a) f next = next a
Accepts-any goal (reject why) f next = tt

pub Accepts-require :
    {C : Type 0} (goal : C → Bool) (b : Bool) (why : Text) (k : Checked C)
    → (b ≡ true → Accepts goal k)
    → Accepts goal (require b why >> k)
Accepts-require goal true why k next = next refl
Accepts-require goal false why k next = tt

pub Accepts-ok :
    {A : Type 0} (test : A → Bool) (m : Checked A) (a : A)
    → m ≡ ok a
    → Accepts test m
    → test a ≡ true
Accepts-ok test (ok b) a e t = cc
Accepts-ok test (reject why) a e t = cc

module _ (F : Double) (J : Jansson F.Real) where
  open F use {Real, literal, less, leq, is_finite}
  open J use {Json}

  abbrev pub no_channel : Real → Bool
  no_channel f = leq f (literal 0 0)

  abbrev pub good_limits : Text → Real × Real → Bool
  good_limits label l =
      is_finite l.0
      && (is_finite l.1
          && (not (less l.0 (literal 0 0)) && (not (leq l.1 l.0) && not (is_empty label))))

  abbrev pub good_frequency : Real → Real → Real → Bool
  good_frequency lo hi f = no_channel f || (not (less f lo) && not (less hi f))

  abbrev pub good_baud : ℕ → Bool
  good_baud n = (n == 0) || ((n == 1) || is_aero_baud F J n)

  -- A band with limits, a label, a channel inside of the limits, if it has one, and a decoder only for
  -- a channel.
  unfoldable pub good_entry : BandPlanEntry Real → Bool
  good_entry e =
      good_limits e.label (e.lo_mhz, e.hi_mhz)
      && (good_frequency e.lo_mhz e.hi_mhz e.frequency_mhz
          && (good_baud e.baud && ((e.baud == 0) || not (no_channel e.frequency_mhz))))

  read_limits-Accepts :
      (prefix : Text) (lo hi : Option Real) (label : Text)
      → Accepts (good_limits label) (read_limits F J prefix lo hi label)
  unfolding read_limits
  read_limits-Accepts prefix (some lo) (some hi) label =
      if_either (Accepts (good_limits label))
        (not (is_finite lo)
          || not (is_finite hi)
          || less lo (literal 0 0)
          || leq hi lo
          || is_empty label)
        (λ bad. tt) (λ good. ground (arith, good))
  read_limits-Accepts prefix none hi label = tt
  read_limits-Accepts prefix (some lo) none label = tt

  check_frequency-Accepts :
      (prefix : Text) (lo hi : Real) (v : Option Real)
      → Accepts (good_frequency lo hi) (check_frequency F J prefix lo hi v)
  unfolding check_frequency
  check_frequency-Accepts prefix lo hi none = tt
  check_frequency-Accepts prefix lo hi (some f) =
      if_either (Accepts (good_frequency lo hi))
        (not (is_finite f) || leq f (literal 0 0) || less f lo || less hi f) (λ bad. tt)
        (λ good. ground (arith, good))

  read_frequency-Accepts :
      no_channel (literal 0 0) ≡ true
      → (prefix : Text) (lo hi : Real) (v : Option Json)
      → Accepts (good_frequency lo hi) (read_frequency F J prefix lo hi v)
  unfolding read_frequency
  read_frequency-Accepts z prefix lo hi none = ground (arith, z)
  read_frequency-Accepts z prefix lo hi (some v) =
      check_frequency-Accepts prefix lo hi (J.number_value v)

  abbrev pub aero_or_none : ℕ → Bool
  aero_or_none n = (n == 0) || is_aero_baud F J n

  aero_baud-Accepts :
      (prefix : Text) (v : Option (Option ℕ)) → Accepts aero_or_none (aero_baud F J prefix v)
  unfolding aero_baud
  aero_baud-Accepts prefix none = tt
  aero_baud-Accepts prefix (some none) = tt
  aero_baud-Accepts prefix (some (some n)) =
      if_either (Accepts aero_or_none) (is_aero_baud F J n) (λ aero. ground (arith, aero))
        (λ other. tt)

  read_baud-Accepts :
      (prefix : Text) (v : Option Json) → Accepts aero_or_none (read_baud F J prefix v)
  unfolding read_baud
  read_baud-Accepts prefix none = refl
  read_baud-Accepts prefix (some v) = aero_baud-Accepts prefix (J.integer_value v)

  check_decoder-Accepts :
      (prefix : Text) (n : ℕ) (v : Option Text) → Accepts good_baud (check_decoder F J prefix n v)
  unfolding check_decoder
  check_decoder-Accepts prefix n none = tt
  check_decoder-Accepts prefix n (some t) =
      if_either (Accepts good_baud) (not (text_eq t (codes "egc")) || not (n == 0)) (λ bad. tt)
        (λ good. refl)

  read_decoder-Accepts :
      (prefix : Text) (n : ℕ) (v : Option Json)
      → aero_or_none n ≡ true
      → Accepts good_baud (read_decoder F J prefix n v)
  unfolding read_decoder
  read_decoder-Accepts prefix n none h = ground (arith, h)
  read_decoder-Accepts prefix n (some v) h = check_decoder-Accepts prefix n (J.string_value v)

  pub read_entry-Accepts :
      no_channel (literal 0 0) ≡ true → (i : ℕ) (v : Json) → Accepts good_entry (read_entry F J i v)
  unfolding read_entry good_entry
  read_entry-Accepts z i v =
      let get : Text → Option Json = J.object_get v in
      let lo = number_of F J (get (codes "lo")) in
      let hi = number_of F J (get (codes "hi")) in
      let label = text_of F J v (codes "label") in
      let prefix = band_prefix F J i in
      Accepts-require good_entry (J.is_object v) _ _ (λ object.
        Accepts-bind (good_limits label) good_entry (read_limits F J prefix lo hi label) _
          (read_limits-Accepts prefix lo hi label)
          (λ (limits : Real × Real) l.
            Accepts-bind (good_frequency limits.0 limits.1) good_entry
              (read_frequency F J prefix limits.0 limits.1 (get (codes "frequency"))) _
              (read_frequency-Accepts z prefix limits.0 limits.1 (get (codes "frequency")))
              (λ frequency f.
                Accepts-bind aero_or_none good_entry (read_baud F J prefix (get (codes "baud"))) _
                  (read_baud-Accepts prefix (get (codes "baud")))
                  (λ aero a.
                    Accepts-bind good_baud good_entry
                      (read_decoder F J prefix aero (get (codes "decoder"))) _
                      (read_decoder-Accepts prefix aero (get (codes "decoder")) a)
                      (λ baud b.
                        Accepts-require good_entry
                          ((baud == 0) || not (leq frequency (literal 0 0))) _ _
                          (λ tuned.
                            Accepts-any good_entry
                              (check_color F J prefix (color_text F J (get (codes "color")))) _
                              (λ color. ground (arith, l, f, b, tuned))))))))
