-- ===== src/BandPlan/Accepted.antt =====
-- What holds of a band plan that `loadBandPlan` accepts.
use inmar_scope.Prelude.{
  ℕ, ◌+◌, ◌≡◌, refl, ap, ◌∙◌, arith, List, [], ◌∷◌, Bool, true, false, not, ◌&&◌, ◌||◌, Option,
  none, some, Text, is_empty, codes,
}
use inmar_scope.Double.{Double}
use inmar_scope.BandPlan.{Jansson, BandPlanEntry, BandPlan, ok}
use inmar_scope.BandPlan.Loading.{
  text_of, read_entry, read_entries, insert_entry, sort_entries, check_bands, bands_of, scopes,
  position_of, read_plan,
}
use inmar_scope.BandPlan.Entries.{
  Accepts, Accepts-bind, Accepts-any, Accepts-require, Accepts-ok, no_channel, good_entry,
  read_entry-Accepts,
}

module _ (F : Double) (J : Jansson F.Real) where
  open F use {Real, literal, less, leq, is_finite}
  open J use {Json}

  abbrev pub all_good : List (BandPlanEntry Real) → Bool
  all_good [] = true
  all_good (e ∷ es) = good_entry F J e && all_good es

  -- No entry starts above the next one.
  abbrev pub in_order : List (BandPlanEntry Real) → Bool
  in_order [] = true
  in_order (e ∷ []) = true
  in_order (e ∷ f ∷ es) = not (less f.lo_mhz e.lo_mhz) && in_order (f ∷ es)

  read_entries-Accepts :
      no_channel F J (literal 0 0) ≡ true
      → (i : ℕ) (vs : List Json)
      → Accepts (λ es. all_good es && (is_empty vs || not (is_empty es))) (read_entries F J i vs)
  unfolding read_entries
  read_entries-Accepts z i [] = refl
  read_entries-Accepts z i (v ∷ vs) =
      Accepts-bind (good_entry F J) _ (read_entry F J i v) _ (read_entry-Accepts F J z i v) (λ e g.
        Accepts-bind _ _ (read_entries F J (i + 1) vs) _ (read_entries-Accepts z (i + 1) vs)
          (λ es gs. ground (arith, g, gs)))

  insert_entry-all_good :
      (e : BandPlanEntry Real) (es : List (BandPlanEntry Real))
      → all_good (insert_entry F J e es) ≡ (good_entry F J e && all_good es)
  unfolding insert_entry
  insert_entry-all_good e [] = refl
  insert_entry-all_good e (f ∷ es) = ground (arith, insert_entry-all_good e es)

  sort_entries-all_good :
      (es : List (BandPlanEntry Real)) → all_good (sort_entries F J es) ≡ all_good es
  unfolding sort_entries
  sort_entries-all_good [] = refl
  sort_entries-all_good (e ∷ es) =
      insert_entry-all_good e (sort_entries F J es)
      ∙ ap (λ (b : Bool). good_entry F J e && b) (sort_entries-all_good es)

  insert_entry_some :
      (e : BandPlanEntry Real) (es : List (BandPlanEntry Real))
      → is_empty (insert_entry F J e es) ≡ false
  unfolding insert_entry
  insert_entry_some e [] = refl
  insert_entry_some e (f ∷ es) = ground arith

  sort_entries_empty :
      (es : List (BandPlanEntry Real)) → is_empty (sort_entries F J es) ≡ is_empty es
  unfolding sort_entries
  sort_entries_empty [] = refl
  sort_entries_empty (e ∷ es) = insert_entry_some e (sort_entries F J es)

  -- No number is less than one that is less than it.
  abbrev pub Asymmetric : Type 0
  Asymmetric = (x y : Real) → less x y ≡ true → less y x ≡ false

  insert_entry-in_order :
      Asymmetric
      → (e : BandPlanEntry Real) (es : List (BandPlanEntry Real)) → in_order es ≡ true
      → in_order (insert_entry F J e es) ≡ true
  unfolding insert_entry
  insert_entry-in_order asym e [] h = refl
  insert_entry-in_order asym e (f ∷ []) h = ground (arith, asym f.lo_mhz e.lo_mhz)
  insert_entry-in_order asym e (f ∷ g ∷ es) h = ground (
    arith,
    h,
    asym f.lo_mhz e.lo_mhz,
    asym g.lo_mhz e.lo_mhz,
    insert_entry-in_order asym e (g ∷ es),
  )

  sort_entries-in_order :
      Asymmetric → (es : List (BandPlanEntry Real)) → in_order (sort_entries F J es) ≡ true
  unfolding sort_entries
  sort_entries-in_order asym [] = refl
  sort_entries-in_order asym (e ∷ es) =
      insert_entry-in_order asym e (sort_entries F J es) (sort_entries-in_order asym es)

  unfoldable pub good_plan : BandPlan Real → Bool
  good_plan p =
      p.valid
      && (not (is_empty p.name)
          && (not (is_empty p.entries) && (all_good p.entries && in_order p.entries)))

  check_bands-Accepts :
      (vs : Option (List Json)) → Accepts (λ ws. not (is_empty ws)) (check_bands F J vs)
  unfolding check_bands
  check_bands-Accepts none = tt
  check_bands-Accepts (some []) = tt
  check_bands-Accepts (some (v ∷ vs)) = refl

  bands_of-Accepts : (v : Option Json) → Accepts (λ vs. not (is_empty vs)) (bands_of F J v)
  unfolding bands_of
  bands_of-Accepts none = tt
  bands_of-Accepts (some v) = check_bands-Accepts (J.array_items v)

  read_plan-Accepts :
      no_channel F J (literal 0 0) ≡ true
      → Asymmetric
      → (path : Text) (root : Json) → Accepts good_plan (read_plan F J path root)
  unfolding read_plan good_plan
  read_plan-Accepts z asym path root =
      let get : Text → Option Json = J.object_get root in
      let why : Text = codes "Regions/countries must contain non-empty text names" in
      Accepts-require good_plan (J.is_object root) _ _ (λ object.
        Accepts-require good_plan (not (is_empty (text_of F J root (codes "name")))) _ _ (λ named.
          Accepts-any good_plan (position_of F J (get (codes "position"))) _ (λ position.
            Accepts-any good_plan (scopes F J root (codes "regions") (codes "region") why) _
              (λ regions.
                Accepts-any good_plan (scopes F J root (codes "countries") (codes "country") why) _
                  (λ countries.
                    Accepts-bind (λ vs. not (is_empty vs)) good_plan
                      (bands_of F J (get (codes "bands"))) _
                      (bands_of-Accepts (get (codes "bands")))
                      (λ bands some_bands.
                        Accepts-bind (λ es. all_good es && (is_empty bands || not (is_empty es)))
                          good_plan (read_entries F J 0 bands) _ (read_entries-Accepts z 0 bands)
                          (λ entries g. ground (
                            arith,
                            named,
                            some_bands,
                            g,
                            sort_entries-all_good entries,
                            sort_entries_empty entries,
                            sort_entries-in_order asym entries,
                          ))))))))

  -- A plan that `loadBandPlan` accepts is marked valid, has a
  -- name and at least one band; its bands are sorted by their lower limit; each has finite limits
  -- with 0 <= lo < hi, a label, a channel frequency inside of them if it has one, and a decoder, which
  -- is EGC or has a baud of Aero, only with a channel frequency. The comparison of doubles is asked to
  -- be asymmetric, and 0 <= 0 to hold.
  pub read_plan-good_plan :
      leq (literal 0 0) (literal 0 0) ≡ true
      → Asymmetric
      → (path : Text) (root : Json) (p : BandPlan Real) → read_plan F J path root ≡ ok p
      → good_plan p ≡ true
  read_plan-good_plan z asym path root p accepted =
      Accepts-ok good_plan (read_plan F J path root) p accepted (read_plan-Accepts z asym path root)
