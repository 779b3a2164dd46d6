-- ===== src/Manager/Measure.antt =====
-- A measure summed over the decoders of the manager, through every change of its lists.
use inmar_scope.Prelude.{
  ℕ, zero, suc, ◌+◌, ◌<◌, ◌≡◌, refl, ap, arith, List, [], ◌∷◌, ◌++◌, map, Bool, some, length,
  Bool-cases, Option-cases, inl, inr,
}
use inmar_scope.Manager.{Decoder, SubBand, modify_at}
use inmar_scope.Manager.Adding.{append_decoder}
use inmar_scope.Manager.Removing.{take_decoder, kept_subband, take_from_subbands}
use inmar_scope.Manager.Control.{
  all_of_subbands, map_subband, change_first, change_in_subbands, has_decoder,
}

unfoldable pub sum_of : {D : Type 0} → (Decoder D → ℕ) → List (Decoder D) → ℕ
sum_of f [] = 0
sum_of f (d ∷ ds) = f d + sum_of f ds

-- A change of a decoder that the measure does not see.
abbrev pub Unseen : {D : Type 0} → (Decoder D → ℕ) → (Decoder D → Decoder D) → Type 0
Unseen {D} f g = (d : Decoder D) → f (g d) ≡ f d

module _ {D : Type 0} (f : Decoder D → ℕ) where
  pub sum_of-append : (ds es : List (Decoder D)) → sum_of f (ds ++ es) ≡ sum_of f ds + sum_of f es
  unfolding sum_of
  sum_of-append [] es = omega arith
  sum_of-append (d ∷ ds) es = omega (arith, sum_of-append ds es)

  sum_of_cons :
      (sb : SubBand D) (sbs : List (SubBand D))
      → sum_of f (all_of_subbands (sb ∷ sbs))
        ≡ sum_of f sb.decoders + sum_of f (all_of_subbands sbs)
  sum_of_cons sb sbs = sum_of-append sb.decoders (all_of_subbands sbs)

  sum_of_end : (d : Decoder D) (ds : List (Decoder D)) → sum_of f (ds ++ d ∷ []) ≡ sum_of f ds + f d
  unfolding sum_of
  sum_of_end d ds = omega (arith, sum_of-append ds (d ∷ []))

  pub sum_of-join :
      (d : Decoder D) (si : ℕ) (sbs : List (SubBand D))
      → si < length sbs
      → sum_of f (all_of_subbands (modify_at si (append_decoder d) sbs))
        ≡ sum_of f (all_of_subbands sbs) + f d
  sum_of-join d si [] h = absurd (omega arith)
  sum_of-join d zero (sb ∷ sbs) h =
      omega
        (arith, sum_of_cons sb sbs, sum_of_cons (append_decoder d sb) sbs, sum_of_end d sb.decoders)
  sum_of-join d (suc si) (sb ∷ sbs) h =
      let joined = modify_at si (append_decoder d) sbs in
      omega (arith, sum_of_cons sb sbs, sum_of_cons sb joined, sum_of-join d si sbs (omega arith))

  pub sum_of-new :
      (d : Decoder D) (sb : SubBand D) (sbs : List (SubBand D))
      → sb.decoders ≡ []
      → sum_of f (all_of_subbands (sbs ++ append_decoder d sb ∷ []))
        ≡ sum_of f (all_of_subbands sbs) + f d
  unfolding sum_of
  sum_of-new d sb [] e =
      omega (arith, sum_of_cons (append_decoder d sb) [], sum_of_end d sb.decoders, ap (sum_of f) e)
  sum_of-new d sb (x ∷ sbs) e = omega (
    arith,
    sum_of_cons x sbs,
    sum_of_cons x (sbs ++ append_decoder d sb ∷ []),
    sum_of-new d sb sbs e,
  )

  sum_of-take_decoder :
      (id : ℕ) (ds : List (Decoder D)) (x : Decoder D × List (Decoder D))
      → take_decoder id ds ≡ some x
      → sum_of f ds ≡ sum_of f x.1 + f x.0
  unfolding take_decoder sum_of
  sum_of-take_decoder id [] x e = ground arith
  sum_of-take_decoder id (d ∷ ds) x e = elim (Option-cases (take_decoder id ds)) [
    | inl nothing ↦ ground (arith, nothing)
    | inr (y, found) ↦ ground (arith, found, sum_of-take_decoder id ds y found)
  ]

  sum_of-kept_subband :
      (sb : SubBand D) (left : List (Decoder D)) (sbs : List (SubBand D))
      → sum_of f (all_of_subbands (kept_subband sb left sbs))
        ≡ sum_of f left + sum_of f (all_of_subbands sbs)
  unfolding kept_subband sum_of
  sum_of-kept_subband sb [] sbs = omega arith
  sum_of-kept_subband sb (d ∷ left) sbs = sum_of-append (d ∷ left) (all_of_subbands sbs)

  pub sum_of-take_from_subbands :
      (id : ℕ) (sbs : List (SubBand D)) (x : Decoder D × List (SubBand D))
      → take_from_subbands id sbs ≡ some x
      → sum_of f (all_of_subbands sbs) ≡ sum_of f (all_of_subbands x.1) + f x.0
  unfolding take_from_subbands
  sum_of-take_from_subbands id [] x e = ground arith
  sum_of-take_from_subbands id (sb ∷ sbs) x e = elim (Option-cases (take_decoder id sb.decoders)) [
    | inr ((d, left), here) ↦ ground (
      arith,
      here,
      sum_of_cons sb sbs,
      sum_of-take_decoder id sb.decoders (d, left) here,
      sum_of-kept_subband sb left sbs,
    )
    | inl later ↦ elim (Option-cases (take_from_subbands id sbs)) [
      | inl nothing ↦ ground (arith, later, nothing)
      | inr ((d, rest), found) ↦ ground (
        arith,
        later,
        found,
        sum_of_cons sb sbs,
        sum_of_cons sb rest,
        sum_of-take_from_subbands id sbs (d, rest) found,
      )
    ]
  ]

  pub sum_of-map :
      (g : Decoder D → Decoder D)
      → Unseen f g
      → (ds : List (Decoder D)) → sum_of f (map g ds) ≡ sum_of f ds
  unfolding sum_of
  sum_of-map g u [] = refl
  sum_of-map g u (d ∷ ds) = omega (arith, u d, sum_of-map g u ds)

  pub sum_of-map_subband :
      (g : Decoder D → Decoder D)
      → Unseen f g
      → (sbs : List (SubBand D))
      → sum_of f (all_of_subbands (map (map_subband g) sbs)) ≡ sum_of f (all_of_subbands sbs)
  sum_of-map_subband g u [] = refl
  sum_of-map_subband g u (sb ∷ sbs) = omega (
    arith,
    sum_of_cons sb sbs,
    sum_of_cons (map_subband g sb) (map (map_subband g) sbs),
    sum_of-map g u sb.decoders,
    sum_of-map_subband g u sbs,
  )

  sum_of-change_first :
      (p : Decoder D → Bool) (g : Decoder D → Decoder D)
      → Unseen f g
      → (ds : List (Decoder D)) → sum_of f (change_first p g ds) ≡ sum_of f ds
  unfolding change_first sum_of
  sum_of-change_first p g u [] = refl
  sum_of-change_first p g u (d ∷ ds) = ground (arith, u d, sum_of-change_first p g u ds)

  pub sum_of-change_in_subbands :
      (p : Decoder D → Bool) (g : Decoder D → Decoder D)
      → Unseen f g
      → (sbs : List (SubBand D))
      → sum_of f (all_of_subbands (change_in_subbands p g sbs)) ≡ sum_of f (all_of_subbands sbs)
  unfolding change_in_subbands
  sum_of-change_in_subbands p g u [] = refl
  sum_of-change_in_subbands p g u (sb ∷ sbs) = elim (Bool-cases (has_decoder p sb.decoders)) [
    | inl here ↦ rw here (
        omega (
          arith,
          sum_of_cons sb sbs,
          sum_of_cons (record sb { decoders = change_first p g sb.decoders }) sbs,
          sum_of-change_first p g u sb.decoders,
        ))
    | inr later ↦ rw later (
        omega (
          arith,
          sum_of_cons sb sbs,
          sum_of_cons sb (change_in_subbands p g sbs),
          sum_of-change_in_subbands p g u sbs,
        ))
  ]
