-- ===== src/Manager/Totals.antt =====
-- A measure summed over the decoders of all workers, through the methods of `DecoderManager`.
use inmar_scope.Prelude.{
  ℕ, zero, suc, ◌+◌, ◌<◌, ◌≡◌, refl, ap, arith, List, [], ◌∷◌, ◌++◌, map, Bool, true, false, Option,
  none, some, length, Bool-cases, Option-cases, inl, inr, is_empty,
}
use inmar_scope.Double.{Double}
use inmar_scope.Manager.{Decoder, SubBand, Worker, DecoderManager, modify_at}
use inmar_scope.Manager.Adding.{
  place_decoder, join_subband, create_subband, create_on_lightest, is_place, new_subband,
  append_decoder, lightest, effective,
}
use inmar_scope.Manager.Removing.{take_from_subbands, take_from_workers}
use inmar_scope.Manager.Control.{
  all_of_subbands, all_of_workers, map_decoders, map_worker, change_decoder, change_in_subbands,
  has_decoder, clear_worker,
}
use inmar_scope.Manager.Measure.{
  sum_of, Unseen, sum_of-append, sum_of-join, sum_of-new, sum_of-take_from_subbands,
  sum_of-map_subband, sum_of-change_in_subbands,
}

abbrev pub total : {D B : Type 0} → (Decoder D → ℕ) → List (Worker D B) → ℕ
total f ws = sum_of f (all_of_workers ws)

module _ {D B : Type 0} (f : Decoder D → ℕ) where
  pub total_cons :
      (w : Worker D B) (ws : List (Worker D B))
      → total f (w ∷ ws) ≡ sum_of f (all_of_subbands w.subbands) + total f ws
  total_cons w ws = sum_of-append f (all_of_subbands w.subbands) (all_of_workers ws)

  total-join_subband :
      (d : Decoder D) (wi si : ℕ) (ws : List (Worker D B))
      → is_place ws (some (wi, si)) ≡ true
      → total f (join_subband d wi si ws) ≡ total f ws + f d
  unfolding is_place join_subband
  total-join_subband d wi si [] h = ground arith
  total-join_subband d zero si (w ∷ ws) h =
      let joined = modify_at si (append_decoder d) w.subbands in
      omega (
        arith,
        total_cons w ws,
        total_cons (record w { subbands = joined }) ws,
        sum_of-join f d si w.subbands (ground arith),
      )
  total-join_subband d (suc wi) si (w ∷ ws) h = omega (
    arith,
    total_cons w ws,
    total_cons w (join_subband d wi si ws),
    total-join_subband d wi si ws h,
  )

  total-create_subband :
      (sb : SubBand D) (d : Decoder D) (wi : ℕ) (ws : List (Worker D B))
      → sb.decoders ≡ []
      → wi < length ws
      → total f (create_subband sb d wi ws) ≡ total f ws + f d
  unfolding create_subband
  total-create_subband sb d wi [] e h = absurd (omega arith)
  total-create_subband sb d zero (w ∷ ws) e h =
      let made = w.subbands ++ append_decoder d sb ∷ [] in
      omega (
        arith,
        total_cons w ws,
        total_cons (record w { subbands = made }) ws,
        sum_of-new f d sb w.subbands e,
      )
  total-create_subband sb d (suc wi) (w ∷ ws) e h = omega (
    arith,
    total_cons w ws,
    total_cons w (create_subband sb d wi ws),
    total-create_subband sb d wi ws e (omega arith),
  )

  pub total-take_from_workers :
      (id : ℕ) (ws : List (Worker D B)) (x : Decoder D × List (Worker D B))
      → take_from_workers id ws ≡ some x
      → total f ws ≡ total f x.1 + f x.0
  unfolding take_from_workers
  total-take_from_workers id [] x e = ground arith
  total-take_from_workers id (w ∷ ws) x e = elim (Option-cases (take_from_subbands id w.subbands)) [
    | inr ((d, sbs), here) ↦ ground (
      arith,
      here,
      total_cons w ws,
      total_cons (record w { subbands = sbs }) ws,
      sum_of-take_from_subbands f id w.subbands (d, sbs) here,
    )
    | inl later ↦ elim (Option-cases (take_from_workers id ws)) [
      | inl nothing ↦ ground (arith, later, nothing)
      | inr ((d, ws'), found) ↦ ground (
        arith,
        later,
        found,
        total_cons w ws,
        total_cons w ws',
        total-take_from_workers id ws (d, ws') found,
      )
    ]
  ]

  pub total-map_decoders :
      (g : Decoder D → Decoder D)
      → Unseen f g
      → (ws : List (Worker D B)) → total f (map_decoders g ws) ≡ total f ws
  total-map_decoders g u [] = refl
  total-map_decoders g u (w ∷ ws) = omega (
    arith,
    total_cons w ws,
    total_cons (map_worker g w) (map_decoders g ws),
    sum_of-map_subband f g u w.subbands,
    total-map_decoders g u ws,
  )

  pub total-change_decoder :
      (p : Decoder D → Bool) (g : Decoder D → Decoder D)
      → Unseen f g
      → (ws : List (Worker D B)) → total f (change_decoder p g ws) ≡ total f ws
  unfolding change_decoder
  total-change_decoder p g u [] = refl
  total-change_decoder p g u (w ∷ ws) =
      elim (Bool-cases (has_decoder p (all_of_subbands w.subbands))) [
        | inl here ↦ rw here (
            omega (
              arith,
              total_cons w ws,
              total_cons (record w { subbands = change_in_subbands p g w.subbands }) ws,
              sum_of-change_in_subbands f p g u w.subbands,
            ))
        | inr later ↦ rw later (
            omega (
              arith,
              total_cons w ws,
              total_cons w (change_decoder p g ws),
              total-change_decoder p g u ws,
            ))
      ]

  pub total-clear_worker : (ws : List (Worker D B)) → total f (map clear_worker ws) ≡ 0
  unfolding clear_worker sum_of
  total-clear_worker [] = refl
  total-clear_worker (w ∷ ws) = total-clear_worker ws

  -- A change of workers that leaves their sub-bands leaves the total.
  pub total_same :
      (g : Worker D B → Worker D B)
      → ((w : Worker D B) → (g w).subbands ≡ w.subbands)
      → (ws : List (Worker D B)) → total f (map g ws) ≡ total f ws
  total_same g same [] = refl
  total_same g same (w ∷ ws) = omega (
    arith,
    total_cons w ws,
    total_cons (g w) (map g ws),
    ap (λ (sbs : List (SubBand D)). sum_of f (all_of_subbands sbs)) (same w),
    total_same g same ws,
  )

module _ (F : Double) (B : Type 0) where
  open F use {Real}

  lightest_in_range :
      (wi : ℕ) (ws : List (Worker Real B)) (best eff : ℕ)
      → best < wi + length ws
      → lightest F B wi ws best eff < wi + length ws
  unfolding lightest
  lightest_in_range wi [] best eff h = h
  lightest_in_range wi (w ∷ ws) best eff h = ground (
    arith,
    lightest_in_range (wi + 1) ws wi (effective F B w) (omega arith),
    lightest_in_range (wi + 1) ws best eff (omega arith),
  )

  total-create_on_lightest :
      (f : Decoder Real → ℕ) (m : DecoderManager F B) (d : Decoder Real) (ws : List (Worker Real B))
      → is_empty ws ≡ false
      → total f (create_on_lightest F B m d ws) ≡ total f ws + f d
  unfolding create_on_lightest new_subband
  total-create_on_lightest f m d [] h = ground arith
  total-create_on_lightest f m d (w ∷ ws) h =
      total-create_subband f (new_subband F B m d.freq_hz) d
        (lightest F B 0 (w ∷ ws) 0 (effective F B w)) (w ∷ ws) refl
        (omega (arith, lightest_in_range 0 (w ∷ ws) 0 (effective F B w) (omega arith)))

  pub total-place_decoder :
      (f : Decoder Real → ℕ) (m : DecoderManager F B) (d : Decoder Real) (place : Option (ℕ × ℕ))
      → is_empty m.workers ≡ false
      → total f (place_decoder F B m d place) ≡ total f m.workers + f d
  unfolding place_decoder
  total-place_decoder f m d none h = total-create_on_lightest f m d m.workers h
  total-place_decoder f m d (some (wi, si)) h =
      elim (Bool-cases (is_place m.workers (some (wi, si)))) [
        | inl there ↦ rw there (total-join_subband f d wi si m.workers there)
        | inr gone ↦ rw gone (total-create_on_lightest f m d m.workers h)
      ]
