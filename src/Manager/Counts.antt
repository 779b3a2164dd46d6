-- ===== src/Manager/Counts.antt =====
-- The counters of the workers beside their decoders.
use inmar_scope.Prelude.{
  ℕ, zero, suc, ◌+◌, ◌≤◌, ◌≡◌, refl, arith, List, [], ◌∷◌, map, Bool, true, Option, none, some,
  length, Bool-cases, Option-cases, inl, inr, replicate,
}
use inmar_scope.Double.{Double}
use inmar_scope.Manager.{Decoder, SubBand, Worker, DecoderManager, decoder_weight, modify_at}
use inmar_scope.Manager.Adding.{
  place_decoder, join_subband, create_subband, create_on_lightest, is_place, new_subband,
  append_decoder, counted, lightest, effective,
}
use inmar_scope.Manager.Removing.{take_from_subbands, take_from_workers}
use inmar_scope.Manager.Control.{
  all_of_subbands, map_decoders, change_decoder, has_decoder, feed_worker, clear_worker, new_worker,
  take_block,
}
use inmar_scope.Manager.Measure.{
  sum_of, Unseen, sum_of-join, sum_of-new, sum_of-take_from_subbands, sum_of-map_subband,
  sum_of-change_in_subbands,
}

-- The weight that a decoder adds, and the 1 that it counts.
abbrev pub weight_of : {D : Type 0} → Decoder D → ℕ
weight_of d = decoder_weight d.baud

abbrev pub one_of : {D : Type 0} → Decoder D → ℕ
one_of d = 1

-- The count is the number of decoders and the weight at least theirs. The weight may be greater,
-- since `removeAll` leaves it.
pub record IsCounted {D B : Type 0} (w : Worker D B) : Type 0 where
  pub exact : w.count ≡ sum_of one_of (all_of_subbands w.subbands)
  pub enough : sum_of weight_of (all_of_subbands w.subbands) ≤ w.weight

abbrev pub AllCounted : {D B : Type 0} → List (Worker D B) → Type 0
AllCounted [] = Unit {0}
AllCounted (w ∷ ws) = IsCounted w × AllCounted ws

pub length-sum_of : {D : Type 0} (ds : List (Decoder D)) → sum_of one_of ds ≡ length ds
unfolding sum_of
length-sum_of [] = refl
length-sum_of (d ∷ ds) = omega (arith, length-sum_of ds)

pub replicate-AllCounted :
    (D B : Type 0) (n : ℕ) → AllCounted (replicate n (new_worker {D = D} {B = B}))
unfolding sum_of
replicate-AllCounted D B zero = tt
replicate-AllCounted D B (suc n) =
    (record { exact = refl; enough = omega arith }, replicate-AllCounted D B n)

module _ {D B : Type 0} where
  -- A worker whose sub-bands have gained the decoder.
  gained :
      (d : Decoder D) (sbs : List (SubBand D)) (w : Worker D B)
      → ((f : Decoder D → ℕ)
          → sum_of f (all_of_subbands sbs) ≡ sum_of f (all_of_subbands w.subbands) + f d)
      → IsCounted w
      → IsCounted (counted d.baud (record w { subbands = sbs }))
  gained d sbs w more c = record {
    exact = omega (arith, more one_of, c.exact);
    enough = omega (arith, more weight_of, c.enough);
  }

  pub join_subband-AllCounted :
      (d : Decoder D) (wi si : ℕ) (ws : List (Worker D B))
      → is_place ws (some (wi, si)) ≡ true
      → AllCounted ws
      → AllCounted (join_subband d wi si ws)
  unfolding is_place join_subband
  join_subband-AllCounted d wi si [] h c = tt
  join_subband-AllCounted d zero si (w ∷ ws) h c = (
    gained d (modify_at si (append_decoder d) w.subbands) w
        (λ f. sum_of-join f d si w.subbands (ground arith)) c.0,
    c.1,
  )
  join_subband-AllCounted d (suc wi) si (w ∷ ws) h c =
      (c.0, join_subband-AllCounted d wi si ws h c.1)

  pub create_subband-AllCounted :
      (sb : SubBand D) (d : Decoder D) (wi : ℕ) (ws : List (Worker D B))
      → sb.decoders ≡ []
      → AllCounted ws
      → AllCounted (create_subband sb d wi ws)
  unfolding create_subband
  create_subband-AllCounted sb d wi [] e c = tt
  create_subband-AllCounted sb d zero (w ∷ ws) e c =
      (gained d _ w (λ f. sum_of-new f d sb w.subbands e) c.0, c.1)
  create_subband-AllCounted sb d (suc wi) (w ∷ ws) e c =
      (c.0, create_subband-AllCounted sb d wi ws e c.1)

  -- What is left when the decoder is there.
  abbrev pub Left : Option (Decoder D × List (Worker D B)) → Type 0
  Left none = Unit {0}
  Left (some (found, ws)) = AllCounted ws

  pub take_from_workers-Left :
      (id : ℕ) (ws : List (Worker D B)) → AllCounted ws → Left (take_from_workers id ws)
  unfolding take_from_workers
  take_from_workers-Left id [] c = tt
  take_from_workers-Left id (w ∷ ws) c = elim (Option-cases (take_from_subbands id w.subbands)) [
    | inr ((d, sbs), here) ↦
        rw (here, Left)
          (
            record {
              exact =
                  omega (
                    arith,
                    sum_of-take_from_subbands one_of id w.subbands (d, sbs) here,
                    c.0.exact,
                  );
              enough = omega (
                arith,
                sum_of-take_from_subbands weight_of id w.subbands (d, sbs) here,
                c.0.enough,
              );
            },
            c.1,
          )
    | inl later ↦
        rw (later, Left)
          (elim (Option-cases (take_from_workers id ws)) [
            | inl nothing ↦ rw (nothing, Left) tt
            | inr ((d, ws'), found) ↦
                let kept : Left (some (d, ws')) =
                  rw (found, Left) at (take_from_workers-Left id ws c.1) in
                rw (found, Left) (c.0, kept)
          ])
  ]

  -- The loops over all decoders leave the counters.
  pub map_decoders-AllCounted :
      (g : Decoder D → Decoder D)
      → Unseen weight_of g
      → (ws : List (Worker D B)) → AllCounted ws
      → AllCounted (map_decoders g ws)
  map_decoders-AllCounted g u [] c = tt
  map_decoders-AllCounted g u (w ∷ ws) c = (
    record {
      exact = omega (arith, c.0.exact, sum_of-map_subband one_of g (λ d. refl) w.subbands);
      enough = omega (arith, c.0.enough, sum_of-map_subband weight_of g u w.subbands);
    },
    map_decoders-AllCounted g u ws c.1,
  )

  pub change_decoder-AllCounted :
      (p : Decoder D → Bool) (g : Decoder D → Decoder D)
      → Unseen weight_of g
      → (ws : List (Worker D B)) → AllCounted ws
      → AllCounted (change_decoder p g ws)
  unfolding change_decoder
  change_decoder-AllCounted p g u [] c = tt
  change_decoder-AllCounted p g u (w ∷ ws) c =
      elim (Bool-cases (has_decoder p (all_of_subbands w.subbands))) [
        | inl here ↦ rw here (
          record {
            exact =
                omega
                  (arith, c.0.exact, sum_of-change_in_subbands one_of p g (λ d. refl) w.subbands);
            enough =
                omega (arith, c.0.enough, sum_of-change_in_subbands weight_of p g u w.subbands);
          },
          c.1,
        )
        | inr later ↦ rw later (c.0, change_decoder-AllCounted p g u ws c.1)
      ]

  pub clear_worker-AllCounted : (ws : List (Worker D B)) → AllCounted (map clear_worker ws)
  unfolding clear_worker sum_of
  clear_worker-AllCounted [] = tt
  clear_worker-AllCounted (w ∷ ws) =
      (record { exact = refl; enough = omega arith }, clear_worker-AllCounted ws)

  pub feed_worker-AllCounted :
      (b : B) (ws : List (Worker D B)) → AllCounted ws → AllCounted (map (feed_worker b) ws)
  unfolding feed_worker
  feed_worker-AllCounted b [] c = tt
  feed_worker-AllCounted b (w ∷ ws) c = (ground (arith, c.0), feed_worker-AllCounted b ws c.1)

  pub take_block-AllCounted :
      (wi : ℕ) (ws : List (Worker D B))
      → AllCounted ws
      → AllCounted (modify_at wi (λ w. (take_block w).1) ws)
  unfolding take_block
  take_block-AllCounted wi [] c = tt
  take_block-AllCounted zero (w ∷ ws) c =
      elim w.queue as (λ q. IsCounted (take_block (record w { queue = q })).1 × AllCounted ws) [
        | [] ↦ (record { exact = c.0.exact; enough = c.0.enough }, c.1)
        | b ∷ bs ↦ (record { exact = c.0.exact; enough = c.0.enough }, c.1)
      ]
  take_block-AllCounted (suc wi) (w ∷ ws) c = (c.0, take_block-AllCounted wi ws c.1)

module _ (F : Double) (B : Type 0) where
  open F use {Real}

  create_on_lightest-AllCounted :
      (m : DecoderManager F B) (d : Decoder Real) (ws : List (Worker Real B))
      → AllCounted ws
      → AllCounted (create_on_lightest F B m d ws)
  unfolding create_on_lightest new_subband
  create_on_lightest-AllCounted m d [] c = tt
  create_on_lightest-AllCounted m d (w ∷ ws) c =
      create_subband-AllCounted (new_subband F B m d.freq_hz) d
        (lightest F B 0 (w ∷ ws) 0 (effective F B w)) (w ∷ ws) refl c

  pub place_decoder-AllCounted :
      (m : DecoderManager F B) (d : Decoder Real) (place : Option (ℕ × ℕ))
      → AllCounted m.workers
      → AllCounted (place_decoder F B m d place)
  unfolding place_decoder
  place_decoder-AllCounted m d none c = create_on_lightest-AllCounted m d m.workers c
  place_decoder-AllCounted m d (some (wi, si)) c =
      elim (Bool-cases (is_place m.workers (some (wi, si)))) [
        | inl there ↦ rw there (join_subband-AllCounted d wi si m.workers there c)
        | inr gone ↦ rw gone (create_on_lightest-AllCounted m d m.workers c)
      ]
