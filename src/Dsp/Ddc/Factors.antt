-- ===== src/Dsp/Ddc/Factors.antt =====
-- The factors of the total decimation and of the stages.
use inmar_scope.Prelude.{
  ℕ, zero, suc, ◌+◌, ◌*◌, ◌/◌, ◌%◌, ◌≤◌, ◌<◌, ◌≡◌, refl, sym, ap, ◌∙◌, arith, List, [], ◌∷◌, true,
  false, ◌==◌, ℕ_discrete, ltb, if_either,
}
use mathlib.Core.Path.{subst}
use native.Mathlib.Nat.{div-add-mod, div-lt_self}
use inmar_scope.Dsp.Ddc.Smooth.{wanted, total_decimation-small_factors}
use inmar_scope.Dsp.Ddc.{
  divide_out, rough_part, small_factors, total_decimation, stage_factor, split_factors,
  nonempty_factors, stage_factors,
}

unfoldable pub product : List ℕ → ℕ
product [] = 1
product (f ∷ fs) = f * product fs

-- A divisor from 1 to `most`.
record Divides (most f rem : ℕ) : Type 0 where
  low : 1 ≤ f
  high : f ≤ most
  exact : f * (rem / f) ≡ rem

stage_factor-Divides : (c rem : ℕ) → Divides (suc c) (stage_factor (suc c) rem) rem
unfolding stage_factor
stage_factor-Divides zero rem = record {
  low = omega arith;
  high = omega arith;
  exact = omega arith;
}
stage_factor-Divides (suc c) rem =
    let d = stage_factor-Divides c rem in
    if_either (λ (f : ℕ). Divides (suc (suc c)) f rem) (rem % suc (suc c) == 0)
      (λ even. record {
        low = omega arith;
        high = omega arith;
        exact =
            let none_left : rem % suc (suc c) ≡ 0 = ground (arith, even) in
            omega (arith, none_left, div-add-mod rem (suc (suc c)));
      })
      (λ odd. record { low = d.low; high = omega (arith, d.high); exact = d.exact })

-- The quotient by a factor other than 1 is smaller.
split_less :
    (f rem : ℕ) → Divides 8 f rem → (f == 1) ≡ false → 1 < rem → (1 ≤ rem / f) × (rem / f < rem)
split_less f rem d more big =
    let two : 2 ≤ f = ground (arith, d.low, more) in
    (
      elim (ℕ_discrete (rem / f) 0) [
        | yes none_left ↦
            let gone : rem ≡ 0 = sym d.exact ∙ ap (λ (q : ℕ). f * q) none_left ∙ omega arith in
            absurd (omega (arith, gone))
        | no some_left ↦ omega arith
      ],
      div-lt_self (omega arith) two,
    )

product-split_factors :
    (rounds rem : ℕ) → rem ≤ rounds → 1 ≤ rem → product (split_factors rounds rem) ≡ rem
unfolding split_factors product
product-split_factors zero rem h pos = absurd (omega arith)
product-split_factors (suc rounds) rem h pos =
    let d = stage_factor-Divides 7 rem in
    if_either (λ (fs : List ℕ). product fs ≡ rem) (ltb 1 rem)
      (λ big.
        if_either (λ (fs : List ℕ). product fs ≡ rem) (stage_factor 8 rem == 1)
          (λ prime. omega arith)
          (λ more.
            let less = split_less (stage_factor 8 rem) rem d more (ground (arith, big)) in
            ap (λ (k : ℕ). stage_factor 8 rem * k)
              (product-split_factors rounds (rem / stage_factor 8 rem) (omega (arith, less.1))
                less.0)
            ∙ d.exact))
      (λ small. ground (arith, small))

product-nonempty_factors : (fs : List ℕ) → product (nonempty_factors fs) ≡ product fs
unfolding product nonempty_factors
product-nonempty_factors [] = refl
product-nonempty_factors (f ∷ fs) = refl

product-stage_factors : (total : ℕ) → 1 ≤ total → product (stage_factors total) ≡ total
unfolding stage_factors
product-stage_factors total pos =
    product-nonempty_factors (split_factors total total)
    ∙ product-split_factors total total (omega arith) pos

small_pos : (n : ℕ) → small_factors n ≡ true → 1 ≤ n
small_pos zero h = unfold small_factors rough_part divide_out in absurd (cc h)
small_pos (suc n) h = omega arith

-- The numbers that are a product of factors 2, 3, 5 and 7.
pub data Smooth : ℕ → Type 0 where
  one : Smooth 1
  two : {n : ℕ} → Smooth n → Smooth (2 * n)
  three : {n : ℕ} → Smooth n → Smooth (3 * n)
  five : {n : ℕ} → Smooth n → Smooth (5 * n)
  seven : {n : ℕ} → Smooth n → Smooth (7 * n)

-- Dividing out a factor that `Smooth` allows takes away nothing else.
divide_out-Smooth :
    (p : ℕ)
    → 1 ≤ p
    → ((n : ℕ) → Smooth n → Smooth (p * n))
    → (rounds n : ℕ) → Smooth (divide_out rounds p n)
    → Smooth n
unfolding divide_out
divide_out-Smooth p pos times zero n = λ h. h
divide_out-Smooth p pos times (suc rounds) n =
    if_either (λ (m : ℕ). Smooth m → Smooth n) (n % p == 0)
      (λ exact h.
        let whole : p * (n / p) ≡ n =
          let left : n % p ≡ 0 = ground (arith, exact) in omega (arith, left, div-add-mod n p) in
        subst Smooth whole (times (n / p) (divide_out-Smooth p pos times rounds (n / p) h)))
      (λ stop h. h)

small_factors-Smooth : (n : ℕ) → small_factors n ≡ true → Smooth n
unfolding small_factors rough_part
small_factors-Smooth n h =
    let n2 = divide_out n 2 n in
    let n3 = divide_out n2 3 n2 in
    let n5 = divide_out n3 5 n3 in
    let none_left : 1 ≡ divide_out n5 7 n5 = ground (arith, h) in
    divide_out-Smooth 2 (omega arith) (λ m. two) n n
      (divide_out-Smooth 3 (omega arith) (λ m. three) n2 n2
        (divide_out-Smooth 5 (omega arith) (λ m. five) n3 n3
          (divide_out-Smooth 7 (omega arith) (λ m. seven) n5 n5 (subst Smooth none_left one))))

-- The total decimation of `Ddc` is a product of factors 2, 3, 5 and 7, differs from the rounded
-- quotient of the rates, or from 1 if that is 0, by at most half of it and one, and the factors of
-- the stages, found in as many rounds, multiply to it.
pub product-total_decimation :
    (rounded : ℕ)
    → (product (stage_factors (total_decimation rounded)) ≡ total_decimation rounded)
      × Smooth (total_decimation rounded)
      × (total_decimation rounded ≤ wanted rounded + (wanted rounded / 2 + 1))
      × (wanted rounded ≤ total_decimation rounded + (wanted rounded / 2 + 1))
product-total_decimation rounded =
    let smooth = total_decimation-small_factors rounded in
    (
      product-stage_factors (total_decimation rounded)
          (small_pos (total_decimation rounded) smooth.0),
      small_factors-Smooth (total_decimation rounded) smooth.0,
      smooth.1,
      smooth.2,
    )
