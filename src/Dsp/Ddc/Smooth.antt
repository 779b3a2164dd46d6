-- ===== src/Dsp/Ddc/Smooth.antt =====
-- The total decimation has no prime factor above 7.
use inmar_scope.Prelude.{
  ℕ, zero, suc, ◌+◌, ◌-◌, ◌*◌, ◌/◌, ◌%◌, ◌≤◌, ◌<◌, ◌≢◌, ◌≡◌, refl, sym, ap, ◌∙◌, arith, true, false,
  not, ◌&&◌, ltb, if◌then◌else◌, if_either, dec_lt, ℕ_discrete,
}
use inmar_scope.Dsp.Ddc.{divide_out, rough_part, small_factors, nearest_small, total_decimation}

true_ne_false : true ≢ false
true_ne_false e = cc e

-- The powers of 2.
abbrev power : ℕ → ℕ
power zero = 1
power (suc k) = 2 * power k

divide_out_one : (rounds : ℕ) → divide_out rounds 2 1 ≡ 1
unfolding divide_out
divide_out_one zero = refl
divide_out_one (suc rounds) = refl

divide_out-power : (k rounds : ℕ) → k ≤ rounds → divide_out rounds 2 (power k) ≡ 1
unfolding divide_out
divide_out-power zero rounds h = divide_out_one rounds
divide_out-power (suc k) zero h = absurd (omega arith)
divide_out-power (suc k) (suc rounds) h =
    let even : 2 * power k % 2 ≡ 0 = omega arith in
    let half : 2 * power k / 2 ≡ power k = omega arith in
    rw (even, half) (divide_out-power k rounds (omega arith))

power_above : (k : ℕ) → k + 1 ≤ power k
power_above zero = omega arith
power_above (suc k) = omega (arith, power_above k)

small_power : (k : ℕ) → small_factors (power k) ≡ true
unfolding small_factors rough_part
small_power k =
    rw (divide_out-power k (power k) (omega (arith, power_above k))) (unfold divide_out in refl)

-- The greatest power of 2 that is not above a number.
power_below : (n : ℕ) → (k : ℕ) × (power k ≤ n + 1) × (n + 1 < 2 * power k)
power_below zero = (0, omega arith, omega arith)
power_below (suc n) =
    let (k, low, high) = power_below n in
    elim (dec_lt (n + 2) (2 * power k)) [
      | yes fits ↦ (k, omega arith, omega arith)
      | no over ↦ (suc k, omega arith, omega arith)
    ]

nearest_small-small_factors :
    (rounds total delta d : ℕ)
    → delta ≤ d
    → d < delta + rounds
    → 1 ≤ total - d
    → small_factors (total - d) ≡ true
    → small_factors (nearest_small rounds total delta) ≡ true
unfolding nearest_small
nearest_small-small_factors zero total delta d low high pos hit = absurd (omega arith)
nearest_small-small_factors (suc rounds) total delta d low high pos hit =
    elim (ℕ_discrete delta d) [
      | yes here ↦
          let hit' : small_factors (total - delta) ≡ true =
            ap (λ (e : ℕ). small_factors (total - e)) here ∙ hit in
          let pos' : 1 ≤ total - delta = omega (arith, here, pos) in ground (arith, hit', pos')
      | no later ↦ ground (
        arith,
        nearest_small-small_factors rounds total (delta + 1) d (omega arith) (omega arith) pos hit,
      )
    ]

nearest_small_close :
    (rounds total delta : ℕ)
    → (nearest_small rounds total delta ≤ total + (delta + rounds))
      × (total ≤ nearest_small rounds total delta + (delta + rounds))
unfolding nearest_small
nearest_small_close zero total delta = (omega arith, omega arith)
nearest_small_close (suc rounds) total delta =
    let rest = nearest_small_close rounds total (delta + 1) in
    (ground (arith, rest.0), ground (arith, rest.1))

-- The rounded quotient, at least 1.
abbrev pub wanted : ℕ → ℕ
wanted rounded = if ltb rounded 1 then 1 else rounded

adjusted :
    (total : ℕ)
    → small_factors total ≡ false
    → 1 ≤ total
    → small_factors (nearest_small (total / 2) total 1) ≡ true
adjusted zero rough h = absurd (omega arith)
adjusted (suc n) rough h =
    let (k, low, high) = power_below n in
    elim (ℕ_discrete (suc n) (power k)) [
      | yes same ↦
          absurd (true_ne_false (sym (small_power k) ∙ sym (ap small_factors same) ∙ rough))
      | no other ↦
          let back : suc n - (suc n - power k) ≡ power k = omega arith in
          nearest_small-small_factors (suc n / 2) (suc n) 1 (suc n - power k) (omega arith)
            (omega arith) (omega (arith, power_above k)) (ap small_factors back ∙ small_power k)
    ]

wanted_small :
    (rounded : ℕ)
    → (ltb 1 (wanted rounded) && not (small_factors (wanted rounded))) ≡ false
    → small_factors (wanted rounded) ≡ true
wanted_small zero h = unfold small_factors rough_part divide_out in refl
wanted_small (suc zero) h = unfold small_factors rough_part divide_out in refl
wanted_small (suc (suc n)) h = ground (arith, h)

pub total_decimation-small_factors :
    (rounded : ℕ)
    → (small_factors (total_decimation rounded) ≡ true)
      × (total_decimation rounded ≤ wanted rounded + (wanted rounded / 2 + 1))
      × (wanted rounded ≤ total_decimation rounded + (wanted rounded / 2 + 1))
unfolding total_decimation
total_decimation-small_factors rounded =
    let t : ℕ = wanted rounded in
    let close = nearest_small_close (t / 2) t 1 in
    let P : ℕ → Type 0 =
      λ x. (small_factors x ≡ true) × (x ≤ t + (t / 2 + 1)) × (t ≤ x + (t / 2 + 1)) in
    if_either P (ltb 1 t && not (small_factors t))
      (λ rough. (
        adjusted t (ground (arith, rough)) (ground (arith, rough)),
        omega (arith, close.0),
        omega (arith, close.1),
      ))
      (λ smooth. (wanted_small rounded smooth, omega arith, omega arith))
