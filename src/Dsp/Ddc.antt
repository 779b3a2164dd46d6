-- ===== src/Dsp/Ddc.antt =====
-- The choice of the decimation in `Ddc` of src/dsp/ddc.h: the total, its factors, one for each
-- stage, and the rate of the output. The filters are floating point.
pub mod Smooth
pub mod Factors
mod Tests
use inmar_scope.Prelude.{
  ℕ, zero, suc, ◌+◌, ◌-◌, ◌/◌, ◌%◌, List, [], ◌∷◌, Bool, true, false, not, ◌&&◌, ◌==◌, ltb, leb,
  if◌then◌else◌,
}
use inmar_scope.Double.{Double}

-- `while (n % p == 0) n /= p`, at most `rounds` times; `n` rounds are enough.
unfoldable pub divide_out : ℕ → ℕ → ℕ → ℕ
divide_out zero p n = n
divide_out (suc rounds) p n =
    let rest = divide_out rounds p (n / p) in if n % p == 0 then rest else n

-- The number without its factors 2, 3, 5 and 7.
unfoldable pub rough_part : ℕ → ℕ
unfolding divide_out
rough_part n =
    let n2 = divide_out n 2 n in
    let n3 = divide_out n2 3 n2 in let n5 = divide_out n3 5 n3 in divide_out n5 7 n5

unfoldable pub small_factors : ℕ → Bool
unfolding rough_part
small_factors n = rough_part n == 1

-- The loop over `delta`; without a hit the total stays.
unfoldable pub nearest_small : ℕ → ℕ → ℕ → ℕ
nearest_small zero total delta = total
nearest_small (suc rounds) total delta =
    let rest = nearest_small rounds total (delta + 1) in
    if leb 1 (total - delta) && small_factors (total - delta)
    then total - delta
    else if small_factors (total + delta)
    then total + delta
    else rest

-- `totalDecim` for the rounded quotient of the rates.
unfoldable pub total_decimation : ℕ → ℕ
unfolding nearest_small
total_decimation rounded =
    let total = if ltb rounded 1 then 1 else rounded in
    if ltb 1 total && not (small_factors total) then nearest_small (total / 2) total 1 else total

-- The greatest divisor from `cand` down to 2, or 1.
unfoldable pub stage_factor : ℕ → ℕ → ℕ
stage_factor zero rem = 1
stage_factor (suc zero) rem = 1
stage_factor (suc (suc c)) rem =
    let below = stage_factor (suc c) rem in if rem % suc (suc c) == 0 then suc (suc c) else below

-- The loop that splits `rem`, at most `rounds` times; `rem` rounds are enough.
unfoldable pub split_factors : ℕ → ℕ → List ℕ
unfolding stage_factor
split_factors zero rem = []
split_factors (suc rounds) rem =
    let f = stage_factor 8 rem in
    let rest = split_factors rounds (rem / f) in
    if ltb 1 rem then (if f == 1 then rem ∷ [] else f ∷ rest) else []

unfoldable pub nonempty_factors : List ℕ → List ℕ
nonempty_factors [] = 1 ∷ []
nonempty_factors (f ∷ fs) = f ∷ fs

unfoldable pub stage_factors : ℕ → List ℕ
unfolding split_factors nonempty_factors
stage_factors total = nonempty_factors (split_factors total total)

module _ (F : Double) where
  open F use {Real, div, of_int, lround}

  unfoldable pub rate_after : Real → List ℕ → Real
  rate_after rate [] = rate
  rate_after rate (f ∷ fs) = rate_after (div rate (of_int f)) fs

  unfoldable pub output_rate : Real → Real → Real
  unfolding rate_after
  output_rate fs target = rate_after fs (stage_factors (total_decimation (lround (div fs target))))
