-- ===== src/Dsp/Ddc/Tests.antt =====
-- The decimations of common receivers.
use inmar_scope.Prelude.{◌+◌, ◌/◌, ◌≤◌, ◌≡◌, refl, [], ◌∷◌}
use inmar_scope.Dsp.Ddc.{
  divide_out, rough_part, small_factors, nearest_small, total_decimation, stage_factor,
  split_factors, nonempty_factors, stage_factors,
}
use inmar_scope.Dsp.Ddc.Smooth.{wanted}
use inmar_scope.Dsp.Ddc.Factors.{Smooth, product, product-total_decimation}

-- 2.048 MHz to 48 kHz: 43 is prime, and 42 is near.
forty_three : stage_factors (total_decimation 43) ≡ 7 ∷ 6 ∷ []
unfolding total_decimation nearest_small small_factors rough_part divide_out stage_factors
    split_factors stage_factor nonempty_factors
forty_three = refl

product-total_decimation_example :
    (product (stage_factors (total_decimation 43)) ≡ total_decimation 43)
    × Smooth (total_decimation 43)
    × (total_decimation 43 ≤ wanted 43 + (wanted 43 / 2 + 1))
    × (wanted 43 ≤ total_decimation 43 + (wanted 43 / 2 + 1))
product-total_decimation_example = product-total_decimation 43
