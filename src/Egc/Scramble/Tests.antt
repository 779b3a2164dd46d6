-- ===== src/Egc/Scramble/Tests.antt =====
-- The scrambler on a frame of zeros.
use inmar_scope.Prelude.{ℕ, zero, suc, ◌≡◌, refl, [], ◌∷◌, arith, replicate, length-replicate}
use inmar_scope.Egc.Scramble.{inv, inv_from, next_reg, scramble_bits, descramble}
use inmar_scope.Egc.Scramble.Sender.{AllBytes, scramble}
use inmar_scope.Egc.Scramble.Inverse.{descramble-scramble}

reversed : inv 0x2f ≡ 0xf4
unfolding inv inv_from
reversed = refl

first_bits : scramble_bits 10 0x80 ≡ 0 ∷ 0 ∷ 0 ∷ 0 ∷ 0 ∷ 0 ∷ 0 ∷ 1 ∷ 0 ∷ 0 ∷ []
unfolding scramble_bits next_reg
first_bits = refl

replicate-AllBytes : (n : ℕ) → AllBytes (replicate n 0x55)
unfolding AllBytes
replicate-AllBytes zero = omega arith
replicate-AllBytes (suc n) = (omega arith, replicate-AllBytes n)

descramble-scramble_example : descramble (scramble (replicate 640 0x55)) ≡ replicate 640 0x55
descramble-scramble_example =
    descramble-scramble (replicate 640 0x55) (replicate-AllBytes 640)
      (length-replicate {A = ℕ} 640 0x55)
