-- ===== src/Egc/Scramble.antt =====
-- `descramble` of src/decode/egc/egc_decoder.cpp: the bits of each byte reversed, and groups of four
-- bytes inverted by a shift register.
pub mod Sender
pub mod Inverse
mod Tests
use inmar_scope.Prelude.{
  ℕ, zero, suc, ◌+◌, ◌-◌, ◌*◌, ◌/◌, ◌%◌, ◌^◌, bit_xor, List, [], ◌∷◌, ◌++◌, map, ◌==◌,
  if◌then◌else◌, take, drop,
}
use inmar_scope.Egc.Fields.{read_bytes}

-- The loop of `inv` from bit `b`; the bits that it sets are different ones.
unfoldable pub inv_from : ℕ → ℕ → ℕ → ℕ
inv_from n b zero = 0
inv_from n b (suc left) = n / 2 ^ b % 2 * 2 ^ (7 - b) + inv_from n (b + 1) left

unfoldable pub inv : ℕ → ℕ
unfolding inv_from
inv n = inv_from n 0 8

-- The next state of the register of 8 bits.
unfoldable pub next_reg : ℕ → ℕ
next_reg reg =
    let nb = bit_xor (bit_xor (bit_xor (reg % 2) (reg / 4 % 2)) (reg / 8 % 2)) (reg / 16 % 2) in
    reg / 2 + nb * 128

-- `ds`
unfoldable pub scramble_bits : ℕ → ℕ → List ℕ
unfolding next_reg
scramble_bits zero reg = []
scramble_bits (suc left) reg = reg % 2 ∷ scramble_bits left (next_reg reg)

-- `~`, in a byte.
unfoldable pub invert : ℕ → ℕ
invert n = 255 - n

-- The last loop, on the bytes from `jj` on.
unfoldable pub invert_groups : List ℕ → List ℕ → List ℕ
unfolding invert
invert_groups [] bytes = bytes
invert_groups (d ∷ ds) bytes =
    (if d == 1 then map invert (take 4 bytes) else take 4 bytes) ++ invert_groups ds (drop 4 bytes)

unfoldable pub descramble : List ℕ → List ℕ
unfolding inv scramble_bits invert_groups
descramble vit = invert_groups (scramble_bits 160 0x80) (map inv (read_bytes vit 0 640))
