-- ===== src/Egc/Scramble/Sender.antt =====
-- A sender whose frames `descramble` is for.
use inmar_scope.Prelude.{
  ℕ, zero, suc, ◌+◌, ◌*◌, ◌/◌, ◌%◌, ◌≤◌, ◌<◌, ◌≡◌, refl, List, [], ◌∷◌, ◌++◌, map, true, ◌&&◌, ◌==◌,
  if◌then◌else◌, length, arith, Bool-cases, inl, inr, get_or, bit_xor, holds_from, holds_from_sound,
}
use mathlib.Core.Path.{ap₂}
use inmar_scope.Egc.Scramble.{inv_from, inv, next_reg, scramble_bits, invert, invert_groups}

-- Every number of the list is a byte.
unfoldable pub AllBytes : List ℕ → Type 0
AllBytes [] = 0 ≤ 0
AllBytes (b ∷ bs) = (b < 256) × AllBytes bs

-- The scrambler of the sender, on its own terms. The bits of a byte, the lowest first.
abbrev pub low_first : ℕ → ℕ → List ℕ
low_first zero b = []
low_first (suc n) b = b % 2 ∷ low_first n (b / 2)

-- The number with these bits, the highest first, behind those of `n`.
abbrev pub high_first : ℕ → List ℕ → ℕ
high_first n [] = n
high_first n (d ∷ ds) = high_first (n * 2 + d) ds

-- The low bit of a byte goes first, into the high place.
abbrev pub sent_bits : ℕ → ℕ
sent_bits b = high_first 0 (low_first 8 b)

-- The key: each bit is the sum modulo 2 of those that came 8, 6, 5 and 4 places before it; `window` is
-- the last 8 bits.
unfoldable pub key_bits : ℕ → List ℕ → List ℕ
key_bits zero window = []
key_bits (suc n) [] = []
key_bits (suc n) (k ∷ window) =
    let next = (k + get_or window 1 0 + get_or window 2 0 + get_or window 3 0) % 2 in
    k ∷ key_bits n (window ++ next ∷ [])

-- It begins with seven zeros and a one, and has a bit for each group.
abbrev pub key : List ℕ
key = key_bits 160 (0 ∷ 0 ∷ 0 ∷ 0 ∷ 0 ∷ 0 ∷ 0 ∷ 1 ∷ [])

-- Each bit of the key is added to all bits of a group of four bytes.
unfoldable pub add_key : List ℕ → List ℕ → List ℕ
add_key (k ∷ ks) (a ∷ b ∷ c ∷ d ∷ bytes) =
    let mask = if k == 1 then 0xff else 0 in
    bit_xor a mask ∷ bit_xor b mask ∷ bit_xor c mask ∷ bit_xor d mask ∷ add_key ks bytes
add_key ks bytes = bytes

unfoldable pub scramble : List ℕ → List ℕ
unfolding add_key key_bits
scramble bytes = map sent_bits (add_key key bytes)

pub key-scramble_bits : key ≡ scramble_bits 160 0x80
unfolding key_bits scramble_bits next_reg
key-scramble_bits = refl

sent_table : holds_from (λ b. sent_bits b == inv b) 0 256 ≡ true
unfolding holds_from inv inv_from
sent_table = refl

sent_bits-inv : (b : ℕ) → b < 256 → sent_bits b ≡ inv b
sent_bits-inv b h =
    ground (arith, holds_from_sound _ 0 256 sent_table b (omega arith) (omega arith))

pub map-sent_bits : (bs : List ℕ) → AllBytes bs → map sent_bits bs ≡ map inv bs
unfolding AllBytes
map-sent_bits [] a = refl
map-sent_bits (b ∷ bs) a = ap₂ (λ x xs. x ∷ xs) (sent_bits-inv b a.0) (map-sent_bits bs a.1)

xor_table : holds_from (λ b. (bit_xor b 0xff == invert b) && (bit_xor b 0 == b)) 0 256 ≡ true
unfolding holds_from invert
xor_table = refl

xor_ones : (b : ℕ) → b < 256 → (bit_xor b 0xff ≡ invert b) × (bit_xor b 0 ≡ b)
xor_ones b h =
    let t = holds_from_sound _ 0 256 xor_table b (omega arith) (omega arith) in
    (ground (arith, t), ground (arith, t))

pub add_key-invert_groups :
    (ks bs : List ℕ) → AllBytes bs → length bs ≡ length ks * 4 → add_key ks bs ≡ invert_groups ks bs
unfolding add_key invert_groups AllBytes
add_key-invert_groups [] bs a h = refl
add_key-invert_groups (k ∷ ks) [] a h = absurd (omega arith)
add_key-invert_groups (k ∷ ks) (w ∷ []) a h = absurd (omega arith)
add_key-invert_groups (k ∷ ks) (w ∷ x ∷ []) a h = absurd (omega arith)
add_key-invert_groups (k ∷ ks) (w ∷ x ∷ y ∷ []) a h = absurd (omega arith)
add_key-invert_groups (k ∷ ks) (w ∷ x ∷ y ∷ z ∷ bs) (aw, (ax, (ay, (az, rest)))) h =
    let ih = add_key-invert_groups ks bs rest (omega arith) in
    elim (Bool-cases (k == 1)) [
      | inl one ↦
          rw one
            (cc ((xor_ones w aw).0, (xor_ones x ax).0, (xor_ones y ay).0, (xor_ones z az).0, ih))
      | inr other ↦
          rw other
            (cc ((xor_ones w aw).1, (xor_ones x ax).1, (xor_ones y ay).1, (xor_ones z az).1, ih))
    ]

-- The sender by the functions of the receiver.
abbrev pub scrambled : List ℕ → List ℕ
scrambled bytes = map inv (invert_groups (scramble_bits 160 0x80) bytes)
