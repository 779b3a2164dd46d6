-- ===== src/Egc/Uw/Polarity.antt =====
-- The two polarities of the unique word.
use inmar_scope.Prelude.{
  take, length-take, dec_lt, ℕ, zero, suc, ◌+◌, ◌-◌, ◌*◌, ◌≤◌, ◌<◌, ◌≡◌, refl, bit_xor, List, [],
  ◌∷◌, true, arith, get_or, ◌&&◌, ltb, ◌==◌, holds_from, holds_from_sound, length,
}
use inmar_scope.Egc.Uw.{uw_frame_len, nrm_pol, rev_pol, errors_from, errors, flip}

-- Every symbol is a bit.
abbrev pub IsBits : List ℕ → Type 0
IsBits reg = (i : ℕ) → get_or reg i 0 < 2

pub get_or_beyond : (xs : List ℕ) (i : ℕ) → length xs ≤ i → get_or xs i 0 ≡ 0
get_or_beyond [] i h = refl
get_or_beyond (x ∷ xs) zero h = absurd (omega arith)
get_or_beyond (x ∷ xs) (suc i) h = get_or_beyond xs i (omega arith)

xor_bit : (p b : ℕ) → p < 2 → b < 2 → bit_xor p b + bit_xor (1 - p) b ≡ 1
xor_bit zero zero hp hb = refl
xor_bit zero (suc zero) hp hb = refl
xor_bit zero (suc (suc b)) hp hb = absurd (omega arith)
xor_bit (suc zero) zero hp hb = refl
xor_bit (suc zero) (suc zero) hp hb = refl
xor_bit (suc zero) (suc (suc b)) hp hb = absurd (omega arith)
xor_bit (suc (suc p)) b hp hb = absurd (omega arith)

pol_table :
    holds_from
      (λ i. ltb (get_or nrm_pol i 0) 2 && (get_or rev_pol i 0 == 1 - get_or nrm_pol i 0))
      0
      64
    ≡ true
unfolding holds_from
pol_table = refl

-- A bit of the word, and the bit of the reversed word at its place.
pol_bits :
    (i : ℕ) → i < 64 → (get_or nrm_pol i 0 < 2) × (get_or rev_pol i 0 ≡ 1 - get_or nrm_pol i 0)
pol_bits i h = grind (arith, holds_from_sound _ 0 64 pol_table i (omega arith) (omega arith))

errors_from_sum :
    (left pp : ℕ) (reg : List ℕ)
    → IsBits reg
    → pp + left ≤ 64
    → errors_from nrm_pol left pp reg + errors_from rev_pol left pp reg ≡ left + left
unfolding errors_from
errors_from_sum zero pp reg bits h = refl
errors_from_sum (suc left) pp reg bits h =
    let sp : ℕ = suc left * 162 - 1 in
    let p : ℕ = get_or nrm_pol pp 0 in
    let pol = pol_bits pp (omega arith) in
    rw pol.1 (
      omega (
        arith,
        xor_bit p (get_or reg sp 0) pol.0 (bits sp),
        xor_bit p (get_or reg (sp - 1) 0) pol.0 (bits (sp - 1)),
        errors_from_sum left (pp + 1) reg bits (omega arith),
      ))

-- A symbol fits exactly one of the polarities: the two error counts make 128.
pub errors-nrm-rev : (reg : List ℕ) → IsBits reg → errors nrm_pol reg + errors rev_pol reg ≡ 128
unfolding errors
errors-nrm-rev reg bits = errors_from_sum 64 0 reg bits (omega arith)

xor_flip : (p b : ℕ) → p < 2 → b < 2 → bit_xor p (bit_xor b 1) ≡ bit_xor (1 - p) b
xor_flip zero zero hp hb = refl
xor_flip zero (suc zero) hp hb = refl
xor_flip zero (suc (suc b)) hp hb = absurd (omega arith)
xor_flip (suc zero) zero hp hb = refl
xor_flip (suc zero) (suc zero) hp hb = refl
xor_flip (suc zero) (suc (suc b)) hp hb = absurd (omega arith)
xor_flip (suc (suc p)) b hp hb = absurd (omega arith)

get_or-flip : (f : List ℕ) (i : ℕ) → i < length f → get_or (flip f) i 0 ≡ bit_xor (get_or f i 0) 1
unfolding flip
get_or-flip [] i h = absurd (omega arith)
get_or-flip (b ∷ f) zero h = refl
get_or-flip (b ∷ f) (suc i) h = get_or-flip f i (omega arith)

-- The word in a flipped frame has the errors of the reversed word in the frame.
pub errors_from-flip :
    (left pp : ℕ) (f : List ℕ)
    → IsBits f
    → pp + left ≤ 64
    → left * 162 ≤ length f
    → errors_from nrm_pol left pp (flip f) ≡ errors_from rev_pol left pp f
unfolding errors_from
errors_from-flip zero pp f bits h len = refl
errors_from-flip (suc left) pp f bits h len =
    let sp : ℕ = suc left * 162 - 1 in
    let p : ℕ = get_or nrm_pol pp 0 in
    let pol = pol_bits pp (omega arith) in
    rw (pol.1, get_or-flip f sp (omega arith), get_or-flip f (sp - 1) (omega arith))
      (omega (
        arith,
        xor_flip p (get_or f sp 0) pol.0 (bits sp),
        xor_flip p (get_or f (sp - 1) 0) pol.0 (bits (sp - 1)),
        errors_from-flip left (pp + 1) f bits (omega arith) (omega arith),
      ))

get_or-take : (n : ℕ) (xs : List ℕ) (i : ℕ) → i < n → get_or (take n xs) i 0 ≡ get_or xs i 0
get_or-take zero xs i h = absurd (omega arith)
get_or-take (suc n) [] i h = refl
get_or-take (suc n) (x ∷ xs) zero h = refl
get_or-take (suc n) (x ∷ xs) (suc i) h = get_or-take n xs i (omega arith)

-- Only the newest 10368 symbols are looked at.
errors_from-take :
    (pol : List ℕ) (left pp n : ℕ) (reg : List ℕ)
    → left * 162 ≤ n
    → errors_from pol left pp (take n reg) ≡ errors_from pol left pp reg
unfolding errors_from
errors_from-take pol zero pp n reg h = refl
errors_from-take pol (suc left) pp n reg h = rw (
  get_or-take n reg (suc left * 162 - 1) (omega arith),
  get_or-take n reg (suc left * 162 - 1 - 1) (omega arith),
  errors_from-take pol left (pp + 1) n reg (omega arith),
)

pub errors-take : (pol reg : List ℕ) → errors pol (take uw_frame_len reg) ≡ errors pol reg
unfolding errors
errors-take pol reg = errors_from-take pol 64 0 uw_frame_len reg (omega arith)

pub take-IsBits : (n : ℕ) (reg : List ℕ) → IsBits reg → IsBits (take n reg)
take-IsBits n reg bits i = elim (dec_lt i n) [
  | yes h ↦ rw (get_or-take n reg i h) (bits i)
  | no h ↦ rw (get_or_beyond (take n reg) i (omega (arith, length-take n reg))) (omega arith)
]
