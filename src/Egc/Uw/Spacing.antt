-- ===== src/Egc/Uw/Spacing.antt =====
-- The frames that the synchroniser puts out for a stream of symbols.
use inmar_scope.Prelude.{
  ℕ, zero, suc, ◌+◌, ◌-◌, ◌*◌, ◌≤◌, ◌<◌, ◌≡◌, inl, inr, ◌∙◌, List, true, false, some, arith, min,
  take, length, length-take, length-map, leb, ◌||◌, Bool-cases, some,
}
use inmar_scope.Egc.Uw.{
  UwFrame, UwFinder, uw_frame_len, tolerance, nrm_pol, rev_pol, errors, detect, flip, found_frame,
  shift_in, push,
}
use inmar_scope.Egc.Uw.Polarity.{IsBits, errors-nrm-rev, errors_from-flip, errors-take, take-IsBits}

-- What holds of the register between two symbols.
pub record IsValid (u : UwFinder) : Type 0 where
  pub reg_len : length u.reg ≡ uw_frame_len * 2
  pub bits : IsBits u.reg

pub shift_in-IsBits : (s : ℕ) (reg : List ℕ) → s < 2 → IsBits reg → IsBits (shift_in s reg)
unfolding shift_in
shift_in-IsBits s reg h bits zero = h
shift_in-IsBits s reg h bits (suc i) = take-IsBits (uw_frame_len * 2 - 1) reg bits i

pub length-shift_in :
    (s : ℕ) (reg : List ℕ)
    → length reg ≡ uw_frame_len * 2
    → length (shift_in s reg) ≡ uw_frame_len * 2
unfolding shift_in
length-shift_in s reg e = omega (arith, length-take (uw_frame_len * 2 - 1) reg)

pub reg-push : (u : UwFinder) (s : ℕ) → (push u s).0.reg ≡ shift_in s u.reg
unfolding push
reg-push u s = ground arith

-- A symbol keeps the register valid.
pub push-IsValid : (u : UwFinder) (s : ℕ) → s < 2 → IsValid u → IsValid (push u s).0
push-IsValid u s h v = record {
  reg_len = rw (reg-push u s) (length-shift_in s u.reg v.reg_len);
  bits = rw (reg-push u s) (shift_in-IsBits s u.reg h v.bits);
}

errors-flip :
    (f : List ℕ) → IsBits f → uw_frame_len ≤ length f → errors nrm_pol (flip f) ≡ errors rev_pol f
unfolding errors
errors-flip f bits len = errors_from-flip 64 0 f bits (omega arith) (omega arith)

length-flip : (f : List ℕ) → length (flip f) ≡ length f
unfolding flip
length-flip f = length-map f _

-- Of two counts that make 128 at most one is within the tolerance, and it is the smaller.
found_one :
    (n r : ℕ)
    → n + r ≡ 128
    → leb n tolerance || leb r tolerance ≡ true
    → (leb r tolerance ≡ true → r ≡ min n r)
      × (leb r tolerance ≡ false → n ≡ min n r)
      × (min n r ≤ tolerance)
found_one n r e h = (λ p. ground arith, λ p. ground arith, ground arith)

-- The frame that is put out has the word in its normal polarity, with the errors it reports.
found_frame_lem :
    (reg : List ℕ)
    → IsBits reg
    → uw_frame_len ≤ length reg
    → (detect reg).found ≡ true
    → let f = found_frame reg (detect reg) in
      (length f.frame ≡ uw_frame_len) × (errors nrm_pol f.frame ≡ f.ber) × (f.ber ≤ tolerance)
unfolding found_frame detect
found_frame_lem reg bits len h =
    let f : List ℕ = take uw_frame_len reg in
    let full : length f ≡ uw_frame_len = omega (arith, length-take uw_frame_len reg) in
    let one = found_one (errors nrm_pol reg) (errors rev_pol reg) (errors-nrm-rev reg bits) h in
    elim (Bool-cases (leb (errors rev_pol reg) tolerance)) [
      | inl rev ↦ rw rev (
        length-flip f ∙ full,
        errors-flip f (take-IsBits uw_frame_len reg bits) (omega (arith, full))
            ∙ errors-take rev_pol reg
            ∙ one.0 rev,
        one.2,
      )
      | inr nrm ↦ rw nrm (full, errors-take nrm_pol reg ∙ one.1 nrm, one.2)
    ]

-- Whatever frame a symbol completes: it has 10368 symbols, at most 25 of the 128 symbols of the
-- unique word differ from the normal polarity, and `ber` is their number.
pub push-frame :
    (u : UwFinder) (s : ℕ) {f : UwFrame}
    → s < 2
    → IsValid u
    → (push u s).1 ≡ some f
    → (length f.frame ≡ uw_frame_len) × (errors nrm_pol f.frame ≡ f.ber) × (f.ber ≤ tolerance)
unfolding push
push-frame u s h v e =
    let reg' = shift_in s u.reg in
    ground (
      arith,
      found_frame_lem reg' (shift_in-IsBits s u.reg h v.bits)
          (omega (arith, length-shift_in s u.reg v.reg_len)),
    )
