-- ===== src/Version/Lexical.antt =====
-- Versions are ordered by their fields.
use inmar_scope.Prelude.{
  ℕ, zero, suc, ◌+◌, ◌-◌, ◌≤◌, ◌≡◌, ◌≢◌, refl, sym, ap, ◌∙◌, [], ◌∷◌, true, ltb, ◌==◌,
  if◌then◌else◌, length, Text, arith, dec_lt,
}
use inmar_scope.Version.{
  zero_long, after_point, field, Order, less, equal, greater, compare_from, cmp_version,
}

-- The field at place `k`; behind the last field stand zeros.
unfoldable pub nth_field : Text → ℕ → ℕ
nth_field s zero = field s
nth_field s (suc k) = nth_field (after_point s) k

-- The order by the first of `n` fields that differ.
unfoldable pub lexical : ℕ → (ℕ → ℕ) → (ℕ → ℕ) → Order
lexical zero f g = equal
lexical (suc n) f g =
    let rest = lexical n (λ k. f (suc k)) (λ k. g (suc k)) in
    if f 0 == g 0 then rest else if ltb (g 0) (f 0) then greater else less

unfoldable pub opposite : Order → Order
opposite less = greater
opposite equal = equal
opposite greater = less

lexical_refl : (n : ℕ) (f g : ℕ → ℕ) → ((k : ℕ) → f k ≡ g k) → lexical n f g ≡ equal
unfolding lexical
lexical_refl zero f g e = refl
lexical_refl (suc n) f g e =
    let same : (f 0 == g 0) ≡ true = ground (arith, e 0) in
    rw same (lexical_refl n (λ k. f (suc k)) (λ k. g (suc k)) (λ k. e (suc k)))

lexical-opposite : (n : ℕ) (f g : ℕ → ℕ) → lexical n g f ≡ opposite (lexical n f g)
unfolding lexical opposite
lexical-opposite zero f g = refl
lexical-opposite (suc n) f g = ground (arith, lexical-opposite n (λ k. f (suc k)) (λ k. g (suc k)))

lexical_trans :
    (n : ℕ) (f g h : ℕ → ℕ)
    → lexical n f g ≢ greater
    → lexical n g h ≢ greater
    → lexical n f h ≢ greater
unfolding lexical
lexical_trans zero f g h p q = p
lexical_trans (suc n) f g h p q =
    ground (arith, p, q, lexical_trans n (λ k. f (suc k)) (λ k. g (suc k)) (λ k. h (suc k)))

lexical_more :
    (n j : ℕ) (f g : ℕ → ℕ) → ((k : ℕ) → n ≤ k → f k ≡ g k) → lexical (n + j) f g ≡ lexical n f g
unfolding lexical
lexical_more zero j f g e =
    let z : 0 + j ≡ j = omega arith in
    ap (λ (m : ℕ). lexical m f g) z ∙ lexical_refl j f g (λ k. e k (omega arith))
lexical_more (suc n) j f g e =
    let z : suc n + j ≡ suc (n + j) = omega arith in
    ap (λ (m : ℕ). lexical m f g) z
    ∙ rw (lexical_more n j (λ k. f (suc k)) (λ k. g (suc k)) (λ k h. e (suc k) (omega arith))) refl

length-after_point : (c : ℕ) (s : Text) → length (after_point (c ∷ s)) ≤ length s
unfolding after_point
length-after_point c [] = ground arith
length-after_point c (d ∷ s) = ground (arith, length-after_point d s)

nth_field_beyond : (s : Text) (k : ℕ) → length s ≤ k → nth_field s k ≡ zero_long
unfolding nth_field field after_point
nth_field_beyond [] zero h = refl
nth_field_beyond [] (suc k) h = nth_field_beyond [] k (omega arith)
nth_field_beyond (c ∷ s) zero h = absurd (omega arith)
nth_field_beyond (c ∷ s) (suc k) h =
    nth_field_beyond (after_point (c ∷ s)) k (omega (arith, length-after_point c s))

compare_from-lexical :
    (rounds : ℕ) (a b : Text) → compare_from rounds a b ≡ lexical rounds (nth_field a) (nth_field b)
unfolding compare_from lexical nth_field
compare_from-lexical zero a b = refl
compare_from-lexical (suc rounds) [] [] =
    sym (lexical_refl (suc rounds) (nth_field []) (nth_field []) (λ k. refl))
compare_from-lexical (suc rounds) [] (d ∷ t) =
    rw (compare_from-lexical rounds (after_point []) (after_point (d ∷ t))) refl
compare_from-lexical (suc rounds) (c ∷ s) [] =
    rw (compare_from-lexical rounds (after_point (c ∷ s)) (after_point [])) refl
compare_from-lexical (suc rounds) (c ∷ s) (d ∷ t) =
    rw (compare_from-lexical rounds (after_point (c ∷ s)) (after_point (d ∷ t))) refl

-- The comparison of two versions is that of their fields, the missing ones 0, by the first field that
-- differs among any number of them that is at least the length of both texts.
pub cmp_version-lexical :
    (a b : Text) (n : ℕ)
    → length a ≤ n
    → length b ≤ n
    → cmp_version a b ≡ lexical n (nth_field a) (nth_field b)
unfolding cmp_version
cmp_version-lexical a b n ha hb =
    let f = nth_field a in
    let g = nth_field b in
    let both = length a + length b in
    let agree = λ (k : ℕ) (ka : length a ≤ k) (kb : length b ≤ k).
      nth_field_beyond a k ka ∙ sym (nth_field_beyond b k kb) in
    compare_from-lexical both a b ∙ elim (dec_lt n both) [
      | yes fewer ↦
          let e : n + (both - n) ≡ both = omega arith in
          ap (λ (m : ℕ). lexical m f g) (sym e)
          ∙ lexical_more n (both - n) f g (λ k h. agree k (omega arith) (omega arith))
      | no more ↦
          let e : both + (n - both) ≡ n = omega arith in
          sym (lexical_more both (n - both) f g (λ k h. agree k (omega arith) (omega arith)))
          ∙ ap (λ (m : ℕ). lexical m f g) e
    ]

-- The comparison is antisymmetric: with its arguments swapped it gives the opposite result.
pub cmp_version-opposite : (a b : Text) → cmp_version b a ≡ opposite (cmp_version a b)
cmp_version-opposite a b =
    let n = length a + length b in
    cmp_version-lexical b a n (omega arith) (omega arith)
    ∙ lexical-opposite n (nth_field a) (nth_field b)
    ∙ ap opposite (sym (cmp_version-lexical a b n (omega arith) (omega arith)))

-- The comparison is transitive: if `a` is not greater than `b` and `b` not greater than `c`, then `a`
-- is not greater than `c`.
pub cmp_version_trans :
    (a b c : Text)
    → cmp_version a b ≢ greater
    → cmp_version b c ≢ greater
    → cmp_version a c ≢ greater
cmp_version_trans a b c p q =
    let n = length a + length b + length c in
    let ab = cmp_version-lexical a b n (omega arith) (omega arith) in
    let bc = cmp_version-lexical b c n (omega arith) (omega arith) in
    let ac = cmp_version-lexical a c n (omega arith) (omega arith) in
    rw ac (
      lexical_trans n (nth_field a) (nth_field b) (nth_field c) (λ e. p (ab ∙ e)) (λ e. q (bc ∙ e)))
