-- ===== src/Version/Fields.antt =====
-- Versions as they are printed: numbers in decimal digits, with points between them.
use inmar_scope.Prelude.{
  ℕ, zero, suc, ◌+◌, ◌-◌, ◌*◌, ◌^◌, ◌≤◌, ◌<◌, ◌≡◌, refl, ap, ◌∙◌, List, [], ◌∷◌, ◌++◌, map, true,
  false, ltb, ◌==◌, if◌then◌else◌, length, Text, arith, length-map,
}
use inmar_scope.Version.{
  zero_long, is_digit, digits_value, strtol, before_point, after_point, field, Order, less, equal,
  greater, cmp_version,
}
use inmar_scope.Version.Lexical.{nth_field, lexical, cmp_version-lexical}

-- The number that digits stand for, behind those of `n`.
unfoldable pub decimal : ℕ → List ℕ → ℕ
decimal n [] = n
decimal n (d ∷ ds) = decimal (n * 10 + d) ds

unfoldable pub printed_digits : List ℕ → Text
printed_digits [] = []
printed_digits (d ∷ ds) = (d + 48) ∷ printed_digits ds

-- A point stands between two numbers.
unfoldable pub printed : List (List ℕ) → Text
unfolding printed_digits
printed [] = []
printed (ds ∷ []) = printed_digits ds
printed (ds ∷ es ∷ fs) = printed_digits ds ++ 46 ∷ printed (es ∷ fs)

unfoldable pub AllDigits : List ℕ → Type 0
AllDigits [] = Unit {0}
AllDigits (d ∷ ds) = (d < 10) × AllDigits ds

-- Each number is one of digits and fits into a `long`.
unfoldable pub AllNumbers : List (List ℕ) → Type 0
AllNumbers [] = Unit {0}
AllNumbers (ds ∷ fs) = AllDigits ds × (decimal 0 ds < 2 ^ 31) × AllNumbers fs

-- The order of versions: the first numbers that differ decide, and a missing one counts as 0.
unfoldable pub version_order : List ℕ → List ℕ → Order
version_order [] [] = equal
version_order (x ∷ xs) [] = let rest = version_order xs [] in if ltb 0 x then greater else rest
version_order [] (y ∷ ys) = let rest = version_order [] ys in if ltb 0 y then less else rest
version_order (x ∷ xs) (y ∷ ys) =
    let rest = version_order xs ys in if ltb x y then less else if ltb y x then greater else rest

-- The number at a place.
abbrev nth : List ℕ → ℕ → ℕ
nth [] k = 0
nth (x ∷ xs) zero = x
nth (x ∷ xs) (suc k) = nth xs k

before_point-printed_digits :
    (ds : List ℕ) (rest : Text)
    → AllDigits ds
    → (before_point (printed_digits ds ++ 46 ∷ rest) ≡ printed_digits ds)
      × (after_point (printed_digits ds ++ 46 ∷ rest) ≡ rest)
      × (before_point (printed_digits ds) ≡ printed_digits ds)
      × (after_point (printed_digits ds) ≡ [])
unfolding before_point after_point printed_digits AllDigits
before_point-printed_digits [] rest h = (refl, refl, refl, refl)
before_point-printed_digits (d ∷ ds) rest h =
    let ih = before_point-printed_digits ds rest h.1 in
    let no : (d + 48 == 46) ≡ false = ground (arith, h.0) in
    (rw (no, ih.0) refl, rw (no, ih.1) refl, rw (no, ih.2) refl, rw (no, ih.3) refl)

digits_value-printed_digits :
    (ds : List ℕ) (n : ℕ) → AllDigits ds → digits_value n (printed_digits ds) ≡ decimal n ds
unfolding digits_value printed_digits AllDigits decimal
digits_value-printed_digits [] n h = refl
digits_value-printed_digits (d ∷ ds) n h =
    let yes_digit : is_digit (d + 48) ≡ true = ground (arith, h.0) in
    let back : d + 48 - 48 ≡ d = omega arith in
    rw (yes_digit, back) (digits_value-printed_digits ds (n * 10 + d) h.1)

strtol-printed_digits :
    (ds : List ℕ)
    → AllDigits ds
    → decimal 0 ds < 2 ^ 31
    → strtol (printed_digits ds) ≡ zero_long + decimal 0 ds
unfolding strtol printed_digits AllDigits decimal
strtol-printed_digits [] h small = refl
strtol-printed_digits (d ∷ ds) h small =
    let v = digits_value-printed_digits (d ∷ ds) 0 h in ground (arith, h.0, v, small)

field-strtol : (t : Text) → field t ≡ strtol (before_point t)
unfolding field before_point
field-strtol [] = unfold strtol in refl
field-strtol (c ∷ t) = refl

field-printed :
    (ds : List ℕ) (fs : List (List ℕ))
    → AllNumbers (ds ∷ fs)
    → field (printed (ds ∷ fs)) ≡ zero_long + decimal 0 ds
unfolding printed AllNumbers
field-printed ds [] h =
    field-strtol (printed_digits ds)
    ∙ ap strtol (before_point-printed_digits ds [] h.0).2
    ∙ strtol-printed_digits ds h.0 h.1
field-printed ds (es ∷ fs) h =
    field-strtol (printed_digits ds ++ 46 ∷ printed (es ∷ fs))
    ∙ ap strtol (before_point-printed_digits ds (printed (es ∷ fs)) h.0).0
    ∙ strtol-printed_digits ds h.0 h.1

after_point-printed :
    (ds : List ℕ) (fs : List (List ℕ))
    → AllNumbers (ds ∷ fs)
    → after_point (printed (ds ∷ fs)) ≡ printed fs
unfolding printed AllNumbers
after_point-printed ds [] h = (before_point-printed_digits ds [] h.0).3
after_point-printed ds (es ∷ fs) h = (before_point-printed_digits ds (printed (es ∷ fs)) h.0).1

-- The fields of a printed version are its numbers.
nth_field-printed :
    (fs : List (List ℕ)) (k : ℕ)
    → AllNumbers fs
    → nth_field (printed fs) k ≡ zero_long + nth (map (decimal 0) fs) k
unfolding nth_field AllNumbers printed after_point field
nth_field-printed [] zero h = refl
nth_field-printed [] (suc k) h = nth_field-printed [] k h
nth_field-printed (ds ∷ fs) zero h = field-printed ds fs h
nth_field-printed (ds ∷ fs) (suc k) h =
    ap (λ (t : Text). nth_field t k) (after_point-printed ds fs h) ∙ nth_field-printed fs k h.2

lexical-version_order :
    (n : ℕ) (xs ys : List ℕ) (f g : ℕ → ℕ)
    → length xs ≤ n
    → length ys ≤ n
    → ((k : ℕ) → f k ≡ zero_long + nth xs k)
    → ((k : ℕ) → g k ≡ zero_long + nth ys k)
    → lexical n f g ≡ version_order xs ys
unfolding lexical version_order
lexical-version_order zero [] [] f g ha hb ef eg = refl
lexical-version_order zero (x ∷ xs) ys f g ha hb ef eg = absurd (omega arith)
lexical-version_order zero [] (y ∷ ys) f g ha hb ef eg = absurd (omega arith)
lexical-version_order (suc n) [] [] f g ha hb ef eg =
    let ih =
      lexical-version_order n [] [] (λ k. f (suc k)) (λ k. g (suc k)) (omega arith) (omega arith)
        (λ k. ef (suc k)) (λ k. eg (suc k)) in
    ground (arith, ef 0, eg 0, ih)
lexical-version_order (suc n) (x ∷ xs) [] f g ha hb ef eg =
    let ih =
      lexical-version_order n xs [] (λ k. f (suc k)) (λ k. g (suc k)) (omega arith) (omega arith)
        (λ k. ef (suc k)) (λ k. eg (suc k)) in
    ground (arith, ef 0, eg 0, ih)
lexical-version_order (suc n) [] (y ∷ ys) f g ha hb ef eg =
    let ih =
      lexical-version_order n [] ys (λ k. f (suc k)) (λ k. g (suc k)) (omega arith) (omega arith)
        (λ k. ef (suc k)) (λ k. eg (suc k)) in
    ground (arith, ef 0, eg 0, ih)
lexical-version_order (suc n) (x ∷ xs) (y ∷ ys) f g ha hb ef eg =
    let ih =
      lexical-version_order n xs ys (λ k. f (suc k)) (λ k. g (suc k)) (omega arith) (omega arith)
        (λ k. ef (suc k)) (λ k. eg (suc k)) in
    ground (arith, ef 0, eg 0, ih)

-- Versions are compared by their numbers: for two versions printed in decimal digits with a point
-- between two numbers, each number below 2^31, the comparison is the order by the first numbers
-- that differ, where a missing number counts as 0.
pub cmp_version-printed :
    (fs gs : List (List ℕ))
    → AllNumbers fs
    → AllNumbers gs
    → cmp_version (printed fs) (printed gs)
      ≡ version_order (map (decimal 0) fs) (map (decimal 0) gs)
cmp_version-printed fs gs hf hg =
    let n = length (printed fs) + length (printed gs) + length fs + length gs in
    cmp_version-lexical (printed fs) (printed gs) n (omega arith) (omega arith)
    ∙ lexical-version_order n (map (decimal 0) fs) (map (decimal 0) gs) (nth_field (printed fs))
        (nth_field (printed gs)) (omega (arith, length-map fs (decimal 0)))
        (omega (arith, length-map gs (decimal 0))) (λ k. nth_field-printed fs k hf)
        (λ k. nth_field-printed gs k hg)
