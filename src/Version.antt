-- ===== src/Version.antt =====
-- `cmpVersion` of src/update/version_check.cpp.
pub mod Lexical
pub mod Fields
pub mod Check
mod Tests
use inmar_scope.Prelude.{
  ℕ, zero, suc, ◌+◌, ◌-◌, ◌*◌, ◌^◌, List, [], ◌∷◌, Bool, true, false, ◌&&◌, ◌||◌, ltb, leb, ◌==◌,
  if◌then◌else◌, length, min, Text,
}

-- A `long` is the number by which it exceeds the least one. It has 32 bits on Windows, where alone
-- `cmpVersion` is called.
abbrev pub zero_long : ℕ
zero_long = 2 ^ 31

-- What `isspace` accepts.
abbrev pub is_space : ℕ → Bool
is_space c = (c == 32) || (leb 9 c && leb c 13)

abbrev pub is_digit : ℕ → Bool
is_digit c = leb 48 c && leb c 57

-- The number at the front of a text.
unfoldable pub digits_value : ℕ → Text → ℕ
digits_value n [] = n
digits_value n (c ∷ s) = if is_digit c then digits_value (n * 10 + (c - 48)) s else n

-- `strtol` in base 10, which stops at the greatest and at the least number.
unfoldable pub strtol : Text → ℕ
unfolding digits_value
strtol [] = zero_long
strtol (c ∷ s) =
    let rest = strtol s in
    if is_space c
    then rest
    else if c == 45
    then zero_long - digits_value 0 s
    else if c == 43
    then zero_long + min (digits_value 0 s) (zero_long - 1)
    else zero_long + min (digits_value 0 (c ∷ s)) (zero_long - 1)

-- The text before the first point, and the text behind it (empty when there is no point).
unfoldable pub before_point : Text → Text
before_point [] = []
before_point (c ∷ s) = if c == 46 then [] else c ∷ before_point s

unfoldable pub after_point : Text → Text
after_point [] = []
after_point (c ∷ s) = if c == 46 then s else after_point s

-- `next`, at the end of a text 0.
unfoldable pub field : Text → ℕ
field [] = zero_long
field (c ∷ s) = strtol (before_point (c ∷ s))

pub data Order : Type 0 where
  less : Order
  equal : Order
  greater : Order

-- The loop, on what is left of both texts, in at most `rounds` rounds; `equal` is also the result
-- when these are used up.
unfoldable pub compare_from : ℕ → Text → Text → Order
compare_from zero a b = equal
compare_from (suc rounds) [] [] = equal
compare_from (suc rounds) a b =
    let va = field a in
    let vb = field b in
    let rest = compare_from rounds (after_point a) (after_point b) in
    if va == vb then rest else if ltb vb va then greater else less

-- Each round shortens a text, so the lengths of both are enough rounds.
unfoldable pub cmp_version : Text → Text → Order
cmp_version a b = compare_from (length a + length b) a b
