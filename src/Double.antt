-- ===== src/Double.antt =====
-- Double-precision numbers. The program computes with IEEE doubles; here the type and the
-- operations that it uses are a parameter, with what the standard library does with them.
use inmar_scope.Prelude.{ℕ, ◌+◌, ◌-◌, ◌*◌, ◌/◌, ◌^◌, Bool, true, Text, ltb, leb, [], ◌∷◌}

pub record Double : Type 1 where
  pub Real : Type 0
  -- the literal `m / 10^k`
  pub literal : ℕ → ℕ → Real
  -- an `int` that is not negative
  pub of_int : ℕ → Real
  pub add : Real → Real → Real
  pub sub : Real → Real → Real
  pub mul : Real → Real → Real
  pub div : Real → Real → Real
  pub fabs : Real → Real
  pub neg : Real → Real
  pub less : Real → Real → Bool
  -- `<=`, which is not the negation of `>` when an argument is not a number
  pub leq : Real → Real → Bool
  pub is_finite : Real → Bool
  -- the conversion to `int` of a number that is not negative
  pub trunc : Real → ℕ
  -- `std::lround` of a number that is not negative
  pub lround : Real → ℕ
  -- `%.kf` of `snprintf`
  pub fixed : ℕ → Real → Text

-- Numbers of six decimals that are not negative, printed by their whole part as one character: an
-- instance to run the model with.
abbrev pub scaled : Double
scaled = record {
  Real = ℕ;
  literal = λ m k. m * 1000000 / 10 ^ k;
  of_int = λ n. n * 1000000;
  add = λ a b. a + b;
  sub = λ a b. a - b;
  mul = λ a b. a * b / 1000000;
  div = λ a b. a * 1000000 / b;
  fabs = λ a. a;
  neg = λ a. 0 - a;
  less = ltb;
  leq = leb;
  is_finite = λ a. true;
  trunc = λ a. a / 1000000;
  lround = λ a. (a + 500000) / 1000000;
  fixed = λ k a. (a / 1000000) ∷ [];
}
