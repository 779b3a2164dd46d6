-- ===== src/BandPlan.antt =====
-- Band plans, src/decode/band_plan.h and band_plan.cpp: `loadBandPlan` from the JSON value on. The
-- JSON library jansson is a parameter, as far as the code calls it.
pub mod Loading
pub mod Groups
pub mod Entries
pub mod Accepted
pub mod Services
pub mod Windows
pub mod Values
mod Tests
use inmar_scope.Prelude.{
  ℕ, zero, suc, ◌+◌, ◌*◌, ◌/◌, ◌%◌, List, [], ◌∷◌, ◌++◌, Bool, true, false, not, ◌&&◌, ◌||◌, ◌==◌,
  ltb, if◌then◌else◌, Option, none, some, Text, is_empty, length, bit_or, text_eq,
}
use inmar_scope.Log.Country.{is_hex_digit, hex_digits_value}

-- The calls of jansson on values of a type `Json`, over the type `D` of doubles.
pub record Jansson (D : Type 0) : Type 1 where
  pub Json : Type 0
  pub object_get : Json → Text → Option Json
  pub is_object : Json → Bool
  -- the items of an array
  pub array_items : Json → Option (List Json)
  pub string_value : Json → Option Text
  pub number_value : Json → Option D
  -- an integer that is not negative; any other one is beyond the range of `n` below
  pub integer_value : Json → Option (Option ℕ)

pub record BandPlanEntry (D : Type 0) : Type 0 where
  pub lo_mhz : D
  pub hi_mhz : D
  pub label : Text
  pub color : ℕ
  pub frequency_mhz : D
  pub service : Text
  pub baud : ℕ

pub record BandPlan (D : Type 0) : Type 0 where
  pub name : Text
  pub designator : Text
  pub notes : Text
  pub position : D
  pub file_path : Text
  pub entries : List (BandPlanEntry D)
  pub regions : List Text
  pub countries : List Text
  pub error : Text
  pub valid : Bool

-- A value, or the reason for which the plan is rejected.
pub data Checked (A : Type 0) : Type 0 where
  ok : A → Checked A
  reject : Text → Checked A

infixl 5 ◌>>=◌ ◌>>◌
abbrev pub ◌>>=◌ : {A C : Type 0} → Checked A → (A → Checked C) → Checked C
ok a >>= f = f a
reject why >>= f = reject why

abbrev pub ◌>>◌ : {C : Type 0} → Checked (Unit {0}) → Checked C → Checked C
m >> k = m >>= λ _. k

abbrev pub require : Bool → Text → Checked (Unit {0})
require true why = ok tt
require false why = reject why

-- `operator<` of two strings.
unfoldable pub text_less : Text → Text → Bool
text_less s [] = false
text_less [] (y ∷ t) = true
text_less (x ∷ s) (y ∷ t) = ltb x y || ((x == y) && text_less s t)

-- A text at its place in a sorted list without repetition.
unfoldable pub insert_text : Text → List Text → List Text
unfolding text_less
insert_text t [] = t ∷ []
insert_text t (s ∷ ss) =
    if text_eq t s then s ∷ ss else if text_less t s then t ∷ s ∷ ss else s ∷ insert_text t ss

-- `std::sort` and `std::unique`
unfoldable pub sort_unique : List Text → List Text
unfolding insert_text
sort_unique [] = []
sort_unique (t ∷ ts) = insert_text t (sort_unique ts)

unfoldable pub all_hex : Text → Bool
all_hex [] = true
all_hex (c ∷ s) = is_hex_digit c && all_hex s

unfoldable pub without_hash : Text → Text
without_hash [] = []
without_hash (c ∷ s) = if c == 35 then s else c ∷ s

-- `RRGGBB` as a number whose lowest byte is the red one and whose highest is 255.
unfoldable pub read_color : Text → Option ℕ
unfolding all_hex without_hash
read_color text =
    let digits = without_hash text in
    let v = hex_digits_value 0 digits in
    if (length digits == 6) && all_hex digits
    then some (
        bit_or (bit_or (bit_or 0xff000000 (v % 256 * 65536)) (v / 256 % 256 * 256))
          (v / 65536 % 256))
    else none
