-- ===== src/Log/Country.antt =====
-- The country of an aircraft whose address is known: the steps that src/voice/voice_ops.cpp
-- (`voiceAesBlacklisted`) and src/decode/decoder_manager.cpp (`autoMonitor`) share.
use inmar_scope.Prelude.{
  ℕ, ◌+◌, ◌-◌, ◌*◌, ◌%◌, ◌^◌, min, List, [], ◌∷◌, Bool, true, false, not, ◌&&◌, ◌||◌, ◌==◌, ltb,
  leb, if◌then◌else◌, Option, none, some, Text, text_eq, is_empty,
}
use inmar_scope.Double.{Double}
use inmar_scope.Icao.{Outcome, country, unknown, out_of_rounds, icao_country}
use inmar_scope.Log.Aircraft.{AircraftTable, icao_of}
use inmar_scope.Version.{is_space, is_digit}

-- The value of a digit in base 16, if the byte is one.
unfoldable pub hex_digit : ℕ → Option ℕ
hex_digit c =
    if is_digit c
    then some (c - 48)
    else if leb 65 c && leb c 70
    then some (c - 55)
    else if leb 97 c && leb c 102
    then some (c - 87)
    else none

unfoldable pub hex_digits_value : ℕ → Text → ℕ
unfolding hex_digit
hex_digits_value n [] = n
hex_digits_value n (c ∷ s) = elim (hex_digit c) [
  | none ↦ n
  | some d ↦ hex_digits_value (n * 16 + d) s
]

unfoldable pub is_hex_digit : ℕ → Bool
unfolding hex_digit
is_hex_digit c = elim (hex_digit c) [ none ↦ false | some d ↦ true ]

unfoldable pub starts_with_hex : Text → Bool
unfolding is_hex_digit
starts_with_hex [] = false
starts_with_hex (c ∷ s) = is_hex_digit c

-- The digits behind an optional `0x`.
unfoldable pub hex_magnitude : Text → ℕ
unfolding hex_digits_value starts_with_hex
hex_magnitude (a ∷ b ∷ s) =
    if (a == 48) && ((b == 120) || (b == 88)) && starts_with_hex s
    then hex_digits_value 0 s
    else hex_digits_value 0 (a ∷ b ∷ s)
hex_magnitude s = hex_digits_value 0 s

abbrev pub max_ulong : ℕ
max_ulong = 2 ^ 64 - 1

-- A negated number wraps around, one out of range gives the greatest.
unfoldable pub negated : ℕ → ℕ
negated n = if ltb max_ulong n then max_ulong else (2 ^ 64 - n) % 2 ^ 64

-- `strtoul` in base 16, with an `unsigned long` of 64 bits.
unfoldable pub strtoul_hex : Text → ℕ
unfolding hex_magnitude negated
strtoul_hex [] = 0
strtoul_hex (c ∷ s) =
    let rest = strtoul_hex s in
    if is_space c
    then rest
    else if c == 45
    then negated (hex_magnitude s)
    else if c == 43
    then min (hex_magnitude s) max_ulong
    else min (hex_magnitude (c ∷ s)) max_ulong

unfoldable pub text_mem : Text → List Text → Bool
text_mem t [] = false
text_mem t (s ∷ ss) = text_eq s t || text_mem t ss

unfoldable pub listed : Outcome → List Text → Bool
unfolding text_mem
listed (country cc) blacklist = text_mem cc blacklist
listed unknown blacklist = false
listed out_of_rounds blacklist = false

-- The country of the address, a number of 32 bits, is on the list.
unfoldable pub country_listed : Text → List Text → Bool
unfolding strtoul_hex listed
country_listed icao blacklist =
    not (is_empty icao) && listed (icao_country (strtoul_hex icao % 2 ^ 32)) blacklist

module _ (F : Double) where
  -- `voiceAesBlacklisted`
  unfoldable pub aes_blacklisted : AircraftTable F → List Text → ℕ → Bool
  unfolding country_listed
  aes_blacklisted t blacklist aes_id =
      if is_empty blacklist || (aes_id == 0)
      then false
      else country_listed (icao_of F t aes_id) blacklist
