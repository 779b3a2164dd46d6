-- ===== src/Egc/Previews.antt =====
-- The texts that `handleAaPacket` in src/decode/egc/egc_decoder.cpp makes of the bytes of a packet.
pub mod Ita2Codes
mod Tests
use inmar_scope.Prelude.{
  ℕ, zero, suc, ◌+◌, ◌-◌, ◌*◌, ◌/◌, ◌%◌, ◌^◌, ◌≤◌, ◌<◌, ◌≡◌, List, [], ◌∷◌, ◌++◌, Bool, true, false,
  ◌&&◌, ◌||◌, ltb, leb, ◌==◌, if◌then◌else◌, Text, codes, is_empty, get_or, arith, length,
}
use inmar_scope.Egc.Format.{digits}

-- The hex dump, into a buffer of 256 bytes; `hp` is the place in it.
unfoldable pub hex_dump : List ℕ → ℕ → Text
hex_dump [] hp = []
hex_dump (c ∷ cs) hp =
    let here = hex_dump cs (hp + 3) in
    let skip = hex_dump cs hp in if ltb hp 252 then digits 16 2 c ++ 32 ∷ here else skip

unfoldable pub preview_char : ℕ → Text
preview_char c =
    let c7 = c % 128 in
    if leb 32 c7 || (c7 == 13) || (c7 == 10) || (c7 == 9)
    then c7 ∷ []
    else if c7 == 0
    then []
    else 46 ∷ []

unfoldable pub ia5_preview : List ℕ → Text
unfolding preview_char
ia5_preview [] = []
ia5_preview (c ∷ cs) = preview_char c ++ ia5_preview cs

abbrev pub k_chars : List Text
k_chars =
    codes ""
    ∷ codes "E"
    ∷ codes "\n"
    ∷ codes "A"
    ∷ codes " "
    ∷ codes "S"
    ∷ codes "I"
    ∷ codes "U"
    ∷ codes "\n"
    ∷ codes "D"
    ∷ codes "R"
    ∷ codes "J"
    ∷ codes "N"
    ∷ codes "F"
    ∷ codes "C"
    ∷ codes "K"
    ∷ codes "T"
    ∷ codes "Z"
    ∷ codes "L"
    ∷ codes "W"
    ∷ codes "H"
    ∷ codes "Y"
    ∷ codes "P"
    ∷ codes "Q"
    ∷ codes "O"
    ∷ codes "B"
    ∷ codes "G"
    ∷ codes ""
    ∷ codes "M"
    ∷ codes "X"
    ∷ codes "V"
    ∷ codes ""
    ∷ []

abbrev pub k_figs : List Text
k_figs =
    codes ""
    ∷ codes "3"
    ∷ codes "\n"
    ∷ codes "-"
    ∷ codes " "
    ∷ codes "'"
    ∷ codes "8"
    ∷ codes "7"
    ∷ codes "\n"
    ∷ codes "{ENQ}"
    ∷ codes "4"
    ∷ codes "{BEL}"
    ∷ codes ","
    ∷ codes "!"
    ∷ codes " "
    ∷ codes ":"
    ∷ codes "("
    ∷ codes "5"
    ∷ codes "+"
    ∷ codes ")"
    ∷ codes "2"
    ∷ codes "{LB}"
    ∷ codes "6"
    ∷ codes "0"
    ∷ codes "1"
    ∷ codes "9"
    ∷ codes "?"
    ∷ codes "&"
    ∷ codes ""
    ∷ codes "."
    ∷ codes "/"
    ∷ codes ";"
    ∷ codes ""
    ∷ []

-- What follows the first `}`.
unfoldable pub after_brace : Text → Text
after_brace [] = []
after_brace (c ∷ s) = if c == 125 then s else after_brace s

-- A token in braces is left out.
unfoldable pub token_text : Text → Text
unfolding after_brace
token_text [] = []
token_text (c ∷ s) = if c == 123 then after_brace (c ∷ s) else c ∷ s

-- The state of the ITA2 decoder: the shift, the bits that are left and their number.
pub record Ita2 : Type 0 where
  pub fig : Bool
  pub bits : ℕ
  pub n_bits : ℕ

abbrev pub new_ita2 : Ita2
new_ita2 = record { fig = false; bits = 0; n_bits = 0 }

-- The inner loop, at most `rounds` times.
unfoldable pub take_codes : ℕ → Ita2 → Ita2 × Text
unfolding token_text
take_codes zero s = (s, [])
take_codes (suc rounds) s =
    if ltb s.n_bits 5
    then (s, [])
    else let code = s.bits / 2 ^ (s.n_bits - 5) % 32 in
      let s' : Ita2 = record s { n_bits = s.n_bits - 5 } in
      let to_fig = take_codes rounds (record s' { fig = true }) in
      let to_char = take_codes rounds (record s' { fig = false }) in
      let other = take_codes rounds s' in
      if code == 27
      then to_fig
      else if code == 31
      then to_char
      else (other.0, token_text (get_or (if s.fig then k_figs else k_chars) code []) ++ other.1)

-- One byte: at most 12 bits are there, so two rounds take all the codes.
unfoldable pub ita2_byte : Ita2 → ℕ → Ita2 × Text
unfolding take_codes
ita2_byte s c =
    take_codes 2 (record s { bits = (s.bits * 256 + c) % 2 ^ 32; n_bits = s.n_bits + 8 })

unfoldable pub ita2_from : Ita2 → List ℕ → Text
unfolding ita2_byte
ita2_from s [] = []
ita2_from s (c ∷ cs) = let (s', t) = ita2_byte s c in t ++ ita2_from s' cs

unfoldable pub ita2_text : List ℕ → Text
unfolding ita2_from
ita2_text = ita2_from new_ita2

-- The number of bytes with a test.
unfoldable pub count_bytes : (ℕ → Bool) → List ℕ → ℕ
count_bytes test [] = 0
count_bytes test (c ∷ cs) = (if test c then 1 else 0) + count_bytes test cs
