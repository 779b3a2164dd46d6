-- ===== src/Egc/Previews/Ita2Codes.antt =====
-- The ITA2 decoder of `handleAaPacket`: its inner loop and its table of figures.
use inmar_scope.Prelude.{
  ℕ, zero, suc, ◌+◌, ◌-◌, ◌*◌, ◌%◌, ◌^◌, ◌≤◌, ◌<◌, ◌≡◌, ◌≢◌, refl, List, [], ◌∷◌, Bool, true, false,
  ◌||◌, ◌==◌, Text, codes, get_or, arith, text_eq, text_eq_sound, holds_from, holds_from_sound,
}
use inmar_scope.Egc.Previews.{Ita2, take_codes, ita2_byte, token_text, after_brace}

take_codes_bits :
    (rounds : ℕ) (s : Ita2) → s.n_bits ≤ 4 + 5 * rounds → (take_codes rounds s).0.n_bits < 5
unfolding take_codes
take_codes_bits zero s h = omega arith
take_codes_bits (suc rounds) s h =
    let s' : Ita2 = record s { n_bits = s.n_bits - 5 } in
    ground (
      arith,
      take_codes_bits rounds (record s' { fig = true }) (omega arith),
      take_codes_bits rounds (record s' { fig = false }) (omega arith),
      take_codes_bits rounds s' (omega arith),
    )

-- The inner loop ends: two rounds take every whole code of a byte, since fewer than five bits are
-- left when fewer than five were there before the byte.
pub ita2_byte_bits : (s : Ita2) (c : ℕ) → s.n_bits < 5 → (ita2_byte s c).0.n_bits < 5
unfolding ita2_byte
ita2_byte_bits s c h =
    take_codes_bits 2
      (record { fig = s.fig; bits = (s.bits * 256 + c) % 2 ^ 32; n_bits = s.n_bits + 8 })
      (omega arith)

-- The figures of International Telegraph Alphabet No. 2 by their codes, with `#` for the letter H.
abbrev pub ita2_figures : List Text
ita2_figures =
    codes ""
    ∷ codes "3"
    ∷ codes "\n"
    ∷ codes "-"
    ∷ codes " "
    ∷ codes "'"
    ∷ codes "8"
    ∷ codes "7"
    ∷ codes "\n"
    ∷ codes "{ENQ}"
    ∷ codes "4"
    ∷ codes "{BEL}"
    ∷ codes ","
    ∷ codes "!"
    ∷ codes ":"
    ∷ codes "("
    ∷ codes "5"
    ∷ codes "+"
    ∷ codes ")"
    ∷ codes "2"
    ∷ codes "{LB}"
    ∷ codes "6"
    ∷ codes "0"
    ∷ codes "1"
    ∷ codes "9"
    ∷ codes "?"
    ∷ codes "&"
    ∷ codes ""
    ∷ codes "."
    ∷ codes "/"
    ∷ codes ";"
    ∷ codes ""
    ∷ []

-- The decoder with one code in the figures shift.
abbrev pub figure : ℕ → Ita2
figure code = record { fig = true; bits = code; n_bits = 5 }

abbrev is_figure : ℕ → ℕ → Bool
is_figure c i = text_eq (take_codes 1 (figure c)).1 (token_text (get_or ita2_figures i []))

low_table : holds_from (λ c. is_figure c c) 0 14 ≡ true
unfolding holds_from text_eq take_codes token_text after_brace
low_table = refl

high_table : holds_from (λ c. (c == 27) || (c == 31) || is_figure c (c - 1)) 15 17 ≡ true
unfolding holds_from text_eq take_codes token_text after_brace
high_table = refl

-- In the figures shift the codes below 14 decode to the figures of the alphabet, and each code above
-- 14 but the two shifts to the figure of the code before it: T to `(` in place of `5`, and so on.
pub take_codes-shifted :
    (c : ℕ)
    → c < 32
    → c ≢ 27
    → c ≢ 31
    → (c < 14 → (take_codes 1 (figure c)).1 ≡ token_text (get_or ita2_figures c []))
      × (14 < c → (take_codes 1 (figure c)).1 ≡ token_text (get_or ita2_figures (c - 1) []))
take_codes-shifted c h n27 n31 = (
  λ lo. text_eq_sound _ _ (holds_from_sound _ 0 14 low_table c (omega arith) (omega arith)),
  λ hi.
      text_eq_sound _ _
        (ground (arith, holds_from_sound _ 15 17 high_table c (omega arith) (omega arith))),
)
