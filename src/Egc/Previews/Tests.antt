-- ===== src/Egc/Previews/Tests.antt =====
-- The previews of small payloads.
use inmar_scope.Prelude.{◌<◌, ◌-◌, ◌≡◌, refl, [], ◌∷◌, codes, arith, get_or}
use inmar_scope.Egc.Previews.{
  hex_dump, preview_char, ia5_preview, new_ita2, after_brace, token_text, take_codes, ita2_byte,
  ita2_from, ita2_text,
}
use inmar_scope.Egc.Previews.Ita2Codes.{ita2_byte_bits, take_codes-shifted, figure, ita2_figures}

hex : hex_dump (0x1f ∷ 0xa0 ∷ []) 0 ≡ codes "1F A0 "
unfolding hex_dump
hex = refl

preview : ia5_preview (0xc1 ∷ 0 ∷ 7 ∷ []) ≡ codes "A."
unfolding ia5_preview preview_char
preview = refl

-- 10000 10000: two letters T.
letters : ita2_text (0x84 ∷ 0x00 ∷ []) ≡ codes "TT"
unfolding ita2_text ita2_from ita2_byte take_codes token_text after_brace
letters = refl

few_bits_left : (ita2_byte new_ita2 0x84).0.n_bits < 5
few_bits_left = ita2_byte_bits new_ita2 0x84 (omega arith)

take_codes-shifted_example :
    (16 < 14 → (take_codes 1 (figure 16)).1 ≡ token_text (get_or ita2_figures 16 []))
    × (14 < 16 → (take_codes 1 (figure 16)).1 ≡ token_text (get_or ita2_figures (16 - 1) []))
take_codes-shifted_example = take_codes-shifted 16 (omega arith) (omega arith) (omega arith)
