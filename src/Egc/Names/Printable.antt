-- ===== src/Egc/Names/Printable.antt =====
-- The characters of a decoded text.
use inmar_scope.Prelude.{
  ℕ, ◌%◌, ◌≤◌, ◌≡◌, ◌⊎◌, inl, List, [], ◌∷◌, ◌++◌, arith, length, length-append, Text, ℕ_discrete,
}
use inmar_scope.Egc.Names.{ia5_char, ia5_text}

-- Line feeds and printable characters.
unfoldable pub Printable : Text → Type 0
Printable [] = 0 ≤ 0
Printable (c ∷ s) = ((c ≡ 10) ⊎ ((32 ≤ c) × (c ≤ 126))) × Printable s

Printable-append : (s t : Text) → Printable s → Printable t → Printable (s ++ t)
unfolding Printable
Printable-append [] t a b = b
Printable-append (c ∷ s) t a b = (a.0, Printable-append s t a.1 b)

ia5_char-Printable : (b : ℕ) → Printable (ia5_char b) × (length (ia5_char b) ≤ 1)
unfolding ia5_char Printable
ia5_char-Printable b = elim (ℕ_discrete (b % 128) 13) [
  | yes cr ↦ rw cr (omega arith, omega arith)
  | no not_cr ↦ elim (ℕ_discrete (b % 128) 10) [
    | yes lf ↦ rw lf ((inl (omega arith), omega arith), omega arith)
    | no not_lf ↦ ground arith
  ]
]

-- A text has only line feeds and printable characters, and at most one for each byte.
pub ia5_text-Printable :
    (bs : List ℕ) → Printable (ia5_text bs) × (length (ia5_text bs) ≤ length bs)
unfolding ia5_text Printable
ia5_text-Printable [] = (omega arith, omega arith)
ia5_text-Printable (b ∷ bs) =
    let c = ia5_char-Printable b in
    let rest = ia5_text-Printable bs in
    (
      Printable-append (ia5_char b) (ia5_text bs) c.0 rest.0,
      omega (arith, c.1, rest.1, length-append {0} (ia5_char b) (ia5_text bs)),
    )
