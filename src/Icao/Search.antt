-- ===== src/Icao/Search.antt =====
-- The binary search of src/decode/icao_country.cpp on any table.
use inmar_scope.Prelude.{
  ℕ, zero, suc, ◌+◌, ◌-◌, ◌/◌, ◌≤◌, ◌<◌, ◌≡◌, ◌≢◌, inl, inr, List, none, some, arith, get_elem?,
  length, Option-cases, Text, lt→ltb, dec_lt, sym, ◌∙◌,
}
use inmar_scope.Icao.Table.{Range, table}
use inmar_scope.Icao.{country, unknown, out_of_rounds, search, icao_country}

-- An entry of the table with the address and the country.
abbrev pub Lists : List Range → ℕ → Text → Type 0
Lists entries icao cc =
    (i : ℕ) × (r : Range) × (get_elem? entries i ≡ some r)
    × (r.lo ≤ icao)
    × (icao ≤ r.hi)
    × (r.cc ≡ cc)

module _ (entries : List Range) (icao : ℕ) where
  pub search-stop :
      (rounds lo end : ℕ) → end ≤ lo → search (suc rounds) entries icao lo end ≡ unknown
  unfolding search
  search-stop rounds lo end h = ground arith

  search-missing :
      (rounds lo end : ℕ)
      → get_elem? entries ((lo + end - 1) / 2) ≡ none
      → search (suc rounds) entries icao lo end ≡ unknown
  unfolding search
  search-missing rounds lo end e = ground (arith, e)

  pub search-below :
      (rounds lo end : ℕ) {r : Range}
      → lo < end
      → get_elem? entries ((lo + end - 1) / 2) ≡ some r
      → icao < r.lo
      → search (suc rounds) entries icao lo end ≡ search rounds entries icao lo ((lo + end - 1) / 2)
  unfolding search
  search-below rounds lo end {r} h e below = rw (lt→ltb lo end h, e, lt→ltb icao r.lo below)

  pub search-above :
      (rounds lo end : ℕ) {r : Range}
      → lo < end
      → get_elem? entries ((lo + end - 1) / 2) ≡ some r
      → r.lo ≤ icao
      → r.hi < icao
      → search (suc rounds) entries icao lo end
        ≡ search rounds entries icao ((lo + end - 1) / 2 + 1) end
  unfolding search
  search-above rounds lo end {r} h e from above = ground arith

  search-hit :
      (rounds lo end : ℕ) {r : Range}
      → lo < end
      → get_elem? entries ((lo + end - 1) / 2) ≡ some r
      → r.lo ≤ icao
      → icao ≤ r.hi
      → search (suc rounds) entries icao lo end ≡ country r.cc
  unfolding search
  search-hit rounds lo end {r} h e from to = ground arith

  -- The three ways in which an address stands to an entry, and the result of a round for each.
  data Round (rounds lo end : ℕ) : Type 0 where
    stops : search (suc rounds) entries icao lo end ≡ unknown → Round rounds lo end
    goes_left :
        lo < end
        → search (suc rounds) entries icao lo end
          ≡ search rounds entries icao lo ((lo + end - 1) / 2)
        → Round rounds lo end
    goes_right :
        lo < end
        → search (suc rounds) entries icao lo end
          ≡ search rounds entries icao ((lo + end - 1) / 2 + 1) end
        → Round rounds lo end
    hits :
        (r : Range)
        → get_elem? entries ((lo + end - 1) / 2) ≡ some r
        → r.lo ≤ icao
        → icao ≤ r.hi
        → search (suc rounds) entries icao lo end ≡ country r.cc
        → Round rounds lo end

  round : (rounds lo end : ℕ) → Round rounds lo end
  round rounds lo end = elim (dec_lt lo end) [
    | no h ↦ stops (search-stop rounds lo end (omega arith))
    | yes h ↦ elim (Option-cases (get_elem? entries ((lo + end - 1) / 2))) [
      | inl e ↦ stops (search-missing rounds lo end e)
      | inr (r, e) ↦ elim (dec_lt icao r.lo) [
        | yes below ↦ goes_left h (search-below rounds lo end h e below)
        | no from ↦ elim (dec_lt r.hi icao) [
          | yes above ↦ goes_right h (search-above rounds lo end h e (omega arith) above)
          | no to ↦
              hits r e (omega arith) (omega arith)
                (search-hit rounds lo end h e (omega arith) (omega arith))
        ]
      ]
    ]
  ]

  search-ends :
      (rounds lo end : ℕ)
      → end ≤ lo + rounds
      → search (suc rounds) entries icao lo end ≢ out_of_rounds
  search-ends zero lo end h = rw (search-stop 0 lo end (omega arith)) (λ e. cc)
  search-ends (suc rounds) lo end h = elim (round (suc rounds) lo end) [
    | stops e ↦ rw e (λ e. cc)
    | goes_left l e ↦ rw e (search-ends rounds lo ((lo + end - 1) / 2) (omega arith))
    | goes_right l e ↦ rw e (search-ends rounds ((lo + end - 1) / 2 + 1) end (omega arith))
    | hits r g a b e ↦ rw e (λ e. cc)
  ]

  search-Lists :
      (rounds lo end : ℕ) {code : Text}
      → search rounds entries icao lo end ≡ country code
      → Lists entries icao code
  search-Lists zero lo end h = absurd (no_rounds h)
    where
      no_rounds : {code : Text} → search 0 entries icao lo end ≡ country code → ⊥
      no_rounds h = unfold search in cc
  search-Lists (suc rounds) lo end h = elim (round rounds lo end) [
    | stops e ↦ absurd (cc (sym e ∙ h))
    | goes_left l e ↦ search-Lists rounds lo ((lo + end - 1) / 2) (sym e ∙ h)
    | goes_right l e ↦ search-Lists rounds ((lo + end - 1) / 2 + 1) end (sym e ∙ h)
    | hits r g a b e ↦ ((lo + end - 1) / 2, r, g, a, b, cc (sym e ∙ h))
  ]

-- The search ends within its rounds, and a country that it gives is that of an entry of the table
-- whose range holds the address.
pub icao_country_lem :
    (icao : ℕ)
    → (icao_country icao ≢ out_of_rounds)
      × ((code : Text) → icao_country icao ≡ country code → Lists table icao code)
unfolding icao_country
icao_country_lem icao = (
  search-ends table icao (length table) 0 (length table) (omega arith),
  λ code h. search-Lists table icao (suc (length table)) 0 (length table) h,
)
