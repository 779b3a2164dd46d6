-- ===== src/Icao.antt =====
-- Countries of aircraft addresses, src/decode/icao_country.cpp.
pub mod Table
pub mod Search
pub mod Gaps
mod Tests
use inmar_scope.Prelude.{
  ℕ, zero, suc, ◌+◌, ◌-◌, ◌/◌, ◌%◌, ◌++◌, List, [], ◌∷◌, Option, none, some, Bool, true, false,
  ◌&&◌, ◌||◌, not, ◌==◌, ltb, leb, if◌then◌else◌, get_elem?, length, Text,
}
use Table.{Range, table}

-- What a search gives: the country, `nullptr`, or no result within the rounds.
pub data Outcome : Type 0 where
  country : Text → Outcome
  unknown : Outcome
  out_of_rounds : Outcome

-- The loop of `icaoCountry` on the entries from `lo` up to and without `end`; `end` is `hi + 1`,
-- since `hi` becomes -1. The bound on the rounds is the first argument.
unfoldable pub search : ℕ → List Range → ℕ → ℕ → ℕ → Outcome
search zero entries icao lo end = out_of_rounds
search (suc rounds) entries icao lo end =
    let mid = (lo + end - 1) / 2 in
    let left = search rounds entries icao lo mid in
    let right = search rounds entries icao (mid + 1) end in
    if ltb lo end
    then elim (get_elem? entries mid) [
      | none ↦ unknown
      | some r ↦ if ltb icao r.lo then left else if ltb r.hi icao then right else country r.cc
    ]
    else unknown

-- One round for each entry and one to stop are enough.
unfoldable pub icao_country : ℕ → Outcome
unfolding table
icao_country icao = search (suc (length table)) table icao 0 (length table)

unfoldable pub is_letter : ℕ → Bool
is_letter c = leb 65 c && leb c 90

-- The bytes of a regional indicator: U+1F1E6 stands for `A`.
unfoldable pub indicator : ℕ → List ℕ
indicator c = 0xf0 ∷ 0x9f ∷ 0x87 ∷ ((0xa6 + (c - 65)) % 256) ∷ []

-- The text has no byte 0, which ends the string of the source.
unfoldable pub cc_to_flag : Text → Text
unfolding is_letter indicator
cc_to_flag (a ∷ b ∷ []) = if is_letter a && is_letter b then indicator a ++ indicator b else []
cc_to_flag _ = []

unfoldable pub is_military_icao : ℕ → Bool
is_military_icao icao =
    (leb 0xafc000 icao && leb icao 0xafffff) || (leb 0x43c000 icao && leb icao 0x43cfff)
