-- ===== src/Icao/Tests.antt =====
-- The country search on addresses.
use inmar_scope.Prelude.{◌≤◌, ◌≡◌, ◌≢◌, refl, [], ◌∷◌, codes, Text, true}
use inmar_scope.Icao.Table.{table}
use inmar_scope.Icao.{
  country, unknown, out_of_rounds, search, icao_country, is_letter, indicator, cc_to_flag,
  is_military_icao,
}
use inmar_scope.Icao.Search.{Lists, icao_country_lem}
use inmar_scope.Icao.Gaps.{icao_country-misses}

united_states : icao_country 0xa00001 ≡ country (codes "US")
unfolding icao_country search table
united_states = refl

flag : cc_to_flag (codes "US") ≡ 0xf0 ∷ 0x9f ∷ 0x87 ∷ 0xba ∷ 0xf0 ∷ 0x9f ∷ 0x87 ∷ 0xb8 ∷ []
unfolding cc_to_flag is_letter indicator
flag = refl

military : is_military_icao 0xafc123 ≡ true
unfolding is_military_icao
military = refl

icao_country_lem_example :
    (icao_country 0xa00001 ≢ out_of_rounds)
    × ((code : Text) → icao_country 0xa00001 ≡ country code → Lists table 0xa00001 code)
icao_country_lem_example = icao_country_lem 0xa00001

icao_country-misses_example :
    ((0x7c0000 ≤ 0x7c1234) × (0x7c1234 ≤ 0x7dffff)
      → (icao_country 0x7c1234 ≡ unknown) × Lists table 0x7c1234 (codes "AU"))
    × ((0x710000 ≤ 0x7c1234) × (0x7c1234 ≤ 0x71ffff)
        → (icao_country 0x7c1234 ≡ unknown) × Lists table 0x7c1234 (codes "TH"))
    × ((0x780000 ≤ 0x7c1234) × (0x7c1234 ≤ 0x79ffff)
        → (icao_country 0x7c1234 ≡ unknown) × Lists table 0x7c1234 (codes "CN"))
icao_country-misses_example = icao_country-misses 0x7c1234
