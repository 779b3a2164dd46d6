-- ===== src/Icao/Gaps.antt =====
-- Addresses that the table lists and the search does not find: the table is not sorted.
use inmar_scope.Prelude.{ℕ, ◌≤◌, ◌≡◌, refl, ◌∙◌, arith, codes}
use inmar_scope.Icao.Table.{table, range}
use inmar_scope.Icao.{unknown, icao_country}
use inmar_scope.Icao.Search.{Lists, search-below, search-above, search-stop}

australia_missed : (icao : ℕ) → 0x7c0000 ≤ icao → icao ≤ 0x7dffff → icao_country icao ≡ unknown
unfolding icao_country
australia_missed icao from to =
    search-below table icao 144 0 144 (omega arith) refl (omega arith)
    ∙ search-above table icao 143 0 71 (omega arith) refl (omega arith) (omega arith)
    ∙ search-above table icao 142 36 71 (omega arith) refl (omega arith) (omega arith)
    ∙ search-above table icao 141 54 71 (omega arith) refl (omega arith) (omega arith)
    ∙ search-above table icao 140 63 71 (omega arith) refl (omega arith) (omega arith)
    ∙ search-above table icao 139 67 71 (omega arith) refl (omega arith) (omega arith)
    ∙ search-below table icao 138 69 71 (omega arith) refl (omega arith)
    ∙ search-stop table icao 137 69 69 (omega arith)

thailand_missed : (icao : ℕ) → 0x710000 ≤ icao → icao ≤ 0x71ffff → icao_country icao ≡ unknown
unfolding icao_country
thailand_missed icao from to =
    search-below table icao 144 0 144 (omega arith) refl (omega arith)
    ∙ search-above table icao 143 0 71 (omega arith) refl (omega arith) (omega arith)
    ∙ search-above table icao 142 36 71 (omega arith) refl (omega arith) (omega arith)
    ∙ search-below table icao 141 54 71 (omega arith) refl (omega arith)
    ∙ search-below table icao 140 54 62 (omega arith) refl (omega arith)
    ∙ search-above table icao 139 54 57 (omega arith) refl (omega arith) (omega arith)
    ∙ search-above table icao 138 56 57 (omega arith) refl (omega arith) (omega arith)
    ∙ search-stop table icao 137 57 57 (omega arith)

china_missed : (icao : ℕ) → 0x780000 ≤ icao → icao ≤ 0x79ffff → icao_country icao ≡ unknown
unfolding icao_country
china_missed icao from to =
    search-below table icao 144 0 144 (omega arith) refl (omega arith)
    ∙ search-above table icao 143 0 71 (omega arith) refl (omega arith) (omega arith)
    ∙ search-above table icao 142 36 71 (omega arith) refl (omega arith) (omega arith)
    ∙ search-above table icao 141 54 71 (omega arith) refl (omega arith) (omega arith)
    ∙ search-above table icao 140 63 71 (omega arith) refl (omega arith) (omega arith)
    ∙ search-below table icao 139 67 71 (omega arith) refl (omega arith)
    ∙ search-below table icao 138 67 68 (omega arith) refl (omega arith)
    ∙ search-stop table icao 137 67 67 (omega arith)

-- The search finds no country for an address of the Australian block from 7C0000 to 7DFFFF, nor
-- for one of the Thai block 710000 to 71FFFF or of the Chinese block 780000 to 79FFFF, although
-- the table lists each of them with its country.
pub icao_country-misses :
    (icao : ℕ)
    → ((0x7c0000 ≤ icao) × (icao ≤ 0x7dffff)
        → (icao_country icao ≡ unknown) × Lists table icao (codes "AU"))
      × ((0x710000 ≤ icao) × (icao ≤ 0x71ffff)
          → (icao_country icao ≡ unknown) × Lists table icao (codes "TH"))
      × ((0x780000 ≤ icao) × (icao ≤ 0x79ffff)
          → (icao_country icao ≡ unknown) × Lists table icao (codes "CN"))
unfolding table
icao_country-misses icao = (
  λ h. (
    australia_missed icao h.0 h.1,
    (59, range 0x7c0000 0x7fffff "AU", refl, omega arith, omega arith, refl),
  ),
  λ h. (
    thailand_missed icao h.0 h.1,
    (60, range 0x710000 0x71ffff "TH", refl, omega arith, omega arith, refl),
  ),
  λ h. (
    china_missed icao h.0 h.1,
    (58, range 0x780000 0x79ffff "CN", refl, omega arith, omega arith, refl),
  ),
)
