-- ===== src/Egc/Interleave/Places.antt =====
-- Where `depermute` and `deinterleave` take their symbols from.
use inmar_scope.Prelude.{
  ℕ, zero, suc, ◌+◌, ◌*◌, ◌/◌, ◌%◌, ◌<◌, ◌≡◌, refl, ap, ◌∙◌, List, ◌++◌, true, false, ◌==◌, get_or,
  arith, ℕ_discrete,
}
use mathlib.Core.List.{reverse}
use mathlib.Core.Path.{ap₂}
use inmar_scope.Egc.Fields.{read_bytes}
use inmar_scope.Egc.Interleave.Rows.{fill_from, nothing-Filled}
use inmar_scope.Egc.Interleave.{rows_from, depermute, Matrix, fill, columns, deinterleave}

read_bytes-left :
    (f : List ℕ) (start n k : ℕ) (ys : List ℕ)
    → k < n
    → get_or (read_bytes f start n ++ ys) k 0 ≡ get_or f (start + k) 0
unfolding read_bytes
read_bytes-left f start zero k ys h = absurd (omega arith)
read_bytes-left f start (suc n) zero ys h =
    let e : start ≡ start + 0 = omega arith in ap (λ (j : ℕ). get_or f j 0) e
read_bytes-left f start (suc n) (suc k) ys h =
    let e : start + 1 + k ≡ start + suc k = omega arith in
    read_bytes-left f (start + 1) n k ys (omega arith) ∙ ap (λ (j : ℕ). get_or f j 0) e

read_bytes-right :
    (f : List ℕ) (start n k : ℕ) (ys : List ℕ)
    → get_or (read_bytes f start n ++ ys) (n + k) 0 ≡ get_or ys k 0
unfolding read_bytes
read_bytes-right f start zero k ys =
    let e : 0 + k ≡ k = omega arith in ap (λ (j : ℕ). get_or ys j 0) e
read_bytes-right f start (suc n) k ys =
    let e : suc n + k ≡ suc (n + k) = omega arith in
    ap (λ (j : ℕ). get_or (read_bytes f start (suc n) ++ ys) j 0) e
    ∙ read_bytes-right f (start + 1) n k ys

rows_from-get_or :
    (frame : List ℕ) (left i k j : ℕ)
    → k < left
    → j < 162
    → get_or (rows_from frame i left) (k * 162 + j) 0 ≡ get_or frame ((i + k) * 23 % 64 * 162 + j) 0
unfolding rows_from
rows_from-get_or frame zero i k j h l = absurd (omega arith)
rows_from-get_or frame (suc left) i zero j h l =
    let e : i * 23 % 64 * 162 + j ≡ (i + 0) * 23 % 64 * 162 + j = omega arith in
    let z : 0 * 162 + j ≡ j = omega arith in
    rw z (
      read_bytes-left frame (i * 23 % 64 * 162) 162 j (rows_from frame (i + 1) left) l
      ∙ ap (λ (x : ℕ). get_or frame x 0) e)
rows_from-get_or frame (suc left) i (suc k) j h l =
    let e : suc k * 162 + j ≡ 162 + (k * 162 + j) = omega arith in
    let e' : (i + 1 + k) * 23 % 64 * 162 + j ≡ (i + suc k) * 23 % 64 * 162 + j = omega arith in
    rw e (
      read_bytes-right frame (i * 23 % 64 * 162) 162 (k * 162 + j) (rows_from frame (i + 1) left)
      ∙ rows_from-get_or frame left (i + 1) k j (omega arith) l
      ∙ ap (λ (x : ℕ). get_or frame x 0) e')

columns-get_or :
    (mat : Matrix) (left row col k : ℕ)
    → row < 64
    → col * 64 + row + left ≡ 10240
    → k < left
    → get_or (columns mat row col left) k 0
      ≡ mat ((col * 64 + row + k) % 64) ((col * 64 + row + k) / 64)
unfolding columns
columns-get_or mat zero row col k hr e h = absurd (omega arith)
columns-get_or mat (suc left) row col zero hr e h =
    let er : row ≡ (col * 64 + row + 0) % 64 = omega arith in
    let ec : col ≡ (col * 64 + row + 0) / 64 = omega arith in rw (← er, ← ec) refl
columns-get_or mat (suc left) row col (suc k) hr e h = elim (ℕ_discrete row 63) [
  | yes last ↦
      let wraps : ((row + 1) % 64 == 0) ≡ true = ground arith in
      let more : (col + 1 == 160) ≡ false = ground arith in
      let at : (col + 1) * 64 + 0 + k ≡ col * 64 + row + suc k = omega arith in
      rw (wraps, more, ← at)
        (columns-get_or mat left 0 (col + 1) k (omega arith) (omega arith) (omega arith))
  | no inside ↦
      let goes : ((row + 1) % 64 == 0) ≡ false = ground arith in
      let at : col * 64 + (row + 1) + k ≡ col * 64 + row + suc k = omega arith in
      rw (goes, ← at)
        (columns-get_or mat left (row + 1) col k (omega arith) (omega arith) (omega arith))
]

columns_whole :
    (mat : Matrix) (r c : ℕ)
    → r < 64
    → c < 160
    → get_or (columns mat 0 0 10240) (c * 64 + r) 0 ≡ mat r c
columns_whole mat r c hr hc =
    let er : (0 * 64 + 0 + (c * 64 + r)) % 64 ≡ r = omega arith in
    let ec : (0 * 64 + 0 + (c * 64 + r)) / 64 ≡ c = omega arith in
    columns-get_or mat 10240 0 0 (c * 64 + r) (omega arith) (omega arith) (omega arith)
    ∙ ap₂ (λ x y. mat x y) er ec

deinterleave-get_or :
    (old : Matrix) (perm : List ℕ) (r c : ℕ)
    → r < 64
    → c < 160
    → get_or (deinterleave old perm) (c * 64 + r) 0 ≡ get_or perm (r * 162 + 2 + c) 0
unfolding deinterleave
deinterleave-get_or old perm r c hr hc =
    columns_whole (fill perm 10368 0 0 0 old) r c hr hc
    ∙ fill_from perm 10368 0 0 0 old (nothing-Filled perm old) (omega arith) r c hr hc

-- The symbol of row `r` and column `c` of a frame (64 rows of 160 symbols behind two of the unique
-- word) stands at `c * 64 + r` after both functions, and comes from the row `r * 23 % 64` of the
-- frame in the order in which it was received, whatever was in the matrix before.
pub deinterleave-depermute :
    (old : Matrix) (frame : List ℕ) (r c : ℕ)
    → r < 64
    → c < 160
    → get_or (deinterleave old (depermute frame)) (c * 64 + r) 0
      ≡ get_or (reverse frame) (r * 23 % 64 * 162 + (2 + c)) 0
unfolding depermute
deinterleave-depermute old frame r c hr hc =
    let e : r * 162 + 2 + c ≡ r * 162 + (2 + c) = omega arith in
    let e' : (0 + r) * 23 % 64 * 162 + (2 + c) ≡ r * 23 % 64 * 162 + (2 + c) = omega arith in
    deinterleave-get_or old (rows_from (reverse frame) 0 64) r c hr hc
    ∙ ap (λ (x : ℕ). get_or (rows_from (reverse frame) 0 64) x 0) e
    ∙ rows_from-get_or (reverse frame) 64 0 r (2 + c) hr (omega arith)
    ∙ ap (λ (x : ℕ). get_or (reverse frame) x 0) e'
