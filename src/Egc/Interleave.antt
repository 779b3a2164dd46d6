-- ===== src/Egc/Interleave.antt =====
-- `depermute` and `deinterleave` of src/decode/egc/egc_decoder.cpp: the 64 rows of a frame in order,
-- and the symbols of the rows by columns.
pub mod Rows
pub mod Places
mod Tests
use inmar_scope.Prelude.{
  ℕ, zero, suc, ◌+◌, ◌-◌, ◌*◌, ◌/◌, ◌%◌, List, [], ◌∷◌, ◌++◌, Bool, ◌&&◌, ltb, ◌==◌, if◌then◌else◌,
  get_or,
}
use mathlib.Core.List.{reverse}
use inmar_scope.Egc.Fields.{read_bytes}

-- The copies from round `i`, with `left` rounds to go: row `i` comes from place `perm[i]`.
unfoldable pub rows_from : List ℕ → ℕ → ℕ → List ℕ
rows_from frame i zero = []
rows_from frame i (suc left) =
    read_bytes frame (i * 23 % 64 * 162) 162 ++ rows_from frame (i + 1) left

unfoldable pub depermute : List ℕ → List ℕ
depermute frame = rows_from (reverse frame) 0 64

-- `mat`, by row and column.
abbrev pub Matrix : Type 0
Matrix = ℕ → ℕ → ℕ

unfoldable pub store : Matrix → ℕ → ℕ → ℕ → Matrix
store mat row col v r c = if (r == row) && (c == col) then v else mat r c

-- The first loop from `i` on, in at most `rounds` rounds. `rows` is `row + 1`, since `row` is -1 at
-- first.
unfoldable pub fill : List ℕ → ℕ → ℕ → ℕ → ℕ → Matrix → Matrix
fill perm zero i rows col mat = mat
fill perm (suc rounds) i rows col mat =
    let starts = i % 162 == 0 in
    let i' = if starts then i + 2 else i in
    let rows' = if starts then rows + 1 else rows in
    let col' = if starts then 0 else col in
    let mat' =
      if ltb rows' 65 && ltb col' 160 then store mat (rows' - 1) col' (get_or perm i' 0) else mat in
    let rest = fill perm rounds (i' + 1) rows' (col' + 1) mat' in if ltb i 10368 then rest else mat

-- The second loop, with `left` symbols to write.
unfoldable pub columns : Matrix → ℕ → ℕ → ℕ → List ℕ
columns mat row col zero = []
columns mat row col (suc left) =
    let row' = row + 1 in
    mat row col
    ∷ (if row' % 64 == 0
        then if col + 1 == 160 then [] else columns mat 0 (col + 1) left
        else columns mat row' col left)

-- `mat` is static: `old` is what an earlier call has left in it.
unfoldable pub deinterleave : Matrix → List ℕ → List ℕ
deinterleave old perm = columns (fill perm 10368 0 0 0 old) 0 0 10240
