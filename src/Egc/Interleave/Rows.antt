-- ===== src/Egc/Interleave/Rows.antt =====
-- The first loop of `deinterleave` in src/decode/egc/egc_decoder.cpp reads the rows into the matrix.
use inmar_scope.Prelude.{
  ℕ, zero, suc, ◌+◌, ◌-◌, ◌*◌, ◌%◌, ◌≤◌, ◌<◌, ◌≡◌, ◌≢◌, ◌⊎◌, inl, inr, refl, ap, ◌∙◌, List, true,
  false, ◌&&◌, ltb, ◌==◌, get_or, arith, dec_lt, ℕ_discrete,
}
use inmar_scope.Egc.Interleave.{Matrix, store, fill}

-- What the first loop has read when it stands before `i`: every symbol of the rows but the last, and
-- `col` symbols of that.
pub record Filled (perm : List ℕ) (mat : Matrix) (i rows col : ℕ) : Type 0 where
  pub place : ((rows ≡ 0) × (i ≡ 0)) ⊎ ((1 ≤ rows) × (i + 160 ≡ rows * 162 + col) × (col ≤ 160))
  pub done :
      (r c : ℕ)
      → c < 160
      → (r + 1 < rows) ⊎ ((r + 1 ≡ rows) × (c < col))
      → mat r c ≡ get_or perm (r * 162 + 2 + c) 0

store_here : (mat : Matrix) (row col v r c : ℕ) → r ≡ row → c ≡ col → store mat row col v r c ≡ v
unfolding store
store_here mat row col v r c h l = ground (arith, h, l)

store_else :
    (mat : Matrix) (row col v r c : ℕ) → (r ≢ row) ⊎ (c ≢ col) → store mat row col v r c ≡ mat r c
unfolding store
store_else mat row col v r c h = ground (arith, h)

-- The first symbol of a row.
start_row :
    (perm : List ℕ) (mat : Matrix) (i rows col : ℕ)
    → Filled perm mat i rows col
    → i % 162 ≡ 0
    → Filled perm (store mat (rows + 1 - 1) 0 (get_or perm (i + 2) 0)) (i + 2 + 1) (rows + 1) 1
start_row perm mat i rows col f z =
    let v = get_or perm (i + 2) 0 in
    let at : i ≡ rows * 162 = omega (arith, f.place) in
    record {
      place = inr (omega arith);
      done = λ r c lc h. elim (ℕ_discrete r rows) [
        | yes e ↦
            store_here mat (rows + 1 - 1) 0 v r c (omega arith) (omega arith)
            ∙ ap (λ (x : ℕ). get_or perm x 0) (omega arith)
        | no ne ↦
            store_else mat (rows + 1 - 1) 0 v r c (inl (omega (arith, ne)))
            ∙ f.done r c lc (omega (arith, f.place, h))
      ];
    }

-- A further symbol of a row.
go_on_row :
    (perm : List ℕ) (mat : Matrix) (i rows col : ℕ)
    → Filled perm mat i rows col
    → i % 162 ≢ 0
    → Filled perm (store mat (rows - 1) col (get_or perm i 0)) (i + 1) rows (col + 1)
go_on_row perm mat i rows col f nz =
    let v = get_or perm i 0 in
    record {
      place = inr (omega (arith, f.place));
      done = λ r c lc h. elim (ℕ_discrete r (rows - 1)) [
        | no ne ↦
            store_else mat (rows - 1) col v r c (inl ne) ∙ f.done r c lc (omega (arith, f.place, h))
        | yes e ↦ elim (ℕ_discrete c col) [
          | no nc ↦
              store_else mat (rows - 1) col v r c (inr nc)
              ∙ f.done r c lc (omega (arith, f.place, h))
          | yes ec ↦
              store_here mat (rows - 1) col v r c e ec
              ∙ ap (λ (x : ℕ). get_or perm x 0) (omega (arith, f.place))
        ]
      ];
    }

fill-start :
    (perm : List ℕ) (rounds i rows col : ℕ) (mat : Matrix)
    → i < 10368
    → i % 162 ≡ 0
    → rows < 64
    → fill perm (suc rounds) i rows col mat
      ≡ fill perm rounds
          (i + 2 + 1)
          (rows + 1)
          1
          (store mat (rows + 1 - 1) 0 (get_or perm (i + 2) 0))
unfolding fill
fill-start perm rounds i rows col mat h z few =
    let inside : ltb i 10368 ≡ true = ground arith in
    let starts : (i % 162 == 0) ≡ true = ground arith in
    let room : ltb (rows + 1) 65 ≡ true = ground arith in rw (inside, starts, room) refl

fill_on :
    (perm : List ℕ) (rounds i rows col : ℕ) (mat : Matrix)
    → i < 10368
    → i % 162 ≢ 0
    → rows ≤ 64
    → col < 160
    → fill perm (suc rounds) i rows col mat
      ≡ fill perm rounds (i + 1) rows (col + 1) (store mat (rows - 1) col (get_or perm i 0))
unfolding fill
fill_on perm rounds i rows col mat h nz few narrow =
    let inside : ltb i 10368 ≡ true = ground arith in
    let goes : (i % 162 == 0) ≡ false = ground arith in
    let room : (ltb rows 65 && ltb col 160) ≡ true = ground arith in rw (inside, goes, room) refl

fill_past :
    (perm : List ℕ) (rounds i rows col : ℕ) (mat : Matrix)
    → 10368 ≤ i
    → fill perm rounds i rows col mat ≡ mat
unfolding fill
fill_past perm zero i rows col mat h = refl
fill_past perm (suc rounds) i rows col mat h =
    let past : ltb i 10368 ≡ false = ground arith in rw past refl

pub fill_from :
    (perm : List ℕ) (rounds i rows col : ℕ) (mat : Matrix)
    → Filled perm mat i rows col
    → 10368 ≤ i + rounds
    → (r c : ℕ) → r < 64
    → c < 160
    → fill perm rounds i rows col mat r c ≡ get_or perm (r * 162 + 2 + c) 0
fill_from perm zero i rows col mat f enough r c hr hc =
    ap (λ (m : Matrix). m r c) (fill_past perm zero i rows col mat (omega arith))
    ∙ f.done r c hc (omega (arith, f.place))
fill_from perm (suc rounds) i rows col mat f enough r c hr hc = elim (dec_lt i 10368) [
  | no past ↦
      ap (λ (m : Matrix). m r c) (fill_past perm (suc rounds) i rows col mat (omega arith))
      ∙ f.done r c hc (omega (arith, f.place))
  | yes inside ↦ elim (ℕ_discrete (i % 162) 0) [
    | yes z ↦
        ap (λ (m : Matrix). m r c)
          (fill-start perm rounds i rows col mat inside z (omega (arith, f.place)))
        ∙ fill_from perm rounds (i + 2 + 1) (rows + 1) 1 _ (start_row perm mat i rows col f z)
            (omega arith) r c hr hc
    | no nz ↦
        ap (λ (m : Matrix). m r c)
          (fill_on perm rounds i rows col mat inside nz (omega (arith, f.place))
            (omega (arith, f.place)))
        ∙ fill_from perm rounds (i + 1) rows (col + 1) _ (go_on_row perm mat i rows col f nz)
            (omega arith) r c hr hc
  ]
]

pub nothing-Filled : (perm : List ℕ) (old : Matrix) → Filled perm old 0 0 0
nothing-Filled perm old = record {
  place = inl (omega arith);
  done = λ r c lc h. absurd (omega (arith, h));
}
