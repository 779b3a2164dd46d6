-- ===== src/Dsp/IqRing/Refine.antt =====
-- The ring refines the history of the samples pushed since it was made or cleared.
use inmar_scope.Prelude.{
  ℕ, zero, suc, ◌+◌, ◌*◌, ◌%◌, ◌≤◌, ◌<◌, ◌≡◌, ◌≢◌, refl, ap, sym, ◌∙◌, List, [], ◌∷◌, ◌++◌, arith,
  length, get_or, set, drop, length-append, length-set, get_or-set_self, get_or-set_ne,
  get_or-append_left, get_or-append_end, drop-cons, drop_all, append-nil, append_assoc, dec_lt,
}
use inmar_scope.Dsp.IqRing.{IqRing, size_mod, new, push_one, push_from, copy_from}

module _ {ℓ} {A : Type ℓ} (zero_float : A) where
  -- The pairs of an interleaved block from round `i` on.
  abbrev pub samples : ℕ → ℕ → List A → List (A × A)
  samples zero i iq = []
  samples (suc left) i iq =
      (get_or iq (i * 2) zero_float, get_or iq (i * 2 + 1) zero_float) ∷ samples left (i + 1) iq

  -- The last samples of the history stand in the buffer, each at its number modulo the capacity.
  pub record Holds (r : IqRing A) (hist : List (A × A)) : Type ℓ where
    pub cap_pos : 0 < r.cap
    pub buf_len : length r.buf ≡ r.cap * 2
    pub write_eq : r.write ≡ length hist
    pub short : length hist < size_mod
    pub cell :
        (k : ℕ)
        → k < length hist
        → length hist ≤ k + r.cap
        → (get_or r.buf (k % r.cap * 2) zero_float ≡ (get_or hist k (zero_float, zero_float)).0)
          × (get_or r.buf (k % r.cap * 2 + 1) zero_float
              ≡ (get_or hist k (zero_float, zero_float)).1)

-- Two numbers less than `c` apart have different remainders.
mod_ne : (k w c : ℕ) → 0 < c → k < w → w < k + c → k % c ≢ w % c
mod_ne k w c p h g e = grind arith

-- Slots of different rounds do not meet.
slots_ne :
    (a b : ℕ)
    → a ≢ b
    → (a * 2 ≢ b * 2) × (a * 2 + 1 ≢ b * 2) × (a * 2 ≢ b * 2 + 1) × (a * 2 + 1 ≢ b * 2 + 1)
slots_ne a b h = ground arith

slot_in : (w c : ℕ) → 0 < c → w % c * 2 + 1 < c * 2
slot_in w c h = omega arith

module _ {ℓ} {A : Type ℓ} (zero_float : A) where
  cell_old :
      {r : IqRing A} {hist : List (A × A)} (re im : A) (k : ℕ)
      → Holds zero_float r hist
      → k < length hist
      → suc (length hist) ≤ k + r.cap
      → (get_or (push_one zero_float r re im).buf (k % r.cap * 2) zero_float
          ≡ get_or r.buf (k % r.cap * 2) zero_float)
        × (get_or (push_one zero_float r re im).buf (k % r.cap * 2 + 1) zero_float
            ≡ get_or r.buf (k % r.cap * 2 + 1) zero_float)
  unfolding push_one
  cell_old {r} {hist} re im k v lt in_cap =
      let far = mod_ne k (length hist) r.cap v.cap_pos lt (omega arith) in
      let apart =
        slots_ne (r.write % r.cap) (k % r.cap)
          (λ e. far (sym e ∙ ap (λ (w : ℕ). w % r.cap) v.write_eq)) in
      (
        get_or-set_ne (set r.buf (r.write % r.cap * 2) re) (r.write % r.cap * 2 + 1) (k % r.cap * 2)
              im zero_float apart.1
            ∙ get_or-set_ne r.buf (r.write % r.cap * 2) (k % r.cap * 2) re zero_float apart.0,
        get_or-set_ne (set r.buf (r.write % r.cap * 2) re) (r.write % r.cap * 2 + 1)
              (k % r.cap * 2 + 1) im zero_float apart.3
            ∙ get_or-set_ne r.buf (r.write % r.cap * 2) (k % r.cap * 2 + 1) re zero_float apart.2,
      )

  cell_new :
      {r : IqRing A} {hist : List (A × A)} (re im : A)
      → Holds zero_float r hist
      → (get_or (push_one zero_float r re im).buf (length hist % r.cap * 2) zero_float ≡ re)
        × (get_or (push_one zero_float r re im).buf (length hist % r.cap * 2 + 1) zero_float ≡ im)
  unfolding push_one
  cell_new {r} {hist} re im v =
      let w : ℕ = r.write % r.cap * 2 in
      let bound = slot_in r.write r.cap v.cap_pos in
      rw (← v.write_eq) (
        get_or-set_ne (set r.buf w re) (w + 1) w im zero_float (omega arith)
            ∙ get_or-set_self r.buf w re zero_float (omega (arith, v.buf_len)),
        get_or-set_self (set r.buf w re) (w + 1) im zero_float
            (omega (arith, v.buf_len, length-set r.buf w re)),
      )

  cap-push_one : (r : IqRing A) (re im : A) → (push_one zero_float r re im).cap ≡ r.cap
  unfolding push_one
  cap-push_one r re im = refl

  length-push_one :
      (r : IqRing A) (re im : A) → length (push_one zero_float r re im).buf ≡ length r.buf
  unfolding push_one
  length-push_one r re im =
      length-set (set r.buf (r.write % r.cap * 2) re) (r.write % r.cap * 2 + 1) im
      ∙ length-set r.buf (r.write % r.cap * 2) re

  write-push_one :
      (r : IqRing A) (re im : A) → (push_one zero_float r re im).write ≡ (r.write + 1) % size_mod
  unfolding push_one
  write-push_one r re im = refl

  push_one-cell :
      {r : IqRing A} {hist : List (A × A)} (re im : A) (k : ℕ)
      → Holds zero_float r hist
      → k < suc (length hist)
      → suc (length hist) ≤ k + r.cap
      → (get_or (push_one zero_float r re im).buf (k % r.cap * 2) zero_float
          ≡ (get_or (hist ++ (re, im) ∷ []) k (zero_float, zero_float)).0)
        × (get_or (push_one zero_float r re im).buf (k % r.cap * 2 + 1) zero_float
            ≡ (get_or (hist ++ (re, im) ∷ []) k (zero_float, zero_float)).1)
  push_one-cell {r} {hist} re im k v lt in_cap = elim (dec_lt k (length hist)) [
    | yes old ↦
        let kept = cell_old re im k v old in_cap in
        let was = v.cell k old (omega arith) in
        rw (get_or-append_left hist ((re, im) ∷ []) k (zero_float, zero_float) old)
          (kept.0 ∙ was.0, kept.1 ∙ was.1)
    | no new ↦
        let here : k ≡ length hist = omega arith in
        rw (here, get_or-append_end hist (re, im) (zero_float, zero_float)) (cell_new re im v)
  ]

  push_one-Holds :
      {r : IqRing A} {hist : List (A × A)} (re im : A)
      → Holds zero_float r hist
      → suc (length hist) < size_mod
      → Holds zero_float (push_one zero_float r re im) (hist ++ (re, im) ∷ [])
  push_one-Holds {r} {hist} re im v fits =
      let len : length (hist ++ (re, im) ∷ []) ≡ suc (length hist) =
        omega (arith, length-append {ℓ} hist ((re, im) ∷ [])) in
      record {
        cap_pos = rw (cap-push_one r re im) v.cap_pos;
        buf_len = rw (cap-push_one r re im) (length-push_one r re im ∙ v.buf_len);
        write_eq = omega (arith, write-push_one r re im, v.write_eq, len);
        short = omega (arith, len);
        cell = λ k lt in_cap. rw (cap-push_one r re im) (
            push_one-cell re im k v (omega (arith, len))
              (omega (arith, len, cap-push_one r re im)));
      }

  pub push_from-Holds :
      (left i : ℕ) (iq : List A) {r : IqRing A} {hist : List (A × A)}
      → Holds zero_float r hist
      → length hist + left < size_mod
      → Holds zero_float (push_from zero_float left i iq r) (hist ++ samples zero_float left i iq)
  unfolding push_from
  push_from-Holds zero i iq {r} {hist} v fits = rw append-nil v
  push_from-Holds (suc left) i iq {r} {hist} v fits =
      let re = get_or iq (i * 2) zero_float in
      let im = get_or iq (i * 2 + 1) zero_float in
      let ih =
        push_from-Holds left (i + 1) iq (push_one-Holds re im v (omega arith))
          (omega (arith, length-append {ℓ} hist ((re, im) ∷ []))) in
      rw (append_assoc hist ((re, im) ∷ []) (samples zero_float left (i + 1) iq)) at ih

  pub length-samples : (left i : ℕ) (iq : List A) → length (samples zero_float left i iq) ≡ left
  length-samples zero i iq = refl
  length-samples (suc left) i iq = ap suc (length-samples left (i + 1) iq)

  pub copy_from-drop :
      (left i start : ℕ) {r : IqRing A} {hist : List (A × A)}
      → Holds zero_float r hist
      → start + i + left ≡ length hist
      → length hist ≤ start + i + r.cap
      → copy_from zero_float left i start r ≡ drop (start + i) hist
  unfolding copy_from
  copy_from-drop zero i start {r} {hist} v e in_cap = sym (drop_all (start + i) hist (omega arith))
  copy_from-drop (suc left) i start {r} {hist} v e in_cap =
      let k : ℕ = start + i in
      let small : k % size_mod ≡ k = omega (arith, v.short) in
      let was = v.cell k (omega arith) in_cap in
      let next : start + (i + 1) ≡ suc (start + i) = omega arith in
      rw (drop-cons k hist (zero_float, zero_float) (omega arith), small, was.0, was.1)
        (ap (λ rest. get_or hist k (zero_float, zero_float) ∷ rest)
          (copy_from-drop left (i + 1) start v (omega arith) (omega arith)
            ∙ ap (λ (n : ℕ). drop n hist) next))
