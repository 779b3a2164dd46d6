-- ===== src/Egc/Aa/Assembly.antt =====
-- The assembly of a LES message from its packets.
use inmar_scope.Prelude.{
  ℕ, ◌+◌, ◌≤◌, ◌<◌, ◌≡◌, refl, List, [], ◌∷◌, ◌++◌, Bool, true, false, leb, ◌==◌, if◌then◌else◌,
  Text, arith, sym, ap, ◌∙◌, append_assoc, append-nil, lt→ltb,
}
use inmar_scope.Egc.Decoder.{ChainCode, plus, minus}
use inmar_scope.Egc.Aa.{Part, chain_state, best_text, assemble}

-- Packets of one chain in the order in which they come.
unfoldable pub assemble_all : List Part → ChainCode × Text → ChainCode × Text
assemble_all [] chain = chain
assemble_all (p ∷ ps) chain = assemble_all ps (assemble p chain)

-- The numbers grow, from above `last` on; some may be missing.
unfoldable pub Grows : ℕ → List Part → Type 0
Grows last [] = 0 ≤ 0
Grows last (p ∷ ps) = (last < p.pkt_no) × Grows p.pkt_no ps

-- The texts of the packets in one encoding, one after the other.
unfoldable pub texts : Bool → List Part → Text
texts use_ita2 [] = []
texts use_ita2 (p ∷ ps) = best_text use_ita2 p ++ texts use_ita2 ps

-- The chain whose last packet has the number `n`.
abbrev pub code_of : Bool → ℕ → ChainCode
code_of use_ita2 n = if use_ita2 then plus (10000 + n) else minus (10000 + n)

chain_state-code_of : (b : Bool) (n : ℕ) → 0 < n → chain_state (code_of b n) ≡ (b, n)
unfolding chain_state
chain_state-code_of true n h = ground arith
chain_state-code_of false n h = ground arith

-- A later packet of a chain is appended in the encoding of the chain.
assemble_later :
    (b : Bool) (n : ℕ) (t : Text) (p : Part)
    → 0 < n
    → n < p.pkt_no
    → assemble p (code_of b n, t) ≡ (code_of b p.pkt_no, t ++ best_text b p)
unfolding assemble
assemble_later b n t p pos h =
    let follows : leb p.pkt_no 1 ≡ false = ground arith in
    let at = chain_state-code_of b n pos in
    let b' : (if n == 0 then p.looks_ita2 else b) ≡ b = ground arith in
    rw (at, b', follows, lt→ltb n p.pkt_no h) refl

-- The first packet of a message.
assemble_first :
    (code : ChainCode) (old : Text) (p : Part)
    → p.pkt_no ≡ 1
    → let st = chain_state code in
      let b = if st.1 == 0 then p.looks_ita2 else st.0 in
      assemble p (code, old) ≡ (code_of b 1, best_text b p)
unfolding assemble
assemble_first code old p e = rw e refl

assemble_all_later :
    (ps : List Part) (b : Bool) (n : ℕ) (t : Text)
    → 0 < n
    → Grows n ps
    → (assemble_all ps (code_of b n, t)).1 ≡ t ++ texts b ps
unfolding assemble_all texts Grows
assemble_all_later [] b n t pos g = sym (append-nil t)
assemble_all_later (p ∷ ps) b n t pos g =
    ap (λ chain. (assemble_all ps chain).1) (assemble_later b n t p pos g.0)
    ∙ assemble_all_later ps b p.pkt_no (t ++ best_text b p) (omega (arith, g.0)) g.1
    ∙ append_assoc t (best_text b p) (texts b ps)

-- A message that starts with its packet 1 is assembled from the packets that come with growing
-- numbers, of which some may be missing, whatever text the chain held before: its text is their
-- texts one after the other, all in one encoding. If the last packet of the chain before had a
-- number above 0, this is the encoding of that chain; else it is ITA2 if packet 1 looks like ITA2.
pub assemble_all_in_order :
    (p : Part) (ps : List Part) (code : ChainCode) (old : Text)
    → p.pkt_no ≡ 1
    → Grows 1 ps
    → let st = chain_state code in
      let b = if st.1 == 0 then p.looks_ita2 else st.0 in
      (assemble_all (p ∷ ps) (code, old)).1 ≡ texts b (p ∷ ps)
unfolding assemble_all texts
assemble_all_in_order p ps code old e g =
    let st = chain_state code in
    let b = if st.1 == 0 then p.looks_ita2 else st.0 in
    ap (λ chain. (assemble_all ps chain).1) (assemble_first code old p e)
    ∙ assemble_all_later ps b 1 (best_text b p) (omega arith) g
