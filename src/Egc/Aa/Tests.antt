-- ===== src/Egc/Aa/Tests.antt =====
-- LES messages on small packets.
use inmar_scope.Prelude.{◌≡◌, refl, [], ◌∷◌, codes, arith, true, false}
use inmar_scope.Egc.Decoder.{plus}
use inmar_scope.Egc.Aa.{Part, chain_state, best_text}
use inmar_scope.Egc.Aa.Assembly.{assemble_all, Grows, texts, assemble_all_in_order}

abbrev first : Part
first = record { pkt_no = 1; ia5 = codes "MEET AT "; ita2 = codes "XX"; looks_ita2 = false }

abbrev third : Part
third = record { pkt_no = 3; ia5 = codes "NOON"; ita2 = codes "YY"; looks_ita2 = true }

third-Grows : Grows 1 (third ∷ [])
unfolding Grows
third-Grows = omega arith

-- After a chain of ITA2 whose last packet had the number 5, a new message is read as ITA2.
assemble_all_in_order_example :
    (assemble_all (first ∷ third ∷ []) (plus 10005, codes "OLD")).1 ≡ codes "XXYY"
unfolding texts best_text chain_state
assemble_all_in_order_example =
    assemble_all_in_order first (third ∷ []) (plus 10005) (codes "OLD") refl third-Grows
