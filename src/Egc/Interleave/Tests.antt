-- ===== src/Egc/Interleave/Tests.antt =====
-- The symbols of a short frame.
use inmar_scope.Prelude.{ℕ, ◌+◌, ◌*◌, ◌%◌, ◌≡◌, List, arith, get_or, replicate}
use mathlib.Core.List.{reverse}
use inmar_scope.Egc.Interleave.{depermute, deinterleave}
use inmar_scope.Egc.Interleave.Places.{deinterleave-depermute}

abbrev frame : List ℕ
frame = replicate 10368 1

deinterleave-depermute_example :
    get_or (deinterleave (λ r c. 7) (depermute frame)) (5 * 64 + 3) 0
    ≡ get_or (reverse frame) (3 * 23 % 64 * 162 + (2 + 5)) 0
deinterleave-depermute_example =
    deinterleave-depermute (λ r c. 7) frame 3 5 (omega arith) (omega arith)
