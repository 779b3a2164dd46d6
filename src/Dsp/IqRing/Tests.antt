-- ===== src/Dsp/IqRing/Tests.antt =====
-- The ring of src/dsp/iq_ring.h on small inputs.
use inmar_scope.Prelude.{ℕ, ◌≡◌, refl, some, List, [], ◌∷◌, arith}
use inmar_scope.Dsp.IqRing.{new, push, push_from, push_one, latest, copy_from, available, clear}
use inmar_scope.Dsp.IqRing.History.{
  Call, feed, reset, run, history, pushed, last_samples, latest-run, available-run,
}

-- Two samples, a clear, then three samples through a ring of two.
abbrev calls : List (Call ℕ)
calls = feed (1 ∷ 2 ∷ 3 ∷ 4 ∷ []) 2 ∷ reset ∷ feed (5 ∷ 6 ∷ 7 ∷ 8 ∷ 9 ∷ 10 ∷ []) 3 ∷ []

keeps_the_newest : latest 0 (run 0 (new 0 2) calls) 2 ≡ some ((7, 8) ∷ (9, 10) ∷ [])
unfolding latest run new push push_from push_one copy_from clear
keeps_the_newest = refl

latest-run_example : latest 0 (run 0 (new 0 2) calls) 2 ≡ some ((7, 8) ∷ (9, 10) ∷ [])
unfolding last_samples history pushed
latest-run_example = latest-run 0 2 calls 2 (omega arith) (omega arith)

two_available : available 0 (run 0 (new 0 2) calls) ≡ 2
unfolding history pushed
two_available = available-run 0 2 calls (omega arith) (omega arith)
