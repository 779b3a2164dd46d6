-- ===== src/Prelude/Table.antt =====
-- Tables checked entry by entry, by evaluation.
use Prim.Native.Nat.{ℕ, zero, suc, ◌+◌, ◌<◌, ◌≤◌}
use mathlib.Core.Bool.{Bool, true, ◌&&◌}
use mathlib.Core.Path.{◌≡◌}
use native.Mathlib.Decide.{ℕ_discrete}
use native.Mathlib.Omega.{arith}

-- The test holds of the `n` numbers from `from` on.
unfoldable pub holds_from : (ℕ → Bool) → ℕ → ℕ → Bool
holds_from test from zero = true
holds_from test from (suc n) = test from && holds_from test (from + 1) n

holds_from-suc :
    (test : ℕ → Bool) (from n : ℕ)
    → holds_from test from (suc n) ≡ true
    → (test from ≡ true) × (holds_from test (from + 1) n ≡ true)
unfolding holds_from
holds_from-suc test from n all = ground arith

pub holds_from_sound :
    (test : ℕ → Bool) (from n : ℕ)
    → holds_from test from n ≡ true
    → (i : ℕ) → from ≤ i
    → i < from + n
    → test i ≡ true
holds_from_sound test from zero all i lo hi = absurd (omega arith)
holds_from_sound test from (suc n) all i lo hi =
    let parts = holds_from-suc test from n all in
    elim (ℕ_discrete i from) [
      | yes here ↦ rw here parts.0
      | no later ↦ holds_from_sound test (from + 1) n parts.1 i (omega arith) (omega arith)
    ]
