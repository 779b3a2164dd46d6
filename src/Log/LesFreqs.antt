-- ===== src/Log/LesFreqs.antt =====
-- `LesFreqTable` of src/decode/message_log.h.
pub mod Apart
mod Tests
use inmar_scope.Prelude.{ℕ, suc, ◌+◌, ◌%◌, List, [], ◌∷◌, Bool, true, false, if◌then◌else◌, Text}
use inmar_scope.Log.Types.{LesFreqEntry}
use inmar_scope.Double.{Double}

module _ (F : Double) where
  open F use {Real, literal, sub, fabs, less}

  unfoldable pub near : Real → Real → Bool
  near a b = less (fabs (sub a b)) (literal 1 3)

  -- The loop of `add`, and the `push_back` when it finds nothing. The arguments come as the entry
  -- that they make, whose `hits` is 1 and whose `has_decoder` is false. `hits` is an `int` that
  -- counts broadcasts; it is left unbounded.
  unfoldable pub add_freq : LesFreqEntry Real → List (LesFreqEntry Real) → List (LesFreqEntry Real)
  unfolding near
  add_freq args [] = args ∷ []
  add_freq args (e ∷ es) =
      let rest = add_freq args es in
      if near e.freq_mhz args.freq_mhz
      then record args { freq_mhz = e.freq_mhz; hits = e.hits + 1; has_decoder = e.has_decoder }
        ∷ es
      else e ∷ rest

  unfoldable pub set_has_decoder : Real → Bool → List (LesFreqEntry Real) → List (LesFreqEntry Real)
  unfolding near
  set_has_decoder freq on [] = []
  set_has_decoder freq on (e ∷ es) =
      let rest = set_has_decoder freq on es in
      if near e.freq_mhz freq then record e { has_decoder = on } ∷ es else e ∷ rest

  unfoldable pub clear_freqs : List (LesFreqEntry Real) → List (LesFreqEntry Real)
  clear_freqs es = []
