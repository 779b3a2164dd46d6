-- ===== src/Log/LesFreqs/Apart.antt =====
-- The stations of `LesFreqTable` are apart in frequency.
use inmar_scope.Prelude.{◌≡◌, List, [], ◌∷◌, Bool, false, Bool-cases, inl, inr}
use inmar_scope.Log.Types.{LesFreqEntry}
use inmar_scope.Log.LesFreqs.{near, add_freq, set_has_decoder, clear_freqs}
use inmar_scope.Double.{Double}

module _ (F : Double) where
  open F use {Real}

  -- No entry is near `freq`.
  abbrev pub AllFar : Real → List (LesFreqEntry Real) → Type 0
  AllFar freq [] = Unit {0}
  AllFar freq (e ∷ es) = (near F freq e.freq_mhz ≡ false) × AllFar freq es

  -- No entry is near a later one.
  abbrev pub Apart : List (LesFreqEntry Real) → Type 0
  Apart [] = Unit {0}
  Apart (e ∷ es) = AllFar e.freq_mhz es × Apart es

  add_freq-AllFar :
      (args : LesFreqEntry Real) (freq : Real) (es : List (LesFreqEntry Real))
      → near F freq args.freq_mhz ≡ false
      → AllFar freq es
      → AllFar freq (add_freq F args es)
  unfolding add_freq
  add_freq-AllFar args freq [] h a = (h, tt)
  add_freq-AllFar args freq (e ∷ es) h a = elim (Bool-cases (near F e.freq_mhz args.freq_mhz)) [
    | inl hit ↦ rw hit a
    | inr miss ↦ rw miss (a.0, add_freq-AllFar args freq es h a.1)
  ]

  -- A broadcast keeps the entries apart.
  pub add_freq-Apart :
      (args : LesFreqEntry Real) (es : List (LesFreqEntry Real))
      → Apart es
      → Apart (add_freq F args es)
  unfolding add_freq
  add_freq-Apart args [] a = (tt, tt)
  add_freq-Apart args (e ∷ es) a = elim (Bool-cases (near F e.freq_mhz args.freq_mhz)) [
    | inl hit ↦ rw hit a
    | inr miss ↦ rw miss (add_freq-AllFar args e.freq_mhz es miss a.0, add_freq-Apart args es a.1)
  ]

  set_has_decoder-AllFar :
      (freq f : Real) (on : Bool) (es : List (LesFreqEntry Real))
      → AllFar f es
      → AllFar f (set_has_decoder F freq on es)
  unfolding set_has_decoder
  set_has_decoder-AllFar freq f on [] a = tt
  set_has_decoder-AllFar freq f on (e ∷ es) a = elim (Bool-cases (near F e.freq_mhz freq)) [
    | inl hit ↦ rw hit a
    | inr miss ↦ rw miss (a.0, set_has_decoder-AllFar freq f on es a.1)
  ]

  set_has_decoder-Apart :
      (freq : Real) (on : Bool) (es : List (LesFreqEntry Real))
      → Apart es
      → Apart (set_has_decoder F freq on es)
  unfolding set_has_decoder
  set_has_decoder-Apart freq on [] a = tt
  set_has_decoder-Apart freq on (e ∷ es) a = elim (Bool-cases (near F e.freq_mhz freq)) [
    | inl hit ↦ rw hit a
    | inr miss ↦
        rw miss
          (set_has_decoder-AllFar freq e.freq_mhz on es a.0, set_has_decoder-Apart freq on es a.1)
  ]

  -- The calls that change the table.
  pub data Op : Type 0 where
    heard : LesFreqEntry Real → Op
    mark : Real → Bool → Op
    wipe : Op

  unfoldable pub run : List (LesFreqEntry Real) → List Op → List (LesFreqEntry Real)
  run es [] = es
  run es (heard args ∷ ops) = run (add_freq F args es) ops
  run es (mark freq on ∷ ops) = run (set_has_decoder F freq on es) ops
  run es (wipe ∷ ops) = run (clear_freqs F es) ops

  run_from-Apart : (ops : List Op) (es : List (LesFreqEntry Real)) → Apart es → Apart (run es ops)
  unfolding run clear_freqs
  run_from-Apart [] es a = a
  run_from-Apart (heard args ∷ ops) es a =
      run_from-Apart ops (add_freq F args es) (add_freq-Apart args es a)
  run_from-Apart (mark freq on ∷ ops) es a =
      run_from-Apart ops (set_has_decoder F freq on es) (set_has_decoder-Apart freq on es a)
  run_from-Apart (wipe ∷ ops) es a = run_from-Apart ops [] tt

  -- After any sequence of `add`, `setHasDecoder` and `clear` on an empty table, the test of the code
  -- for one frequency (less than 0.001 MHz apart) fails for each entry and every later one.
  pub run-Apart : (ops : List Op) → Apart (run [] ops)
  run-Apart ops = run_from-Apart ops [] tt
