-- ===== src/Wav/Written.antt =====
-- The file that a recording leaves.
use inmar_scope.Prelude.{
  ℕ, ◌+◌, ◌*◌, ◌%◌, ◌^◌, ◌≡◌, refl, sym, ap, ◌∙◌, arith, List, [], ◌∷◌, ◌++◌, append_assoc,
  append-nil, true, false, Option, none, some, Text, length, length-append,
}
use inmar_scope.Double.{Double}
use inmar_scope.Wav.Recorder.{
  Recording, IqRecorder, interleaved, buffered, wav_header, patch_sizes, finished, stop, start,
  samples_from, write,
}

module _ (F : Double) where
  open F use {Real, trunc, of_int, mul}

  -- The blocks of a recording: the floats and the number of samples of each call.
  abbrev pub write_all : IqRecorder F → List (List Real × ℕ) → IqRecorder F
  write_all r [] = r
  write_all r (b ∷ bs) = write_all (write F r b.0 b.1) bs

  abbrev pub samples_of : List (List Real × ℕ) → List (Real × Real)
  samples_of [] = []
  samples_of (b ∷ bs) = samples_from F b.1 0 b.0 ++ samples_of bs

  interleaved-append :
      (xs ys : List (Real × Real)) → interleaved F (xs ++ ys) ≡ interleaved F xs ++ interleaved F ys
  interleaved-append [] ys = refl
  interleaved-append (x ∷ xs) ys = cc (interleaved-append xs ys)

  pub length-interleaved : (xs : List (Real × Real)) → length (interleaved F xs) ≡ length xs * 2
  length-interleaved [] = refl
  length-interleaved (x ∷ xs) = omega (arith, length-interleaved xs)

  -- An open file of a rate with the samples written so far.
  pub record Holds (rate : Real) (samples : List (Real × Real)) (r : IqRecorder F) : Type 0 where
    pub bytes : r.file ≡ some (wav_header F rate ++ interleaved F samples)
    pub size : r.data_bytes ≡ length (interleaved F samples) % 2 ^ 32

  pub start-Holds :
      (r : IqRecorder F) (path : Text) (rate now : Real)
      → Holds rate (buffered F (stop F r).ring) (start F r path rate true now).0
  unfolding start
  start-Holds r path rate now = record { bytes = refl; size = refl }

  -- What a block adds to an open file.
  abbrev pub written : IqRecorder F → Text → Text → IqRecorder F
  written r file bytes = record r {
    file = some (file ++ bytes);
    data_bytes = (r.data_bytes + length bytes) % 2 ^ 32;
  }

  write-some :
      (r : IqRecorder F) (file : Text) (iq : List Real) (n : ℕ)
      → r.file ≡ some file
      → write F r iq n ≡ written r file (interleaved F (samples_from F n 0 iq))
  unfolding write
  write-some r file iq n h =
      ap
        (λ (open_file : Option Text). elim open_file [
          | none ↦ r
          | some f ↦ written r f (interleaved F (samples_from F n 0 iq))
        ])
        h

  written-Holds :
      (rate : Real) (samples more : List (Real × Real)) (r : IqRecorder F)
      → Holds rate samples r
      → Holds rate
          (samples ++ more)
          (written r (wav_header F rate ++ interleaved F samples) (interleaved F more))
  written-Holds rate samples more r h = record {
    bytes = ap some (
        append_assoc (wav_header F rate) (interleaved F samples) (interleaved F more)
        ∙ ap (λ (p : Text). wav_header F rate ++ p) (sym (interleaved-append samples more)));
    size =
        let both = ap length (interleaved-append samples more) in
        omega (arith, h.size, both, length-append (interleaved F samples) (interleaved F more));
  }

  write-Holds :
      (rate : Real) (samples : List (Real × Real)) (r : IqRecorder F) (iq : List Real) (n : ℕ)
      → Holds rate samples r
      → Holds rate (samples ++ samples_from F n 0 iq) (write F r iq n)
  write-Holds rate samples r iq n h =
      rw (write-some r (wav_header F rate ++ interleaved F samples) iq n h.bytes)
        (written-Holds rate samples (samples_from F n 0 iq) r h)

  pub write_all-Holds :
      (rate : Real) (blocks : List (List Real × ℕ)) (samples : List (Real × Real))
      (r : IqRecorder F)
      → Holds rate samples r
      → Holds rate (samples ++ samples_of blocks) (write_all r blocks)
  write_all-Holds rate [] samples r h = rw (append-nil samples) h
  write_all-Holds rate (b ∷ bs) samples r h =
      let rest =
        write_all-Holds rate bs (samples ++ samples_from F b.1 0 b.0) (write F r b.0 b.1)
          (write-Holds rate samples r b.0 b.1 h) in
      rw (sym (append_assoc samples (samples_from F b.1 0 b.0) (samples_of bs))) rest

  -- The file of a rate with its samples and their size.
  abbrev pub whole_file : Real → List (Real × Real) → Text
  whole_file rate samples =
      patch_sizes F (length (interleaved F samples) % 2 ^ 32)
        (wav_header F rate ++ interleaved F samples)

  pub stop-closed :
      (rate : Real) (samples : List (Real × Real)) (r : IqRecorder F)
      → Holds rate samples r
      → (stop F r).closed ≡ record { path = r.path; bytes = whole_file rate samples } ∷ r.closed
  unfolding stop
  stop-closed rate samples r h =
      let close : Option Text → IqRecorder F = λ open_file. elim open_file [
        | none ↦ record r { recording = false }
        | some file ↦ finished F r file
      ] in
      let closed_with : ℕ → List Recording = λ size.
        record {
          path = r.path;
          bytes = patch_sizes F size (wav_header F rate ++ interleaved F samples);
        }
        ∷ r.closed in
      ap (λ (open_file : Option Text). (close open_file).closed) h.bytes ∙ ap closed_with h.size
