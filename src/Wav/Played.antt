-- ===== src/Wav/Played.antt =====
-- A recording, opened and played.
use inmar_scope.Prelude.{
  ℕ, zero, suc, ◌+◌, ◌-◌, ◌*◌, ◌/◌, ◌%◌, ◌^◌, ◌<◌, ◌≡◌, refl, sym, ap, ◌∙◌, arith, min, List, [],
  ◌∷◌, ◌++◌, map, Bool, true, false, ◌==◌, if◌then◌else◌, Option, none, some, Text, length, take,
  drop, if_true, take-append-drop, length-take, length-drop,
}
use inmar_scope.Double.{Double}
use inmar_scope.Wav.Recorder.{
  Recording, IqRecorder, levels, level, interleaved, buffered, wav_header, patch_sizes,
}
use inmar_scope.Wav.Recorder
use inmar_scope.Wav.Written.{
  whole_file, write_all, samples_of, length-interleaved, start-Holds, write_all-Holds, stop-closed,
}
use inmar_scope.Wav.Opened.{opened_at, read_riff-whole_file}
use inmar_scope.Wav.Source.{
  WavFileSource, read_riff, start, Player, from_8, frame_of, frames_of, begin, play_step, play,
}

module _ (F : Double) where
  open F use {Real, literal, of_int, trunc}

  -- What the source makes of a sample that was recorded.
  abbrev pub heard : Real × Real → Real × Real
  heard (i, q) = (from_8 F (level F i), from_8 F (level F q))

  frames_of-interleaved :
      (s : WavFileSource F) (rate : Real) (size : ℕ) (samples : List (Real × Real))
      → frames_of F (opened_at F s rate size) (length samples) (interleaved F samples)
        ≡ map heard samples
  unfolding frames_of frame_of
  frames_of-interleaved s rate size [] = refl
  frames_of-interleaved s rate size (x ∷ xs) =
      ap (λ (rest : List (Real × Real)). heard x ∷ rest) (frames_of-interleaved s rate size xs)

  twice : (n : ℕ) → suc n * 2 ≡ suc (suc (n * 2))
  twice n = omega arith

  take-interleaved :
      (n : ℕ) (xs : List (Real × Real))
      → take (n * 2) (interleaved F xs) ≡ interleaved F (take n xs)
  take-interleaved zero xs = refl
  take-interleaved (suc n) [] = rw (twice n) refl
  take-interleaved (suc n) (x ∷ xs) =
      rw (twice n) (ap (λ (rest : Text). level F x.0 ∷ level F x.1 ∷ rest) (take-interleaved n xs))

  drop-interleaved :
      (n : ℕ) (xs : List (Real × Real))
      → drop (n * 2) (interleaved F xs) ≡ interleaved F (drop n xs)
  drop-interleaved zero xs = refl
  drop-interleaved (suc n) [] = rw (twice n) refl
  drop-interleaved (suc n) (x ∷ xs) = rw (twice n) (drop-interleaved n xs)

  -- A round with so many frames left, the bytes that it reads and those behind them.
  abbrev pub round :
      WavFileSource F → Text → ℕ → ℕ → ℕ → Text → Text → Option (List (Real × Real) × Player F)
  round s file pos remaining frames raw rest =
      if remaining == 0
      then (if s.loop then some ([], begin F s file) else none)
      else if frames == 0
      then none
      else some (frames_of F s frames raw, record { rest = rest; frame_pos = pos + frames })

  round_more :
      (s : WavFileSource F) (file : Text) (pos remaining frames : ℕ) (raw rest : Text)
      → 0 < remaining
      → 0 < frames
      → round s file pos remaining frames raw rest
        ≡ some (frames_of F s frames raw, record { rest = rest; frame_pos = pos + frames })
  round_more s file pos remaining frames raw rest r f = ground arith

  play_step-end :
      (s : WavFileSource F) (rate : Real) (pos size : ℕ) (file rest : Text)
      → s.loop ≡ false
      → pos * 2 ≡ size
      → play_step F (opened_at F s rate size) file (record { rest = rest; frame_pos = pos }) ≡ none
  unfolding play_step
  play_step-end s rate pos size file rest once e =
      let done : size / 2 - pos ≡ 0 = omega arith in
      if_true (size / 2 - pos == 0) _ (ground (arith, done)) (ground (arith, once))

  -- Reading `want` of the samples that are left.
  play_step-more :
      (s : WavFileSource F) (rate : Real) (pos want size : ℕ) (file : Text)
      (samples : List (Real × Real))
      → (pos + length samples) * 2 ≡ size
      → want ≡ min 32768 (length samples)
      → 0 < length samples
      → play_step F
          (opened_at F s rate size)
          file
          (record { rest = interleaved F samples; frame_pos = pos })
        ≡ some (
          map heard (take want samples),
          record { rest = interleaved F (drop want samples); frame_pos = pos + want },
        )
  unfolding play_step
  play_step-more s rate pos want size file samples e w some_left =
      let n = length samples in
      let left : size / 2 - pos ≡ n = omega arith in
      let go : ℕ → ℕ → Text → Text → Option (List (Real × Real) × Player F) =
        round (opened_at F s rate size) file pos in
      let shorter = length-take want samples in
      let bytes = length-interleaved F (take want samples) in
      let frames : length (interleaved F (take want samples)) / 2 ≡ length (take want samples) =
        omega (arith, bytes) in
      ap
        (λ (k : ℕ).
          let m = min 32768 k * 2 in
          let raw = take m (interleaved F samples) in
          go k (length raw / 2) raw (drop m (interleaved F samples)))
        left
      ∙ ap
          (λ (m : ℕ).
            let raw = take (m * 2) (interleaved F samples) in
            go n (length raw / 2) raw (drop (m * 2) (interleaved F samples)))
          (sym w)
      ∙ ap (λ (raw : Text). go n (length raw / 2) raw (drop (want * 2) (interleaved F samples)))
          (take-interleaved want samples)
      ∙ ap
          (go n (length (interleaved F (take want samples)) / 2)
            (interleaved F (take want samples)))
          (drop-interleaved want samples)
      ∙ ap
          (λ (k : ℕ).
            go n k (interleaved F (take want samples)) (interleaved F (drop want samples)))
          frames
      ∙ round_more (opened_at F s rate size) file pos n (length (take want samples))
          (interleaved F (take want samples)) (interleaved F (drop want samples)) some_left
          (omega (arith, shorter))
      ∙ ap
          (λ (block : List (Real × Real)).
            let next : Option (List (Real × Real) × Player F) = some (
              block,
              record {
                rest = interleaved F (drop want samples);
                frame_pos = pos + length (take want samples);
              },
            ) in
            next)
          (frames_of-interleaved s rate size (take want samples))
      ∙ ap
          (λ (k : ℕ).
            let next : Option (List (Real × Real) × Player F) = some (
              map heard (take want samples),
              record { rest = interleaved F (drop want samples); frame_pos = pos + k },
            ) in
            next)
          (omega (arith, shorter))

  map-append : (xs ys : List (Real × Real)) → map heard xs ++ map heard ys ≡ map heard (xs ++ ys)
  map-append [] ys = refl
  map-append (x ∷ xs) ys = cc (map-append xs ys)

  abbrev pub blocks_after :
      WavFileSource F → Text → ℕ → Option (List (Real × Real) × Player F) → List (Real × Real)
  blocks_after s file rounds o = elim o [
    | none ↦ []
    | some block ↦ block.0 ++ play F rounds s file block.1
  ]

  -- The frames that are left to play are those that were recorded.
  play-interleaved :
      (s : WavFileSource F) (rate : Real) (rounds pos size : ℕ) (file : Text)
      (samples : List (Real × Real))
      → s.loop ≡ false
      → length samples < rounds
      → (pos + length samples) * 2 ≡ size
      → play F rounds
          (opened_at F s rate size)
          file
          (record { rest = interleaved F samples; frame_pos = pos })
        ≡ map heard samples
  unfolding play
  play-interleaved s rate zero pos size file samples once h e = absurd (omega arith)
  play-interleaved s rate (suc rounds) pos size file [] once h e =
      ap (blocks_after (opened_at F s rate size) file rounds)
        (play_step-end s rate pos size file [] once (omega arith))
  play-interleaved s rate (suc rounds) pos size file (x ∷ xs) once h e =
      let samples : List (Real × Real) = x ∷ xs in
      let want = min 32768 (length samples) in
      let shorter = length-drop want samples in
      ap (blocks_after (opened_at F s rate size) file rounds)
        (play_step-more s rate pos want size file samples e refl (omega arith))
      ∙ ap (λ (rest : List (Real × Real)). map heard (take want samples) ++ rest)
          (play-interleaved s rate rounds (pos + want) size file (drop want samples) once
            (omega (arith, shorter)) (omega (arith, shorter)))
      ∙ map-append (take want samples) (drop want samples)
      ∙ ap (map heard) (take-append-drop want samples)

  -- The file that was closed last.
  abbrev pub last_closed : List Recording → Text
  last_closed [] = []
  last_closed (f ∷ fs) = f.bytes

  -- The file of a recording from `start` over the blocks to `stop`.
  abbrev pub recorded_file : IqRecorder F → Text → Real → Real → List (List Real × ℕ) → Text
  recorded_file r path rate now blocks =
      last_closed
        (Recorder.stop F (write_all F (Recorder.start F r path rate true now).0 blocks)).closed

  recorded_file-whole_file :
      (r : IqRecorder F) (path : Text) (rate now : Real) (blocks : List (List Real × ℕ))
      → recorded_file r path rate now blocks
        ≡ whole_file F rate (buffered F (Recorder.stop F r).ring ++ samples_of F blocks)
  recorded_file-whole_file r path rate now blocks =
      let kept = buffered F (Recorder.stop F r).ring in
      ap last_closed (
        stop-closed F rate (kept ++ samples_of F blocks)
          (write_all F (Recorder.start F r path rate true now).0 blocks)
          (write_all-Holds F rate blocks kept (Recorder.start F r path rate true now).0
            (start-Holds F r path rate now)))

  start-whole_file :
      (s : WavFileSource F) (rate : Real) (samples : List (Real × Real))
      → s.running ≡ false
      → length samples * 2 < 2 ^ 32
      → start F s (some (whole_file F rate samples))
        ≡ (opened_at F s rate (length samples * 2), none)
  unfolding start
  start-whole_file s rate samples idle small =
      let running : Bool → WavFileSource F × Option Text =
        λ b. if b then (s, none) else read_riff F s (whole_file F rate samples) in
      ap running idle ∙ read_riff-whole_file F s rate samples small

  -- A recording is played as it was made. A recorder in any state starts one at some rate, `write` is
  -- called with any blocks, and `stop` closes the file; the bytes of the samples are fewer than 2^32.
  -- A source that is not running and does not loop opens this file without an error, with the rate
  -- as the header holds it, and plays each sample once, through the byte that it was written as:
  -- first those of the ring, which a recording that still ran has emptied, then those of
  -- the blocks, in order.
  pub start-recorded :
      (r : IqRecorder F) (path : Text) (rate now : Real) (blocks : List (List Real × ℕ))
      (s : WavFileSource F) (rounds : ℕ)
      → s.running ≡ false
      → s.loop ≡ false
      → length (buffered F (Recorder.stop F r).ring ++ samples_of F blocks) * 2 < 2 ^ 32
      → length (buffered F (Recorder.stop F r).ring ++ samples_of F blocks) < rounds
      → (let samples = buffered F (Recorder.stop F r).ring ++ samples_of F blocks in
          let file = recorded_file r path rate now blocks in
          let opened = start F s (some file) in
          (opened.1 ≡ none)
          × (opened.0.sample_rate ≡ of_int (trunc rate % 2 ^ 32))
          × (play F rounds opened.0 file (begin F opened.0 file) ≡ map heard samples))
  start-recorded r path rate now blocks s rounds idle once small enough =
      let samples = buffered F (Recorder.stop F r).ring ++ samples_of F blocks in
      rw (recorded_file-whole_file r path rate now blocks) (
        rw (start-whole_file s rate samples idle small) (
          refl,
          refl,
          play-interleaved s rate rounds 0 (length samples * 2) (whole_file F rate samples) samples
              once enough (omega arith),
        ))
