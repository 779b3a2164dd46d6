-- ===== src/Wav/Opened.antt =====
-- A recording, opened by the source.
use inmar_scope.Prelude.{
  ℕ, ◌+◌, ◌*◌, ◌%◌, ◌^◌, ◌<◌, ◌≡◌, ap, ◌∙◌, arith, List, [], ◌++◌, true, Option, none, Text,
  text_eq, length,
}
use inmar_scope.Double.{Double}
use inmar_scope.Wav.{put32, rd32}
use inmar_scope.Wav.Recorder.{interleaved}
use inmar_scope.Wav.Written.{whole_file, length-interleaved}
use inmar_scope.Wav.Source.{
  WavFileSource, read_fmt, take_chunk, walk_step, walk, real_bytes, check_layout, read_riff,
}

rd32-put32 : (v : ℕ) (more : Text) → rd32 (put32 (v % 2 ^ 32) ++ more) ≡ v % 2 ^ 32
rd32-put32 v more = omega arith

module _ (F : Double) where
  open F use {Real, literal, of_int, trunc}

  -- The source with the layout of a recording.
  abbrev pub opened_at : WavFileSource F → Real → ℕ → WavFileSource F
  opened_at s rate size = record s {
    channels = 2;
    bits = 8;
    sample_rate = of_int (trunc rate % 2 ^ 32);
    data_offset = 44;
    data_bytes = size;
    progress = literal 0 0;
    running = true;
  }

  -- The size of the data, if it is the one in the header.
  real_bytes_same : (n bytes : ℕ) → bytes ≡ n → real_bytes F (44 + n) 44 bytes ≡ n
  real_bytes_same n bytes h = ground arith

  pub read_riff-whole_file :
      (s : WavFileSource F) (rate : Real) (samples : List (Real × Real))
      → length samples * 2 < 2 ^ 32
      → read_riff F s (whole_file F rate samples) ≡ (opened_at s rate (length samples * 2), none)
  unfolding read_riff walk walk_step take_chunk check_layout read_fmt text_eq
  read_riff-whole_file s rate samples small =
      let n = length (interleaved F samples) in
      let opened : ℕ → ℕ → WavFileSource F × Option Text =
        λ hz size. (record (opened_at s rate size) { sample_rate = of_int hz }, none) in
      let size_read = rd32-put32 n (interleaved F samples) in
      let doubled = length-interleaved F samples in
      let bytes = rd32 (put32 (n % 2 ^ 32) ++ interleaved F samples) in
      let file_size : length (whole_file F rate samples) ≡ 44 + n = omega arith in
      ap (λ (hz : ℕ). opened hz (real_bytes F (length (whole_file F rate samples)) 44 bytes))
        (rd32-put32 (trunc rate) [])
      ∙ ap (λ (size : ℕ). opened (trunc rate % 2 ^ 32) (real_bytes F size 44 bytes)) file_size
      ∙ ap (opened (trunc rate % 2 ^ 32))
          (real_bytes_same n bytes (omega (arith, size_read, doubled)) ∙ doubled)
