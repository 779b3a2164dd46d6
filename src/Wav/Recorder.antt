-- ===== src/Wav/Recorder.antt =====
-- `IqRecorder` of src/sdr/iq_recorder.h and iq_recorder.cpp. Its ring, with `ringCap_` and
-- `ringWrite_`, is filled and read as the one of src/dsp/iq_ring.h is, without a total. A file is the
-- list of its bytes. The clock is an argument, and so is whether a file can be opened.
use inmar_scope.Prelude.{
  ℕ, zero, suc, ◌+◌, ◌-◌, ◌*◌, ◌%◌, ◌^◌, List, [], ◌∷◌, ◌++◌, Bool, true, false, ◌||◌, ◌==◌, ltb,
  if◌then◌else◌, Option, none, some, Text, codes, length, get_or, take, replicate,
}
use inmar_scope.Double.{Double}
use inmar_scope.Dsp.IqRing.{IqRing, push_from, copy_from}
use inmar_scope.Wav.{put16, put32, write_at}

-- A file that has been closed.
pub record Recording : Type 0 where
  pub path : Text
  pub bytes : Text

module _ (F : Double) where
  open F use {Real, literal, of_int, add, mul, less, leq, trunc}

  pub record IqRecorder : Type 0 where
    pub recording : Bool
    pub path : Text
    -- the file that is open, and those closed before, the last one first
    pub file : Option Text
    pub closed : List Recording
    pub sample_rate : Real
    pub start_time : Real
    pub data_bytes : ℕ
    pub ring : IqRing Real
    pub buffer_sec : Real

  abbrev pub zero_float : Real
  zero_float = literal 0 0

  -- `resize`
  unfoldable pub resized : ℕ → List Real → List Real
  resized n xs = take n xs ++ replicate (n - length xs) zero_float

  -- The least capacity of the ring.
  abbrev pub ring_size : ℕ → ℕ
  ring_size n = if ltb n 1024 then 1024 else n

  unfoldable pub configure_prebuffer : IqRecorder → Real → Real → IqRecorder
  unfolding resized
  configure_prebuffer r sample_rate buffer_sec =
      let n = ring_size (trunc (mul sample_rate buffer_sec)) in
      record r {
        buffer_sec = buffer_sec;
        ring =
            if leq buffer_sec zero_float || less (literal 3000000 0) sample_rate
            then record r.ring { buf = []; cap = 0; write = 0 }
            else record r.ring { buf = resized (n * 2) r.ring.buf; cap = n; write = 0 };
      }

  -- `prebuffer`
  unfoldable pub fill_ring : IqRecorder → List Real → ℕ → IqRecorder
  unfolding push_from
  fill_ring r iq n =
      if (r.ring.cap == 0) || (n == 0)
      then r
      else record r { ring = push_from zero_float n 0 iq r.ring }

  -- The byte of a sample.
  unfoldable pub level : Real → ℕ
  level x =
      let f = add (mul x (literal 127 0)) (literal 128 0) in
      let above = if less f zero_float then zero_float else f in
      trunc (if less (literal 255 0) above then literal 255 0 else above) % 256

  abbrev pub levels : Real × Real → ℕ × ℕ
  levels (i, q) = (level i, level q)

  abbrev pub interleaved : List (Real × Real) → Text
  interleaved [] = []
  interleaved (s ∷ ss) = (levels s).0 ∷ (levels s).1 ∷ interleaved ss

  -- The samples of the ring, the oldest first.
  unfoldable pub buffered : IqRing Real → List (Real × Real)
  unfolding copy_from
  buffered ring =
      let avail = if ltb ring.write ring.cap then ring.write else ring.cap in
      if ltb 0 ring.cap then copy_from zero_float avail 0 (ring.write - avail) ring else []

  -- The header of a file, before its sizes are known: 8-bit stereo PCM.
  abbrev pub wav_header : Real → Text
  wav_header sample_rate =
      codes "RIFF"
      ++ put32 36
      ++ codes "WAVE"
      ++ codes "fmt "
      ++ put32 16
      ++ put16 1
      ++ put16 2
      ++ put32 (trunc sample_rate % 2 ^ 32)
      ++ put32 (trunc (mul (mul sample_rate (of_int 2)) (of_int 1)) % 2 ^ 32)
      ++ put16 2
      ++ put16 8
      ++ codes "data"
      ++ put32 0

  -- The sizes in the header, when the file is closed.
  abbrev pub patch_sizes : ℕ → Text → Text
  patch_sizes data_bytes file =
      write_at 40 (put32 data_bytes) (write_at 4 (put32 ((36 + data_bytes) % 2 ^ 32)) file)

  -- The recorder when its open file is closed.
  abbrev pub finished : IqRecorder → Text → IqRecorder
  finished r file = record r {
    recording = false;
    file = none;
    closed = record { path = r.path; bytes = patch_sizes r.data_bytes file } ∷ r.closed;
    ring = record r.ring { write = 0 };
  }

  unfoldable pub stop : IqRecorder → IqRecorder
  stop r = elim r.file [ none ↦ record r { recording = false } | some file ↦ finished r file ]

  -- `start`, with the result of `fopen` and the time.
  unfoldable pub start : IqRecorder → Text → Real → Bool → Real → IqRecorder × Bool
  unfolding stop buffered
  start r path sample_rate opened now =
      let before = stop r in
      let bytes = interleaved (buffered before.ring) in
      if opened
      then (
        record before {
          recording = true;
          path = path;
          file = some (wav_header sample_rate ++ bytes);
          sample_rate = sample_rate;
          start_time = now;
          data_bytes = length bytes % 2 ^ 32;
        },
        true,
      )
      else (before, false)

  -- The samples of a block, from sample `i` on.
  unfoldable pub samples_from : ℕ → ℕ → List Real → List (Real × Real)
  samples_from zero i iq = []
  samples_from (suc left) i iq =
      (get_or iq (i * 2) zero_float, get_or iq (i * 2 + 1) zero_float)
      ∷ samples_from left (i + 1) iq

  unfoldable pub write : IqRecorder → List Real → ℕ → IqRecorder
  unfolding samples_from
  write r iq n = elim r.file [
    | none ↦ r
    | some file ↦
        let bytes = interleaved (samples_from n 0 iq) in
        record r {
          file = some (file ++ bytes);
          data_bytes = (r.data_bytes + length bytes) % 2 ^ 32;
        }
  ]
