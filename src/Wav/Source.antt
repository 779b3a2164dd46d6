-- ===== src/Wav/Source.antt =====
-- `WavFileSource` of src/sdr/wav_file_source.h and wav_file_source.cpp. A file is the list of its
-- bytes, or nothing if it cannot be opened.
use inmar_scope.Prelude.{
  ℕ, zero, suc, ◌+◌, ◌-◌, ◌*◌, ◌/◌, ◌%◌, ◌^◌, min, List, [], ◌∷◌, ◌++◌, Bool, true, false, ◌||◌,
  ◌&&◌, not, ◌==◌, ltb, if◌then◌else◌, Option, none, some, Text, codes, text_eq, length, take, drop,
  get_or,
}
use inmar_scope.Double.{Double}
use inmar_scope.Wav.{rd16, rd32, has_bytes}

module _ (F : Double) where
  open F use {Real, literal, of_int, mul, div, neg}

  pub record WavFileSource : Type 0 where
    pub path : Text
    pub running : Bool
    pub loop : Bool
    pub progress : Real
    pub sample_rate : Real
    pub channels : ℕ
    pub bits : ℕ
    pub data_offset : ℕ
    pub data_bytes : ℕ

  -- The loop over the chunks: what is left of the file, the position in it, and whether the stream
  -- is good.
  pub record Walk : Type 0 where
    pub source : WavFileSource
    pub rest : Text
    pub position : ℕ
    pub have_fmt : Bool
    pub have_data : Bool
    pub good : Bool

  -- The bytes that are missing from the file are 0.
  unfoldable pub read_fmt : WavFileSource → ℕ → Text → WavFileSource
  read_fmt s sz body =
      let fmt = take sz body in
      if ltb sz 16 then s else record s {
        channels = rd16 (drop 2 fmt);
        sample_rate = of_int (rd32 (drop 4 fmt));
        bits = rd16 (drop 14 fmt);
      }

  unfoldable pub take_chunk : Walk → Text → ℕ → Text → Walk
  unfolding read_fmt
  take_chunk w id sz body =
      if text_eq id (codes "fmt ")
      then record w {
        source = read_fmt w.source sz body;
        rest = drop (sz + sz % 2) body;
        position = w.position + 8 + sz + sz % 2;
        have_fmt = true;
        good = has_bytes sz body;
      }
      else if text_eq id (codes "data")
      then record w {
        source = record w.source { data_offset = w.position + 8; data_bytes = sz };
        rest = body;
        position = w.position + 8;
        have_data = true;
      }
      else record w {
        rest = drop ((sz + sz % 2) % 2 ^ 32) body;
        position = w.position + 8 + (sz + sz % 2) % 2 ^ 32;
      }

  -- A round of the loop, or its end.
  unfoldable pub walk_step : Walk → Option Walk
  unfolding take_chunk
  walk_step w =
      if not w.good || (w.have_fmt && w.have_data) || not (has_bytes 8 w.rest)
      then none
      else some (take_chunk w (take 4 w.rest) (rd32 (drop 4 w.rest)) (drop 8 w.rest))

  -- Each round takes 8 bytes, so the length of the file is enough rounds.
  unfoldable pub walk : ℕ → Walk → Walk
  unfolding walk_step
  walk zero w = w
  walk (suc rounds) w = elim (walk_step w) [ none ↦ w | some next ↦ walk rounds next ]

  -- The size of the data, by the length of the file.
  abbrev pub real_bytes : ℕ → ℕ → ℕ → ℕ
  real_bytes file_size offset bytes =
      let physical = file_size - offset in
      if ltb offset file_size && ((bytes == 0) || ltb physical bytes) then physical else bytes

  unfoldable pub check_layout : ℕ → Walk → WavFileSource × Option Text
  check_layout file_size w =
      let s = w.source in
      if not w.have_fmt || not w.have_data
      then (s, some (codes "Missing fmt/data chunk"))
      else if ltb s.channels 1 || ltb 2 s.channels || not ((s.bits == 8) || (s.bits == 16))
      then (s, some (codes "Unsupported WAV (need 8/16-bit, 1/2 ch)"))
      else (
        record s {
          data_bytes = real_bytes file_size s.data_offset s.data_bytes;
          progress = literal 0 0;
          running = true;
        },
        none,
      )

  unfoldable pub read_riff : WavFileSource → Text → WavFileSource × Option Text
  unfolding walk check_layout
  read_riff s file =
      if not (has_bytes 12 file)
        || not (text_eq (take 4 file) (codes "RIFF"))
        || not (text_eq (take 4 (drop 8 file)) (codes "WAVE"))
      then (s, some (codes "Not a RIFF/WAVE file"))
      else check_layout (length file) (
          walk (length file) (record {
            source = s;
            rest = drop 12 file;
            position = 12;
            have_fmt = false;
            have_data = false;
            good = true;
          }))

  -- `start`: the source, and the reason if it does not start.
  unfoldable pub start : WavFileSource → Option Text → WavFileSource × Option Text
  unfolding read_riff
  start s file = if s.running then (s, none) else elim file [
    | none ↦ (s, some (codes "Cannot open file: " ++ s.path))
    | some bytes ↦ read_riff s bytes
  ]

  unfoldable pub stop : WavFileSource → WavFileSource
  stop s = record s { running = false }

  -- The loop of `playLoop`.
  pub record Player : Type 0 where
    pub rest : Text
    pub frame_pos : ℕ

  abbrev pub frame_bytes : WavFileSource → ℕ
  frame_bytes s = s.channels * (s.bits / 8)

  abbrev pub total_frames : WavFileSource → ℕ
  total_frames s = s.data_bytes / frame_bytes s

  -- An unsigned byte around 128, and a signed number of 16 bits.
  unfoldable pub from_8 : ℕ → Real
  from_8 b =
      mul (if ltb b 128 then neg (of_int (128 - b)) else of_int (b - 128))
        (div (literal 1 0) (literal 128 0))

  unfoldable pub from_16 : ℕ → Real
  from_16 v =
      mul (if ltb v 32768 then of_int v else neg (of_int (65536 - v)))
        (div (literal 1 0) (literal 32768 0))

  unfoldable pub frame_of : WavFileSource → Text → Real × Real
  unfolding from_8 from_16
  frame_of s p =
      let stereo = s.channels == 2 in
      if s.bits == 8
      then (from_8 (get_or p 0 0), if stereo then from_8 (get_or p 1 0) else literal 0 0)
      else (from_16 (rd16 p), if stereo then from_16 (rd16 (drop 2 p)) else literal 0 0)

  unfoldable pub frames_of : WavFileSource → ℕ → Text → List (Real × Real)
  unfolding frame_of
  frames_of s zero p = []
  frames_of s (suc frames) p = frame_of s p ∷ frames_of s frames (drop (frame_bytes s) p)

  abbrev pub begin : WavFileSource → Text → Player
  begin s file = record { rest = drop s.data_offset file; frame_pos = 0 }

  -- A round of the loop with the block that it hands on, or the end of the loop.
  unfoldable pub play_step : WavFileSource → Text → Player → Option (List (Real × Real) × Player)
  unfolding frames_of
  play_step s file p =
      let remaining = total_frames s - p.frame_pos in
      let want = min 32768 remaining in
      let raw = take (want * frame_bytes s) p.rest in
      let frames = length raw / frame_bytes s in
      if remaining == 0
      then (if s.loop then some ([], begin s file) else none)
      else if frames == 0
      then none
      else some (
        frames_of s frames raw,
        record { rest = drop (want * frame_bytes s) p.rest; frame_pos = p.frame_pos + frames },
      )

  -- The frames of at most so many rounds.
  unfoldable pub play : ℕ → WavFileSource → Text → Player → List (Real × Real)
  unfolding play_step
  play zero s file p = []
  play (suc rounds) s file p = elim (play_step s file p) [
    | none ↦ []
    | some block ↦ block.0 ++ play rounds s file block.1
  ]
