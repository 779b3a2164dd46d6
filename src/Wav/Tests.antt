-- ===== src/Wav/Tests.antt =====
-- Recordings and their playback: runs.
use inmar_scope.Prelude.{
  ℕ, ◌+◌, ◌≡◌, refl, arith, List, [], ◌∷◌, true, false, none, some, Text, codes,
}
use inmar_scope.Double.{scaled}
use inmar_scope.Dsp.IqRing.{copy_from, push_from, push_one}
use inmar_scope.Wav.Recorder.{IqRecorder, fill_ring, stop, buffered, samples_from, level}
use inmar_scope.Wav.Source.{WavFileSource, start, play, begin, play_step, from_8}
use inmar_scope.Wav.Played.{start-recorded, recorded_file}

abbrev one : ℕ
one = 1_000_000

-- A ring of two samples that is full.
abbrev full : IqRecorder scaled
full = record {
  recording = false;
  path = [];
  file = none;
  closed = [];
  sample_rate = 0;
  start_time = 0;
  data_bytes = 0;
  ring = record { cap = 2; buf = 0 ∷ 0 ∷ one ∷ 0 ∷ []; write = 2; total = 0 };
  buffer_sec = one;
}

abbrev source : WavFileSource scaled
source = record {
  path = codes "a.wav";
  running = false;
  loop = false;
  progress = 0;
  sample_rate = 0;
  channels = 2;
  bits = 8;
  data_offset = 0;
  data_bytes = 0;
}

-- Two blocks, of one sample and of none.
abbrev blocks : List (List ℕ × ℕ)
blocks = (0 ∷ one ∷ [], 1) ∷ ([], 0) ∷ []

abbrev file : Text
file = recorded_file scaled full (codes "a.wav") (3 + one) 5 blocks

start-recorded_example :
    let opened = start scaled source (some file) in
    (opened.1 ≡ none)
    × (opened.0.sample_rate ≡ one)
    × (play scaled 4 opened.0 file (begin scaled opened.0 file)
        ≡ (0, 0) ∷ (992124, 0) ∷ (0, 992124) ∷ [])
unfolding stop buffered copy_from samples_from level from_8
start-recorded_example =
    start-recorded scaled full (codes "a.wav") (3 + one) 5 blocks source 4 refl refl (omega arith)
      (omega arith)

-- The third sample takes the place of the first one.
ring_wraps :
    buffered scaled (fill_ring scaled full (one ∷ one ∷ []) 1).ring ≡ (one, 0) ∷ (one, one) ∷ []
unfolding fill_ring buffered copy_from push_from push_one
ring_wraps = refl

-- A file without samples is played for ever: a round hands on nothing and changes nothing.
abbrev empty_source : WavFileSource scaled
empty_source = record source { loop = true; running = true; data_offset = 2 }

empty_loops :
    play_step scaled empty_source [] (begin scaled empty_source [])
    ≡ some ([], begin scaled empty_source [])
unfolding play_step
empty_loops = refl
