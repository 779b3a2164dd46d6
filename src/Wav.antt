-- ===== src/Wav.antt =====
-- WAV files, as src/sdr/iq_recorder.cpp writes them and src/sdr/wav_file_source.cpp reads them:
-- the numbers of the format.
pub mod Recorder
pub mod Source
pub mod Written
pub mod Opened
pub mod Played
mod Tests
use inmar_scope.Prelude.{
  ℕ, zero, suc, ◌+◌, ◌*◌, ◌/◌, ◌%◌, List, [], ◌∷◌, ◌++◌, Text, get_or, Bool, true, false, length,
  take, drop,
}

abbrev pub put16 : ℕ → Text
put16 v = v % 256 ∷ v / 256 % 256 ∷ []

abbrev pub put32 : ℕ → Text
put32 v = v % 256 ∷ v / 256 % 256 ∷ v / 65536 % 256 ∷ v / 16777216 % 256 ∷ []

-- The bytes do not overlap, so that `|` is a sum.
abbrev pub rd16 : Text → ℕ
rd16 p = get_or p 0 0 + get_or p 1 0 * 256

abbrev pub rd32 : Text → ℕ
rd32 p = get_or p 0 0 + get_or p 1 0 * 256 + get_or p 2 0 * 65536 + get_or p 3 0 * 16777216

-- Whether so many bytes are left to read.
abbrev pub has_bytes : ℕ → Text → Bool
has_bytes zero p = true
has_bytes (suc n) [] = false
has_bytes (suc n) (b ∷ p) = has_bytes n p

-- `fseek` into a file and `fwrite` over bytes of it.
abbrev pub write_at : ℕ → Text → Text → Text
write_at offset bytes file = take offset file ++ bytes ++ drop (offset + length bytes) file
