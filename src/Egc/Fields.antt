-- ===== src/Egc/Fields.antt =====
-- Fields of a packet: the readers of src/decode/egc/egc_decoder.cpp.
use inmar_scope.Prelude.{ℕ, zero, suc, ◌+◌, ◌*◌, ◌/◌, ◌%◌, List, [], ◌∷◌}
use inmar_scope.Double.{Double}
use inmar_scope.Egc.Packet.{byte_at, word_at}

-- `n` bytes from `start` on.
unfoldable pub read_bytes : List ℕ → ℕ → ℕ → List ℕ
read_bytes f start zero = []
read_bytes f start (suc n) = byte_at f start ∷ read_bytes f (start + 1) n

unfoldable pub read_mes_id : List ℕ → ℕ → ℕ
read_mes_id d pos = byte_at d pos * 65536 + byte_at d (pos + 1) * 256 + byte_at d (pos + 2)

-- A byte is below 256.
unfoldable pub read_sat : List ℕ → ℕ → ℕ
read_sat d pos = byte_at d pos / 64 % 4

unfoldable pub read_les : List ℕ → ℕ → ℕ
read_les d pos = byte_at d pos % 64

module _ (F : Double) where
  open F use {Real, literal, of_int, add, sub, mul}

  -- The difference of the `int`s is exact in `double`.
  unfoldable pub downlink_mhz : List ℕ → ℕ → Real
  downlink_mhz d pos =
      add (mul (sub (of_int (word_at d pos)) (of_int 8000)) (literal 25 4)) (literal 15300 1)

  unfoldable pub uplink_mhz : List ℕ → ℕ → Real
  uplink_mhz d pos =
      add (mul (sub (of_int (word_at d pos)) (of_int 6000)) (literal 25 4)) (literal 16265 1)
