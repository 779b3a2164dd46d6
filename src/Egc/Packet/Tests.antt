-- ===== src/Egc/Packet/Tests.antt =====
-- Packets of src/decode/egc/ on small inputs.
use inmar_scope.Prelude.{
  ℕ, zero, suc, ◌%◌, ◌<◌, ◌≡◌, ◌↔◌, ◌⊎◌, refl, sym, List, [], ◌∷◌, true, false, arith,
  get_or-set_ne,
}
use inmar_scope.Egc.Packet.{byte_at, word_at, egc_crc, crc_ok}
use inmar_scope.Egc.Packet.Checksum.{fletcher, crc_ok_iff}
use inmar_scope.Egc.Packet.Errors.{crc_ok_one_byte}
use inmar_scope.Egc.Packet.Layout.{Packet, short, medium}

-- A Channel Clear packet of 8 bytes: type, MES, satellite and station, channel, checksum.
abbrev clear_packet : List ℕ
clear_packet = 0x27 ∷ 1 ∷ 2 ∷ 3 ∷ 0x44 ∷ 5 ∷ 253 ∷ 141 ∷ []

-- The same with another station.
abbrev changed_packet : List ℕ
changed_packet = 0x27 ∷ 1 ∷ 2 ∷ 3 ∷ 0x45 ∷ 5 ∷ 253 ∷ 141 ∷ []

clear_packet_crc : egc_crc clear_packet 0 8 ≡ 64909
unfolding egc_crc
clear_packet_crc = refl

clear_packet_ok : crc_ok clear_packet 0 8 ≡ true
unfolding crc_ok egc_crc
clear_packet_ok = refl

AllBytes : List ℕ → Type 0
AllBytes [] = 0 < 256
AllBytes (x ∷ xs) = (x < 256) × AllBytes xs

bytes_of : (f : List ℕ) → AllBytes f → (i : ℕ) → byte_at f i < 256
unfolding AllBytes
bytes_of [] b i = b
bytes_of (x ∷ xs) b zero = b.0
bytes_of (x ∷ xs) b (suc i) = bytes_of xs b.1 i

clear_bytes : AllBytes clear_packet
unfolding AllBytes
clear_bytes = omega arith

changed_bytes : AllBytes changed_packet
unfolding AllBytes
changed_bytes = omega arith

-- A Channel Clear packet, a medium packet and one that takes the rest.
abbrev three_packets : List Packet
three_packets = short 2 (1 ∷ 2 ∷ 3 ∷ 0x44 ∷ 5 ∷ 253 ∷ 141 ∷ []) ∷ medium 0x31 (9 ∷ 8 ∷ 7 ∷ []) ∷ []

crc_ok_iff_example :
    let s = fletcher clear_packet 8 0 0 0 in
    (crc_ok clear_packet 0 8 ≡ true)
    ↔ ((word_at clear_packet 6 ≡ 0) ⊎ ((s.0 % 256 ≡ 0) × (s.1 % 256 ≡ 0)))
crc_ok_iff_example = crc_ok_iff clear_packet 0 8 (bytes_of clear_packet clear_bytes) (omega arith)

crc_ok_one_byte_example : crc_ok changed_packet 0 8 ≡ false
crc_ok_one_byte_example =
    crc_ok_one_byte clear_packet changed_packet 0 8 4 (bytes_of clear_packet clear_bytes)
      (bytes_of changed_packet changed_bytes) (omega arith) (omega arith) (omega arith)
      (λ i ne. sym (get_or-set_ne clear_packet 4 i 0x45 0 (λ e. ne (sym e)))) (omega arith)
      (omega arith) (omega arith) clear_packet_ok
