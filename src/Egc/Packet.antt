-- ===== src/Egc/Packet.antt =====
-- Packet lengths, the checksum and the address lengths of src/decode/egc/egc_decoder.cpp. A frame is
-- the list of its bytes. A read past its end is undefined in the source; here it gives 0.
pub mod Checksum
pub mod Layout
pub mod Errors
mod Tests
use inmar_scope.Prelude.{
  ℕ, zero, suc, ◌+◌, ◌-◌, ◌*◌, ◌/◌, ◌%◌, Bool, true, false, ◌&&◌, ◌||◌, List, ltb, ◌==◌,
  if◌then◌else◌, get_or,
}

-- `f[i]`
abbrev pub byte_at : List ℕ → ℕ → ℕ
byte_at f i = get_or f i 0

-- `f[i] << 8 | f[i + 1]`
abbrev pub word_at : List ℕ → ℕ → ℕ
word_at f i = byte_at f i * 256 + byte_at f (i + 1)

-- `(int16_t)`, as the pattern of 16 bits.
abbrev pub int16 : ℕ → ℕ
int16 n = n % 65536

-- The loop of `egcCrc` from round `i`, with `left` rounds to go, on the sums `c0` and `c1`.
pub crc_from : List ℕ → ℕ → ℕ → ℕ → ℕ → ℕ → ℕ → ℕ × ℕ
crc_from d pos length zero i c0 c1 = (c0, c1)
crc_from d pos length (suc left) i c0 c1 =
    let b = if ltb (i + 2) length then byte_at d (pos + i) else 0 in
    let c0' = int16 (c0 + b) in crc_from d pos length left (i + 1) c0' (int16 (c1 + c0'))

-- The two bytes of the result from the sums; the differences are taken modulo 256.
pub crc_word : ℕ × ℕ → ℕ
crc_word (c0, c1) = (c0 + 65536 - c1) % 256 * 256 + (c1 + 131072 - 2 * c0) % 256

unfoldable pub egc_crc : List ℕ → ℕ → ℕ → ℕ
unfolding crc_from crc_word
egc_crc d pos length = crc_word (crc_from d pos length length 0 0 0)

unfoldable pub packet_length : List ℕ → ℕ → ℕ → ℕ
packet_length f pos flen =
    let d = byte_at f pos in
    if d / 128 == 0
    then d % 16 + 1
    else if (d / 64 == 2) && ltb (pos + 1) flen
    then byte_at f (pos + 1) + 2
    else flen - pos

unfoldable pub crc_ok : List ℕ → ℕ → ℕ → Bool
crc_ok f pos plen =
    if ltb plen 2
    then false
    else let pkt_crc = word_at f (pos + plen - 2) in
      (pkt_crc == 0) || (pkt_crc == egc_crc f pos plen)

unfoldable pub address_length : ℕ → ℕ
address_length mt =
    if (mt == 0x11) || (mt == 0x31)
    then 4
    else if (mt == 0x02) || (mt == 0x72)
    then 5
    else if (mt == 0x13) || (mt == 0x23) || (mt == 0x33) || (mt == 0x73)
    then 6
    else if (mt == 0x04) || (mt == 0x14) || (mt == 0x24) || (mt == 0x34) || (mt == 0x44)
    then 7
    else 3
