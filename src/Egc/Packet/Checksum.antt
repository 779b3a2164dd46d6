-- ===== src/Egc/Packet/Checksum.antt =====
-- The checksum of a packet is a Fletcher checksum modulo 256.
use inmar_scope.Prelude.{
  ℕ, zero, suc, ◌+◌, ◌-◌, ◌*◌, ◌%◌, ◌≤◌, ◌<◌, ◌≡◌, ◌↔◌, ◌⊎◌, refl, ap, ◌∙◌, lt→ltb, List, true,
  arith,
}
use mathlib.Core.Path.{ap₂}
use native.Mathlib.Nat.{add-zero}
use inmar_scope.Egc.Packet.{byte_at, word_at, crc_from, crc_word, egc_crc, crc_ok}

-- The running sums over `n` bytes from `i` on, with no wrap: the sum of the bytes and the sum of
-- the partial sums.
unfoldable pub fletcher : List ℕ → ℕ → ℕ → ℕ → ℕ → ℕ × ℕ
fletcher f zero i a b = (a, b)
fletcher f (suc n) i a b = fletcher f n (i + 1) (a + byte_at f i) (b + (a + byte_at f i))

fletcher-suc :
    (f : List ℕ) (n i a b : ℕ)
    → fletcher f (suc n) i a b ≡ fletcher f n (i + 1) (a + byte_at f i) (b + (a + byte_at f i))
unfolding fletcher
fletcher-suc f n i a b = refl

-- One round of the loop before the last two bytes.
crc_from-suc :
    (d : List ℕ) (pos length left i a b : ℕ)
    → i + 2 < length
    → crc_from d pos length (suc left) i (a % 65536) (b % 65536)
      ≡ crc_from d pos length left
          (i + 1)
          ((a + byte_at d (pos + i)) % 65536)
          ((b + (a + byte_at d (pos + i))) % 65536)
unfolding crc_from
crc_from-suc d pos length left i a b h =
    rw (lt→ltb (i + 2) length h)
      (ap₂ (crc_from d pos length left (i + 1)) (omega arith) (omega arith))

crc_from_end :
    (d : List ℕ) (pos length i a b : ℕ)
    → i + 2 ≡ length
    → crc_from d pos length 2 i (a % 65536) (b % 65536) ≡ (a % 65536, (b + 2 * a) % 65536)
unfolding crc_from
crc_from_end d pos length i a b e = ground arith

-- The sums of the code over the bytes before the checksum, and two zero bytes.
crc_from-fletcher :
    (d : List ℕ) (pos length n i a b : ℕ)
    → i + n + 2 ≡ length
    → let s = fletcher d n (pos + i) a b in
      crc_from d pos length (suc (suc n)) i (a % 65536) (b % 65536)
      ≡ (s.0 % 65536, (s.1 + 2 * s.0) % 65536)
unfolding fletcher
crc_from-fletcher d pos length zero i a b e = crc_from_end d pos length i a b (omega arith)
crc_from-fletcher d pos length (suc n) i a b e =
    let shift : pos + (i + 1) ≡ pos + i + 1 = omega arith in
    let ih =
      crc_from-fletcher d pos length n (i + 1) (a + byte_at d (pos + i))
        (b + (a + byte_at d (pos + i))) (omega arith) in
    crc_from-suc d pos length (suc (suc n)) i a b (omega arith) ∙ rw shift at ih

fletcher_two_more :
    (d : List ℕ) (n i a b : ℕ)
    → let s = fletcher d n i a b in
      let x = byte_at d (i + n) in
      let y = byte_at d (i + n + 1) in
      fletcher d (suc (suc n)) i a b ≡ (s.0 + x + y, s.1 + (s.0 + x) + (s.0 + x + y))
fletcher_two_more d zero i a b = unfold fletcher in rw add-zero refl
fletcher_two_more d (suc n) i a b =
    let shift : i + 1 + n ≡ i + suc n = omega arith in
    let ih = fletcher_two_more d n (i + 1) (a + byte_at d i) (b + (a + byte_at d i)) in
    fletcher-suc d (suc (suc n)) i a b ∙ rw (fletcher-suc d n i a b) (rw shift at ih)

words_agree :
    (x y a b : ℕ)
    → x < 256
    → y < 256
    → (x * 256 + y ≡ crc_word (a % 65536, (b + 2 * a) % 65536))
      ↔ (((a + x + y) % 256 ≡ 0) × ((b + (a + x) + (a + x + y)) % 256 ≡ 0))
unfolding crc_word
words_agree x y a b hx hy = (λ e. (omega arith, omega arith), λ e. omega arith)

crc_sums :
    (f : List ℕ) (pos n : ℕ)
    → let s = fletcher f n pos 0 0 in
      crc_from f pos (suc (suc n)) (suc (suc n)) 0 0 0 ≡ (s.0 % 65536, (s.1 + 2 * s.0) % 65536)
crc_sums f pos n =
    let sums = crc_from-fletcher f pos (suc (suc n)) n 0 0 0 (omega arith) in rw add-zero at sums

egc_crc_lem :
    (f : List ℕ) (pos n : ℕ)
    → let s = fletcher f n pos 0 0 in
      egc_crc f pos (suc (suc n)) ≡ crc_word (s.0 % 65536, (s.1 + 2 * s.0) % 65536)
unfolding egc_crc
egc_crc_lem f pos n = ap crc_word (crc_sums f pos n)

crc_ok_cases :
    (f : List ℕ) (pos n : ℕ)
    → (crc_ok f pos (suc (suc n)) ≡ true)
      ↔ ((word_at f (pos + n) ≡ 0) ⊎ (word_at f (pos + n) ≡ egc_crc f pos (suc (suc n))))
unfolding crc_ok
crc_ok_cases f pos n =
    let at : pos + suc (suc n) - 2 ≡ pos + n = omega arith in rw at (ground arith)

-- A packet of at least two bytes is accepted exactly when its last two bytes are 0, or both of its
-- Fletcher sums are 0 modulo 256.
pub crc_ok_iff :
    (f : List ℕ) (pos plen : ℕ)
    → ((i : ℕ) → byte_at f i < 256)
    → 2 ≤ plen
    → let s = fletcher f plen pos 0 0 in
      (crc_ok f pos plen ≡ true)
      ↔ ((word_at f (pos + (plen - 2)) ≡ 0) ⊎ ((s.0 % 256 ≡ 0) × (s.1 % 256 ≡ 0)))
crc_ok_iff f pos zero bytes h = absurd (omega arith)
crc_ok_iff f pos (suc zero) bytes h = absurd (omega arith)
crc_ok_iff f pos (suc (suc n)) bytes h =
    let here = fletcher f n pos 0 0 in
    let at : suc (suc n) - 2 ≡ n = omega arith in
    rw (at, fletcher_two_more f n pos 0 0)
      (ground (
        arith,
        crc_ok_cases f pos n,
        egc_crc_lem f pos n,
        words_agree (byte_at f (pos + n)) (byte_at f (pos + n + 1)) here.0 here.1 (bytes (pos + n))
            (bytes (pos + n + 1)),
      ))
