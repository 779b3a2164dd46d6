-- ===== src/Egc/Packet/Errors.antt =====
-- What the checksum of a packet detects.
use inmar_scope.Prelude.{
  ℕ, zero, suc, ◌+◌, ◌-◌, ◌%◌, ◌≤◌, ◌<◌, ◌≡◌, ◌≢◌, inl, inr, refl, List, true, false, arith,
  ℕ_discrete, Bool-cases,
}
use inmar_scope.Egc.Packet.{byte_at, word_at, crc_ok}
use inmar_scope.Egc.Packet.Checksum.{fletcher, crc_ok_iff}

-- The sum of `n` bytes from `i` on.
unfoldable pub byte_sum : List ℕ → ℕ → ℕ → ℕ
byte_sum f zero i = 0
byte_sum f (suc n) i = byte_at f i + byte_sum f n (i + 1)

fletcher-byte_sum : (f : List ℕ) (n i a b : ℕ) → (fletcher f n i a b).0 ≡ a + byte_sum f n i
unfolding fletcher byte_sum
fletcher-byte_sum f zero i a b = omega arith
fletcher-byte_sum f (suc n) i a b =
    omega (arith, fletcher-byte_sum f n (i + 1) (a + byte_at f i) (b + (a + byte_at f i)))

-- The lists agree but at `k`.
abbrev pub AgreeBut : ℕ → List ℕ → List ℕ → Type 0
AgreeBut k f g = (i : ℕ) → i ≢ k → byte_at f i ≡ byte_at g i

byte_sum_after :
    (f g : List ℕ) (k n i : ℕ) → AgreeBut k f g → k < i → byte_sum f n i ≡ byte_sum g n i
unfolding byte_sum
byte_sum_after f g k zero i agree h = refl
byte_sum_after f g k (suc n) i agree h =
    omega (arith, agree i (omega arith), byte_sum_after f g k n (i + 1) agree (omega arith))

byte_sum_at :
    (f g : List ℕ) (k n i : ℕ)
    → AgreeBut k f g
    → i ≤ k
    → k < i + n
    → byte_sum f n i + byte_at g k ≡ byte_sum g n i + byte_at f k
unfolding byte_sum
byte_sum_at f g k zero i agree h l = absurd (omega arith)
byte_sum_at f g k (suc n) i agree h l = elim (ℕ_discrete i k) [
  | yes e ↦ rw e (omega (arith, byte_sum_after f g k n (k + 1) agree (omega arith)))
  | no ne ↦ omega (arith, agree i ne, byte_sum_at f g k n (i + 1) agree (omega arith) (omega arith))
]

sum_zero_of_ok :
    (f : List ℕ) (pos plen : ℕ)
    → ((i : ℕ) → byte_at f i < 256)
    → 2 ≤ plen
    → word_at f (pos + (plen - 2)) ≢ 0
    → crc_ok f pos plen ≡ true
    → byte_sum f plen pos % 256 ≡ 0
sum_zero_of_ok f pos plen bytes h ne ok = elim ((crc_ok_iff f pos plen bytes h).0 ok) [
  | inl z ↦ absurd (ne z)
  | inr s ↦ omega (arith, s.0, fletcher-byte_sum f plen pos 0 0)
]

-- A packet with one byte changed is refused: if a packet is accepted, and another one differs from
-- it in one byte of its `plen` bytes and nowhere else, and the checksum word of neither is 0, then
-- the other one is not accepted.
pub crc_ok_one_byte :
    (f g : List ℕ) (pos plen k : ℕ)
    → ((i : ℕ) → byte_at f i < 256)
    → ((i : ℕ) → byte_at g i < 256)
    → 2 ≤ plen
    → word_at f (pos + (plen - 2)) ≢ 0
    → word_at g (pos + (plen - 2)) ≢ 0
    → AgreeBut k f g
    → pos ≤ k
    → k < pos + plen
    → byte_at f k ≢ byte_at g k
    → crc_ok f pos plen ≡ true
    → crc_ok g pos plen ≡ false
crc_ok_one_byte f g pos plen k bf bg h nf ng agree lo hi differ ok =
    elim (Bool-cases (crc_ok g pos plen)) [
      | inr refused ↦ refused
      | inl taken ↦ absurd (
          omega (
            arith,
            bf k,
            bg k,
            sum_zero_of_ok f pos plen bf h nf ok,
            sum_zero_of_ok g pos plen bg h ng taken,
            byte_sum_at f g k plen pos agree lo hi,
          ))
    ]
