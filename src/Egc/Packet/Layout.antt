-- ===== src/Egc/Packet/Layout.antt =====
-- Packets as a sender lays them into a frame, and how the receiver tells them apart.
use inmar_scope.Prelude.{
  ℕ, zero, suc, ◌+◌, ◌*◌, ◌<◌, ◌≡◌, List, [], ◌∷◌, ◌++◌, ltb, if◌then◌else◌, length,
}
use inmar_scope.Egc.Packet.{byte_at, packet_length}

-- A short packet has the length of its body in the low bits of its type, a medium one in the byte
-- behind it.
pub data Packet : Type 0 where
  short : (kind : ℕ) (body : List ℕ) → Packet
  medium : (kind : ℕ) (body : List ℕ) → Packet

unfoldable pub laid : Packet → List ℕ
laid (short kind body) = (kind * 16 + length body) ∷ body
laid (medium kind body) = (128 + kind) ∷ length body ∷ body

unfoldable pub Fits : Packet → Type 0
Fits (short kind body) = (kind < 8) × (length body < 16)
Fits (medium kind body) = (kind < 64) × (length body < 256)

-- What stands behind the last of them: nothing, a packet without a length, which fills the frame, or
-- the type of a medium packet that is cut off there.
pub data Tail : Type 0 where
  nothing : Tail
  long : (kind : ℕ) (body : List ℕ) → Tail
  cut : (kind : ℕ) → Tail

unfoldable pub laid_tail : Tail → List ℕ
laid_tail nothing = []
laid_tail (long kind body) = (192 + kind) ∷ body
laid_tail (cut kind) = (128 + kind) ∷ []

unfoldable pub TailFits : Tail → Type 0
TailFits nothing = Unit {0}
TailFits (long kind body) = kind < 64
TailFits (cut kind) = kind < 64

unfoldable pub tail_lengths : Tail → List ℕ
tail_lengths nothing = []
tail_lengths (long kind body) = suc (length body) ∷ []
tail_lengths (cut kind) = 1 ∷ []

unfoldable pub frame : List Packet → Tail → List ℕ
unfolding laid laid_tail
frame [] t = laid_tail t
frame (p ∷ ps) t = laid p ++ frame ps t

unfoldable pub AllFit : List Packet → Type 0
unfolding Fits
AllFit [] = Unit {0}
AllFit (p ∷ ps) = Fits p × AllFit ps

unfoldable pub lengths : List Packet → Tail → List ℕ
unfolding laid tail_lengths
lengths [] t = tail_lengths t
lengths (p ∷ ps) t = length (laid p) ∷ lengths ps t

-- The lengths that the receiver finds from a position on, each packet behind the one before.
unfoldable pub found : ℕ → List ℕ → ℕ → ℕ → List ℕ
unfolding packet_length
found zero f pos flen = []
found (suc rounds) f pos flen =
    let n = packet_length f pos flen in
    let rest = found rounds f (pos + n) flen in if ltb pos flen then n ∷ rest else []

-- The bytes of `f` from `pos` on are those of `rest`.
abbrev At : List ℕ → ℕ → List ℕ → Type 0
At f pos rest = (i : ℕ) → byte_at f (pos + i) ≡ byte_at rest i
