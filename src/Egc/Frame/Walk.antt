-- ===== src/Egc/Frame/Walk.antt =====
-- The walk over the packets of a frame ends.
use inmar_scope.Prelude.{
  ℕ, zero, suc, ◌+◌, ◌-◌, ◌<◌, ◌≡◌, ◌≢◌, inl, inr, refl, List, Bool, true, false, ◌||◌, not, ltb,
  ◌==◌, if◌then◌else◌, arith, none, Bool-cases,
}
use inmar_scope.Double.{Double}
use inmar_scope.Egc.Decoder.{Links, Decoder, emit_egc}
use inmar_scope.Egc.Aa.{handle_aa}
use inmar_scope.Egc.Frame.Handlers.{handle_bulletin, handle_terminal}
use inmar_scope.Egc.Packet.{byte_at, packet_length, crc_ok}
use inmar_scope.Egc.Frame.{begin_multiframe, Step, next, packet, decode_from}

-- No packet of type 0xBE with a good checksum starts in the frame.
abbrev pub IsPlain : List ℕ → ℕ → Type 0
IsPlain f flen = (i : ℕ) → byte_at f i ≡ 0xbe → crc_ok f i (packet_length f i flen) ≡ false

-- The step goes on with the next packet.
abbrev IsNext : {D : Type 0} → Step D → Type 0
IsNext {D} st = (s : Decoder D) × (st ≡ next s)

if-IsNext :
    {D : Type 0} (b : Bool) {x y : Step D} → IsNext x → IsNext y → IsNext (if b then x else y)
if-IsNext true p q = p
if-IsNext false p q = q

-- The tests at which the walk stops.
abbrev stops : List ℕ → ℕ → ℕ → Bool
stops f flen pos =
    let plen = packet_length f pos flen in
    not (ltb pos flen) || (byte_at f pos == 0) || (plen == 0) || ltb flen (pos + plen)

goes_on :
    (f : List ℕ) (flen pos : ℕ)
    → stops f flen pos ≡ false
    → (pos < flen) × (0 < packet_length f pos flen)
goes_on f flen pos h = ground (arith, h)

module _ (F : Double) (links : Links F.Real) where
  packet_plain :
      (f : List ℕ) (pos plen : ℕ) (s : Decoder F.Real)
      → (byte_at f pos ≡ 0xbe → crc_ok f pos plen ≡ false)
      → IsNext (packet F links f pos plen s)
  unfolding packet
  packet_plain f pos plen s plain = elim (Bool-cases (crc_ok f pos plen)) [
    | inr bad ↦ (s, rw bad refl)
    | inl ok ↦
        let not_be : (byte_at f pos == 0xbe) ≡ false = ground (arith, ok, plain) in
        let d = byte_at f pos in
        rw (ok, not_be)
          (if-IsNext (d == 0x7d) (handle_bulletin F f pos plen s, refl)
            (if-IsNext ((d == 0xb1) || (d == 0xb2)) (emit_egc links f pos plen s, refl)
              (if-IsNext (d == 0xbd) (begin_multiframe f pos plen s, refl)
                (if-IsNext (d == 0xaa) (handle_aa links f pos plen s, refl)
                  (handle_terminal F links f pos plen s, refl)))))
  ]

  -- The walk over a frame in which no packet of type 0xBE with a good checksum starts ends within
  -- one round for each byte that is left and one more.
  pub decode_from-ends :
      (f : List ℕ) (flen : ℕ)
      → IsPlain f flen
      → (rounds pos : ℕ) (s : Decoder F.Real) → flen - pos < rounds
      → decode_from F rounds links f flen pos s ≢ none
  unfolding decode_from
  decode_from-ends f flen plain zero pos s h = absurd (omega arith)
  decode_from-ends f flen plain (suc rounds) pos s h = elim (Bool-cases (stops f flen pos)) [
    | inl stop ↦ rw stop (λ e. cc)
    | inr go ↦
        let on = goes_on f flen pos go in
        let plen = packet_length f pos flen in
        let step = packet_plain f pos plen s (plain pos) in
        rw (go, step.1)
          (decode_from-ends f flen plain rounds (pos + plen) step.0 (omega (arith, on.0, on.1)))
  ]
