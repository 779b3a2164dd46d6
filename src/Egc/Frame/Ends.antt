-- ===== src/Egc/Frame/Ends.antt =====
-- Messages in several packets that contain such a packet themselves.
use inmar_scope.Prelude.{
  if_true, ℕ, zero, suc, ◌+◌, ◌-◌, ◌≤◌, ◌≡◌, refl, ap, ◌∙◌, List, true, false, ◌&&◌, ◌||◌, not, ltb,
  leb, ◌==◌, length, arith, none,
}
use inmar_scope.Double.{Double}
use inmar_scope.Egc.Decoder.{Links, Decoder}
use inmar_scope.Egc.Packet.{byte_at, packet_length, crc_ok}
use inmar_scope.Egc.Frame.Branches.{packet_be}
use inmar_scope.Egc.Frame.{fill_multiframe, finish_multiframe, next, inner, packet, decode_from}

-- A packet of type 0xBE with a good checksum at `pos`, inside the frame.
pub record Continues (f : List ℕ) (flen pos : ℕ) : Type 0 where
  pub type_eq : byte_at f pos ≡ 0xbe
  pub fits : pos + packet_length f pos flen ≤ flen
  pub ok : crc_ok f pos (packet_length f pos flen) ≡ true

-- A complete message in the buffer that is such a packet.
pub record IsNested {D : Type 0} (s : Decoder D) : Type 0 where
  pub active : s.mfa_active ≡ true
  pub full : s.mfa_filled ≡ s.mfa_expected + 4
  pub size : length s.mfa_data ≡ s.mfa_expected
  pub nested : Continues s.mfa_data s.mfa_expected 0

fill_full :
    {D : Type 0} (f : List ℕ) (pos plen : ℕ) (s : Decoder D)
    → IsNested s
    → fill_multiframe f pos plen s ≡ s
unfolding fill_multiframe
fill_full f pos plen s n =
    let no_room : (ltb 0 (plen - 2) && leb (s.mfa_filled + (plen - 2)) (length s.mfa_data + 4))
        ≡ false =
      ground (arith, n.full, n.size) in
    rw no_room refl

finish_nested :
    {D : Type 0} (links : Links D) (s : Decoder D)
    → IsNested s
    → finish_multiframe links s ≡ inner s s.mfa_data
unfolding finish_multiframe
finish_nested links s n =
    let complete : (s.mfa_filled == s.mfa_expected + 4) ≡ true = ground (arith, n.full) in
    rw (complete, n.nested.type_eq) refl

crc_ok_long : (f : List ℕ) (pos plen : ℕ) → crc_ok f pos plen ≡ true → 2 ≤ plen
unfolding crc_ok
crc_ok_long f pos plen ok = ground (arith, ok)

module _ (F : Double) (links : Links F.Real) where
  packet_nested :
      (f : List ℕ) (flen pos : ℕ) (s : Decoder F.Real)
      → IsNested s
      → Continues f flen pos
      → packet F links f pos (packet_length f pos flen) s ≡ inner s s.mfa_data
  packet_nested f flen pos s n c =
      let plen = packet_length f pos flen in
      packet_be F links f pos plen s c.type_eq c.ok
      ∙ if_true s.mfa_active (next s) n.active
          (ap (finish_multiframe links) (fill_full f pos plen s n) ∙ finish_nested links s n)

  step_nested :
      (rounds : ℕ) (f : List ℕ) (flen pos : ℕ) (s : Decoder F.Real)
      → IsNested s
      → Continues f flen pos
      → decode_from F rounds links s.mfa_data s.mfa_expected 0 s ≡ none
      → decode_from F (suc rounds) links f flen pos s ≡ none
  unfolding decode_from
  step_nested rounds f flen pos s n c ends =
      let plen = packet_length f pos flen in
      let two = crc_ok_long f pos plen c.ok in
      let goes_on : (not (ltb pos flen)
            || (byte_at f pos == 0)
            || (plen == 0)
            || ltb flen (pos + plen))
          ≡ false =
        ground (arith, two, c.fits, c.type_eq) in
      rw (goes_on, packet_nested f flen pos s n c, ends) refl

  -- A packet of type 0xBE that comes while the buffer holds a complete message which is itself a
  -- packet of type 0xBE (both with good checksums) is decoded without end: no number of rounds is
  -- enough for the frame, since the message is decoded again and again.
  pub decode_from-endless :
      (rounds : ℕ) (f : List ℕ) (flen pos : ℕ) (s : Decoder F.Real)
      → IsNested s
      → Continues f flen pos
      → decode_from F rounds links f flen pos s ≡ none
  decode_from-endless zero f flen pos s n c = unfold decode_from in refl
  decode_from-endless (suc rounds) f flen pos s n c =
      step_nested rounds f flen pos s n c
        (decode_from-endless rounds s.mfa_data s.mfa_expected 0 s n n.nested)
