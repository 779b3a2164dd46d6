-- ===== src/Egc/Frame/Branches.antt =====
-- The branches of `decodeFrame` for messages in several packets.
use inmar_scope.Prelude.{ℕ, ◌≡◌, refl, List, true, if◌then◌else◌}
use inmar_scope.Double.{Double}
use inmar_scope.Egc.Decoder.{Links, Decoder}
use inmar_scope.Egc.Packet.{byte_at, crc_ok}
use inmar_scope.Egc.Frame.{begin_multiframe, fill_multiframe, finish_multiframe, next, packet}

module _ (F : Double) (links : Links F.Real) where
  pub packet_be :
      (f : List ℕ) (pos plen : ℕ) (s : Decoder F.Real)
      → byte_at f pos ≡ 0xbe
      → crc_ok f pos plen ≡ true
      → packet F links f pos plen s
        ≡ (if s.mfa_active then finish_multiframe links (fill_multiframe f pos plen s) else next s)
  unfolding packet
  packet_be f pos plen s e ok = rw (ok, e) refl

  pub packet_bd :
      (f : List ℕ) (pos plen : ℕ) (s : Decoder F.Real)
      → byte_at f pos ≡ 0xbd
      → crc_ok f pos plen ≡ true
      → packet F links f pos plen s ≡ next (begin_multiframe f pos plen s)
  unfolding packet
  packet_bd f pos plen s e ok = rw (ok, e) refl
