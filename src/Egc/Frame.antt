-- ===== src/Egc/Frame.antt =====
-- `EgcDecoder::Impl::decodeFrame` of src/decode/egc/egc_decoder.cpp: the walk over the packets of a
-- frame, with the messages in several packets of a frame (multiframe). A handler that makes a text
-- for the terminal log gives it as the text of its buffer.
pub mod Handlers
pub mod Branches
pub mod Walk
pub mod Multiframe
pub mod Ends
mod Tests
use inmar_scope.Prelude.{
  ℕ, zero, suc, ◌+◌, ◌-◌, ◌*◌, ◌/◌, ◌%◌, List, [], ◌∷◌, ◌++◌, Option, none, some, Bool, true, false,
  ◌&&◌, ◌||◌, not, ltb, leb, ◌==◌, if◌then◌else◌, length, take, drop, replicate,
}
use inmar_scope.Double.{Double}
use inmar_scope.Egc.Decoder.{Links, Decoder, emit_egc}
use inmar_scope.Egc.Aa.{handle_aa}
use inmar_scope.Egc.Fields.{read_bytes}
use inmar_scope.Egc.Packet.{byte_at, packet_length, crc_ok}
use Handlers.{handle_bulletin, handle_terminal}

-- `memcpy(&buf[at], src, ...)`
unfoldable pub write_at : List ℕ → ℕ → List ℕ → List ℕ
write_at buf at src = take at buf ++ src ++ drop (at + length src) buf

-- The length of the message that a 0xBD packet begins.
unfoldable pub message_length : List ℕ → ℕ → ℕ
message_length f pos =
    let md = byte_at f (pos + 2) in
    if md / 128 == 0 then md % 16 + 1 else if md / 64 == 2 then byte_at f (pos + 3) + 2 else 0

-- 0xBD. `mfa_filled` carries 4 more than the source's number, so it is `plen`.
unfoldable pub begin_multiframe : {D : Type 0} → List ℕ → ℕ → ℕ → Decoder D → Decoder D
begin_multiframe f pos plen s =
    let mlen = message_length f pos in
    let blank = replicate mlen 0 in
    if mlen == 0 then s else record s {
      mfa_data =
          if ltb 4 plen && leb plen (mlen + 4)
          then write_at blank 0 (read_bytes f (pos + 2) (plen - 4))
          else blank;
      mfa_expected = mlen;
      mfa_filled = plen;
      mfa_active = true;
    }

-- The copy of 0xBE: the bytes of the packet with its checksum. A copy to a place before the buffer
-- is undefined in the source; here it writes nothing.
unfoldable pub fill_multiframe : {D : Type 0} → List ℕ → ℕ → ℕ → Decoder D → Decoder D
fill_multiframe f pos plen s =
    let cnt = plen - 2 in
    if ltb 0 cnt && leb (s.mfa_filled + cnt) (length s.mfa_data + 4)
    then record s {
      mfa_data =
          if ltb s.mfa_filled 4
          then s.mfa_data
          else write_at s.mfa_data (s.mfa_filled - 4) (read_bytes f (pos + 2) cnt);
      mfa_filled = s.mfa_filled + cnt;
    }
    else s

-- A packet gives the next state, or the state with the inner frame to decode first.
pub data Step (D : Type 0) : Type 0 where
  next : Decoder D → Step D
  inner : Decoder D → List ℕ → Step D

unfoldable pub end_multiframe : {D : Type 0} → Decoder D → Decoder D
end_multiframe s = record s { mfa_active = false }

module _ {D : Type 0} (links : Links D) where
  -- The message that the last packet completes, if it is complete.
  unfoldable pub finish_multiframe : Decoder D → Step D
  finish_multiframe s =
      let ed = byte_at s.mfa_data 0 in
      let ep = packet_length s.mfa_data 0 s.mfa_expected in
      let ok = crc_ok s.mfa_data 0 ep in
      if not (s.mfa_filled == s.mfa_expected + 4)
      then next (end_multiframe s)
      else if (ed == 0xb1) || (ed == 0xb2)
      then next (end_multiframe (if ok then emit_egc links s.mfa_data 0 ep s else s))
      else if ed == 0xaa
      then next (end_multiframe (if ok then handle_aa links s.mfa_data 0 ep s else s))
      else inner s s.mfa_data

module _ (F : Double) where
  open F use {Real}

  -- One packet of a frame of `flen` bytes.
  unfoldable pub packet : Links Real → List ℕ → ℕ → ℕ → Decoder Real → Step Real
  packet links f pos plen s =
      let d = byte_at f pos in
      if not (crc_ok f pos plen)
      then next s
      else if d == 0x7d
      then next (handle_bulletin F f pos plen s)
      else if (d == 0xb1) || (d == 0xb2)
      then next (emit_egc links f pos plen s)
      else if d == 0xbd
      then next (begin_multiframe f pos plen s)
      else if d == 0xbe
      then if s.mfa_active then finish_multiframe links (fill_multiframe f pos plen s) else next s
      else if d == 0xaa
      then next (handle_aa links f pos plen s)
      else next (handle_terminal F links f pos plen s)

  -- The walk from `pos` on, with an inner frame decoded on the way, or `none` when the rounds are
  -- used up.
  unfoldable pub decode_from :
      ℕ → Links Real → List ℕ → ℕ → ℕ → Decoder Real → Option (Decoder Real)
  decode_from zero links f flen pos s = none
  decode_from (suc rounds) links f flen pos s =
      let plen = packet_length f pos flen in
      if not (ltb pos flen) || (byte_at f pos == 0) || (plen == 0) || ltb flen (pos + plen)
      then some s
      else elim (packet links f pos plen s) [
        | next s' ↦ decode_from rounds links f flen (pos + plen) s'
        | inner s' g ↦ elim (decode_from rounds links g s'.mfa_expected 0 s') [
          | none ↦ none
          | some s'' ↦ decode_from rounds links f flen (pos + plen) (end_multiframe s'')
        ]
      ]
