-- ===== src/Egc/Frame/Tests.antt =====
-- Frames of a few packets.
use inmar_scope.Prelude.{
  ℕ, zero, suc, ◌≡◌, ◌≢◌, refl, inl, List, [], ◌∷◌, Bool, true, false, not, ◌&&◌, ◌==◌, none, arith,
}
use inmar_scope.Double.{scaled}
use inmar_scope.Egc.Decoder.{Links, Decoder, emit_egc}
use inmar_scope.Egc.Packet.{byte_at, packet_length, crc_ok}
use inmar_scope.Egc.Frame.{
  next, packet, begin_multiframe, write_at, message_length, decode_from, end_multiframe,
}
use inmar_scope.Egc.Fields.{read_bytes}
use inmar_scope.Egc.Frame.Multiframe.{multiframe-egc}
use inmar_scope.Egc.Frame.Ends.{Continues, IsNested, decode_from-endless}
use inmar_scope.Egc.Frame.Walk.{IsPlain, decode_from-ends}

abbrev links : Links ℕ
links = record {
  channel_id = 1;
  freq_mhz = 1537;
  has_log = true;
  has_mes_log = true;
  has_les_log = true;
  has_les_freqs = true;
}

abbrev start : Decoder ℕ
start = record {
  cur_frame_no = 0;
  cur_time = [];
  channel_type = 0;
  message_count = 0;
  mfa_data = [];
  mfa_expected = 0;
  mfa_filled = 4;
  mfa_active = false;
  aa_buf = [];
  last_les_key = none;
  sent = [];
}

-- A message `SOS` of 16 bytes in two packets; a checksum of 0 is accepted.
abbrev first_packet : List ℕ
first_packet = 0xbd ∷ 12 ∷ 0xb1 ∷ 14 ∷ 0 ∷ 0x60 ∷ 0x12 ∷ 0x34 ∷ 0 ∷ 0 ∷ 1 ∷ 2 ∷ 0 ∷ 0 ∷ []

abbrev second_packet : List ℕ
second_packet = 0xbe ∷ 6 ∷ 3 ∷ 83 ∷ 79 ∷ 83 ∷ 0 ∷ 0 ∷ []

abbrev sos : List ℕ
sos = 0xb1 ∷ 14 ∷ 0 ∷ 0x60 ∷ 0x12 ∷ 0x34 ∷ 0 ∷ 0 ∷ 1 ∷ 2 ∷ 3 ∷ 83 ∷ 79 ∷ 83 ∷ 0 ∷ 0 ∷ []

abbrev sos_buffer : Decoder ℕ
sos_buffer = record start { mfa_data = sos; mfa_expected = 16; mfa_filled = 20; mfa_active = true }

multiframe-egc_example :
    (packet scaled links first_packet 0 14 start ≡ next (begin_multiframe first_packet 0 14 start))
    × (packet scaled links second_packet 0 8 (begin_multiframe first_packet 0 14 start)
        ≡ next (end_multiframe (emit_egc links sos 0 16 sos_buffer)))
unfolding message_length read_bytes packet_length crc_ok
multiframe-egc_example =
    multiframe-egc scaled links first_packet 0 14 second_packet 0 8 start (omega arith)
      (omega arith) refl refl refl refl refl (inl refl) refl

-- Twelve bytes: a message that is itself a continuation packet, then another such packet.
abbrev nested_frame : List ℕ
nested_frame = 0xbd ∷ 6 ∷ 0xbe ∷ 2 ∷ 0 ∷ 0 ∷ 0 ∷ 0 ∷ 0xbe ∷ 2 ∷ 0 ∷ 0 ∷ []

abbrev nested_buffer : Decoder ℕ
nested_buffer = begin_multiframe nested_frame 0 8 start

nested_frame-Continues : Continues nested_frame 12 8
unfolding packet_length crc_ok
nested_frame-Continues = record { type_eq = refl; fits = omega arith; ok = refl }

nested_buffer-IsNested : IsNested nested_buffer
unfolding begin_multiframe write_at message_length read_bytes packet_length crc_ok
nested_buffer-IsNested = record {
  active = refl;
  full = refl;
  size = refl;
  nested = record { type_eq = refl; fits = omega arith; ok = refl };
}

decode_from-endless_example : decode_from scaled 1000 links nested_frame 12 8 nested_buffer ≡ none
decode_from-endless_example =
    decode_from-endless scaled links 1000 nested_frame 12 8 nested_buffer nested_buffer-IsNested
      nested_frame-Continues

-- A Channel Clear packet.
abbrev clear_frame : List ℕ
clear_frame = 0x27 ∷ 1 ∷ 2 ∷ 3 ∷ 0x44 ∷ 5 ∷ 253 ∷ 141 ∷ []

without_be : List ℕ → Bool
without_be [] = true
without_be (x ∷ xs) = not (x == 0xbe) && without_be xs

byte_not_be : (f : List ℕ) (i : ℕ) → without_be f ≡ true → byte_at f i ≢ 0xbe
unfolding without_be
byte_not_be [] i h = omega arith
byte_not_be (x ∷ xs) zero h = ground (arith, h)
byte_not_be (x ∷ xs) (suc i) h = byte_not_be xs i (ground (arith, h))

clear_frame-IsPlain : IsPlain clear_frame 8
unfolding without_be
clear_frame-IsPlain i e = absurd (byte_not_be clear_frame i refl e)

decode_from-ends_example : decode_from scaled 9 links clear_frame 8 0 start ≢ none
decode_from-ends_example =
    decode_from-ends scaled links clear_frame 8 clear_frame-IsPlain 9 0 start (omega arith)
