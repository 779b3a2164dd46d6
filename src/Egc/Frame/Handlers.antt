-- ===== src/Egc/Frame/Handlers.antt =====
-- The branches of `decodeFrame` for the bulletin board and for the packets of terminals.
use inmar_scope.Prelude.{
  ℕ, zero, suc, ◌+◌, ◌-◌, ◌/◌, ◌%◌, List, [], ◌++◌, none, some, Bool, ◌&&◌, ltb, leb, ◌==◌,
  if◌then◌else◌, Text, codes,
}
use inmar_scope.Double.{Double}
use inmar_scope.Egc.Decoder.{Links, Decoder, to_les_freqs, send, emit_terminal}
use inmar_scope.Egc.Format.{dec, dec2, digits, snprintf, Buffer, new_buffer, print_to}
use inmar_scope.Egc.Fields.{read_bytes, read_mes_id, read_sat, read_les, downlink_mhz, uplink_mhz}
use inmar_scope.Egc.Names.{
  sat_name, les_label, ia5_text, services8_text, services_text, tdm_slots, frame_time,
}
use inmar_scope.Egc.Packet.{byte_at, word_at}

module _ (F : Double) where
  open F use {Real, literal, less, fixed}

  -- 0x7D
  unfoldable pub handle_bulletin : List ℕ → ℕ → ℕ → Decoder Real → Decoder Real
  handle_bulletin f pos plen s =
      let no = word_at f (pos + 2) in
      record s {
        cur_frame_no = no;
        cur_time = frame_time F no;
        channel_type = if ltb 9 plen then byte_at f (pos + 5) else s.channel_type;
      }

  -- The test for a frequency that goes into the table.
  unfoldable pub in_band : Real → Bool
  in_band mhz = less (literal 15000 1) mhz && less mhz (literal 16000 1)

  unfoldable pub add_les_freq : Links Real → Real → ℕ → ℕ → ℕ → Decoder Real → Decoder Real
  add_les_freq links mhz sat les services s =
      send (links.has_les_freqs && in_band mhz)
        (to_les_freqs mhz sat les (sat_name sat) (les_label sat les) services) s

  -- `"%s LES %02d"`
  abbrev pub station : ℕ → ℕ → Text
  station sat les = sat_name sat ++ codes " LES " ++ dec2 les

  -- `"MES %u on %s LES %02d"`
  abbrev pub mes_on : ℕ → ℕ → ℕ → Text
  mes_on mes sat les = codes "MES " ++ dec mes ++ codes " on " ++ station sat les

  -- The stations of 0x92 and 0xAB from `off` on, `left` of them at most, into the buffer.
  unfoldable pub stations_from :
      Links Real → List ℕ → ℕ → ℕ → ℕ → Buffer → Decoder Real → Buffer × Decoder Real
  stations_from links f end zero off b s = (b, s)
  stations_from links f end (suc left) off b s =
      let sat = byte_at f off / 64 % 4 in
      let les = byte_at f off % 64 in
      let services = word_at f (off + 2) in
      let mhz = downlink_mhz F f (off + 4) in
      let rest =
        stations_from links f end left (off + 6)
          (print_to b (
            codes "\n  "
            ++ station sat les
            ++ codes " svc=["
            ++ services_text services
            ++ codes "] down "
            ++ fixed 3 mhz
            ++ codes " MHz"))
          (add_les_freq links mhz sat les services s) in
      if leb (off + 6) end then rest else (b, s)

  -- 0x92
  unfoldable pub handle_login : Links Real → List ℕ → ℕ → ℕ → Decoder Real → Decoder Real
  handle_login links f pos plen s =
      let les_hex = read_mes_id f (pos + 2) in
      let no_downlink = (byte_at f (pos + 5) == 0xff) && (byte_at f (pos + 6) == 0xff) in
      let mhz = if no_downlink then literal 0 0 else downlink_mhz F f (pos + 5) in
      let ack_len = byte_at f (pos + 1) in
      let b1 =
        print_to (new_buffer 1024)
          (codes "LES " ++ digits 16 6 les_hex ++ codes " on " ++ sat_name 0 ++ codes " ch") in
      let b2 =
        if less (literal 0 0) mhz
        then print_to b1 (codes " down " ++ fixed 4 mhz ++ codes " MHz")
        else b1 in
      let b3 = print_to b2 (codes " (len=" ++ dec ack_len ++ codes ")") in
      let cnt = byte_at f (pos + 8) in
      let b4 = print_to b3 (codes "\nStation table (" ++ dec cnt ++ codes " station(s)):") in
      let r =
        if ltb 7 ack_len then stations_from links f (pos + plen) cnt (pos + 9) b4 s else (b3, s) in
      emit_terminal links (codes "Login ACK") (r.0).chars 0 [] none none r.1

  -- 0xAB
  unfoldable pub handle_les_list : Links Real → List ℕ → ℕ → ℕ → Decoder Real → Decoder Real
  handle_les_list links f pos plen s =
      let cnt = byte_at f (pos + 3) in
      let b = print_to (new_buffer 768) (dec cnt ++ codes " LES entry(s):") in
      let r = stations_from links f (pos + plen) cnt (pos + 4) b s in
      emit_terminal links (codes "LES List") (r.0).chars 0 [] none none r.1

  -- 0x81
  unfoldable pub handle_announce : Links Real → List ℕ → ℕ → Decoder Real → Decoder Real
  handle_announce links f pos s =
      let mes = read_mes_id f (pos + 2) in
      let sat = read_sat f (pos + 5) in
      let les = read_les f (pos + 5) in
      let lch = byte_at f (pos + 9) in
      emit_terminal links (codes "Announce")
        (snprintf 128 (mes_on mes sat les ++ codes " ch " ++ dec lch)) mes (sat_name sat) (some les)
        (some lch) (add_les_freq links (downlink_mhz F f (pos + 6)) sat les 0 s)

  -- 0x83
  unfoldable pub handle_assign : Links Real → List ℕ → ℕ → Decoder Real → Decoder Real
  handle_assign links f pos s =
      let mes = read_mes_id f (pos + 2) in
      let sat = read_sat f (pos + 5) in
      let les = read_les f (pos + 5) in
      let lch = byte_at f (pos + 7) in
      let dl = downlink_mhz F f (pos + 10) in
      let ul = uplink_mhz F f (pos + 12) in
      emit_terminal links (codes "Assign")
        (snprintf 128 (
          mes_on mes sat les
          ++ codes " ch "
          ++ dec lch
          ++ codes " down "
          ++ fixed 3 dl
          ++ codes " up "
          ++ fixed 3 ul
          ++ codes " MHz"))
        mes (sat_name sat) (some les) (some lch) (add_les_freq links dl sat les 0 s)

  -- 0x27 and 0x2A, which differ in the tag.
  unfoldable pub handle_channel : Text → Links Real → List ℕ → ℕ → Decoder Real → Decoder Real
  handle_channel tag links f pos s =
      let mes = read_mes_id f (pos + 1) in
      let sat = read_sat f (pos + 4) in
      let les = read_les f (pos + 4) in
      let lch = byte_at f (pos + 5) in
      emit_terminal links tag (snprintf 128 (mes_on mes sat les ++ codes " ch " ++ dec lch)) mes
        (sat_name sat) (some les) (some lch) s

  -- 0xA3
  unfoldable pub handle_poll : Links Real → List ℕ → ℕ → ℕ → Decoder Real → Decoder Real
  handle_poll links f pos plen s =
      let mes = read_mes_id f (pos + 2) in
      let sat = read_sat f (pos + 5) in
      let les = read_les f (pos + 5) in
      let head = mes_on mes sat les in
      let desc =
        if leb 38 plen
        then head ++ codes ": " ++ ia5_text (read_bytes f (pos + 8) (plen - 8))
        else head in
      emit_terminal links (codes "Poll") (snprintf 256 desc) mes (sat_name sat) (some les) none s

  -- 0xA8
  unfoldable pub handle_confirm : Links Real → List ℕ → ℕ → ℕ → Decoder Real → Decoder Real
  handle_confirm links f pos plen s =
      let mes = read_mes_id f (pos + 2) in
      let sat = read_sat f (pos + 5) in
      let les = read_les f (pos + 5) in
      let sm_len = byte_at f (pos + 6) in
      let head = mes_on mes sat les in
      let desc =
        if ltb 2 sm_len && leb (9 + sm_len) plen
        then head ++ codes ": " ++ ia5_text (read_bytes f (pos + 9) sm_len)
        else head in
      emit_terminal links (codes "Confirm") (snprintf 256 desc) mes (sat_name sat) (some les) none s

  -- 0x08
  unfoldable pub handle_ack_request : Links Real → List ℕ → ℕ → Decoder Real → Decoder Real
  handle_ack_request links f pos s =
      let desc =
        codes "on "
        ++ station (read_sat f (pos + 1)) (read_les f (pos + 1))
        ++ codes " ch "
        ++ dec (byte_at f (pos + 2))
        ++ codes " up "
        ++ fixed 3 (uplink_mhz F f (pos + 3))
        ++ codes " MHz" in
      emit_terminal links (codes "ACK Req") (snprintf 128 desc) 0 [] none none s

  -- 0x6C
  unfoldable pub handle_signalling : Links Real → List ℕ → ℕ → Decoder Real → Decoder Real
  handle_signalling links f pos s =
      let desc =
        codes "up "
        ++ fixed 3 (uplink_mhz F f (pos + 2))
        ++ codes " MHz svc=["
        ++ services8_text (byte_at f (pos + 1))
        ++ codes "] slots=["
        ++ tdm_slots f (pos + 4)
        ++ codes "]" in
      emit_terminal links (codes "Sig Ch") (snprintf 256 desc) 0 [] none none s

  -- The branches for packets of terminals, by the type of the packet.
  unfoldable pub handle_terminal : Links Real → List ℕ → ℕ → ℕ → Decoder Real → Decoder Real
  handle_terminal links f pos plen s =
      let d = byte_at f pos in
      if d == 0x92
      then handle_login links f pos plen s
      else if d == 0x81
      then handle_announce links f pos s
      else if d == 0x83
      then handle_assign links f pos s
      else if d == 0x27
      then handle_channel (codes "Clear") links f pos s
      else if d == 0xa3
      then handle_poll links f pos plen s
      else if d == 0xa8
      then handle_confirm links f pos plen s
      else if d == 0x08
      then handle_ack_request links f pos s
      else if d == 0x2a
      then handle_channel (codes "Msg ACK") links f pos s
      else if d == 0x6c
      then handle_signalling links f pos s
      else if d == 0xab
      then handle_les_list links f pos plen s
      else s
