-- ===== src/Egc/Aa.antt =====
-- `handleAaPacket` of src/decode/egc/egc_decoder.cpp: the packets of LES messages and their
-- assembly. Its result, which no caller reads, is left out.
pub mod Assembly
mod Tests
use inmar_scope.Prelude.{
  ℕ, zero, suc, ◌+◌, ◌-◌, ◌*◌, ◌/◌, ◌%◌, List, [], ◌∷◌, ◌++◌, Option, none, some, Bool, true, false,
  ◌&&◌, ◌||◌, not, ltb, leb, ◌==◌, if◌then◌else◌, length, take, Text, codes, is_empty, min, get_or,
}
use inmar_scope.Log.OrdMap.{OrdMap, modify, value_or, find}
use inmar_scope.Log.Types.{LesMessage}
use inmar_scope.Egc.Decoder.{
  Sent, to_les_log, ChainCode, zero_code, plus, minus, Links, Decoder, send, emit_terminal,
}
use inmar_scope.Egc.Format.{dec, dec2, snprintf, Buffer, new_buffer, print_to}
use inmar_scope.Egc.Fields.{read_bytes, read_sat, read_les}
use inmar_scope.Egc.Names.{sat_name, les_label}
use inmar_scope.Egc.Packet.{byte_at}
use inmar_scope.Egc.Previews.{hex_dump, ia5_preview, ita2_text, count_bytes}

-- The encoding and the number of the last packet of a chain.
unfoldable pub chain_state : ChainCode → Bool × ℕ
chain_state zero_code = (false, 0)
chain_state (plus n) = if ltb 10000 n then (true, n - 10000) else (false, 0)
chain_state (minus n) = if ltb 10000 n then (false, n - 10000) else (false, 0)

-- What a packet is to the assembly: its number, both its texts, and whether it looks like ITA2.
pub record Part : Type 0 where
  pub pkt_no : ℕ
  pub ia5 : Text
  pub ita2 : Text
  pub looks_ita2 : Bool

unfoldable pub best_text : Bool → Part → Text
best_text use_ita2 p = if use_ita2 then p.ita2 else p.ia5

-- The assembly of one packet into the chain of its key.
unfoldable pub assemble : Part → ChainCode × Text → ChainCode × Text
unfolding chain_state best_text
assemble p (code, text) =
    let (lock_ita2, last_pkt) = chain_state code in
    let use_ita2 = if last_pkt == 0 then p.looks_ita2 else lock_ita2 in
    let best = best_text use_ita2 p in
    (
      if use_ita2 then plus (10000 + p.pkt_no) else minus (10000 + p.pkt_no),
      if leb p.pkt_no 1 then best else if ltb last_pkt p.pkt_no then text ++ best else best,
    )

-- The packet as a part; the bytes with the high bit set decide for ITA2.
unfoldable pub part_of : List ℕ → ℕ → Part
part_of pay pkt_no =
    let ita2 = ita2_text pay in
    record {
      pkt_no = pkt_no;
      ia5 = ia5_preview pay;
      ita2 = ita2;
      looks_ita2 = ltb (length pay / 3) (count_bytes (leb 128) pay) && not (is_empty ita2);
    }

unfoldable pub is_zap : List ℕ → Bool
is_zap pay =
    leb 36 (length pay)
    && (get_or pay 0 0 == 0x61)
    && (get_or pay 1 0 == 0x62)
    && (get_or pay 2 0 == 0x63)
    && (get_or pay 3 0 == 0x64)

unfoldable pub is_printable : ℕ → Bool
is_printable c = (leb 32 c && ltb c 127) || (c == 13) || (c == 10) || (c == 9)

-- The text of the terminal log, in a buffer of 1024 bytes.
unfoldable pub aa_summary : List ℕ → ℕ → ℕ → ℕ → Part → Text
aa_summary pay sat les lch p =
    let buf = snprintf 1024 (
      codes "on "
      ++ sat_name sat
      ++ codes " LES "
      ++ dec2 les
      ++ codes " ch "
      ++ dec lch
      ++ codes " pkt "
      ++ dec p.pkt_no
      ++ codes " ["
      ++ dec (length pay)
      ++ codes " bytes] "
      ++ hex_dump pay 0) in
    let space = 1024 - length buf - 4 in
    let preview = if is_empty p.ia5 && not (is_empty p.ita2) then p.ita2 else p.ia5 in
    if ltb 0 space && not (is_empty preview)
    then buf ++ codes "| " ++ take (min (min (length preview) (space - 1)) 60) preview
    else buf

-- The text of the LES log, in a buffer of 1024 bytes, after the assembly.
unfoldable pub les_text : List ℕ → ℕ → ℕ → ℕ → Part → Bool → Bool → Text → Buffer
les_text pay sat les lch p readable use_ita2 assembled =
    let b1 = print_to (new_buffer 1024) (
      sat_name sat
      ++ codes " LES "
      ++ dec2 les
      ++ codes " ch "
      ++ dec lch
      ++ codes " pkt "
      ++ dec p.pkt_no
      ++ codes "/"
      ++ dec (p.pkt_no % 10000)
      ++ codes "  ["
      ++ dec (length pay)
      ++ codes " bytes]\n") in
    let b2 = print_to b1 (codes "HEX: " ++ hex_dump pay 0 ++ codes "\n") in
    let b3 = if is_empty p.ia5 then b2 else print_to b2 (codes "IA5: " ++ p.ia5 ++ codes "\n") in
    let b4 = if is_empty p.ita2 then b3 else print_to b3 (codes "ITA2: " ++ p.ita2 ++ codes "\n") in
    if not readable
    then print_to b4 (codes "--- [encrypted] ---\n")
    else if ltb 8 (length assembled)
    then print_to b4 (
        codes "--- assembled ("
        ++ codes (if use_ita2 then "ITA2" else "IA5")
        ++ codes ") ---\n"
        ++ assembled)
    else b4

unfoldable pub is_key : ℕ → Option ℕ → Bool
is_key key none = false
is_key key (some k) = k == key

unfoldable pub is_plus : ChainCode → Bool
is_plus zero_code = false
is_plus (plus n) = true
is_plus (minus n) = false

module _ {D : Type 0} (links : Links D) where
  -- The entry of the LES log, unless the last entry was of the same chain.
  unfoldable pub log_les : List ℕ → ℕ → ℕ → ℕ → Part → ChainCode × Text → Decoder D → Decoder D
  unfolding send is_key is_plus
  log_les pay sat les lch p (code, assembled) s =
      let key = sat * 10000 + les * 100 + lch in
      let readable =
        ltb 16 (length pay) && ltb (length pay * 2 / 3) (count_bytes is_printable pay) in
      let m : LesMessage D = record {
        channel_id = links.channel_id;
        freq_mhz = links.freq_mhz;
        frame_number = s.cur_frame_no;
        time_utc = s.cur_time;
        sat_name = sat_name sat;
        les_id = les;
        les_label = les_label sat les;
        channel = lch;
        pkt_no = p.pkt_no;
        text = (les_text pay sat les lch p readable (is_plus code) assembled).chars;
        is_encrypted = not readable;
      } in
      if is_key key s.last_les_key
      then s
      else send true (to_les_log m) (record s { last_les_key = some key })

  unfoldable pub handle_aa : List ℕ → ℕ → ℕ → Decoder D → Decoder D
  unfolding log_les part_of is_zap aa_summary assemble emit_terminal
  handle_aa f pos plen s =
      let sat = read_sat f (pos + 2) in
      let les = read_les f (pos + 2) in
      let lch = byte_at f (pos + 3) in
      let pay = read_bytes f (pos + 5) (plen - 5 - 2) in
      let p = part_of pay (byte_at f (pos + 4)) in
      let key = sat * 10000 + les * 100 + lch in
      let s1 =
        emit_terminal links (codes "Message") (aa_summary pay sat les lch p) 0 [] none none s in
      let chain = assemble p (value_or (zero_code, []) (find key s1.aa_buf)) in
      let s2 : Decoder D = record s1 {
        aa_buf = modify key (zero_code, []) (λ old. chain) s1.aa_buf;
      } in
      if is_zap pay
      then s1
      else if links.has_les_log && ltb 2 (length pay)
      then log_les pay sat les lch p chain s2
      else s2
