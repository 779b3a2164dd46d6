-- ===== src/Egc/Decoder.antt =====
-- The state of `EgcDecoder::Impl` in src/decode/egc/egc_decoder.cpp from the frames on, and the
-- messages that it sends to the logs.
use inmar_scope.Prelude.{
  ℕ, ◌+◌, ◌-◌, ◌/◌, ◌%◌, List, [], ◌∷◌, ◌++◌, Option, Bool, ◌&&◌, not, ◌==◌, if◌then◌else◌, Text,
  codes,
}
use inmar_scope.Log.Types.{EgcMessage, LesMessage}
use inmar_scope.Log.OrdMap.{OrdMap}
use inmar_scope.Log.Messages.{u64}
use inmar_scope.Egc.Format.{dec}
use inmar_scope.Egc.Fields.{read_bytes}
use inmar_scope.Egc.Names.{service_name, priority_name, ia5_text}
use inmar_scope.Egc.Packet.{byte_at, word_at, address_length}

-- A call of a log, with its arguments but the time.
pub data Sent (D : Type 0) : Type 0 where
  to_log : EgcMessage D → Sent D
  to_mes_log : ℕ → Text → Text → Option ℕ → Option ℕ → D → Sent D
  to_les_log : LesMessage D → Sent D
  to_les_freqs : D → ℕ → ℕ → Text → Text → ℕ → Sent D

-- The `int` that stands for the last packet of a chain and its encoding.
pub data ChainCode : Type 0 where
  zero_code : ChainCode
  plus : ℕ → ChainCode
  minus : ℕ → ChainCode

-- The fields that do not change: the channel, and which of the pointers to logs are not null.
pub record Links (D : Type 0) : Type 0 where
  pub channel_id : ℕ
  pub freq_mhz : D
  pub has_log : Bool
  pub has_mes_log : Bool
  pub has_les_log : Bool
  pub has_les_freqs : Bool

-- `mfa_filled` is the number of the source, which can be negative, and 4. The calls of the logs
-- are in order. The key of the last LES entry is -1 when there is none.
pub record Decoder (D : Type 0) : Type 0 where
  pub cur_frame_no : ℕ
  pub cur_time : Text
  pub channel_type : ℕ
  pub message_count : ℕ
  pub mfa_data : List ℕ
  pub mfa_expected : ℕ
  pub mfa_filled : ℕ
  pub mfa_active : Bool
  pub aa_buf : OrdMap (ChainCode × Text)
  pub last_les_key : Option ℕ
  pub sent : List (Sent D)

-- A call of a log whose pointer is not null.
unfoldable pub send : {D : Type 0} → Bool → Sent D → Decoder D → Decoder D
send on x s = if on then record s { sent = s.sent ++ x ∷ [] } else s

module _ {D : Type 0} (links : Links D) where
  unfoldable pub emit_terminal :
      Text → Text → ℕ → Text → Option ℕ → Option ℕ → Decoder D → Decoder D
  unfolding send
  emit_terminal tag desc mes_id sat les channel s =
      let m : EgcMessage D = record {
        channel_id = links.channel_id;
        freq_mhz = links.freq_mhz;
        frame_number = s.cur_frame_no;
        time_utc = s.cur_time;
        service = tag;
        priority = codes "Terminal";
        message_id = 0;
        presentation = 0;
        text = desc;
      } in
      send (links.has_mes_log && not (mes_id == 0))
        (to_mes_log mes_id tag sat les channel links.freq_mhz)
        (send links.has_log (to_log m) (record s { message_count = u64 (s.message_count + 1) }))

  -- The message of an EGC packet.
  unfoldable pub egc_message : List ℕ → ℕ → ℕ → Decoder D → EgcMessage D
  egc_message f pos plen s =
      let mt = byte_at f (pos + 2) in
      let pres = byte_at f (pos + 7) in
      let alen = address_length mt in
      let pay_start = pos + 8 + alen in
      let pay_len = plen - 2 - 8 - alen in
      record {
        channel_id = links.channel_id;
        freq_mhz = links.freq_mhz;
        frame_number = s.cur_frame_no;
        time_utc = s.cur_time;
        service = service_name mt;
        priority = priority_name (byte_at f (pos + 3) / 32 % 4);
        message_id = word_at f (pos + 4);
        presentation = pres;
        text =
            if pay_len == 0
            then []
            else if pres == 0
            then ia5_text (read_bytes f pay_start pay_len)
            else codes "(presentation " ++ dec pres ++ codes ", " ++ dec pay_len ++ codes " bytes)";
      }

  unfoldable pub emit_egc : List ℕ → ℕ → ℕ → Decoder D → Decoder D
  unfolding send egc_message
  emit_egc f pos plen s =
      send links.has_log (to_log (egc_message f pos plen s))
        (record s { message_count = u64 (s.message_count + 1) })
