-- ===== src/Log/Types.antt =====
-- The entries of the logs of src/decode/message_log.h, over the type `D` of doubles, and the calls
-- of the message store.
use inmar_scope.Prelude.{ℕ, Bool, Option, Text}

pub record DecodedMessage (D : Type 0) : Type 0 where
  pub time_sec : D
  pub channel_id : ℕ
  pub freq_mhz : D
  pub aes_id : ℕ
  pub ges_id : ℕ
  pub downlink : ℕ
  pub reg : Text
  pub label : Text
  pub mode : ℕ
  pub block_id : ℕ
  pub text : Text
  pub hex : Text
  pub su_type : ℕ
  pub decoded : Text
  pub has_pos : Bool
  pub lat : D
  pub lon : D
  pub alt : ℕ
  pub icao : Text
  pub flight : Text

pub record CassignEntry (D : Type 0) : Type 0 where
  pub channel_id : ℕ
  pub type : ℕ
  pub aes_id : ℕ
  pub ges_id : ℕ
  pub rx_mhz : D
  pub tx_mhz : D

pub record EgcMessage (D : Type 0) : Type 0 where
  pub channel_id : ℕ
  pub freq_mhz : D
  pub frame_number : ℕ
  pub time_utc : Text
  pub service : Text
  pub priority : Text
  pub message_id : ℕ
  pub presentation : ℕ
  pub text : Text

pub record MesEntry (D : Type 0) : Type 0 where
  pub mes_id : ℕ
  pub action : Text
  pub sat : Text
  pub les : Option ℕ
  pub channel : Option ℕ
  pub last_seen : D
  pub freq_mhz : D
  pub msgs : ℕ

pub record LesMessage (D : Type 0) : Type 0 where
  pub channel_id : ℕ
  pub freq_mhz : D
  pub frame_number : ℕ
  pub time_utc : Text
  pub sat_name : Text
  pub les_id : ℕ
  pub les_label : Text
  pub channel : ℕ
  pub pkt_no : ℕ
  pub text : Text
  pub is_encrypted : Bool

pub record NetworkChannel (D : Type 0) : Type 0 where
  pub freq_mhz : D
  pub kind : Text
  pub ges : ℕ
  pub hits : ℕ
  pub decodable : Bool
  pub baud : ℕ

pub record SatInfo : Type 0 where
  pub valid : Bool
  pub sat_id : ℕ
  pub longitude : Text

pub record AircraftEntry (D : Type 0) : Type 0 where
  pub aes_id : ℕ
  pub icao : Text
  pub reg : Text
  pub flight : Text
  pub has_pos : Bool
  pub lat : D
  pub lon : D
  pub alt : ℕ
  pub pos_time : D
  pub last_seen : D
  pub msgs : ℕ
  pub freq_mhz : D

pub record LesFreqEntry (D : Type 0) : Type 0 where
  pub freq_mhz : D
  pub sat_id : ℕ
  pub les_id : ℕ
  pub sat_name : Text
  pub les_label : Text
  pub services : ℕ
  pub last_seen : D
  pub hits : ℕ
  pub has_decoder : Bool

pub record VoiceCallRecord (D : Type 0) : Type 0 where
  pub time_sec : D
  pub duration_sec : D
  pub freq_mhz : D
  pub channel_id : Option ℕ
  pub aes_id : ℕ
  pub icao : Text
  pub filename : Text
  pub recording : Bool

-- A call of the message store, with the record whose fields are its arguments.
pub data StoreCall (D : Type 0) : Type 0 where
  store_acars : DecodedMessage D → ℕ → StoreCall D
  store_su : DecodedMessage D → ℕ → StoreCall D
  store_egc : D → EgcMessage D → StoreCall D
  store_les : D → LesMessage D → StoreCall D
  store_mes : MesEntry D → StoreCall D
  store_voice : VoiceCallRecord D → StoreCall D
