-- ===== src/Log/Aircraft.antt =====
-- `AircraftTable` of src/decode/message_log.h.
pub mod Merge
pub mod History
mod Tests
use inmar_scope.Prelude.{
  ℕ, zero, ◌+◌, ◌%◌, List, [], ◌∷◌, Option, none, some, Bool, true, false, ◌||◌, ◌==◌,
  if◌then◌else◌, length, Text, is_empty,
}
use inmar_scope.Log.OrdMap.{OrdMap, find, modify, values}
use inmar_scope.Log.Types.{DecodedMessage, AircraftEntry}
use inmar_scope.Log.Messages.{u64}
use inmar_scope.Double.{Double}

module _ (F : Double) where
  open F use {Real, literal, less}

  abbrev pub AircraftTable : Type 0
  AircraftTable = OrdMap (AircraftEntry Real)

  -- The value that `byId_[aesId]` makes.
  unfoldable pub new_aircraft : AircraftEntry Real
  new_aircraft = record {
    aes_id = 0;
    icao = [];
    reg = [];
    flight = [];
    has_pos = false;
    lat = literal 0 0;
    lon = literal 0 0;
    alt = 0;
    pos_time = literal 0 0;
    last_seen = literal 0 0;
    msgs = 0;
    freq_mhz = literal 0 0;
  }

  -- The assignments of `update` to the entry.
  unfoldable pub merge_message :
      DecodedMessage Real → Real → AircraftEntry Real → AircraftEntry Real
  merge_message m now e = record {
    aes_id = m.aes_id;
    icao = if is_empty m.icao then e.icao else m.icao;
    reg = if is_empty m.reg then e.reg else m.reg;
    flight = if is_empty m.flight then e.flight else m.flight;
    has_pos = if m.has_pos then true else e.has_pos;
    lat = if m.has_pos then m.lat else e.lat;
    lon = if m.has_pos then m.lon else e.lon;
    alt = if m.has_pos then m.alt else e.alt;
    pos_time = if m.has_pos then now else e.pos_time;
    last_seen = now;
    msgs = u64 (e.msgs + 1);
    freq_mhz = m.freq_mhz;
  }

  unfoldable pub update : AircraftTable → DecodedMessage Real → Real → AircraftTable
  update t m now = if m.aes_id == 0 then t else modify m.aes_id new_aircraft (merge_message m now) t

  unfoldable pub set_icao : AircraftTable → ℕ → Text → Real → AircraftTable
  set_icao t aes_id icao now =
      if (aes_id == 0) || is_empty icao
      then t
      else modify aes_id new_aircraft
          (λ e. record e {
            aes_id = aes_id;
            icao = icao;
            last_seen = if less e.last_seen now then now else e.last_seen;
          })
          t

  unfoldable pub icao_of : AircraftTable → ℕ → Text
  icao_of t aes_id = elim (find aes_id t) [ none ↦ [] | some e ↦ e.icao ]

  unfoldable pub aircraft_snapshot : AircraftTable → List (AircraftEntry Real)
  aircraft_snapshot t = values t

  unfoldable pub aircraft_count : AircraftTable → ℕ
  aircraft_count t = length t

  pub aircraft_clear : AircraftTable → AircraftTable
  aircraft_clear t = []
