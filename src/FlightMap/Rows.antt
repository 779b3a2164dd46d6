-- ===== src/FlightMap/Rows.antt =====
-- `flightMapJson` of src/web/flight_map_data.cpp, up to the text of the answer.
use inmar_scope.Prelude.{
  ℕ, List, [], ◌∷◌, Bool, true, false, not, ◌&&◌, ◌||◌, ◌==◌, ltb, if◌then◌else◌, Option, none,
  some, Text, is_empty, map, codes,
}
use inmar_scope.Double.{Double}
use inmar_scope.Log.Types.{AircraftEntry}
use inmar_scope.Log.OrdMap.{OrdMap, find, modify, values}
use inmar_scope.Egc.Format.{digits, no_zeros}
use inmar_scope.FlightMap.{flight_map_icao, valid_position, recent}
use inmar_scope.FlightMap.Positions.{FlightMapPosition, FlightMapPositions, find_position}

-- `%06X`
abbrev pub hex_id : ℕ → Text
hex_id n = if ltb n 0x1000000 then digits 16 6 n else no_zeros (digits 16 8 n)

module _ (F : Double) where
  open F use {Real, literal, sub, neg, fabs, less, leq, is_finite, trunc}

  abbrev pub either_text : Text → Text → Text
  either_text s t = if is_empty s then t else s

  -- An entry of the map that takes what it lacks from the other one.
  unfoldable pub complete : AircraftEntry Real → AircraftEntry Real → AircraftEntry Real
  complete target other =
      let named : AircraftEntry Real = record target {
        icao = either_text target.icao other.icao;
        reg = either_text target.reg other.reg;
        flight = either_text target.flight other.flight;
      } in
      if valid_position F other
        && (not (valid_position F target) || less target.pos_time other.pos_time)
      then record named {
        has_pos = true;
        lat = other.lat;
        lon = other.lon;
        alt = other.alt;
        pos_time = other.pos_time;
      }
      else named

  unfoldable pub merge_entry : AircraftEntry Real → AircraftEntry Real → AircraftEntry Real
  unfolding complete
  merge_entry old a = if less old.last_seen a.last_seen then complete a old else complete old a

  -- The map with an entry for an aircraft that has had none, or the one that was found.
  unfoldable pub put_entry :
      AircraftEntry Real
      → OrdMap (AircraftEntry Real)
      → Option (AircraftEntry Real)
      → OrdMap (AircraftEntry Real)
  unfolding merge_entry modify
  put_entry a merged none = modify a.aes_id a (λ e. a) merged
  put_entry a merged (some old) = modify a.aes_id a (λ e. merge_entry e a) merged

  unfoldable pub merge_one :
      OrdMap (AircraftEntry Real) → AircraftEntry Real → OrdMap (AircraftEntry Real)
  unfolding put_entry find
  merge_one merged a = if a.aes_id == 0 then merged else put_entry a merged (find a.aes_id merged)

  unfoldable pub merge_all :
      OrdMap (AircraftEntry Real) → List (AircraftEntry Real) → OrdMap (AircraftEntry Real)
  unfolding merge_one
  merge_all merged [] = merged
  merge_all merged (a ∷ others) = merge_all (merge_one merged a) others

  pub record MapFix : Type 0 where
    pub lat : Real
    pub lon : Real
    pub below : Bool
    pub alt : ℕ
    pub pos_time : Real
    pub position_source : Text

  pub record MapRow : Type 0 where
    pub id : Text
    pub icao : Text
    pub flight : Text
    pub reg : Text
    pub fix : Option MapFix

  abbrev pub is_online : Real → AircraftEntry Real → FlightMapPosition F → Bool
  is_online now a p =
      leq p.time now && leq (sub now p.time) (literal 300 0) && recent F now a.last_seen

  abbrev pub online_fix : Real → AircraftEntry Real → Option (FlightMapPosition F) → Option MapFix
  online_fix now a none = none
  online_fix now a (some p) =
      if is_online now a p
      then some (record {
        lat = p.lat;
        lon = p.lon;
        below = p.below;
        alt = p.alt;
        pos_time = p.time;
        position_source = codes "ADSB.lol (online)";
      })
      else none

  unfoldable pub fix_of : FlightMapPositions F → Real → AircraftEntry Real → Option MapFix
  unfolding find_position flight_map_icao
  fix_of positions now a =
      if valid_position F a
      then some (record {
        lat = a.lat;
        lon = a.lon;
        below = false;
        alt = a.alt;
        pos_time = if is_finite a.pos_time then a.pos_time else literal 0 0;
        position_source = codes "Decoded ADS-C";
      })
      else online_fix now a (find_position F (flight_map_icao a.icao) positions)

  unfoldable pub map_row : FlightMapPositions F → Real → AircraftEntry Real → MapRow
  unfolding fix_of
  map_row positions now a = record {
    id = hex_id a.aes_id;
    icao = a.icao;
    flight = a.flight;
    reg = a.reg;
    fix = fix_of positions now a;
  }

  -- The rows of the answer, by ascending AES number.
  unfoldable pub flight_map_json :
      List (AircraftEntry Real) → FlightMapPositions F → Real → List MapRow
  unfolding merge_all map_row
  flight_map_json aircraft positions now =
      map (map_row positions now) (values (merge_all [] aircraft))
