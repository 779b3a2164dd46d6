-- ===== src/FlightMap/Tests.antt =====
-- The data of the web map: runs.
use inmar_scope.Prelude.{ℕ, ◌≡◌, refl, arith, List, [], ◌∷◌, Bool, true, false, some, Text, codes}
use inmar_scope.Double.{scaled}
use inmar_scope.BandPlan.Values.{Value, text, number, nothing, item, field, values}
use inmar_scope.Log.Types.{AircraftEntry}
use inmar_scope.Log.Country.{text_mem, is_hex_digit}
use inmar_scope.Log.OrdMap.{find}
use inmar_scope.FlightMap.{flight_map_icao, flight_map_lookup_ids, valid_position}
use inmar_scope.FlightMap.Positions.{parse_flight_map_positions}
use inmar_scope.FlightMap.Rows.{merge_all}
use inmar_scope.FlightMap.Lookup.{some_entry, flight_map_lookup_ids-wanted}
use inmar_scope.FlightMap.Merging.{at, known, any_entry, merge_all-valid_position}
use inmar_scope.FlightMap.Requested.{accepted, parse_flight_map_positions-all_requested}

abbrev entry : ℕ → Text → Bool → ℕ → AircraftEntry ℕ
entry aes icao has_pos seen = record {
  aes_id = aes;
  icao = icao;
  reg = [];
  flight = [];
  has_pos = has_pos;
  lat = 50_000_000;
  lon = 8_000_000;
  alt = 0;
  pos_time = 0;
  last_seen = seen;
  msgs = 1;
  freq_mhz = 0;
}

-- An aircraft with a position that a later message does not have, and another one without.
abbrev aircraft : List (AircraftEntry ℕ)
aircraft =
    entry 7 (codes "3c6586") true 5
    ∷ entry 7 (codes "3C6586") false 9
    ∷ entry 8 (codes "a00001") false 9
    ∷ []

capitals : flight_map_icao (codes "3c65af") ≡ codes "3C65AF"
unfolding flight_map_icao is_hex_digit
capitals = refl

flight_map_lookup_ids-wanted_example :
    text_mem (codes "A00001") (flight_map_lookup_ids scaled aircraft 10) ≡ true
unfolding some_entry flight_map_icao is_hex_digit
flight_map_lookup_ids-wanted_example =
    flight_map_lookup_ids-wanted scaled aircraft 10 (codes "A00001")

merge_all-valid_position_example :
    (at scaled (known scaled) (find 7 (merge_all scaled [] aircraft)) ≡ true)
    × (at scaled (valid_position scaled) (find 7 (merge_all scaled [] aircraft)) ≡ true)
unfolding any_entry
merge_all-valid_position_example = merge_all-valid_position scaled aircraft 7 (omega arith)

abbrev answer : Value
answer =
    field (codes "ac")
      (item
        (field (codes "hex") (text (codes "a00001")) (
          field (codes "lat") (number 50000)
            (field (codes "lon") (number 8000) (field (codes "seen_pos") (number 1000) nothing))))
        nothing)
      nothing

parse_flight_map_positions-all_requested_example :
    accepted scaled values
      (codes "A00001" ∷ [])
      (parse_flight_map_positions scaled values (some answer) (codes "A00001" ∷ []) 5_000_000)
    ≡ true
parse_flight_map_positions-all_requested_example =
    parse_flight_map_positions-all_requested scaled values (some answer) (codes "A00001" ∷ [])
      5_000_000
