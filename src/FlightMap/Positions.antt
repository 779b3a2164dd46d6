-- ===== src/FlightMap/Positions.antt =====
-- `parseFlightMapPositions` of src/web/flight_map_data.cpp.
use inmar_scope.Prelude.{
  ℕ, List, [], ◌∷◌, Bool, not, ◌&&◌, ◌||◌, if◌then◌else◌, Option, none, some, Text, is_empty,
  text_eq, codes,
}
use inmar_scope.Double.{Double}
use inmar_scope.BandPlan.{Jansson, text_less}
use inmar_scope.Log.Country.{text_mem}
use inmar_scope.FlightMap.{flight_map_icao}

module _ (F : Double) where
  open F use {Real, literal, sub, neg, fabs, less, leq, is_finite, trunc}

  pub record FlightMapPosition : Type 0 where
    pub lat : Real
    pub lon : Real
    pub time : Real
    -- `alt` below 0, and its amount
    pub below : Bool
    pub alt : ℕ

  -- `std::map` from texts.
  abbrev pub FlightMapPositions : Type 0
  FlightMapPositions = List (Text × FlightMapPosition)

  unfoldable pub set_position : Text → FlightMapPosition → FlightMapPositions → FlightMapPositions
  unfolding text_less
  set_position id p [] = (id, p) ∷ []
  set_position id p (q ∷ qs) =
      let rest = set_position id p qs in
      if text_eq id q.0
      then (id, p) ∷ qs
      else if text_less id q.0
      then (id, p) ∷ q ∷ qs
      else q ∷ rest

  unfoldable pub find_position : Text → FlightMapPositions → Option FlightMapPosition
  find_position id [] = none
  find_position id (q ∷ qs) = if text_eq id q.0 then some q.1 else find_position id qs

  unfoldable pub known_altitude : Real → Real
  known_altitude altitude =
      if is_finite altitude
        && leq (neg (literal 1500 0)) altitude
        && leq altitude (literal 100000 0)
      then altitude
      else literal 0 0

  -- A row whose numbers are in their ranges.
  unfoldable pub row_position :
      Real → Option Real → Option Real → Option Real → Real → Option FlightMapPosition
  unfolding known_altitude
  row_position now (some la) (some lo) (some seconds) altitude =
      let alt = known_altitude altitude in
      if not (is_finite la)
        || not (is_finite lo)
        || not (is_finite seconds)
        || less (literal 90 0) (fabs la)
        || less (literal 180 0) (fabs lo)
        || less seconds (literal 0 0)
        || less (literal 300 0) seconds
      then none
      else some (record {
        lat = la;
        lon = lo;
        time = sub now seconds;
        below = less alt (literal 0 0);
        alt = trunc (fabs alt);
      })
  row_position now _ _ _ altitude = none

  -- `result[id]`, if the row has a position.
  unfoldable pub put_row : Text → FlightMapPositions → Option FlightMapPosition → FlightMapPositions
  unfolding set_position
  put_row id result none = result
  put_row id result (some p) = set_position id p result

  module _ (J : Jansson Real) where
    open J use {Json, object_get, array_items, string_value, number_value}

    unfoldable pub text_at : Json → Text → Text
    text_at row key = elim (object_get row key) [
      | none ↦ []
      | some v ↦ elim (string_value v) [ none ↦ [] | some t ↦ t ]
    ]

    unfoldable pub number_at : Json → Text → Option Real
    number_at row key = elim (object_get row key) [ none ↦ none | some v ↦ number_value v ]

    unfoldable pub altitude_at : Json → Real
    unfolding number_at
    altitude_at row = elim (number_at row (codes "alt_baro")) [ none ↦ literal 0 0 | some x ↦ x ]

    unfoldable pub read_row : List Text → Real → FlightMapPositions → Json → FlightMapPositions
    unfolding text_at number_at altitude_at row_position put_row text_mem
    read_row requested now result row =
        let id = flight_map_icao (text_at row (codes "hex")) in
        if is_empty id || not (text_mem id requested)
        then result
        else put_row id result (
            row_position now (number_at row (codes "lat")) (number_at row (codes "lon"))
              (number_at row (codes "seen_pos")) (altitude_at row))

    unfoldable pub read_rows :
        List Text → Real → FlightMapPositions → List Json → FlightMapPositions
    unfolding read_row
    read_rows requested now result [] = result
    read_rows requested now result (row ∷ rows) =
        read_rows requested now (read_row requested now result row) rows

    unfoldable pub rows_of : Option Json → Option (List Json)
    rows_of none = none
    rows_of (some root) = elim (object_get root (codes "ac")) [
      | none ↦ none
      | some v ↦ array_items v
    ]

    -- Nothing stands for the exception.
    unfoldable pub read_answer : List Text → Real → Option (List Json) → Option FlightMapPositions
    unfolding read_rows
    read_answer requested now none = none
    read_answer requested now (some rows) = some (read_rows requested now [] rows)

    -- From the value on that the library has read, if it has.
    unfoldable pub parse_flight_map_positions :
        Option Json → List Text → Real → Option FlightMapPositions
    unfolding read_answer rows_of
    parse_flight_map_positions root requested now = read_answer requested now (rows_of root)
