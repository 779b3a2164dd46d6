-- ===== src/FlightMap/Requested.antt =====
-- What is taken from the answer of the online service.
use inmar_scope.Prelude.{
  ◌≡◌, refl, arith, List, [], ◌∷◌, Bool, true, not, ◌&&◌, ◌||◌, Option, none, some, Text, is_empty,
  codes, if_either,
}
use inmar_scope.Double.{Double}
use inmar_scope.BandPlan.{Jansson}
use inmar_scope.Log.Country.{text_mem}
use inmar_scope.FlightMap.{flight_map_icao}
use inmar_scope.FlightMap.Positions.{
  FlightMapPosition, FlightMapPositions, set_position, row_position, text_at, number_at,
  altitude_at, read_row, read_rows, put_row, read_answer, rows_of, parse_flight_map_positions,
}

module _ (F : Double) where
  open F use {Real, literal, less, fabs, is_finite}

  abbrev pub in_range : FlightMapPosition F → Bool
  in_range p =
      is_finite p.lat
      && (is_finite p.lon
          && (not (less (literal 90 0) (fabs p.lat)) && not (less (literal 180 0) (fabs p.lon))))

  -- Each position is one of a requested aircraft, and is in range.
  unfoldable pub all_requested : List Text → FlightMapPositions F → Bool
  unfolding text_mem
  all_requested requested [] = true
  all_requested requested (q ∷ qs) =
      (text_mem q.0 requested && in_range q.1) && all_requested requested qs

  set_position-all_requested :
      (requested : List Text) (id : Text) (p : FlightMapPosition F) (ps : FlightMapPositions F)
      → text_mem id requested ≡ true
      → in_range p ≡ true
      → all_requested requested ps ≡ true
      → all_requested requested (set_position F id p ps) ≡ true
  unfolding all_requested set_position
  set_position-all_requested requested id p [] m r h = ground (arith, m, r)
  set_position-all_requested requested id p (q ∷ qs) m r h =
      ground (arith, m, r, h, set_position-all_requested requested id p qs)

  -- A position, if there is one, is in range.
  abbrev pub InRange : Option (FlightMapPosition F) → Type 0
  InRange none = Unit {0}
  InRange (some p) = in_range p ≡ true

  row_position-InRange :
      (now : Real) (lat lon seconds : Option Real) (altitude : Real)
      → InRange (row_position F now lat lon seconds altitude)
  unfolding row_position
  row_position-InRange now (some la) (some lo) (some s) altitude =
      if_either InRange
        (not (is_finite la)
          || not (is_finite lo)
          || not (is_finite s)
          || less (literal 90 0) (fabs la)
          || less (literal 180 0) (fabs lo)
          || less s (literal 0 0)
          || less (literal 300 0) s)
        (λ bad. tt) (λ good. ground (arith, good))
  row_position-InRange now none lon seconds altitude = tt
  row_position-InRange now (some la) none seconds altitude = tt
  row_position-InRange now (some la) (some lo) none altitude = tt

  put_row-all_requested :
      (requested : List Text) (id : Text) (ps : FlightMapPositions F)
      (o : Option (FlightMapPosition F))
      → text_mem id requested ≡ true
      → InRange o
      → all_requested requested ps ≡ true
      → all_requested requested (put_row F id ps o) ≡ true
  unfolding put_row
  put_row-all_requested requested id ps none m r h = h
  put_row-all_requested requested id ps (some p) m r h =
      set_position-all_requested requested id p ps m r h

  module _ (J : Jansson Real) where
    open J use {Json}

    read_row-all_requested :
        (requested : List Text) (now : Real) (ps : FlightMapPositions F) (row : Json)
        → all_requested requested ps ≡ true
        → all_requested requested (read_row F J requested now ps row) ≡ true
    unfolding read_row
    read_row-all_requested requested now ps row h =
        let id = flight_map_icao (text_at F J row (codes "hex")) in
        let read =
          row_position F now (number_at F J row (codes "lat")) (number_at F J row (codes "lon"))
            (number_at F J row (codes "seen_pos")) (altitude_at F J row) in
        if_either (λ (qs : FlightMapPositions F). all_requested requested qs ≡ true)
          (is_empty id || not (text_mem id requested)) (λ refused. h)
          (λ asked.
            put_row-all_requested requested id ps read (ground (arith, asked))
              (row_position-InRange now (number_at F J row (codes "lat"))
                (number_at F J row (codes "lon")) (number_at F J row (codes "seen_pos"))
                (altitude_at F J row))
              h)

    read_rows-all_requested :
        (requested : List Text) (now : Real) (rows : List Json) (ps : FlightMapPositions F)
        → all_requested requested ps ≡ true
        → all_requested requested (read_rows F J requested now ps rows) ≡ true
    unfolding read_rows
    read_rows-all_requested requested now [] ps h = h
    read_rows-all_requested requested now (row ∷ rows) ps h =
        read_rows-all_requested requested now rows (read_row F J requested now ps row)
          (read_row-all_requested requested now ps row h)

    abbrev pub accepted : List Text → Option (FlightMapPositions F) → Bool
    accepted requested none = true
    accepted requested (some ps) = all_requested requested ps

    read_answer-accepted :
        (requested : List Text) (now : Real) (rows : Option (List Json))
        → accepted requested (read_answer F J requested now rows) ≡ true
    unfolding read_answer all_requested
    read_answer-accepted requested now none = refl
    read_answer-accepted requested now (some rows) =
        read_rows-all_requested requested now rows [] refl

    -- Whatever the online service answers: each position that is taken from it is of an aircraft
    -- that was asked for, and its latitude and longitude are finite numbers of at most 90 and 180
    -- degrees.
    pub parse_flight_map_positions-all_requested :
        (root : Option Json) (requested : List Text) (now : Real)
        → accepted requested (parse_flight_map_positions F J root requested now) ≡ true
    unfolding parse_flight_map_positions
    parse_flight_map_positions-all_requested root requested now =
        read_answer-accepted requested now (rows_of F J root)
