-- ===== src/FlightMap.antt =====
-- The data of the web map, src/web/flight_map_data.h and flight_map_data.cpp. The JSON library is
-- the parameter of BandPlan; the answer is modelled up to the text that the library makes of it.
pub mod Positions
pub mod Rows
pub mod Lookup
pub mod Merging
pub mod Requested
mod Tests
use inmar_scope.Prelude.{
  ℕ, ◌-◌, List, [], ◌∷◌, ◌++◌, Bool, true, false, not, ◌&&◌, ◌||◌, ◌==◌, leb, if◌then◌else◌, Option,
  none, some, Text, is_empty, length, text_eq, map, codes,
}
use inmar_scope.Double.{Double}
use inmar_scope.BandPlan.{Jansson, text_less, insert_text, all_hex}
use inmar_scope.Log.Types.{AircraftEntry}
use inmar_scope.Log.Country.{text_mem}
use inmar_scope.Log.OrdMap.{OrdMap, find, modify, values}

abbrev pub to_upper : Text → Text
to_upper [] = []
to_upper (c ∷ s) = (if leb 97 c && leb c 122 then c - 32 else c) ∷ to_upper s

-- The address in capitals, or nothing.
unfoldable pub flight_map_icao : Text → Text
unfolding all_hex text_eq
flight_map_icao value =
    let result = to_upper value in
    if (length value == 6) && all_hex value && not (text_eq result (codes "000000"))
    then result
    else []

-- `erase` of a set, which holds a text at most once.
unfoldable pub erase_text : Text → List Text → List Text
erase_text t [] = []
erase_text t (s ∷ ss) = let rest = erase_text t ss in if text_eq s t then rest else s ∷ rest

unfoldable pub erase_all : List Text → List Text → List Text
unfolding erase_text
erase_all [] ids = ids
erase_all (t ∷ ts) ids = erase_all ts (erase_text t ids)

module _ (F : Double) where
  open F use {Real, literal, sub, neg, fabs, less, leq, is_finite, trunc}

  abbrev pub valid_position : AircraftEntry Real → Bool
  valid_position a =
      a.has_pos
      && is_finite a.lat
      && is_finite a.lon
      && leq (fabs a.lat) (literal 90 0)
      && leq (fabs a.lon) (literal 180 0)

  -- Heard in the last half hour.
  abbrev pub recent : Real → Real → Bool
  recent now seen = leq seen now && leq (sub now seen) (literal 1800 0)

  -- The set `ids`, and the set `decoded`.
  unfoldable pub look_at : Real → List Text × List Text → AircraftEntry Real → List Text × List Text
  unfolding flight_map_icao insert_text
  look_at now (ids, decoded) a =
      let id = flight_map_icao a.icao in
      if (a.aes_id == 0) || is_empty id
      then (ids, decoded)
      else if valid_position a
      then (ids, insert_text id decoded)
      else if is_finite a.last_seen && recent now a.last_seen
      then (insert_text id ids, decoded)
      else (ids, decoded)

  unfoldable pub look_at_all :
      Real → List (AircraftEntry Real) → List Text × List Text → List Text × List Text
  unfolding look_at
  look_at_all now [] sets = sets
  look_at_all now (a ∷ others) sets = look_at_all now others (look_at now sets a)

  unfoldable pub flight_map_lookup_ids : List (AircraftEntry Real) → Real → List Text
  unfolding look_at_all erase_all
  flight_map_lookup_ids aircraft now =
      let sets = look_at_all now aircraft ([], []) in erase_all sets.1 sets.0
