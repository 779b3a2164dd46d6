-- ===== src/FlightMap/Lookup.antt =====
-- Which aircraft lack a position that is looked up online.
use inmar_scope.Prelude.{
  ◌≡◌, refl, ap, arith, List, [], ◌∷◌, Bool, true, false, not, ◌&&◌, ◌||◌, ◌==◌, Text, text_eq,
  text_eq_sound, is_empty, Bool-cases, inl, inr,
}
use inmar_scope.Double.{Double}
use inmar_scope.BandPlan.{insert_text}
use inmar_scope.Log.Types.{AircraftEntry}
use inmar_scope.Log.Country.{text_mem}
use inmar_scope.FlightMap.{
  flight_map_icao, erase_text, erase_all, look_at, look_at_all, flight_map_lookup_ids,
}

-- Two equal texts equal the same texts.
same_eq : (s t u : Text) → text_eq s t ≡ true → text_eq s u ≡ text_eq t u
same_eq s t u h = ap (λ (v : Text). text_eq v u) (text_eq_sound s t h)

never_both : (s t u : Text) → text_eq s t ≡ false → (text_eq s u && text_eq t u) ≡ false
never_both s t u differ = elim (Bool-cases (text_eq t u)) [
  | inl same ↦
      let alike : text_eq s t ≡ text_eq s u = ap (text_eq s) (text_eq_sound t u same) in
      ground (arith, alike, differ)
  | inr other ↦ ground (arith, other)
]

text_mem-insert_text :
    (u t : Text) (ss : List Text) → text_mem u (insert_text t ss) ≡ (text_eq t u || text_mem u ss)
unfolding text_mem insert_text
text_mem-insert_text u t [] = refl
text_mem-insert_text u t (s ∷ ss) = ground (arith, same_eq t s u, text_mem-insert_text u t ss)

text_mem-erase_text :
    (u t : Text) (ss : List Text)
    → text_mem u (erase_text t ss) ≡ (text_mem u ss && not (text_eq t u))
unfolding text_mem erase_text
text_mem-erase_text u t [] = refl
text_mem-erase_text u t (s ∷ ss) = elim (Bool-cases (text_eq s t)) [
  | inl same ↦ ground (arith, same, same_eq s t u same, text_mem-erase_text u t ss)
  | inr other ↦ ground (arith, other, text_mem-erase_text u t ss, never_both s t u other)
]

text_mem-erase_all :
    (u : Text) (ts ss : List Text)
    → text_mem u (erase_all ts ss) ≡ (text_mem u ss && not (text_mem u ts))
unfolding text_mem erase_all
text_mem-erase_all u [] ss = ground arith
text_mem-erase_all u (t ∷ ts) ss =
    ground (arith, text_mem-erase_all u ts (erase_text t ss), text_mem-erase_text u t ss)

module _ (F : Double) where
  open F use {Real, literal, sub, fabs, leq, is_finite}

  -- An entry of an aircraft with the address `id`.
  abbrev pub has_icao : Text → AircraftEntry Real → Bool
  has_icao id a =
      let own = flight_map_icao a.icao in
      not (a.aes_id == 0) && (not (is_empty own) && text_eq own id)

  -- A position of finite numbers of degrees, at most 90 and 180.
  abbrev pub shows_position : AircraftEntry Real → Bool
  shows_position a =
      a.has_pos
      && ((is_finite a.lat && leq (fabs a.lat) (literal 90 0))
          && (is_finite a.lon && leq (fabs a.lon) (literal 180 0)))

  -- A message in the 1800 seconds up to now.
  abbrev pub heard_lately : Real → AircraftEntry Real → Bool
  heard_lately now a =
      is_finite a.last_seen && (leq a.last_seen now && leq (sub now a.last_seen) (literal 1800 0))

  -- The entry is recent and has no position, and the entry has one.
  abbrev pub wanted : Real → Text → AircraftEntry Real → Bool
  wanted now id a = has_icao id a && (not (shows_position a) && heard_lately now a)

  abbrev pub placed : Text → AircraftEntry Real → Bool
  placed id a = has_icao id a && shows_position a

  unfoldable pub some_entry : (AircraftEntry Real → Bool) → List (AircraftEntry Real) → Bool
  some_entry test [] = false
  some_entry test (a ∷ others) = test a || some_entry test others

  -- Both sets after an entry.
  abbrev pub After : Real → Text → AircraftEntry Real → List Text × List Text → Type 0
  After now id a sets =
      (text_mem id (look_at F now sets a).0 ≡ (text_mem id sets.0 || wanted now id a))
      × (text_mem id (look_at F now sets a).1 ≡ (text_mem id sets.1 || placed id a))

  look_at-After :
      (now : Real) (id : Text) (a : AircraftEntry Real) (ids decoded : List Text)
      → After now id a (ids, decoded)
  unfolding look_at
  look_at-After now id a ids decoded =
      let new_id = text_mem-insert_text id (flight_map_icao a.icao) ids in
      let new_decoded = text_mem-insert_text id (flight_map_icao a.icao) decoded in
      (ground (arith, new_id, new_decoded), ground (arith, new_id, new_decoded))

  look_at_all-text_mem :
      (now : Real) (id : Text) (aircraft : List (AircraftEntry Real)) (sets : List Text × List Text)
      → (text_mem id (look_at_all F now aircraft sets).0
          ≡ (text_mem id sets.0 || some_entry (wanted now id) aircraft))
        × (text_mem id (look_at_all F now aircraft sets).1
            ≡ (text_mem id sets.1 || some_entry (placed id) aircraft))
  unfolding look_at_all some_entry
  look_at_all-text_mem now id [] sets = (ground arith, ground arith)
  look_at_all-text_mem now id (a ∷ others) sets =
      let rest = look_at_all-text_mem now id others (look_at F now sets a) in
      let first = look_at-After now id a sets.0 sets.1 in
      (ground (arith, rest.0, first.0), ground (arith, rest.1, first.1))

  -- `flightMapLookupIds` gives an address exactly if some entry (with an AES number that is not 0)
  -- has it, has no valid position (finite, at most 90 and 180 degrees) and was heard in the last 1800
  -- seconds and not in the future, and if no entry with this address has a valid position.
  pub flight_map_lookup_ids-wanted :
      (aircraft : List (AircraftEntry Real)) (now : Real) (id : Text)
      → text_mem id (flight_map_lookup_ids F aircraft now)
        ≡ (some_entry (wanted now id) aircraft && not (some_entry (placed id) aircraft))
  unfolding flight_map_lookup_ids text_mem
  flight_map_lookup_ids-wanted aircraft now id =
      let sets = look_at_all-text_mem now id aircraft ([], []) in
      ground (
        arith,
        sets.0,
        sets.1,
        text_mem-erase_all id (look_at_all F now aircraft ([], [])).1
            (look_at_all F now aircraft ([], [])).0,
      )
