-- ===== src/Log/Aircraft/Merge.antt =====
-- What `AircraftTable` knows of an aircraft after a sequence of messages.
use inmar_scope.Prelude.{
  ℕ, ◌+◌, ◌≡◌, refl, List, [], ◌∷◌, ◌++◌, Option, none, some, not, ◌&&◌, ◌==◌, arith, if◌then◌else◌,
  Text, is_empty,
}
use inmar_scope.Log.Types.{DecodedMessage, AircraftEntry}
use inmar_scope.Double.{Double}

module _ (F : Double) where
  open F use {Real}

  abbrev pub Arrival : Type 0
  Arrival = DecodedMessage Real × Real

  -- The newest text of a kind that is not empty, in the messages of an aircraft.
  unfoldable pub newest_text : (DecodedMessage Real → Text) → ℕ → List Arrival → Text
  newest_text field id [] = []
  newest_text field id ((m, now) ∷ rest) =
      let later = newest_text field id rest in
      if is_empty later then if m.aes_id == id then field m else [] else later

  -- The newest position of an aircraft, with its time.
  unfoldable pub newest_pos : ℕ → List Arrival → Option (Real × Real × ℕ × Real)
  newest_pos id [] = none
  newest_pos id ((m, now) ∷ rest) = elim (newest_pos id rest) [
    | some p ↦ some p
    | none ↦ if (m.aes_id == id) && m.has_pos then some (m.lat, m.lon, m.alt, now) else none
  ]

  unfoldable pub message_count : ℕ → List Arrival → ℕ
  message_count id [] = 0
  message_count id ((m, now) ∷ rest) = (if m.aes_id == id then 1 else 0) + message_count id rest

  unfoldable pub position_of : AircraftEntry Real → Option (Real × Real × ℕ × Real)
  position_of e = if e.has_pos then some (e.lat, e.lon, e.alt, e.pos_time) else none

  pub newest_text-append :
      (field : DecodedMessage Real → Text) (id : ℕ) (told : List Arrival) (m : DecodedMessage Real)
      (now : Real)
      → newest_text field id (told ++ (m, now) ∷ []) ≡ (
          if (m.aes_id == id) && not (is_empty (field m))
          then field m
          else newest_text field id told)
  unfolding newest_text
  newest_text-append field id [] m now = ground arith
  newest_text-append field id ((m', now') ∷ told) m now =
      ground (arith, newest_text-append field id told m now)

  pub newest_pos-append :
      (id : ℕ) (told : List Arrival) (m : DecodedMessage Real) (now : Real)
      → newest_pos id (told ++ (m, now) ∷ []) ≡ (
          if (m.aes_id == id) && m.has_pos
          then some (m.lat, m.lon, m.alt, now)
          else newest_pos id told)
  unfolding newest_pos
  newest_pos-append id [] m now = refl
  newest_pos-append id ((m', now') ∷ told) m now = ground (arith, newest_pos-append id told m now)

  pub message_count-append :
      (id : ℕ) (told : List Arrival) (m : DecodedMessage Real) (now : Real)
      → message_count id (told ++ (m, now) ∷ [])
        ≡ message_count id told + (if m.aes_id == id then 1 else 0)
  unfolding message_count
  message_count-append id [] m now = ground arith
  message_count-append id ((m', now') ∷ told) m now =
      omega (arith, message_count-append id told m now)
