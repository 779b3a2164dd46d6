-- ===== src/Log/Aircraft/History.antt =====
-- A sequence of messages through `AircraftTable::update`.
use inmar_scope.Prelude.{
  ℕ, ◌<◌, ◌≡◌, ◌≢◌, refl, ap, sym, ◌∙◌, List, [], ◌∷◌, ◌++◌, Option, none, some, Bool, true, false,
  ◌==◌, arith, if◌then◌else◌, Text, is_empty, append-nil, append_assoc, Bool-cases, inl, inr,
  ==_iff,
}
use inmar_scope.Log.OrdMap.{find, Ascends, value_or, find-modify, modify-Ascends}
use inmar_scope.Log.Types.{DecodedMessage, AircraftEntry}
use inmar_scope.Log.Messages.{u64}
use inmar_scope.Log.Aircraft.{AircraftTable, new_aircraft, merge_message, update}
use inmar_scope.Log.Aircraft.Merge.{
  Arrival, newest_text, newest_pos, message_count, position_of, newest_text-append,
  newest_pos-append, message_count-append,
}
use inmar_scope.Double.{Double}

module _ (F : Double) where
  open F use {Real}

  -- The entry of an aircraft after the messages `told`.
  pub record Fields (id : ℕ) (told : List (Arrival F)) (e : AircraftEntry Real) : Type 0 where
    pub icao_eq : e.icao ≡ newest_text F (λ m. m.icao) id told
    pub reg_eq : e.reg ≡ newest_text F (λ m. m.reg) id told
    pub flight_eq : e.flight ≡ newest_text F (λ m. m.flight) id told
    pub pos_eq : position_of F e ≡ newest_pos F id told
    pub msgs_eq : e.msgs ≡ u64 (message_count F id told)

  -- No entry if no message came.
  abbrev pub KnownAs : ℕ → List (Arrival F) → Option (AircraftEntry Real) → Type 0
  KnownAs id told none = message_count F id told ≡ 0
  KnownAs id told (some e) = (0 < message_count F id told) × Fields id told e

  no_text :
      (field : DecodedMessage Real → Text) (id : ℕ) (told : List (Arrival F))
      → message_count F id told ≡ 0
      → newest_text F field id told ≡ []
  unfolding newest_text message_count
  no_text field id [] e = refl
  no_text field id ((m, now) ∷ told) e = ground (arith, no_text field id told)

  no_pos :
      (id : ℕ) (told : List (Arrival F)) → message_count F id told ≡ 0 → newest_pos F id told ≡ none
  unfolding newest_pos message_count
  no_pos id [] e = refl
  no_pos id ((m, now) ∷ told) e = ground (arith, no_pos id told)

  new_aircraft-Fields :
      (id : ℕ) (told : List (Arrival F))
      → message_count F id told ≡ 0
      → Fields id told (new_aircraft F)
  unfolding new_aircraft position_of
  new_aircraft-Fields id told e = record {
    icao_eq = sym (no_text (λ m. m.icao) id told e);
    reg_eq = sym (no_text (λ m. m.reg) id told e);
    flight_eq = sym (no_text (λ m. m.flight) id told e);
    pos_eq = sym (no_pos id told e);
    msgs_eq = omega (arith, e);
  }

  value_or-Fields :
      (id : ℕ) (told : List (Arrival F)) (o : Option (AircraftEntry Real))
      → KnownAs id told o
      → Fields id told (value_or (new_aircraft F) o)
  value_or-Fields id told none k = new_aircraft-Fields id told k
  value_or-Fields id told (some e) k = k.1

  -- A text of the entry after a further message of the aircraft.
  merged_text :
      (field : DecodedMessage Real → Text) (id : ℕ) (told : List (Arrival F))
      (m : DecodedMessage Real) (now : Real) (old : Text)
      → (m.aes_id == id) ≡ true
      → old ≡ newest_text F field id told
      → (if is_empty (field m) then old else field m)
        ≡ newest_text F field id (told ++ (m, now) ∷ [])
  merged_text field id told m now old own e =
      rw (newest_text-append F field id told m now, own) (ground arith)

  merge_message-Fields :
      (id : ℕ) (told : List (Arrival F)) (m : DecodedMessage Real) (now : Real)
      (e : AircraftEntry Real)
      → (m.aes_id == id) ≡ true
      → Fields id told e
      → Fields id (told ++ (m, now) ∷ []) (merge_message F m now e)
  unfolding merge_message position_of
  merge_message-Fields id told m now e own f = record {
    icao_eq = merged_text (λ x. x.icao) id told m now e.icao own f.icao_eq;
    reg_eq = merged_text (λ x. x.reg) id told m now e.reg own f.reg_eq;
    flight_eq = merged_text (λ x. x.flight) id told m now e.flight own f.flight_eq;
    pos_eq = rw (newest_pos-append F id told m now, own) (ground (arith, f.pos_eq));
    msgs_eq = rw (message_count-append F id told m now, own) (omega (arith, f.msgs_eq));
  }

  other-KnownAs :
      (id : ℕ) (told : List (Arrival F)) (m : DecodedMessage Real) (now : Real)
      (o : Option (AircraftEntry Real))
      → (m.aes_id == id) ≡ false
      → KnownAs id told o
      → KnownAs id (told ++ (m, now) ∷ []) o
  other-KnownAs id told m now none other k =
      rw (message_count-append F id told m now, other) (omega (arith, k))
  other-KnownAs id told m now (some e) other k = (
    rw (message_count-append F id told m now, other) (omega arith),
    record {
      icao_eq = rw (newest_text-append F (λ x. x.icao) id told m now, other) k.1.icao_eq;
      reg_eq = rw (newest_text-append F (λ x. x.reg) id told m now, other) k.1.reg_eq;
      flight_eq = rw (newest_text-append F (λ x. x.flight) id told m now, other) k.1.flight_eq;
      pos_eq = rw (newest_pos-append F id told m now, other) k.1.pos_eq;
      msgs_eq = rw (message_count-append F id told m now, other) (omega (arith, k.1.msgs_eq));
    },
  )

  find-update :
      (t : AircraftTable F) (m : DecodedMessage Real) (now : Real) (id : ℕ)
      → Ascends 0 t
      → id ≢ 0
      → find id (update F t m now) ≡ (
          if m.aes_id == id
          then some (merge_message F m now (value_or (new_aircraft F) (find id t)))
          else find id t)
  unfolding update
  find-update t m now id a h = elim (Bool-cases (m.aes_id == 0)) [
    | inl z ↦ let other : (m.aes_id == id) ≡ false = ground arith in rw (z, other)
    | inr n ↦ rw n (
        find-modify t m.aes_id (new_aircraft F) (merge_message F m now) 0 id a
        ∙ own_key (m.aes_id == id) (==_iff m.aes_id id).0)
  ]
    where
      own_key :
          (b : Bool)
          → (b ≡ true → m.aes_id ≡ id)
          → (if b
              then some (merge_message F m now (value_or (new_aircraft F) (find m.aes_id t)))
              else find id t)
            ≡ (if b
                then some (merge_message F m now (value_or (new_aircraft F) (find id t)))
                else find id t)
      own_key true k =
          ap (λ (i : ℕ). some (merge_message F m now (value_or (new_aircraft F) (find i t))))
            (k refl)
      own_key false k = refl

  update-Ascends :
      (t : AircraftTable F) (m : DecodedMessage Real) (now : Real)
      → Ascends 0 t
      → Ascends 0 (update F t m now)
  unfolding update
  update-Ascends t m now a = elim (Bool-cases (m.aes_id == 0)) [
    | inl z ↦ rw z a
    | inr n ↦
        rw n (modify-Ascends t m.aes_id (new_aircraft F) (merge_message F m now) 0 (omega arith) a)
  ]

  -- Messages in order, each with the time at which it came.
  unfoldable pub update_all : AircraftTable F → List (Arrival F) → AircraftTable F
  update_all t [] = t
  update_all t ((m, now) ∷ rest) = update_all (update F t m now) rest

  pub record Knows (t : AircraftTable F) (told : List (Arrival F)) : Type 0 where
    pub ascends : Ascends 0 t
    pub known : (id : ℕ) → id ≢ 0 → KnownAs id told (find id t)

  step_known :
      (t : AircraftTable F) (told : List (Arrival F)) (m : DecodedMessage Real) (now : Real)
      (id : ℕ)
      → Knows t told
      → id ≢ 0
      → KnownAs id (told ++ (m, now) ∷ []) (find id (update F t m now))
  step_known t told m now id k h = elim (Bool-cases (m.aes_id == id)) [
    | inl own ↦
        rw (find-update t m now id k.ascends h, own)
          (
            rw (message_count-append F id told m now, own) (omega arith),
            merge_message-Fields id told m now (value_or (new_aircraft F) (find id t)) own
                (value_or-Fields id told (find id t) (k.known id h)),
          )
    | inr other ↦
        rw (find-update t m now id k.ascends h, other)
          (other-KnownAs id told m now (find id t) other (k.known id h))
  ]

  update_all-Knows :
      (rest : List (Arrival F)) (t : AircraftTable F) (told : List (Arrival F))
      → Knows t told
      → Knows (update_all t rest) (told ++ rest)
  unfolding update_all
  update_all-Knows [] t told k = rw append-nil k
  update_all-Knows ((m, now) ∷ rest) t told k =
      let next = update_all-Knows rest (update F t m now) (told ++ (m, now) ∷ []) (record {
        ascends = update-Ascends t m now k.ascends;
        known = λ id h. step_known t told m now id k h;
      }) in
      rw (append_assoc told ((m, now) ∷ []) rest) at next

  nothing_known : Knows [] []
  unfolding find message_count
  nothing_known = record { ascends = tt; known = λ id h. refl }

  -- After any sequence of messages on an empty table, an aircraft (by an AES number that is not 0)
  -- has an entry exactly if a message of it came. The entry has the newest ICAO address,
  -- registration and flight that are not empty, the newest position with the time of its message
  -- (and none if no position came), and the number of its messages modulo 2^64. The keys of the
  -- table ascend.
  pub update_all-known :
      (arrivals : List (Arrival F)) (id : ℕ)
      → id ≢ 0
      → KnownAs id arrivals (find id (update_all [] arrivals)) × Ascends 0 (update_all [] arrivals)
  update_all-known arrivals id h =
      let k = update_all-Knows arrivals [] [] nothing_known in (k.known id h, k.ascends)
