-- ===== src/FlightMap/Merging.antt =====
-- What the web map shows of an aircraft that has several entries.
use inmar_scope.Prelude.{
  ℕ, ◌<◌, ◌≡◌, refl, sym, ap, ◌∙◌, arith, List, [], ◌∷◌, Bool, true, false, ◌&&◌, ◌||◌, ◌==◌,
  Option, none, some, if_either,
}
use inmar_scope.Double.{Double}
use inmar_scope.Log.Types.{AircraftEntry}
use inmar_scope.Log.OrdMap.{OrdMap, find, modify, Ascends, modify-Ascends, find-modify, value_or}
use inmar_scope.FlightMap.{valid_position}
use inmar_scope.FlightMap.Rows.{complete, merge_entry, put_entry, merge_one, merge_all}

module _ (F : Double) where
  open F use {Real, less}

  abbrev pub Entry : Type 0
  Entry = AircraftEntry Real

  -- A test of the entry of an aircraft.
  abbrev pub at : (Entry → Bool) → Option Entry → Bool
  at test none = false
  at test (some e) = test e

  -- Some entry of the aircraft passes the test.
  unfoldable pub any_entry : (Entry → Bool) → ℕ → List Entry → Bool
  any_entry test k [] = false
  any_entry test k (a ∷ others) = ((a.aes_id == k) && test a) || any_entry test k others

  -- The test holds of a merged entry exactly if it does of one of the two.
  abbrev pub Keeps : (Entry → Bool) → Type 0
  Keeps test = (old a : Entry) → test (merge_entry F old a) ≡ (test old || test a)

  complete-valid :
      (t o : Entry) → valid_position F (complete F t o) ≡ (valid_position F t || valid_position F o)
  unfolding complete
  complete-valid t o = ground arith

  merge_entry-valid : Keeps (valid_position F)
  unfolding merge_entry
  merge_entry-valid old a = ground (arith, complete-valid a old, complete-valid old a)

  put_entry-Ascends :
      (a : Entry) (m : OrdMap Entry) (o : Option Entry)
      → Ascends 0 m
      → Ascends 0 (put_entry F a m o)
  unfolding put_entry
  put_entry-Ascends a m none h = modify-Ascends m a.aes_id a (λ e. a) 0 (omega arith) h
  put_entry-Ascends a m (some old) h =
      modify-Ascends m a.aes_id a (λ e. merge_entry F e a) 0 (omega arith) h

  merge_one-Ascends : (m : OrdMap Entry) (a : Entry) → Ascends 0 m → Ascends 0 (merge_one F m a)
  unfolding merge_one
  merge_one-Ascends m a h =
      if_either (Ascends 0) (a.aes_id == 0) (λ zero_id. h)
        (λ real_id. put_entry-Ascends a m (find a.aes_id m) h)

  modify-at :
      (test : Entry → Bool) (a : Entry) (f : Entry → Entry) (m : OrdMap Entry) (k : ℕ)
      → Ascends 0 m
      → test (f (value_or a (find a.aes_id m))) ≡ (at test (find a.aes_id m) || test a)
      → at test (find k (modify a.aes_id a f m))
        ≡ (at test (find k m) || ((a.aes_id == k) && test a))
  modify-at test a f m k h put =
      ap (at test) (find-modify m a.aes_id a f 0 k h)
      ∙ if_either
          (λ (o : Option Entry). at test o ≡ (at test (find k m) || ((a.aes_id == k) && test a)))
          (a.aes_id == k)
          (λ here.
            let same : at test (find a.aes_id m) ≡ at test (find k m) =
              ap (λ (j : ℕ). at test (find j m)) (ground (arith, here)) in
            ground (arith, here, same, put))
          (λ elsewhere. ground (arith, elsewhere))

  put_entry-at :
      (test : Entry → Bool)
      → Keeps test
      → (a : Entry) (m : OrdMap Entry) (o : Option Entry) (k : ℕ) → find a.aes_id m ≡ o
      → Ascends 0 m
      → at test (find k (put_entry F a m o)) ≡ (at test (find k m) || ((a.aes_id == k) && test a))
  unfolding put_entry
  put_entry-at test keeps a m none k found h =
      modify-at test a (λ e. a) m k h (ground (arith, ap (at test) found))
  put_entry-at test keeps a m (some old) k found h =
      modify-at test a (λ e. merge_entry F e a) m k h
        (ap (λ (o : Option Entry). test (merge_entry F (value_or a o) a)) found
          ∙ keeps old a
          ∙ ap (λ (o : Option Entry). at test o || test a) (sym found))

  merge_one-at :
      (test : Entry → Bool)
      → Keeps test
      → (m : OrdMap Entry) (a : Entry) (k : ℕ) → 0 < k
      → Ascends 0 m
      → at test (find k (merge_one F m a)) ≡ (at test (find k m) || ((a.aes_id == k) && test a))
  unfolding merge_one
  merge_one-at test keeps m a k positive h =
      if_either
        (λ (n : OrdMap Entry).
          at test (find k n) ≡ (at test (find k m) || ((a.aes_id == k) && test a)))
        (a.aes_id == 0) (λ zero_id. ground (arith, zero_id))
        (λ real_id. put_entry-at test keeps a m (find a.aes_id m) k refl h)

  merge_all-at :
      (test : Entry → Bool)
      → Keeps test
      → (others : List Entry) (m : OrdMap Entry) (k : ℕ) → 0 < k
      → Ascends 0 m
      → at test (find k (merge_all F m others)) ≡ (at test (find k m) || any_entry test k others)
  unfolding merge_all any_entry
  merge_all-at test keeps [] m k positive h = ground arith
  merge_all-at test keeps (a ∷ others) m k positive h = ground (
    arith,
    merge_all-at test keeps others (merge_one F m a) k positive (merge_one-Ascends m a h),
    merge_one-at test keeps m a k positive h,
  )

  abbrev pub known : Entry → Bool
  known e = true

  -- What the web map makes of any entries, for an aircraft (by an AES number that is not 0): it has
  -- one row exactly if it has an entry, and that has a valid position exactly if one of its
  -- entries has a valid one, however the later ones are.
  pub merge_all-valid_position :
      (aircraft : List Entry) (k : ℕ)
      → 0 < k
      → (at known (find k (merge_all F [] aircraft)) ≡ any_entry known k aircraft)
        × (at (valid_position F) (find k (merge_all F [] aircraft))
            ≡ any_entry (valid_position F) k aircraft)
  unfolding find any_entry
  merge_all-valid_position aircraft k positive = (
    merge_all-at known (λ old a. refl) aircraft [] k positive tt,
    merge_all-at (valid_position F) merge_entry-valid aircraft [] k positive tt,
  )
