-- ===== src/Log/OrdMap.antt =====
-- `std::map` with an integer key: an association list with ascending keys.
use inmar_scope.Prelude.{
  ℕ, suc, ◌≤◌, ◌<◌, ◌≡◌, refl, List, [], ◌∷◌, Option, none, some, arith, ltb, ◌==◌, if◌then◌else◌,
}

abbrev pub OrdMap {ℓ} : Type ℓ → Type ℓ
OrdMap V = List (ℕ × V)

module _ {ℓ} {V : Type ℓ} where
  unfoldable pub find : ℕ → OrdMap V → Option V
  find k [] = none
  find k ((j, v) ∷ m) = if j == k then some v else find k m

  -- `m[k]`, whose value `f` then changes; a key that is not there gets the value `d` first.
  unfoldable pub modify : ℕ → V → (V → V) → OrdMap V → OrdMap V
  modify k d f [] = (k, f d) ∷ []
  modify k d f ((j, v) ∷ m) =
      let rest = modify k d f m in
      if k == j then (j, f v) ∷ m else if ltb k j then (k, f d) ∷ (j, v) ∷ m else (j, v) ∷ rest

  abbrev pub keys : OrdMap V → List ℕ
  keys [] = []
  keys ((j, v) ∷ m) = j ∷ keys m

  abbrev pub values : OrdMap V → List V
  values [] = []
  values ((j, v) ∷ m) = v ∷ values m

  -- Every key is at least `lo`, and the keys ascend.
  abbrev pub Ascends : ℕ → OrdMap V → Type 0
  Ascends lo [] = Unit {0}
  Ascends lo ((j, v) ∷ m) = (lo ≤ j) × Ascends (suc j) m

  abbrev pub value_or : V → Option V → V
  value_or d none = d
  value_or d (some v) = v

  weaken-Ascends : (m : OrdMap V) (lo lo' : ℕ) → lo' ≤ lo → Ascends lo m → Ascends lo' m
  weaken-Ascends [] lo lo' h a = tt
  weaken-Ascends ((j, v) ∷ m) lo lo' h a = (omega arith, a.1)

  find_below : (m : OrdMap V) (k lo : ℕ) → k < lo → Ascends lo m → find k m ≡ none
  unfolding find
  find_below [] k lo h a = refl
  find_below ((j, v) ∷ m) k lo h a = ground (arith, find_below m k (suc j) (omega arith) a.1)

  pub modify-Ascends :
      (m : OrdMap V) (k : ℕ) (d : V) (f : V → V) (lo : ℕ)
      → lo ≤ k
      → Ascends lo m
      → Ascends lo (modify k d f m)
  unfolding modify
  modify-Ascends [] k d f lo h a = (h, tt)
  modify-Ascends ((j, v) ∷ m) k d f lo h a =
      grind (arith, λ (p : suc j ≤ k). modify-Ascends m k d f (suc j) p a.1)

  pub find-modify :
      (m : OrdMap V) (k : ℕ) (d : V) (f : V → V) (lo j : ℕ)
      → Ascends lo m
      → find j (modify k d f m) ≡ (if k == j then some (f (value_or d (find k m))) else find j m)
  unfolding find modify
  find-modify [] k d f lo j a = ground arith
  find-modify ((i, v) ∷ m) k d f lo j a =
      ground (arith, find-modify m k d f (suc i) j a.1, find_below m k (suc i))
