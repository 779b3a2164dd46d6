-- ===== src/Log/Bounded.antt =====
-- The bounded vectors of src/decode/message_log.h: `push_back`, then `erase` from the front.
use inmar_scope.Prelude.{
  ℕ, zero, suc, ◌+◌, ◌-◌, ◌≤◌, ◌≡◌, refl, ap, sym, ◌∙◌, List, [], ◌∷◌, ◌++◌, arith, ltb,
  if◌then◌else◌, length, drop, length-append, length-drop, append-nil, append_assoc, Bool-cases,
  inl, inr,
}

module _ {ℓ} {A : Type ℓ} where
  unfoldable pub push_bounded : ℕ → List A → A → List A
  push_bounded max_size items x =
      let grown = items ++ x ∷ [] in
      if ltb max_size (length grown) then drop (length grown - max_size) grown else grown

  -- The last `n` items of a list.
  abbrev pub last_of : ℕ → List A → List A
  last_of n items = drop (length items - n) items

  pub length-push_bounded :
      (max_size : ℕ) (items : List A) (x : A) → length (push_bounded max_size items x) ≤ max_size
  unfolding push_bounded
  length-push_bounded max_size items x =
      ground (arith, length-drop (length (items ++ x ∷ []) - max_size) (items ++ x ∷ []))

  drop-nil : (n : ℕ) → drop {A = A} n [] ≡ []
  drop-nil zero = refl
  drop-nil (suc n) = refl

  drop_zero_of : (n : ℕ) (items : List A) → n ≡ 0 → drop n items ≡ items
  drop_zero_of n items e = rw e refl

  pub push_bounded-last_of :
      (max_size : ℕ) (items : List A) (x : A)
      → push_bounded max_size items x ≡ last_of max_size (items ++ x ∷ [])
  unfolding push_bounded
  push_bounded-last_of max_size items x =
      elim (Bool-cases (ltb max_size (length (items ++ x ∷ [])))) [
        | inl over ↦ rw over
        | inr fits ↦
            rw fits (sym (drop_zero_of (length (items ++ x ∷ []) - max_size) _ (ground arith)))
      ]

  drop-append : (n : ℕ) (xs ys : List A) → n ≤ length xs → drop n (xs ++ ys) ≡ drop n xs ++ ys
  drop-append zero xs ys h = refl
  drop-append (suc n) [] ys h = absurd (omega arith)
  drop-append (suc n) (x ∷ xs) ys h = drop-append n xs ys (omega arith)

  drop-drop : (n m : ℕ) (xs : List A) → drop n (drop m xs) ≡ drop (m + n) xs
  drop-drop n zero xs = ap (λ (k : ℕ). drop k xs) (omega arith)
  drop-drop zero (suc m) [] = sym (drop-nil (suc m + 0))
  drop-drop (suc n) (suc m) [] = sym (drop-nil (suc m + suc n))
  drop-drop n (suc m) (x ∷ xs) =
      let e : suc (m + n) ≡ suc m + n = omega arith in
      drop-drop n m xs ∙ ap (λ (k : ℕ). drop k (x ∷ xs)) e

  -- What is kept of a longer list does not depend on what was dropped before.
  pub last_of-append :
      (n : ℕ) (ys xs : List A) → last_of n (last_of n ys ++ xs) ≡ last_of n (ys ++ xs)
  last_of-append n ys xs =
      let k : ℕ = length ys - n in
      let joined = drop-append k ys xs (omega arith) in
      rw (← joined) (
        drop-drop (length (drop k (ys ++ xs)) - n) k (ys ++ xs)
        ∙ ap (λ (j : ℕ). drop j (ys ++ xs))
            (omega (arith, length-drop k (ys ++ xs), length-append ys xs)))

  -- Items pushed one after the other.
  unfoldable pub push_all : ℕ → List A → List A → List A
  push_all max_size items [] = items
  push_all max_size items (x ∷ xs) = push_all max_size (push_bounded max_size items x) xs

  last_of-short : (n : ℕ) (items : List A) → length items ≤ n → last_of n items ≡ items
  last_of-short n items h = drop_zero_of (length items - n) items (omega arith)

  -- A bounded vector holds the newest items.
  pub push_all-last_of :
      (max_size : ℕ) (items xs : List A)
      → length items ≤ max_size
      → push_all max_size items xs ≡ last_of max_size (items ++ xs)
  unfolding push_all
  push_all-last_of max_size items [] h = rw append-nil (sym (last_of-short max_size items h))
  push_all-last_of max_size items (x ∷ xs) h =
      push_all-last_of max_size (push_bounded max_size items x) xs
        (length-push_bounded max_size items x)
      ∙ ap (λ l. last_of max_size (l ++ xs)) (push_bounded-last_of max_size items x)
      ∙ last_of-append max_size (items ++ x ∷ []) xs
      ∙ ap (last_of max_size) (append_assoc items (x ∷ []) xs)
