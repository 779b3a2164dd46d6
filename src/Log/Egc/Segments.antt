-- ===== src/Log/Egc/Segments.antt =====
-- The text of a message is that of its segments in order.
use inmar_scope.Prelude.{
  ℕ, suc, ◌≡◌, refl, ap, ◌∙◌, List, [], ◌∷◌, ◌++◌, Option, none, some, Bool, true, ◌⊎◌, arith,
  if◌then◌else◌, length, Bool-cases, inl, inr, Option-cases,
}
use inmar_scope.Log.Types.{EgcMessage}
use inmar_scope.Log.Egc.{same_message, join_segment, join_newest}

module _ {D : Type 0} where
  -- The newest entry of a message.
  unfoldable pub entry : ℕ → ℕ → List (EgcMessage D) → Option (EgcMessage D)
  entry c i [] = none
  entry c i (x ∷ xs) = elim (entry c i xs) [
    | some y ↦ some y
    | none ↦ if same_message c i x then some x else none
  ]

  pub entry-append :
      (c i : ℕ) (xs : List (EgcMessage D)) (m : EgcMessage D)
      → entry c i (xs ++ m ∷ []) ≡ (if same_message c i m then some m else entry c i xs)
  unfolding entry
  entry-append c i [] m = refl
  entry-append c i (x ∷ xs) m = ground (arith, entry-append c i xs m)

  pub join_newest-none :
      (xs : List (EgcMessage D)) (m : EgcMessage D)
      → join_newest m xs ≡ none
      → entry m.channel_id m.message_id xs ≡ none
  unfolding join_newest entry
  join_newest-none [] m e = refl
  join_newest-none (x ∷ xs) m e = ground (arith, join_newest-none xs m)

  -- The loop of `add` changes the newest entry of the message and no other.
  pub record Joined (m : EgcMessage D) (xs ys : List (EgcMessage D)) : Type 0 where
    pub old : EgcMessage D
    pub was : entry m.channel_id m.message_id xs ≡ some old
    pub now :
        (c i : ℕ)
        → entry c i ys ≡ (if same_message c i m then some (join_segment old m) else entry c i xs)
    pub size : length ys ≡ length xs

  pub key_of_same :
      (c i : ℕ) (m : EgcMessage D)
      → same_message c i m ≡ true
      → (c ≡ m.channel_id) × (i ≡ m.message_id)
  unfolding same_message
  key_of_same c i m e = ground arith

  same_of_same :
      (c i : ℕ) (x m : EgcMessage D)
      → same_message m.channel_id m.message_id x ≡ true
      → (same_message c i x ≡ same_message c i m)
        × (same_message c i (join_segment x m) ≡ same_message c i m)
  unfolding same_message join_segment
  same_of_same c i x m e = (ground arith, ground arith)

  entry_here :
      (c i : ℕ) (x m : EgcMessage D) (xs : List (EgcMessage D))
      → same_message m.channel_id m.message_id x ≡ true
      → entry m.channel_id m.message_id xs ≡ none
      → entry c i (join_segment x m ∷ xs)
        ≡ (if same_message c i m then some (join_segment x m) else entry c i (x ∷ xs))
  unfolding entry
  entry_here c i x m xs e missing = elim (Bool-cases (same_message c i m)) [
    | inl own ↦
        let k = key_of_same c i m own in
        let s = same_of_same c i x m e in
        let gone : entry c i xs ≡ none = rw (k.0, k.1) missing in ground (arith, gone, s.1)
    | inr other ↦ let s = same_of_same c i x m e in ground (arith, s.0, s.1)
  ]

  nothing_joined : (m : EgcMessage D) {ys : List (EgcMessage D)} → join_newest m [] ≡ some ys → ⊥
  unfolding join_newest
  nothing_joined m e = cc

  -- One round of the loop from its result on the rest.
  join_newest-cons :
      (x m : EgcMessage D) (xs : List (EgcMessage D)) {ys : List (EgcMessage D)}
      → join_newest m (x ∷ xs) ≡ some ys
      → ((join_newest m xs ≡ none)
          × (same_message m.channel_id m.message_id x ≡ true)
          × (ys ≡ join_segment x m ∷ xs))
        ⊎ ((xs' : List (EgcMessage D)) × (join_newest m xs ≡ some xs') × (ys ≡ x ∷ xs'))
  unfolding join_newest
  join_newest-cons x m xs e = elim (Option-cases (join_newest m xs)) [
    | inl missing ↦ inl (missing, ground arith, ground arith)
    | inr (xs', found) ↦ inr (xs', found, ground arith)
  ]

  entry-cons_some :
      (c i : ℕ) (x y : EgcMessage D) (xs : List (EgcMessage D))
      → entry c i xs ≡ some y
      → entry c i (x ∷ xs) ≡ some y
  unfolding entry
  entry-cons_some c i x y xs e = ground arith

  entry-cons_none :
      (c i : ℕ) (x : EgcMessage D) (xs : List (EgcMessage D))
      → entry c i xs ≡ none
      → entry c i (x ∷ xs) ≡ (if same_message c i x then some x else none)
  unfolding entry
  entry-cons_none c i x xs e = ground arith

  entry-cons_if :
      (c i : ℕ) (x y : EgcMessage D) (xs xs' : List (EgcMessage D)) (b : Bool)
      → entry c i xs' ≡ (if b then some y else entry c i xs)
      → entry c i (x ∷ xs') ≡ (if b then some y else entry c i (x ∷ xs))
  unfolding entry
  entry-cons_if c i x y xs xs' b e = ground arith

  pub join_newest-Joined :
      (xs : List (EgcMessage D)) (m : EgcMessage D) {ys : List (EgcMessage D)}
      → join_newest m xs ≡ some ys
      → Joined m xs ys
  join_newest-Joined [] m e = absurd (nothing_joined m e)
  join_newest-Joined (x ∷ xs) m {ys} e = elim (join_newest-cons x m xs e) [
    | inl (missing, same, is) ↦ rw is (record {
      old = x;
      was =
          entry-cons_none m.channel_id m.message_id x xs (join_newest-none xs m missing)
          ∙ rw same refl;
      now = λ c i. entry_here c i x m xs same (join_newest-none xs m missing);
      size = refl;
    })
    | inr (xs', found, is) ↦
        let ih = join_newest-Joined xs m found in
        rw is (record {
          old = ih.old;
          was = entry-cons_some m.channel_id m.message_id x ih.old xs ih.was;
          now = λ c i.
              entry-cons_if c i x (join_segment ih.old m) xs xs' (same_message c i m) (ih.now c i);
          size = ap suc ih.size;
        })
  ]
