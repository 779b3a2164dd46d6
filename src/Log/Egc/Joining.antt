-- ===== src/Log/Egc/Joining.antt =====
-- A sequence of segments through `EgcLog::add`.
use inmar_scope.Prelude.{
  ℕ, ◌≤◌, ◌≡◌, refl, ap, sym, List, [], ◌∷◌, ◌++◌, Option, none, some, Bool, true, false, ◌||◌,
  arith, if◌then◌else◌, length, Text, is_empty, append-nil, append_assoc, Bool-cases, inl, inr,
}
use inmar_scope.Log.Types.{EgcMessage}
use inmar_scope.Log.Egc.{EgcLog, same_message, join_text}
use inmar_scope.Log.Egc.Segments.{entry}

-- Texts with a line feed between two of them.
unfoldable pub joined_from : Text → List Text → Text
joined_from acc [] = acc
joined_from acc (t ∷ ts) = joined_from (acc ++ 10 ∷ t) ts

unfoldable pub joined : List Text → Text
unfolding joined_from
joined [] = []
joined (t ∷ ts) = joined_from t ts

unfoldable pub unless_empty : Text → List Text
unless_empty [] = []
unless_empty (b ∷ t) = (b ∷ t) ∷ []

module _ {D : Type 0} where
  -- The texts of the segments of a message that have one.
  unfoldable pub texts : ℕ → ℕ → List (EgcMessage D) → List Text
  texts c i [] = []
  texts c i (m ∷ ms) =
      let rest = texts c i ms in if same_message c i m then unless_empty m.text ++ rest else rest

  unfoldable pub any_segment : ℕ → ℕ → List (EgcMessage D) → Bool
  any_segment c i [] = false
  any_segment c i (m ∷ ms) = same_message c i m || any_segment c i ms

  -- What the log shows of a message after some segments: nothing if none is of it.
  unfoldable pub expected : ℕ → ℕ → List (EgcMessage D) → Option Text
  expected c i ms = if any_segment c i ms then some (joined (texts c i ms)) else none

  unfoldable pub text_of : Option (EgcMessage D) → Option Text
  text_of none = none
  text_of (some x) = some x.text

  any_segment-append :
      (c i : ℕ) (ms : List (EgcMessage D)) (m : EgcMessage D)
      → any_segment c i (ms ++ m ∷ []) ≡ (same_message c i m || any_segment c i ms)
  unfolding any_segment
  any_segment-append c i [] m = ground arith
  any_segment-append c i (x ∷ ms) m = ground (arith, any_segment-append c i ms m)

  texts-append :
      (c i : ℕ) (ms : List (EgcMessage D)) (m : EgcMessage D)
      → texts c i (ms ++ m ∷ [])
        ≡ texts c i ms ++ (if same_message c i m then unless_empty m.text else [])
  unfolding texts
  texts-append c i [] m = elim (Bool-cases (same_message c i m)) [
    | inl e ↦ rw e (append-nil (unless_empty m.text))
    | inr e ↦ rw e
  ]
  texts-append c i (x ∷ ms) m = elim (Bool-cases (same_message c i x)) [
    | inl e ↦ rw (e, texts-append c i ms m) (sym (append_assoc (unless_empty x.text) _ _))
    | inr e ↦ rw e (texts-append c i ms m)
  ]

  texts_of_none :
      (c i : ℕ) (ms : List (EgcMessage D)) → any_segment c i ms ≡ false → texts c i ms ≡ []
  unfolding texts any_segment
  texts_of_none c i [] e = refl
  texts_of_none c i (m ∷ ms) e = ground (arith, texts_of_none c i ms)

joined_from-append :
    (acc : Text) (ts : List Text) (t : Text)
    → joined_from acc (ts ++ t ∷ []) ≡ joined_from acc ts ++ 10 ∷ t
unfolding joined_from
joined_from-append acc [] t = refl
joined_from-append acc (s ∷ ts) t = joined_from-append (acc ++ 10 ∷ s) ts t

joined_from_cons :
    (b : ℕ) (acc : Text) (ts : List Text) → is_empty (joined_from (b ∷ acc) ts) ≡ false
unfolding joined_from
joined_from_cons b acc [] = refl
joined_from_cons b acc (s ∷ ts) = joined_from_cons b (acc ++ 10 ∷ s) ts

pub joined_new : (t : Text) → joined (unless_empty t) ≡ t
unfolding joined unless_empty
joined_new [] = refl
joined_new (b ∷ t) = refl

-- All the texts of a list are not empty.
abbrev pub Full : List Text → Type 0
Full [] = Unit {0}
Full (t ∷ ts) = (is_empty t ≡ false) × Full ts

pub join_text-joined :
    (ts : List Text) (new : Text)
    → Full ts
    → join_text (joined ts) new ≡ joined (ts ++ unless_empty new)
unfolding join_text joined unless_empty
join_text-joined ts [] f = ap joined (sym (append-nil ts))
join_text-joined [] (b ∷ t) f = refl
join_text-joined ([] ∷ ts) (b ∷ t) f = cc (f.0)
join_text-joined ((a ∷ s) ∷ ts) (b ∷ t) f =
    rw (joined_from_cons a s ts) (sym (joined_from-append (a ∷ s) ts (b ∷ t)))

unless_empty-Full : (t : Text) → Full (unless_empty t)
unfolding unless_empty
unless_empty-Full [] = tt
unless_empty-Full (b ∷ t) = (refl, tt)

Full-append : (ts us : List Text) → Full ts → Full us → Full (ts ++ us)
Full-append [] us f g = g
Full-append (t ∷ ts) us f g = (f.0, Full-append ts us f.1 g)

module _ {D : Type 0} where
  pub texts-Full : (c i : ℕ) (ms : List (EgcMessage D)) → Full (texts c i ms)
  unfolding texts
  texts-Full c i [] = tt
  texts-Full c i (m ∷ ms) = elim (Bool-cases (same_message c i m)) [
    | inl e ↦ rw e (
        Full-append (unless_empty m.text) (texts c i ms) (unless_empty-Full m.text)
          (texts-Full c i ms))
    | inr e ↦ rw e (texts-Full c i ms)
  ]

  -- The log shows the segments that were added; `told` are these.
  pub record Shows (l : EgcLog D) (told : List (EgcMessage D)) : Type 0 where
    pub text : (c i : ℕ) → text_of (entry c i l.msgs) ≡ expected c i told
    pub size : length l.msgs ≤ length told

  pub expected-own :
      (c i : ℕ) (told : List (EgcMessage D)) (m : EgcMessage D)
      → same_message c i m ≡ true
      → expected c i (told ++ m ∷ []) ≡ some (joined (texts c i told ++ unless_empty m.text))
  unfolding expected
  expected-own c i told m e = rw (any_segment-append c i told m, texts-append c i told m, e)

  pub expected-other :
      (c i : ℕ) (told : List (EgcMessage D)) (m : EgcMessage D)
      → same_message c i m ≡ false
      → expected c i (told ++ m ∷ []) ≡ expected c i told
  unfolding expected
  expected-other c i told m e =
      rw (any_segment-append c i told m, texts-append c i told m, e, append-nil)

  -- The text of an entry that is there, and that of one that is not.
  pub shown_text :
      (c i : ℕ) (o : Option (EgcMessage D)) (told : List (EgcMessage D)) {x : EgcMessage D}
      → text_of o ≡ expected c i told
      → o ≡ some x
      → x.text ≡ joined (texts c i told)
  unfolding text_of expected
  shown_text c i o told e was = ground arith

  pub no_texts :
      (c i : ℕ) (o : Option (EgcMessage D)) (told : List (EgcMessage D))
      → text_of o ≡ expected c i told
      → o ≡ none
      → texts c i told ≡ []
  unfolding text_of expected
  no_texts c i o told e was = texts_of_none c i told (ground arith)
