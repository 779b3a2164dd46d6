-- ===== src/Log/Egc/History.antt =====
-- The text that `EgcLog` shows for each message.
use inmar_scope.Prelude.{
  ℕ, ◌+◌, ◌≤◌, ◌<◌, ◌≡◌, refl, ap, sym, ◌∙◌, List, [], ◌∷◌, ◌++◌, none, some, true, false, arith,
  length, length-append, append-nil, append_assoc, Bool-cases, Option-cases, inl, inr,
}
use inmar_scope.Log.Bounded.{push_bounded}
use inmar_scope.Log.Types.{EgcMessage}
use inmar_scope.Log.Egc.{
  EgcLog, egc_max, same_message, join_text, join_segment, join_newest, egc_add,
}
use inmar_scope.Log.Egc.Segments.{
  entry, entry-append, key_of_same, join_newest-none, join_newest-Joined, Joined,
}
use inmar_scope.Log.Egc.Joining.{
  joined, unless_empty, texts, any_segment, expected, text_of, joined_new, join_text-joined,
  texts-Full, Shows, expected-own, expected-other, shown_text, no_texts,
}

module _ {D : Type 0} where
  text-join_segment : (x m : EgcMessage D) → (join_segment x m).text ≡ join_text x.text m.text
  unfolding join_segment
  text-join_segment x m = refl

  -- With room left nothing is dropped.
  push_bounded_room :
      (items : List (EgcMessage D)) (m : EgcMessage D)
      → length items < egc_max
      → push_bounded egc_max items m ≡ items ++ m ∷ []
  unfolding push_bounded
  push_bounded_room items m h = ground (arith, length-append {0} items (m ∷ []))

  -- The entry of a message with a further segment.
  text_found :
      (c i : ℕ) (xs ys told : List (EgcMessage D)) (m : EgcMessage D)
      → ((c i : ℕ) → text_of (entry c i xs) ≡ expected c i told)
      → Joined m xs ys
      → text_of (entry c i ys) ≡ expected c i (told ++ m ∷ [])
  unfolding text_of
  text_found c i xs ys told m shown j = elim (Bool-cases (same_message c i m)) [
    | inl own ↦
        let k = key_of_same c i m own in
        let old =
          shown_text m.channel_id m.message_id (entry m.channel_id m.message_id xs) told
            (shown m.channel_id m.message_id) j.was in
        let old' : j.old.text ≡ joined (texts c i told) = rw (k.0, k.1) old in
        rw (j.now c i, own)
          (ap some (
              text-join_segment j.old m
              ∙ ap (λ t. join_text t m.text) old'
              ∙ join_text-joined (texts c i told) m.text (texts-Full c i told))
            ∙ sym (expected-own c i told m own))
    | inr other ↦ rw (j.now c i, other) (shown c i ∙ sym (expected-other c i told m other))
  ]

  text_new :
      (c i : ℕ) (xs told : List (EgcMessage D)) (m : EgcMessage D)
      → ((c i : ℕ) → text_of (entry c i xs) ≡ expected c i told)
      → entry m.channel_id m.message_id xs ≡ none
      → text_of (entry c i (xs ++ m ∷ [])) ≡ expected c i (told ++ m ∷ [])
  unfolding text_of
  text_new c i xs told m shown missing = elim (Bool-cases (same_message c i m)) [
    | inl own ↦
        let k = key_of_same c i m own in
        let before =
          no_texts m.channel_id m.message_id (entry m.channel_id m.message_id xs) told
            (shown m.channel_id m.message_id) missing in
        let before' : texts c i told ≡ [] = rw (k.0, k.1) before in
        rw (entry-append c i xs m, own)
          (ap some (
              sym (joined_new m.text) ∙ ap (λ ts. joined (ts ++ unless_empty m.text)) (sym before'))
            ∙ sym (expected-own c i told m own))
    | inr other ↦
        rw (entry-append c i xs m, other) (shown c i ∙ sym (expected-other c i told m other))
  ]

  msgs_found :
      (now : D) (l : EgcLog D) (m : EgcMessage D) {ys : List (EgcMessage D)}
      → join_newest m l.msgs ≡ some ys
      → (egc_add now l m).0.msgs ≡ ys
  unfolding egc_add
  msgs_found now l m e = ground arith

  msgs_new :
      (now : D) (l : EgcLog D) (m : EgcMessage D)
      → join_newest m l.msgs ≡ none
      → length l.msgs < egc_max
      → (egc_add now l m).0.msgs ≡ l.msgs ++ m ∷ []
  unfolding egc_add
  msgs_new now l m e room = rw (e, egc_add) (push_bounded_room l.msgs m room)

  step_Shows :
      (now : D) (l : EgcLog D) (told : List (EgcMessage D)) (m : EgcMessage D)
      → Shows l told
      → length told < egc_max
      → Shows (egc_add now l m).0 (told ++ m ∷ [])
  step_Shows now l told m s room = elim (Option-cases (join_newest m l.msgs)) [
    | inl new ↦
        let is = msgs_new now l m new (omega (arith, s.size)) in
        record {
          text = λ c i. rw is (text_new c i l.msgs told m s.text (join_newest-none l.msgs m new));
          size = rw is (
              omega (
                arith,
                s.size,
                length-append {0} l.msgs (m ∷ []),
                length-append {0} told (m ∷ []),
              ));
        }
    | inr (ys, found) ↦
        let is = msgs_found now l m found in
        let j = join_newest-Joined l.msgs m found in
        record {
          text = λ c i. rw is (text_found c i l.msgs ys told m s.text j);
          size = rw is (omega (arith, s.size, j.size, length-append {0} told (m ∷ [])));
        }
  ]

  -- Segments added one after the other, each with the time of its call.
  unfoldable pub add_all : EgcLog D → List (D × EgcMessage D) → EgcLog D
  add_all l [] = l
  add_all l ((now, m) ∷ rest) = add_all (egc_add now l m).0 rest

  abbrev pub segments : List (D × EgcMessage D) → List (EgcMessage D)
  segments [] = []
  segments ((now, m) ∷ rest) = m ∷ segments rest

  add_all-Shows :
      (rest : List (D × EgcMessage D)) (l : EgcLog D) (told : List (EgcMessage D))
      → Shows l told
      → length told + length rest ≤ egc_max
      → Shows (add_all l rest) (told ++ segments rest)
  unfolding add_all
  add_all-Shows [] l told s h = rw append-nil s
  add_all-Shows ((now, m) ∷ rest) l told s h =
      let next =
        add_all-Shows rest (egc_add now l m).0 (told ++ m ∷ [])
          (step_Shows now l told m s (omega arith))
          (omega (arith, length-append {0} told (m ∷ []))) in
      rw (append_assoc told (m ∷ []) (segments rest)) at next

  abbrev pub empty_egc : EgcLog D
  empty_egc = record { msgs = []; archive = []; view_archive = false; count_ = 0; has_store = true }

  none_yet : Shows empty_egc []
  unfolding text_of entry expected any_segment
  none_yet = record { text = λ c i. refl; size = omega arith }

  -- After at most 2000 segments from an empty log, a message (a channel and a message number) has
  -- an entry exactly if a segment of it came, and the newest entry has for its text the texts of
  -- its segments that are not empty, in the order in which they came, with a line feed between two.
  pub add_all-text :
      (rest : List (D × EgcMessage D)) (c i : ℕ)
      → length rest ≤ egc_max
      → text_of (entry c i (add_all empty_egc rest).msgs) ≡ expected c i (segments rest)
  add_all-text rest c i h = (add_all-Shows rest empty_egc [] none_yet (omega arith)).text c i
