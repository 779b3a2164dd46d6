-- ===== src/Log/Messages/Refine.antt =====
-- `MessageLog` against the messages that were added.
use inmar_scope.Prelude.{
  ℕ, ◌+◌, ◌≡◌, refl, ap, sym, ◌∙◌, List, [], ◌∷◌, ◌++◌, Bool, true, false, arith, if◌then◌else◌,
  length, append-nil, append_assoc,
}
use inmar_scope.Log.Bounded.{push_bounded, last_of, push_bounded-last_of, last_of-append}
use inmar_scope.Log.Types.{DecodedMessage, StoreCall, store_acars, store_su}
use inmar_scope.Log.Messages.{
  MessageLog, Op, add_op, acars_op, su_op, clear_op, archive_op, live_op, message_max, u64, step,
  run, snapshot, count,
}

-- The messages added since the last `clear`, the archive that is on view, and the number of
-- messages added in all.
pub record View (D : Type 0) : Type 0 where
  pub live : List (DecodedMessage D)
  pub shown : List (DecodedMessage D)
  pub archived : Bool
  pub added : ℕ

module _ {D : Type 0} where
  unfoldable pub view_step : View D → Op D → View D
  view_step v (add_op m) = record v { live = v.live ++ m ∷ []; added = v.added + 1 }
  view_step v (acars_op m baud) = record v { live = v.live ++ m ∷ []; added = v.added + 1 }
  view_step v (su_op m baud) = record v { live = v.live ++ m ∷ []; added = v.added + 1 }
  view_step v clear_op = record v { live = []; shown = []; archived = false }
  view_step v (archive_op items) = record v { shown = items; archived = true }
  view_step v live_op = record v { shown = []; archived = false }

  unfoldable pub view : View D → List (Op D) → View D
  view v [] = v
  view v (o ∷ os) = view (view_step v o) os

  -- The calls of the store for a list of methods.
  unfoldable pub stored : List (Op D) → List (StoreCall D)
  stored [] = []
  stored (acars_op m baud ∷ os) = store_acars m baud ∷ stored os
  stored (su_op m baud ∷ os) = store_su m baud ∷ stored os
  stored (add_op m ∷ os) = stored os
  stored (clear_op ∷ os) = stored os
  stored (archive_op items ∷ os) = stored os
  stored (live_op ∷ os) = stored os

  pub record Refines (l : MessageLog D) (v : View D) : Type 0 where
    pub msgs_eq : l.msgs ≡ last_of message_max v.live
    pub archive_eq : l.archive ≡ v.shown
    pub view_eq : l.view_archive ≡ v.archived
    pub count_eq : l.count_ ≡ u64 v.added

  pushed :
      (live items : List (DecodedMessage D)) (m : DecodedMessage D)
      → items ≡ last_of message_max live
      → push_bounded message_max items m ≡ last_of message_max (live ++ m ∷ [])
  pushed live items m e =
      push_bounded-last_of message_max items m
      ∙ ap (λ l. last_of message_max (l ++ m ∷ [])) e
      ∙ last_of-append message_max live (m ∷ [])

  step-Refines :
      (l : MessageLog D) (calls : List (StoreCall D)) (o : Op D) {v : View D}
      → Refines l v
      → Refines (step (l, calls) o).0 (view_step v o)
  unfolding step view_step
  step-Refines l calls (add_op m) {v} r = record {
    msgs_eq = pushed v.live l.msgs m r.msgs_eq;
    archive_eq = r.archive_eq;
    view_eq = r.view_eq;
    count_eq = omega (arith, r.count_eq);
  }
  step-Refines l calls (acars_op m baud) {v} r = record {
    msgs_eq = pushed v.live l.msgs m r.msgs_eq;
    archive_eq = r.archive_eq;
    view_eq = r.view_eq;
    count_eq = omega (arith, r.count_eq);
  }
  step-Refines l calls (su_op m baud) {v} r = record {
    msgs_eq = pushed v.live l.msgs m r.msgs_eq;
    archive_eq = r.archive_eq;
    view_eq = r.view_eq;
    count_eq = omega (arith, r.count_eq);
  }
  step-Refines l calls clear_op r = record {
    msgs_eq = refl;
    archive_eq = refl;
    view_eq = refl;
    count_eq = r.count_eq;
  }
  step-Refines l calls (archive_op items) r = record {
    msgs_eq = r.msgs_eq;
    archive_eq = refl;
    view_eq = refl;
    count_eq = r.count_eq;
  }
  step-Refines l calls live_op r = record {
    msgs_eq = r.msgs_eq;
    archive_eq = refl;
    view_eq = refl;
    count_eq = r.count_eq;
  }

  step-calls :
      (l : MessageLog D) (calls : List (StoreCall D)) (o : Op D)
      → l.has_store ≡ true
      → ((step (l, calls) o).1 ≡ calls ++ stored (o ∷ []))
        × ((step (l, calls) o).0.has_store ≡ true)
  unfolding step stored
  step-calls l calls (add_op m) e = (sym (append-nil calls), e)
  step-calls l calls (acars_op m baud) e = (rw e, e)
  step-calls l calls (su_op m baud) e = (rw e, e)
  step-calls l calls clear_op e = (sym (append-nil calls), e)
  step-calls l calls (archive_op items) e = (sym (append-nil calls), e)
  step-calls l calls live_op e = (sym (append-nil calls), e)

  stored-cons : (o : Op D) (os : List (Op D)) → stored (o ∷ os) ≡ stored (o ∷ []) ++ stored os
  unfolding stored
  stored-cons (add_op m) os = refl
  stored-cons (acars_op m baud) os = refl
  stored-cons (su_op m baud) os = refl
  stored-cons clear_op os = refl
  stored-cons (archive_op items) os = refl
  stored-cons live_op os = refl

  run-Refines :
      (os : List (Op D)) (l : MessageLog D) (calls : List (StoreCall D)) {v : View D}
      → Refines l v
      → Refines (run (l, calls) os).0 (view v os)
  unfolding run view
  run-Refines [] l calls r = r
  run-Refines (o ∷ os) l calls r =
      run-Refines os (step (l, calls) o).0 (step (l, calls) o).1 (step-Refines l calls o r)

  run-calls :
      (os : List (Op D)) (l : MessageLog D) (calls : List (StoreCall D))
      → l.has_store ≡ true
      → (run (l, calls) os).1 ≡ calls ++ stored os
  unfolding run stored
  run-calls [] l calls e = sym (append-nil calls)
  run-calls (o ∷ os) l calls e =
      let s = step-calls l calls o e in
      run-calls os (step (l, calls) o).0 (step (l, calls) o).1 s.1
      ∙ ap (λ c. c ++ stored os) s.0
      ∙ append_assoc calls (stored (o ∷ [])) (stored os)
      ∙ ap (λ c. calls ++ c) (sym (stored-cons o os))

  -- The log as it is made, with a store.
  abbrev pub empty : MessageLog D
  empty = record { msgs = []; archive = []; view_archive = false; count_ = 0; has_store = true }

  abbrev pub nothing : View D
  nothing = record { live = []; shown = []; archived = false; added = 0 }

  -- After any sequence of methods on a new log with a store the snapshot is the archive if one is on view, and else the
  -- newest 2000 of the messages added since the last `clear`; the count is the size of the
  -- archive, or the number of messages ever added modulo 2^64; the message store has got each
  -- ACARS message and each signal unit once, in order.
  pub run_lem :
      (os : List (Op D))
      → let v = view nothing os in
        let r = run (empty, []) os in
        (snapshot r.0 ≡ (if v.archived then v.shown else last_of message_max v.live))
        × (count r.0 ≡ (if v.archived then length v.shown else u64 v.added))
        × (r.1 ≡ stored os)
  unfolding snapshot count
  run_lem os =
      let f : Refines (run (empty, []) os).0 (view nothing os) =
        run-Refines os empty []
          (record { msgs_eq = refl; archive_eq = refl; view_eq = refl; count_eq = refl }) in
      (
        rw (f.view_eq, f.archive_eq, f.msgs_eq),
        rw (f.view_eq, f.archive_eq, f.count_eq),
        run-calls os empty [] refl,
      )
