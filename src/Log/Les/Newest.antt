-- ===== src/Log/Les/Newest.antt =====
-- `LesLog` against the messages that were added.
use inmar_scope.Prelude.{
  ℕ, suc, ◌+◌, ◌≡◌, refl, ap, ◌∙◌, List, [], ◌∷◌, ◌++◌, true, false, arith, length, append-nil,
  append_assoc,
}
use mathlib.Core.Path.{ap₂}
use inmar_scope.Log.Bounded.{push_bounded, push_all, push_all-last_of, last_of}
use inmar_scope.Log.Types.{LesMessage, StoreCall, store_les}
use inmar_scope.Log.Messages.{u64}
use inmar_scope.Log.Les.{
  LesLog, les_max, les_add, les_snapshot, les_count, les_set_archive, les_clear_archive,
}

module _ {D : Type 0} where
  -- Messages with the time at which each is added, and the calls of the store.
  unfoldable pub les_add_all :
      LesLog D × List (StoreCall D) → List (D × LesMessage D) → LesLog D × List (StoreCall D)
  les_add_all s [] = s
  les_add_all (l, calls) ((now, m) ∷ ms) =
      let (l', more) = les_add now l m in les_add_all (l', calls ++ more) ms

  unfoldable pub messages : List (D × LesMessage D) → List (LesMessage D)
  messages [] = []
  messages ((now, m) ∷ ms) = m ∷ messages ms

  unfoldable pub stored : List (D × LesMessage D) → List (StoreCall D)
  stored [] = []
  stored ((now, m) ∷ ms) = store_les now m ∷ stored ms

  -- What a log holds.
  abbrev pub log_of : List (LesMessage D) → List (LesMessage D) → ℕ → LesLog D
  log_of items shown n = record {
    msgs = items;
    archive = shown;
    view_archive = false;
    count_ = n;
    has_store = true;
  }

  les_add_all_lem :
      (ms : List (D × LesMessage D)) (items shown : List (LesMessage D)) (n : ℕ)
      (calls : List (StoreCall D))
      → les_add_all (log_of items shown (u64 n), calls) ms ≡ (
        log_of (push_all les_max items (messages ms)) shown (u64 (n + length ms)),
        calls ++ stored ms,
      )
  unfolding les_add_all messages stored les_add push_all
  les_add_all_lem [] items shown n calls =
      let e : n ≡ n + 0 = omega arith in
      rw append-nil (ap (λ (k : ℕ). (log_of items shown (u64 k), calls)) e)
  les_add_all_lem ((now, m) ∷ ms) items shown n calls =
      let items' = push_bounded les_max items m in
      let calls' = calls ++ store_les now m ∷ [] in
      let one_more : u64 (u64 n + 1) ≡ u64 (n + 1) = omega arith in
      let total : n + 1 + length ms ≡ n + suc (length ms) = omega arith in
      ap (λ (k : ℕ). les_add_all (log_of items' shown k, calls') ms) one_more
      ∙ les_add_all_lem ms items' shown (n + 1) calls'
      ∙ ap₂ (λ (k : ℕ) cs. (log_of (push_all les_max items' (messages ms)) shown (u64 k), cs)) total
          (append_assoc calls (store_les now m ∷ []) (stored ms))

  -- The log as it is made, with a store.
  abbrev pub no_messages : LesLog D
  no_messages = log_of [] [] 0

  -- After any messages on a new log with a store the snapshot is the newest 2000 of them, the count
  -- their number modulo 2^64, and the store has got each once, in order; after `setArchive` the
  -- snapshot is the archive, and after `setArchive` and `clearArchive` again the newest messages.
  pub les_add_all-newest :
      (ms : List (D × LesMessage D)) (shown : List (LesMessage D))
      → let r = les_add_all (no_messages, []) ms in
        let live = last_of les_max (messages ms) in
        (les_snapshot r.0 ≡ live)
        × (les_count r.0 ≡ u64 (length ms))
        × (r.1 ≡ stored ms)
        × (les_snapshot (les_set_archive r.0 shown) ≡ shown)
        × (les_snapshot (les_clear_archive (les_set_archive r.0 shown)) ≡ live)
  unfolding les_snapshot les_count les_set_archive les_clear_archive
  les_add_all-newest ms shown =
      let e = les_add_all_lem ms [] [] 0 [] in
      let newest = push_all-last_of les_max [] (messages ms) (omega arith) in
      let n : 0 + length ms ≡ length ms = omega arith in
      rw (e, newest, n) (refl, refl, refl, refl, refl)
