-- ===== src/Dsp/IqRing/History.antt =====
-- Every sequence of calls of the ring of src/dsp/iq_ring.h, against the samples pushed so far.
use inmar_scope.Prelude.{
  ℕ, zero, suc, ◌+◌, ◌-◌, ◌*◌, ◌%◌, ◌≤◌, ◌<◌, ◌≡◌, refl, ap, ◌∙◌, List, [], ◌∷◌, ◌++◌, Option, none,
  some, arith, ltb, ◌||◌, if◌then◌else◌, length, drop, length-append, length-replicate, Bool-cases,
  inl, inr, min,
}
use inmar_scope.Dsp.IqRing.{
  IqRing, size_mod, new, push_from, push_one, push, available, copy_from, latest, clear,
}
use inmar_scope.Dsp.IqRing.Refine.{Holds, samples, push_from-Holds, copy_from-drop, length-samples}

-- A call that changes the ring: a block with its number of samples, or `clear`.
pub data Call {ℓ} (A : Type ℓ) : Type ℓ where
  feed : List A → ℕ → Call A
  reset : Call A

-- All the samples that the calls push.
unfoldable pub pushed {ℓ} : {A : Type ℓ} → List (Call A) → ℕ
pushed [] = 0
pushed (feed iq n ∷ calls) = n + pushed calls
pushed (reset ∷ calls) = pushed calls

module _ {ℓ} {A : Type ℓ} (zero_float : A) where
  pub record Refines (r : IqRing A) (hist : List (A × A)) : Type ℓ where
    pub holds : Holds zero_float r hist
    pub total_eq : r.total ≡ length hist

  unfoldable pub run : IqRing A → List (Call A) → IqRing A
  run r [] = r
  run r (feed iq n ∷ calls) = run (push zero_float r iq n) calls
  run r (reset ∷ calls) = run (clear zero_float r) calls

  -- The samples pushed since the last `clear`.
  unfoldable pub history : List (A × A) → List (Call A) → List (A × A)
  history hist [] = hist
  history hist (feed iq n ∷ calls) = history (hist ++ samples zero_float n 0 iq) calls
  history hist (reset ∷ calls) = history [] calls

  empty-Refines :
      (r : IqRing A)
      → 0 < r.cap
      → length r.buf ≡ r.cap * 2
      → r.write ≡ 0
      → r.total ≡ 0
      → Refines r []
  empty-Refines r pos len w t = record {
    holds = record {
      cap_pos = pos;
      buf_len = len;
      write_eq = w;
      short = omega arith;
      cell = λ k lt _. absurd (omega arith);
    };
    total_eq = t;
  }

  pub new-Refines : (capacity : ℕ) → 0 < capacity → Refines (new zero_float capacity) []
  unfolding new
  new-Refines capacity pos =
      empty-Refines (new zero_float capacity) pos (length-replicate (capacity * 2) zero_float) refl
        refl

  pub clear-Refines :
      {r : IqRing A} {hist : List (A × A)} → Refines r hist → Refines (clear zero_float r) []
  unfolding clear
  clear-Refines {r} v =
      empty-Refines (clear zero_float r) v.holds.cap_pos (length-replicate (r.cap * 2) zero_float)
        refl refl

  with_total-Holds :
      {r : IqRing A} {hist : List (A × A)} (t : ℕ)
      → Holds zero_float r hist
      → Holds zero_float (record r { total = t }) hist
  with_total-Holds t v = record {
    cap_pos = v.cap_pos;
    buf_len = v.buf_len;
    write_eq = v.write_eq;
    short = v.short;
    cell = v.cell;
  }

  pub push-Refines :
      (iq : List A) (n : ℕ) {r : IqRing A} {hist : List (A × A)}
      → Refines r hist
      → length hist + n < size_mod
      → Refines (push zero_float r iq n) (hist ++ samples zero_float n 0 iq)
  unfolding push
  push-Refines iq n {r} {hist} v fits = record {
    holds =
        with_total-Holds ((r.total + n) % size_mod)
          (push_from-Holds zero_float n 0 iq v.holds fits);
    total_eq = omega (
      arith,
      v.total_eq,
      length-append {ℓ} hist (samples zero_float n 0 iq),
      length-samples zero_float n 0 iq,
    );
  }

  pub run-Refines :
      (calls : List (Call A)) {r : IqRing A} {hist : List (A × A)}
      → Refines r hist
      → length hist + pushed calls < size_mod
      → Refines (run r calls) (history hist calls)
  unfolding run history pushed
  run-Refines [] v fits = v
  run-Refines (feed iq n ∷ calls) {r} {hist} v fits =
      run-Refines calls (push-Refines iq n v (omega arith)) (
        omega (
          arith,
          length-append {ℓ} hist (samples zero_float n 0 iq),
          length-samples zero_float n 0 iq,
        ))
  run-Refines (reset ∷ calls) v fits = run-Refines calls (clear-Refines v) (omega arith)

  copied :
      (n : ℕ) {r : IqRing A} {hist : List (A × A)}
      → Refines r hist
      → n ≤ r.cap
      → n ≤ length hist
      → copy_from zero_float n 0 ((r.write + size_mod - n) % size_mod) r
        ≡ drop (length hist - n) hist
  copied n {r} {hist} v in_cap in_hist =
      let start : (r.write + size_mod - n) % size_mod ≡ length hist - n =
        omega (arith, v.holds.write_eq, v.holds.short) in
      let from : length hist - n + 0 ≡ length hist - n = omega arith in
      rw start (
        copy_from-drop zero_float n 0 (length hist - n) v.holds (omega arith) (omega arith)
        ∙ ap (λ (k : ℕ). drop k hist) from)

  -- The result of `latest` for a history: the last `n` samples, if so many are at hand.
  unfoldable pub last_samples : ℕ → List (A × A) → ℕ → Option (List (A × A))
  last_samples cap hist n =
      if ltb cap n || ltb (length hist) n then none else some (drop (length hist - n) hist)

  pub latest_of_Refines :
      (n : ℕ) {r : IqRing A} {hist : List (A × A)}
      → Refines r hist
      → latest zero_float r n ≡ last_samples r.cap hist n
  unfolding latest last_samples
  latest_of_Refines n {r} {hist} v =
      let out : List (A × A) = copy_from zero_float n 0 ((r.write + size_mod - n) % size_mod) r in
      ap (λ (t : ℕ). if ltb r.cap n || ltb t n then none else some out) v.total_eq
      ∙ elim (Bool-cases (ltb r.cap n || ltb (length hist) n)) [
        | inl short ↦ rw short
        | inr enough ↦ rw enough (ap some (copied n v (ground arith) (ground arith)))
      ]

  cap-push_from :
      (left i : ℕ) (iq : List A) (r : IqRing A) → (push_from zero_float left i iq r).cap ≡ r.cap
  unfolding push_from push_one
  cap-push_from zero i iq r = refl
  cap-push_from (suc left) i iq r = cap-push_from left (i + 1) iq _

  pub cap-run : (calls : List (Call A)) (r : IqRing A) → (run r calls).cap ≡ r.cap
  unfolding run push clear
  cap-run [] r = refl
  cap-run (feed iq n ∷ calls) r = cap-run calls _ ∙ cap-push_from n 0 iq r
  cap-run (reset ∷ calls) r = cap-run calls _

  -- After any calls on a new ring of positive capacity that push fewer than 2^64 samples in all,
  -- `latest n` fails exactly when `n` exceeds the capacity or the number of samples pushed since
  -- the last `clear`, and else gives the last `n` of these, oldest first.
  pub latest-run :
      (capacity : ℕ) (calls : List (Call A)) (n : ℕ)
      → 0 < capacity
      → pushed calls < size_mod
      → latest zero_float (run (new zero_float capacity) calls) n
        ≡ last_samples capacity (history [] calls) n
  unfolding new
  latest-run capacity calls n pos fits =
      latest_of_Refines n (run-Refines calls (new-Refines capacity pos) (omega arith))
      ∙ ap (λ (c : ℕ). last_samples c (history [] calls) n)
          (cap-run calls (new zero_float capacity))

  -- After any calls on a new ring of positive capacity that push fewer than 2^64 samples in all,
  -- `available` is the number of samples pushed since the last `clear`, or the capacity if that is
  -- smaller.
  pub available-run :
      (capacity : ℕ) (calls : List (Call A))
      → 0 < capacity
      → pushed calls < size_mod
      → available zero_float (run (new zero_float capacity) calls)
        ≡ min (length (history [] calls)) capacity
  unfolding available new
  available-run capacity calls pos fits = ground (
    arith,
    (run-Refines calls (new-Refines capacity pos) (omega arith)).total_eq,
    cap-run calls (new zero_float capacity),
  )
