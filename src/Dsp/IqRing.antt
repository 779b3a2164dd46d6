-- ===== src/Dsp/IqRing.antt =====
-- The ring buffer of src/dsp/iq_ring.h. A float is moved and never computed with, so the type of
-- floats is a parameter, with the value of `0.0f`. `size_t` has 64 bits. The mutex makes each
-- method one step.
pub mod Refine
pub mod History
mod Tests
use inmar_scope.Prelude.{
  ℕ, zero, suc, ◌+◌, ◌-◌, ◌*◌, ◌%◌, ◌^◌, List, [], ◌∷◌, Option, none, some, ◌||◌, ltb,
  if◌then◌else◌, get_or, set, replicate,
}

pub record IqRing {ℓ} (A : Type ℓ) : Type ℓ where
  pub cap : ℕ
  pub buf : List A
  pub write : ℕ
  pub total : ℕ

abbrev pub size_mod : ℕ
size_mod = 2 ^ 64

module _ {ℓ} {A : Type ℓ} (zero_float : A) where
  -- The constructor.
  pub new : ℕ → IqRing A
  new capacity = record {
    cap = capacity;
    buf = replicate (capacity * 2) zero_float;
    write = 0;
    total = 0;
  }

  -- One round of the loop of `push`.
  unfoldable pub push_one : IqRing A → A → A → IqRing A
  push_one r re im =
      let w = r.write % r.cap * 2 in
      record r { buf = set (set r.buf w re) (w + 1) im; write = (r.write + 1) % size_mod }

  -- The loop of `push` from round `i`, with `left` rounds to go.
  unfoldable pub push_from : ℕ → ℕ → List A → IqRing A → IqRing A
  push_from zero i iq r = r
  push_from (suc left) i iq r =
      push_from left (i + 1) iq
        (push_one r (get_or iq (i * 2) zero_float) (get_or iq (i * 2 + 1) zero_float))

  pub push : IqRing A → List A → ℕ → IqRing A
  push r iq n = record (push_from n 0 iq r) { total = (r.total + n) % size_mod }

  pub available : IqRing A → ℕ
  available r = if ltb r.total r.cap then r.total else r.cap

  -- The loop of `latest` from round `i`, with `left` rounds to go.
  unfoldable pub copy_from : ℕ → ℕ → ℕ → IqRing A → List (A × A)
  copy_from zero i start r = []
  copy_from (suc left) i start r =
      let idx = (start + i) % size_mod % r.cap * 2 in
      (get_or r.buf idx zero_float, get_or r.buf (idx + 1) zero_float)
      ∷ copy_from left (i + 1) start r

  -- `none` is the result `false`; `some` carries what was written to `out`.
  pub latest : IqRing A → ℕ → Option (List (A × A))
  latest r n =
      if ltb r.cap n || ltb r.total n
      then none
      else some (copy_from n 0 ((r.write + size_mod - n) % size_mod) r)

  pub clear : IqRing A → IqRing A
  clear r = record r { buf = replicate (r.cap * 2) zero_float; write = 0; total = 0 }
