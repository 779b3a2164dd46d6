-- ===== src/Manager/Numbered.antt =====
-- The channel ids of a `DecoderManager` and the decoder that is added or removed: no id has two decoders.
use inmar_scope.Prelude.{
  ℕ, ◌+◌, ◌<◌, ◌≤◌, ◌≡◌, refl, ap, arith, List, Bool, false, ◌||◌, ◌==◌, if◌then◌else◌, Option,
  none, some, Bool-cases, inl, inr, is_empty,
}
use inmar_scope.Double.{Double}
use inmar_scope.Manager.{Decoder, Worker, DecoderManager, equip, new_decoder, set_decoder_recording}
use inmar_scope.Manager.Adding.{add_decoder, place_decoder}
use inmar_scope.Manager.Removing.{take_from_workers, after_removal}
use inmar_scope.Manager.Totals.{total, total-take_from_workers, total-place_decoder}
use inmar_scope.Manager.Holders.{holds_id, take_from_workers-none, take_from_workers_id}

module _ (F : Double) (B : Type 0) where
  open F use {Real, literal}

  -- No channel has two decoders, and the next number is free.
  pub record IsNumbered (m : DecoderManager F B) : Type 0 where
    pub unique : (j : ℕ) → total (holds_id j) m.workers ≤ 1
    pub fresh : (j : ℕ) → m.next_id ≤ j → total (holds_id j) m.workers ≡ 0

  -- A manager with no more decoders on any channel, and the same next number.
  pub fewer-IsNumbered :
      (m n : DecoderManager F B)
      → n.next_id ≡ m.next_id
      → ((j : ℕ) → total (holds_id j) n.workers ≤ total (holds_id j) m.workers)
      → IsNumbered m
      → IsNumbered n
  fewer-IsNumbered m n same less i = record {
    unique = λ j. omega (arith, less j, i.unique j);
    fresh = λ j later. omega (arith, less j, i.fresh j (omega (arith, later, same)));
  }

  pub same-IsNumbered :
      (m n : DecoderManager F B)
      → n.next_id ≡ m.next_id
      → ((j : ℕ) → total (holds_id j) n.workers ≡ total (holds_id j) m.workers)
      → IsNumbered m
      → IsNumbered n
  same-IsNumbered m n same e i = fewer-IsNumbered m n same (λ j. omega (arith, e j)) i

  pub equip-channel_id :
      (m : DecoderManager F B) (aes : ℕ) (d : Decoder Real)
      → (equip F B m aes d).channel_id ≡ d.channel_id
  unfolding equip set_decoder_recording
  equip-channel_id m aes d = ground arith

  -- The place where `addDecoder` puts its decoder has no part in the number of decoders.
  total-added :
      (m : DecoderManager F B) (freq : Real) (baud aes : ℕ) (place : Option (ℕ × ℕ)) (j : ℕ)
      → is_empty m.workers ≡ false
      → total
          (holds_id j)
          (place_decoder F B m (equip F B m aes (new_decoder F B freq baud m.next_id)) place)
        ≡ total (holds_id j) m.workers + (if m.next_id == j then 1 else 0)
  unfolding holds_id new_decoder
  total-added m freq baud aes place j h =
      let d = equip F B m aes (new_decoder F B freq baud m.next_id) in
      omega (
        arith,
        total-place_decoder F B (holds_id j) m d place h,
        ap {B = ℕ} (λ (i : ℕ). if i == j then 1 else 0)
            (equip-channel_id m aes (new_decoder F B freq baud m.next_id)),
      )

  -- `addDecoder` fails.
  abbrev pub is_idle : DecoderManager F B → Bool
  is_idle m = F.leq m.fs (literal 0 0) || is_empty m.workers

  pub total-add_decoder :
      (m : DecoderManager F B) (freq : Real) (baud aes j : ℕ)
      → is_idle m ≡ false
      → total (holds_id j) (add_decoder F B m freq baud aes).0.workers
        ≡ total (holds_id j) m.workers + (if m.next_id == j then 1 else 0)
  unfolding add_decoder
  total-add_decoder m freq baud aes j ready =
      rw ready (total-added m freq baud aes _ j (ground (arith, ready)))

  add_decoder-next_id :
      (m : DecoderManager F B) (freq : Real) (baud aes : ℕ)
      → is_idle m ≡ false
      → (add_decoder F B m freq baud aes).0.next_id ≡ m.next_id + 1
  unfolding add_decoder
  add_decoder-next_id m freq baud aes ready = rw ready refl

  pub add_decoder-IsNumbered :
      (m : DecoderManager F B) (freq : Real) (baud aes : ℕ)
      → IsNumbered m
      → IsNumbered (add_decoder F B m freq baud aes).0
  add_decoder-IsNumbered m freq baud aes i = elim (Bool-cases (is_idle m)) [
    | inl idle ↦ unfold add_decoder in rw idle i
    | inr ready ↦ record {
      unique =
          λ j. ground (arith, total-add_decoder m freq baud aes j ready, i.unique j, i.fresh j);
      fresh = λ j later.
          let above : m.next_id < j =
            omega (arith, later, add_decoder-next_id m freq baud aes ready) in
          ground (arith, total-add_decoder m freq baud aes j ready, i.fresh j (omega arith), above);
    }
  ]

  -- `removeDecoder` with the decoder that the loops have found, if any.
  pub total-remove_decoder :
      (m : DecoderManager F B) (id j : ℕ) (o : Option (Decoder Real × List (Worker Real B)))
      → take_from_workers id m.workers ≡ o
      → total (holds_id j) m.workers ≤ 1
      → total (holds_id j) (after_removal F B m id o).0.workers
        ≡ (if id == j then 0 else total (holds_id j) m.workers)
  unfolding after_removal holds_id
  total-remove_decoder m id j none e unique = ground (arith, take_from_workers-none id m.workers e)
  total-remove_decoder m id j (some (d, ws)) e unique = ground (
    arith,
    total-take_from_workers (holds_id j) id m.workers (d, ws) e,
    take_from_workers_id id m.workers (d, ws) e,
    unique,
  )
