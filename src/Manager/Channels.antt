-- ===== src/Manager/Channels.antt =====
-- The channels of a `DecoderManager` as a set of numbers.
use inmar_scope.Prelude.{
  ℕ, ◌≡◌, refl, ap, ◌∙◌, arith, Bool, true, false, not, ◌&&◌, ◌||◌, ◌==◌, ltb, if◌then◌else◌,
  Option, none, some, if_true, Bool-cases, inl, inr,
}
use inmar_scope.Double.{Double}
use inmar_scope.Manager.{DecoderManager}
use inmar_scope.Manager.Adding.{add_decoder}
use inmar_scope.Manager.Removing.{remove_decoder}
use inmar_scope.Manager.Control.{all_of_workers, has_decoder, has_id, stop, remove_all}
use inmar_scope.Manager.Measure.{sum_of}
use inmar_scope.Manager.Totals.{total, total-clear_worker}
use inmar_scope.Manager.Holders.{holds_id, has_decoder-sum_of}
use inmar_scope.Manager.Runs.{Reach}
use inmar_scope.Manager.Numbered.{is_idle, total-add_decoder, total-remove_decoder}
use inmar_scope.Manager.Unique.{Reach-IsNumbered}

-- The second part of a conditional pair.
if_pair :
    {A C : Type 0} (b : Bool) (x y : A × C) → (if b then x else y).1 ≡ (if b then x.1 else y.1)
if_pair true x y = refl
if_pair false x y = refl

module _ (F : Double) (B : Type 0) where
  open F use {Real, literal}

  unfoldable pub is_open : ℕ → DecoderManager F B → Bool
  is_open id m = has_decoder (has_id id) (all_of_workers m.workers)

  is_open-total :
      (id : ℕ) (m : DecoderManager F B) → is_open id m ≡ ltb 0 (total (holds_id id) m.workers)
  unfolding is_open
  is_open-total id m = has_decoder-sum_of id (all_of_workers m.workers)

  add_decoder_idle :
      (m : DecoderManager F B) (freq : Real) (baud aes : ℕ)
      → is_idle F B m ≡ true
      → add_decoder F B m freq baud aes ≡ (m, none)
  unfolding add_decoder
  add_decoder_idle m freq baud aes idle = if_true (is_idle F B m) _ idle refl

  is_open-add_decoder :
      (m : DecoderManager F B) (freq : Real) (baud aes j : ℕ)
      → is_open j (add_decoder F B m freq baud aes).0
        ≡ (is_open j m || (not (is_idle F B m) && (m.next_id == j)))
  is_open-add_decoder m freq baud aes j = elim (Bool-cases (is_idle F B m)) [
    | inl idle ↦
        ap (λ (x : DecoderManager F B × Option ℕ). is_open j x.0)
          (add_decoder_idle m freq baud aes idle)
        ∙ ground (arith, idle)
    | inr ready ↦ ground (
      arith,
      ready,
      is_open-total j m,
      is_open-total j (add_decoder F B m freq baud aes).0,
      total-add_decoder F B m freq baud aes j ready,
    )
  ]

  -- In every state that a manager can reach, its open channels
  -- are a set and `nextId_` is not among them. `addDecoder` gives `nextId_` and adds it, unless the
  -- manager has no rate or no workers, when it gives -1 and adds none; `removeDecoder` takes one
  -- number out and leaves all others; `removeAll` and `stop` leave no channel.
  pub open_channels :
      {m : DecoderManager F B}
      → Reach F B m
      → (freq : Real) (baud aes id j : ℕ)
      → (is_open m.next_id m ≡ false)
        × ((add_decoder F B m freq baud aes).1 ≡ (if is_idle F B m then none else some m.next_id))
        × (is_open j (add_decoder F B m freq baud aes).0
            ≡ (is_open j m || (not (is_idle F B m) && (m.next_id == j))))
        × (is_open j (remove_decoder F B m id).0 ≡ (is_open j m && not (id == j)))
        × (is_open j (remove_all F B m) ≡ false)
        × (is_open j (stop F B m) ≡ false)
  unfolding remove_all stop remove_decoder sum_of
  open_channels {m} r freq baud aes id j =
      let i = Reach-IsNumbered F B r in
      (
        ground (arith, is_open-total m.next_id m, i.fresh m.next_id (omega arith)),
        unfold add_decoder in if_pair (is_idle F B m) _ _,
        is_open-add_decoder m freq baud aes j,
        ground (
          arith,
          is_open-total j m,
          is_open-total j (remove_decoder F B m id).0,
          total-remove_decoder F B m id j _ refl (i.unique j),
        ),
        ground
            (arith, is_open-total j (remove_all F B m), total-clear_worker (holds_id j) m.workers),
        ground (arith, is_open-total j (stop F B m)),
      )
