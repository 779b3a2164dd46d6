-- ===== src/Manager/Holders.antt =====
-- The decoders with a given channel id, counted.
use inmar_scope.Prelude.{
  ℕ, ◌≡◌, refl, ap, arith, List, [], ◌∷◌, ◌==◌, if◌then◌else◌, none, some, Option-cases, inl, inr,
  ltb,
}
use inmar_scope.Manager.{Decoder, SubBand, Worker}
use inmar_scope.Manager.Removing.{take_decoder, take_from_subbands, take_from_workers}
use inmar_scope.Manager.Control.{all_of_subbands, all_of_workers, has_decoder, has_id}
use inmar_scope.Manager.Measure.{sum_of, Unseen, sum_of-append}
use inmar_scope.Manager.Totals.{total}
use inmar_scope.Manager.Runs.{Keeps}

unfoldable pub holds_id : {D : Type 0} → ℕ → Decoder D → ℕ
holds_id id d = if d.channel_id == id then 1 else 0

pub holds_id-Unseen :
    {D : Type 0} {g : Decoder D → Decoder D} (id : ℕ) → Keeps g → Unseen (holds_id id) g
unfolding holds_id
holds_id-Unseen id k d = ap (λ (i : ℕ). if i == id then 1 else 0) (k.same_id d)

-- The test for a channel, by the number of its decoders.
pub has_decoder-sum_of :
    {D : Type 0} (id : ℕ) (ds : List (Decoder D))
    → has_decoder (has_id id) ds ≡ ltb 0 (sum_of (holds_id id) ds)
unfolding has_decoder sum_of holds_id
has_decoder-sum_of id [] = refl
has_decoder-sum_of id (d ∷ ds) = ground (arith, has_decoder-sum_of id ds)

take_decoder-none :
    {D : Type 0} (id : ℕ) (ds : List (Decoder D))
    → take_decoder id ds ≡ none
    → sum_of (holds_id id) ds ≡ 0
unfolding take_decoder sum_of holds_id
take_decoder-none id [] e = refl
take_decoder-none id (d ∷ ds) e = elim (Option-cases (take_decoder id ds)) [
  | inl nothing ↦ ground (arith, nothing, take_decoder-none id ds nothing)
  | inr (x, found) ↦ ground (arith, found)
]

take_decoder_id :
    {D : Type 0} (id : ℕ) (ds : List (Decoder D)) (x : Decoder D × List (Decoder D))
    → take_decoder id ds ≡ some x
    → x.0.channel_id ≡ id
unfolding take_decoder
take_decoder_id id [] x e = ground arith
take_decoder_id id (d ∷ ds) x e = elim (Option-cases (take_decoder id ds)) [
  | inl nothing ↦ ground (arith, nothing)
  | inr (y, found) ↦ ground (arith, found, take_decoder_id id ds y found)
]

take_from_subbands-none :
    {D : Type 0} (id : ℕ) (sbs : List (SubBand D))
    → take_from_subbands id sbs ≡ none
    → sum_of (holds_id id) (all_of_subbands sbs) ≡ 0
unfolding take_from_subbands sum_of
take_from_subbands-none id [] e = refl
take_from_subbands-none id (sb ∷ sbs) e = elim (Option-cases (take_decoder id sb.decoders)) [
  | inr (x, here) ↦ ground (arith, here)
  | inl later ↦ elim (Option-cases (take_from_subbands id sbs)) [
    | inl nothing ↦ omega (
      arith,
      sum_of-append (holds_id id) sb.decoders (all_of_subbands sbs),
      take_decoder-none id sb.decoders later,
      take_from_subbands-none id sbs nothing,
    )
    | inr (x, found) ↦ ground (arith, later, found)
  ]
]

take_from_subbands_id :
    {D : Type 0} (id : ℕ) (sbs : List (SubBand D)) (x : Decoder D × List (SubBand D))
    → take_from_subbands id sbs ≡ some x
    → x.0.channel_id ≡ id
unfolding take_from_subbands
take_from_subbands_id id [] x e = ground arith
take_from_subbands_id id (sb ∷ sbs) x e = elim (Option-cases (take_decoder id sb.decoders)) [
  | inr (y, here) ↦ ground (arith, here, take_decoder_id id sb.decoders y here)
  | inl later ↦ elim (Option-cases (take_from_subbands id sbs)) [
    | inl nothing ↦ ground (arith, later, nothing)
    | inr (y, found) ↦ ground (arith, later, found, take_from_subbands_id id sbs y found)
  ]
]

pub take_from_workers-none :
    {D B : Type 0} (id : ℕ) (ws : List (Worker D B))
    → take_from_workers id ws ≡ none
    → total (holds_id id) ws ≡ 0
unfolding take_from_workers sum_of
take_from_workers-none id [] e = refl
take_from_workers-none id (w ∷ ws) e = elim (Option-cases (take_from_subbands id w.subbands)) [
  | inr (x, here) ↦ ground (arith, here)
  | inl later ↦ elim (Option-cases (take_from_workers id ws)) [
    | inl nothing ↦ omega (
      arith,
      sum_of-append (holds_id id) (all_of_subbands w.subbands) (all_of_workers ws),
      take_from_subbands-none id w.subbands later,
      take_from_workers-none id ws nothing,
    )
    | inr (x, found) ↦ ground (arith, later, found)
  ]
]

pub take_from_workers_id :
    {D B : Type 0} (id : ℕ) (ws : List (Worker D B)) (x : Decoder D × List (Worker D B))
    → take_from_workers id ws ≡ some x
    → x.0.channel_id ≡ id
unfolding take_from_workers
take_from_workers_id id [] x e = ground arith
take_from_workers_id id (w ∷ ws) x e = elim (Option-cases (take_from_subbands id w.subbands)) [
  | inr (y, here) ↦ ground (arith, here, take_from_subbands_id id w.subbands y here)
  | inl later ↦ elim (Option-cases (take_from_workers id ws)) [
    | inl nothing ↦ ground (arith, later, nothing)
    | inr (y, found) ↦ ground (arith, later, found, take_from_workers_id id ws y found)
  ]
]
