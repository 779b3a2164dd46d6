-- ===== src/Manager/Queues.antt =====
-- The queues of the workers.
use inmar_scope.Prelude.{
  ℕ, ◌+◌, ◌≤◌, ◌≡◌, refl, arith, List, [], ◌∷◌, map, ◌==◌, leb, if◌then◌else◌, length,
  length-append,
}
use inmar_scope.Manager.{Worker}
use inmar_scope.Manager.Control.{max_queue, push_block, feed_worker, dropped}

length-push_block :
    {B : Type 0} (q : List B) (b : B)
    → length (push_block q b) + (if leb max_queue (length q) then 1 else 0) ≡ length q + 1
unfolding push_block
length-push_block [] b = refl
length-push_block (x ∷ q) b =
    ground (arith, length-append q (b ∷ []), length-append (x ∷ q) (b ∷ []))

module _ {D B : Type 0} where
  abbrev pub AllShort : List (Worker D B) → Type 0
  AllShort [] = Unit {0}
  AllShort (w ∷ ws) = (length w.queue ≤ max_queue) × AllShort ws

  -- The blocks in all queues, and the workers that have decoders.
  unfoldable pub queued : List (Worker D B) → ℕ
  queued [] = 0
  queued (w ∷ ws) = length w.queue + queued ws

  unfoldable pub listening : List (Worker D B) → ℕ
  listening [] = 0
  listening (w ∷ ws) = (if w.count == 0 then 0 else 1) + listening ws

  -- When `feed` finds no queue longer than 192 blocks, it
  -- leaves none that is longer, and the blocks queued then, with those that it drops, are those
  -- queued before and one for each worker that has decoders.
  pub feed_worker-queued :
      (b : B) (ws : List (Worker D B))
      → AllShort ws
      → AllShort (map (feed_worker b) ws)
        × (queued (map (feed_worker b) ws) + dropped ws ≡ queued ws + listening ws)
  unfolding feed_worker queued listening dropped
  feed_worker-queued b [] h = (tt, refl)
  feed_worker-queued b (w ∷ ws) h =
      let rest = feed_worker-queued b ws h.1 in
      (
        (ground (arith, length-push_block w.queue b), rest.0),
        ground (arith, length-push_block w.queue b, rest.1),
      )
