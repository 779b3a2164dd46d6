-- ===== src/Manager/Tests.antt =====
-- `DecoderManager` with two decoders on two workers.
use inmar_scope.Prelude.{
  if◌then◌else◌, some, ℕ, ◌+◌, ◌≡◌, refl, List, [], ◌∷◌, map, none, false, arith, not, ◌&&◌, ◌||◌,
  ◌==◌, replicate,
}
use inmar_scope.Double.{scaled}
use inmar_scope.Dsp.Ddc.{output_rate, stage_factors, total_decimation, small_factors}
use inmar_scope.Manager.{DecoderManager, Worker, decoder_weight}
use inmar_scope.Manager.Adding.{
  add_decoder, place_decoder, scan_workers, scan_subbands, consider, offered_load, is_place,
  join_subband, create_subband, create_on_lightest, lightest, new_subband,
}
use inmar_scope.Manager.Removing.{remove_decoder}
use inmar_scope.Manager.Control.{
  configure, start, worker_total, remove_all, stop, feed_worker, dropped, new_worker,
}
use inmar_scope.Manager.Monitor.{decoder_count, total_count, subband_count, total_subbands}
use inmar_scope.Manager.Runs.{
  new_manager, Reach, initial, next, configured, started, added, Reach-AllCounted,
}
use inmar_scope.Manager.Counts.{AllCounted}
use inmar_scope.Manager.Numbered.{is_idle}
use inmar_scope.Manager.Channels.{is_open, open_channels}
use inmar_scope.Manager.Queues.{queued, listening, feed_worker-queued, AllShort}

-- A receiver of 2.4 MHz around 1545 MHz; the blocks are numbers.
abbrev tuned_manager : DecoderManager scaled ℕ
tuned_manager =
    start scaled ℕ
      (configure scaled ℕ (new_manager scaled ℕ) 2_400_000_000_000 1_545_000_000_000_000) 4

abbrev one_voice : DecoderManager scaled ℕ
one_voice = (add_decoder scaled ℕ tuned_manager 1_545_100_000_000_000 8400 7).0

abbrev two_channels : DecoderManager scaled ℕ
two_channels = (add_decoder scaled ℕ one_voice 1_545_150_000_000_000 600 0).0

two_channels-Reach : Reach scaled ℕ two_channels
two_channels-Reach =
    next
      (next (next (next initial (configured _ _ _)) (started _ 4))
        (added _ 1_545_100_000_000_000 8400 7))
      (added _ 1_545_150_000_000_000 600 0)

-- Both decoders are within 0.4 times the rate of one sub-band.
one_subband : (decoder_count scaled ℕ two_channels ≡ 2) × (subband_count scaled ℕ two_channels ≡ 1)
unfolding output_rate stage_factors total_decimation small_factors configure start worker_total
    add_decoder place_decoder scan_workers scan_subbands consider offered_load is_place join_subband
    create_subband create_on_lightest lightest new_subband decoder_count total_count subband_count
    total_subbands decoder_weight
one_subband = (refl, refl)

-- `removeAll` leaves the weights of the decoders that it removes.
weight_left : map (λ w. w.weight) (remove_all scaled ℕ two_channels).workers ≡ 5 ∷ 0 ∷ 0 ∷ 0 ∷ []
unfolding output_rate stage_factors total_decimation small_factors configure start worker_total
    add_decoder place_decoder scan_workers scan_subbands consider offered_load is_place join_subband
    create_subband create_on_lightest lightest new_subband decoder_weight remove_all
weight_left = refl

Reach-AllCounted_example : AllCounted two_channels.workers
Reach-AllCounted_example = Reach-AllCounted scaled ℕ two_channels-Reach

open_channels_example :
    (is_open scaled ℕ two_channels.next_id two_channels ≡ false)
    × ((add_decoder scaled ℕ two_channels 1_546_000_000_000_000 1200 0).1
        ≡ (if is_idle scaled ℕ two_channels then none else some two_channels.next_id))
    × (is_open scaled ℕ 2 (add_decoder scaled ℕ two_channels 1_546_000_000_000_000 1200 0).0 ≡ (
        is_open scaled ℕ 2 two_channels
        || (not (is_idle scaled ℕ two_channels) && (two_channels.next_id == 2))))
    × (is_open scaled ℕ 2 (remove_decoder scaled ℕ two_channels 1).0
        ≡ (is_open scaled ℕ 2 two_channels && not (1 == 2)))
    × (is_open scaled ℕ 2 (remove_all scaled ℕ two_channels) ≡ false)
    × (is_open scaled ℕ 2 (stop scaled ℕ two_channels) ≡ false)
open_channels_example = open_channels scaled ℕ two_channels-Reach 1_546_000_000_000_000 1200 0 1 2

abbrev idle_and_busy : List (Worker ℕ ℕ)
idle_and_busy =
    new_worker ∷ (record { queue = replicate 192 5; subbands = []; count = 2; weight = 3 }) ∷ []

feed_worker-queued_example :
    AllShort (map (feed_worker 9) idle_and_busy)
    × (queued (map (feed_worker 9) idle_and_busy) + dropped idle_and_busy
        ≡ queued idle_and_busy + listening idle_and_busy)
feed_worker-queued_example = feed_worker-queued 9 idle_and_busy (omega arith, (omega arith, tt))
