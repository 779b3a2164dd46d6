-- ===== src/Manager/Unique.antt =====
-- The channel ids of a `DecoderManager` through each of its steps.
use inmar_scope.Prelude.{
  ℕ, zero, suc, ◌≡◌, refl, ap, arith, List, [], ◌∷◌, true, Option, none, some, Bool-cases, inl, inr,
  is_empty, Text, replicate,
}
use inmar_scope.Double.{Double}
use inmar_scope.Manager.{SubBand, Decoder, Worker, DecoderManager, modify_at}
use inmar_scope.Manager.Removing.{remove_decoder, after_removal}
use inmar_scope.Manager.Control.{
  set_audio_enabled, set_max_workers, worker_total, all_of_subbands, all_of_workers, has_decoder,
  has_id, feed_worker, take_block, configure, start, stop, feed, remove_all, set_voice_monitor,
  set_cpu_reduce, set_recording, set_record_format, set_decoder_freq, new_worker,
}
use inmar_scope.Manager.Monitor.{auto_monitor, after_choice, stop_blacklisted, is_monitor, eligible}
use inmar_scope.Manager.Measure.{sum_of}
use inmar_scope.Manager.Totals.{
  total, total_cons, total-map_decoders, total-change_decoder, total-clear_worker, total_same,
}
use inmar_scope.Manager.Holders.{holds_id, holds_id-Unseen}
use inmar_scope.Manager.Runs.{
  Step, configured, started, stopped, fed, taken, added, removed, wiped, monitored, chosen, reduced,
  recorded, reformatted, tuned, decoded, sounding, limited, heard, logged, Reach, initial, next,
  monitor_only-Keeps, record_voice-Keeps, stop_blacklisted-Keeps,
}
use inmar_scope.Manager.Numbered.{
  IsNumbered, same-IsNumbered, fewer-IsNumbered, add_decoder-IsNumbered, total-remove_decoder,
}

total-replicate :
    (D B : Type 0) (f : Decoder D → ℕ) (n : ℕ)
    → total f (replicate n (new_worker {D = D} {B = B})) ≡ 0
unfolding sum_of
total-replicate D B f zero = refl
total-replicate D B f (suc n) = total-replicate D B f n

take_block-subbands : {D B : Type 0} (w : Worker D B) → (take_block w).1.subbands ≡ w.subbands
unfolding take_block
take_block-subbands w =
    elim w.queue as (λ q. (take_block (record w { queue = q })).1.subbands ≡ w.subbands) [
      | [] ↦ refl
      | b ∷ bs ↦ refl
    ]

feed_worker-subbands :
    {D B : Type 0} (b : B) (w : Worker D B) → (feed_worker b w).subbands ≡ w.subbands
unfolding feed_worker
feed_worker-subbands b w = ground arith

total-take_block :
    {D B : Type 0} (f : Decoder D → ℕ) (wi : ℕ) (ws : List (Worker D B))
    → total f (modify_at wi (λ w. (take_block w).1) ws) ≡ total f ws
total-take_block f wi [] = refl
total-take_block {D} f zero (w ∷ ws) = omega (
  arith,
  total_cons f w ws,
  total_cons f (take_block w).1 ws,
  ap (λ (sbs : List (SubBand D)). sum_of f (all_of_subbands sbs)) (take_block-subbands w),
)
total-take_block f (suc wi) (w ∷ ws) = omega (
  arith,
  total_cons f w ws,
  total_cons f w (modify_at wi (λ v. (take_block v).1) ws),
  total-take_block f wi ws,
)

module _ (F : Double) (B : Type 0) where
  open F use {Real, literal}

  next_id-after_removal :
      (m : DecoderManager F B) (id : ℕ) (o : Option (Decoder Real × List (Worker Real B)))
      → (after_removal F B m id o).0.next_id ≡ m.next_id
  unfolding after_removal
  next_id-after_removal m id none = refl
  next_id-after_removal m id (some x) = refl

  remove_decoder-IsNumbered :
      (m : DecoderManager F B) (id : ℕ)
      → IsNumbered F B m
      → IsNumbered F B (remove_decoder F B m id).0
  unfolding remove_decoder
  remove_decoder-IsNumbered m id i =
      fewer-IsNumbered F B m _ (next_id-after_removal m id _)
        (λ j. ground (arith, total-remove_decoder F B m id j _ refl (i.unique j))) i

  after_choice-IsNumbered :
      (m : DecoderManager F B) (blacklist : List Text) (o : Option (Decoder Real))
      → IsNumbered F B m
      → IsNumbered F B (after_choice F B m blacklist o)
  unfolding after_choice stop_blacklisted holds_id
  after_choice-IsNumbered m blacklist (some d) i =
      same-IsNumbered F B m _ refl
        (λ j.
          total-change_decoder (holds_id j) (eligible F B m blacklist)
            (λ e. record e { monitored = true }) (λ e. refl) m.workers)
        i
  after_choice-IsNumbered m blacklist none i = elim (Bool-cases (is_empty blacklist)) [
    | inl free ↦
        rw free (same-IsNumbered F B m (record m { voice_monitor = none }) refl (λ j. refl) i)
    | inr some_listed ↦ rw some_listed (
        same-IsNumbered F B m _ refl
          (λ j.
            total-map_decoders (holds_id j) _
              (holds_id-Unseen j
                (stop_blacklisted-Keeps F B (record m { voice_monitor = none }) blacklist))
              m.workers)
          i)
  ]

  auto_monitor-IsNumbered :
      (m : DecoderManager F B) (blacklist : List Text)
      → IsNumbered F B m
      → IsNumbered F B (auto_monitor F B m blacklist)
  unfolding auto_monitor
  auto_monitor-IsNumbered m blacklist i =
      elim (Bool-cases (has_decoder (is_monitor F B m.voice_monitor) (all_of_workers m.workers))) [
        | inl alive ↦ rw alive i
        | inr gone ↦ rw gone (after_choice-IsNumbered m blacklist _ i)
      ]

  step-IsNumbered : {m n : DecoderManager F B} → Step F B m n → IsNumbered F B m → IsNumbered F B n
  unfolding configure start stop feed feed_worker remove_all set_voice_monitor set_cpu_reduce
      set_recording set_record_format set_decoder_freq set_audio_enabled set_max_workers sum_of
      holds_id
  step-IsNumbered (configured m fs center) i = same-IsNumbered F B m _ refl (λ j. refl) i
  step-IsNumbered (started m hw) i =
      fewer-IsNumbered F B m (start F B m hw) (ground arith)
        (λ j. ground (arith, total-replicate Real B (holds_id j) (worker_total hw m.max_workers))) i
  step-IsNumbered (stopped m) i = fewer-IsNumbered F B m _ refl (λ j. omega arith) i
  step-IsNumbered (fed m b) i =
      same-IsNumbered F B m (feed F B m b) (ground arith)
        (λ j.
          ground
            (arith, total_same (holds_id j) (feed_worker b) (feed_worker-subbands b) m.workers))
        i
  step-IsNumbered (taken m wi) i =
      same-IsNumbered F B m _ refl (λ j. total-take_block (holds_id j) wi m.workers) i
  step-IsNumbered (added m freq baud aes) i = add_decoder-IsNumbered F B m freq baud aes i
  step-IsNumbered (removed m id) i = remove_decoder-IsNumbered m id i
  step-IsNumbered (wiped m) i =
      fewer-IsNumbered F B m _ refl (λ j. omega (arith, total-clear_worker (holds_id j) m.workers))
        i
  step-IsNumbered (monitored m id) i =
      same-IsNumbered F B m _ refl
        (λ j.
          total-map_decoders (holds_id j) _ (holds_id-Unseen j (monitor_only-Keeps F B id))
            m.workers)
        i
  step-IsNumbered (chosen m blacklist) i = auto_monitor-IsNumbered m blacklist i
  step-IsNumbered (reduced m on) i =
      same-IsNumbered F B m _ refl
        (λ j.
          total-map_decoders (holds_id j) (λ d. record d { cpu_reduce = on }) (λ d. refl) m.workers)
        i
  step-IsNumbered (recorded m on dir) i =
      same-IsNumbered F B m _ refl
        (λ j.
          total-map_decoders (holds_id j) _
            (holds_id-Unseen j (record_voice-Keeps F B on _ m.record_fmt)) m.workers)
        i
  step-IsNumbered (reformatted m fmt) i =
      same-IsNumbered F B m _ refl
        (λ j.
          total-map_decoders (holds_id j) _
            (holds_id-Unseen j (record_voice-Keeps F B m.record_on m.record_dir fmt)) m.workers)
        i
  step-IsNumbered (tuned m id freq) i =
      same-IsNumbered F B m _ refl
        (λ j.
          total-change_decoder (holds_id j) (has_id id) (λ d. record d { freq_hz = freq })
            (λ d. refl) m.workers)
        i
  step-IsNumbered (sounding m on) i = same-IsNumbered F B m _ refl (λ j. refl) i
  step-IsNumbered (limited m n) i = same-IsNumbered F B m _ refl (λ j. refl) i
  step-IsNumbered (heard m t) i = same-IsNumbered F B m _ refl (λ j. refl) i
  step-IsNumbered (logged m l) i = same-IsNumbered F B m _ refl (λ j. refl) i
  step-IsNumbered (decoded m g k) i =
      same-IsNumbered F B m _ refl
        (λ j. total-map_decoders (holds_id j) g (holds_id-Unseen j k) m.workers) i

  pub Reach-IsNumbered : {m : DecoderManager F B} → Reach F B m → IsNumbered F B m
  unfolding sum_of
  Reach-IsNumbered initial = record { unique = λ j. omega arith; fresh = λ j h. refl }
  Reach-IsNumbered (next r s) = step-IsNumbered s (Reach-IsNumbered r)
