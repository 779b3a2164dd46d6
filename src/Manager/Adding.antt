-- ===== src/Manager/Adding.antt =====
-- `DecoderManager::addDecoder`: the choice of a sub-band and of a worker.
use inmar_scope.Prelude.{
  ℕ, ◌+◌, ◌*◌, List, [], ◌∷◌, ◌++◌, Bool, false, ◌&&◌, ◌||◌, ltb, leb, if◌then◌else◌, Option, none,
  some, length, get_elem?, is_empty,
}
use inmar_scope.Double.{Double}
use inmar_scope.Dsp.Ddc.{output_rate}
use inmar_scope.Manager.{
  Decoder, SubBand, Worker, DecoderManager, decoder_weight, modify_at, new_decoder, equip,
  monitor_after,
}

abbrev pub append_decoder : {D : Type 0} → Decoder D → SubBand D → SubBand D
append_decoder d sb = record sb { decoders = sb.decoders ++ d ∷ [] }

abbrev pub counted : {D B : Type 0} → ℕ → Worker D B → Worker D B
counted baud w = record w { count = w.count + 1; weight = w.weight + decoder_weight baud }

-- The decoder in the sub-band with index `si` of the worker with index `wi`.
unfoldable pub join_subband :
    {D B : Type 0} → Decoder D → ℕ → ℕ → List (Worker D B) → List (Worker D B)
join_subband d wi si ws =
    modify_at wi
      (λ w. counted d.baud (record w { subbands = modify_at si (append_decoder d) w.subbands })) ws

-- The decoder in a sub-band of its own, on the worker with index `wi`.
unfoldable pub create_subband :
    {D B : Type 0} → SubBand D → Decoder D → ℕ → List (Worker D B) → List (Worker D B)
create_subband sb d wi ws =
    modify_at wi
      (λ w. counted d.baud (record w { subbands = w.subbands ++ append_decoder d sb ∷ [] })) ws

-- The sub-band at a place looked up again, which is there if nobody has removed it.
unfoldable pub is_place : {D B : Type 0} → List (Worker D B) → Option (ℕ × ℕ) → Bool
is_place ws none = false
is_place ws (some (wi, si)) = elim (get_elem? ws wi) [
  | none ↦ false
  | some w ↦ ltb si (length w.subbands)
]

module _ (F : Double) (B : Type 0) where
  open F use {Real, literal, mul, sub, fabs, less, leq, of_int}

  -- The best sub-band so far, by worker and index, with its load.
  pub record Best : Type 0 where
    pub place : Option (ℕ × ℕ)
    pub load : ℕ

  abbrev pub covers : Real → SubBand Real → Bool
  covers freq sb = less (fabs (sub freq sb.center_hz)) (mul (literal 40 2) sb.sub_rate)

  unfoldable pub offered_load : Worker Real B → SubBand Real → ℕ
  offered_load w sb =
      let cnt = length sb.decoders in
      if leb 4 cnt then w.weight + length w.subbands * 10 + cnt * 8 else cnt

  unfoldable pub consider : Real → Worker Real B → ℕ → ℕ → SubBand Real → Best → Best
  unfolding offered_load
  consider freq w wi si sb best =
      if covers freq sb && ltb (offered_load w sb) best.load
      then record { place = some (wi, si); load = offered_load w sb }
      else best

  unfoldable pub scan_subbands : Real → Worker Real B → ℕ → ℕ → List (SubBand Real) → Best → Best
  unfolding consider
  scan_subbands freq w wi si [] best = best
  scan_subbands freq w wi si (sb ∷ sbs) best =
      scan_subbands freq w wi (si + 1) sbs (consider freq w wi si sb best)

  unfoldable pub scan_workers : Real → ℕ → List (Worker Real B) → Best → Best
  unfolding scan_subbands
  scan_workers freq wi [] best = best
  scan_workers freq wi (w ∷ ws) best =
      scan_workers freq (wi + 1) ws (scan_subbands freq w wi 0 w.subbands best)

  abbrev pub effective : Worker Real B → ℕ
  effective w = w.weight + length w.subbands * 5

  -- The worker with the least effective weight, the first of these.
  unfoldable pub lightest : ℕ → List (Worker Real B) → ℕ → ℕ → ℕ
  lightest wi [] best eff = best
  lightest wi (w ∷ ws) best eff =
      if ltb (effective w) eff
      then lightest (wi + 1) ws wi (effective w)
      else lightest (wi + 1) ws best eff

  unfoldable pub new_subband : DecoderManager F B → Real → SubBand Real
  new_subband m freq = record {
    center_hz = freq;
    sub_rate = output_rate F m.fs (literal 250000 0);
    decoders = [];
  }

  abbrev pub fresh_best : Best
  fresh_best = record { place = none; load = 0x7FFFFFFF }

  unfoldable pub create_on_lightest :
      DecoderManager F B → Decoder Real → List (Worker Real B) → List (Worker Real B)
  unfolding create_subband lightest new_subband
  create_on_lightest m d [] = []
  create_on_lightest m d (w ∷ ws) =
      create_subband (new_subband m d.freq_hz) d (lightest 0 (w ∷ ws) 0 (effective w)) (w ∷ ws)

  unfoldable pub place_decoder :
      DecoderManager F B → Decoder Real → Option (ℕ × ℕ) → List (Worker Real B)
  unfolding join_subband is_place create_on_lightest
  place_decoder m d none = create_on_lightest m d m.workers
  place_decoder m d (some (wi, si)) =
      if is_place m.workers (some (wi, si))
      then join_subband d wi si m.workers
      else create_on_lightest m d m.workers

  -- The id of the new decoder, none for -1.
  unfoldable pub add_decoder : DecoderManager F B → Real → ℕ → ℕ → DecoderManager F B × Option ℕ
  unfolding new_decoder equip monitor_after scan_workers place_decoder
  add_decoder m freq baud aes =
      let d = equip F B m aes (new_decoder F B freq baud m.next_id) in
      if leq m.fs (literal 0 0) || is_empty m.workers then (m, none) else (
        record m {
          next_id = m.next_id + 1;
          workers = place_decoder m d (scan_workers freq 0 m.workers fresh_best).place;
          voice_monitor = monitor_after F B m baud m.next_id;
        },
        some m.next_id,
      )
