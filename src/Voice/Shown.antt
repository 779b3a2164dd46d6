-- ===== src/Voice/Shown.antt =====
-- The decoders of a manager when the receiver moves and they are made again.
use inmar_scope.Prelude.{
  ℕ, zero, suc, ◌+◌, ◌≡◌, refl, ap, ◌∙◌, arith, List, [], ◌∷◌, map, Bool, false, ◌||◌, Option, none,
  some, Bool-cases, Option-cases, inl, inr, is_empty,
}
use inmar_scope.Double.{Double}
use inmar_scope.Manager.{
  is_voice, is_none, Decoder, Worker, DecoderManager, modify_at, equip, new_decoder,
  set_decoder_recording,
}
use inmar_scope.Manager.Adding.{
  add_decoder, place_decoder, create_on_lightest, join_subband, create_subband, is_place,
}
use inmar_scope.Manager.Removing.{
  take_from_workers, take_from_subbands, remove_decoder, after_removal,
}
use inmar_scope.Manager.Control.{clear_worker, configure, remove_all}
use inmar_scope.Manager.Monitor.{sort_by_freq, insert_by_freq, freq_mhz}
use inmar_scope.Manager.Measure.{sum_of}
use inmar_scope.Manager.Totals.{total, total-place_decoder, total-clear_worker}
use inmar_scope.Manager.Numbered.{is_idle}
use inmar_scope.Voice.{listed_decoders, add_listed, moved, remove_channel, to_hz}

modify_at_empty :
    {A : Type 0} (i : ℕ) (f : A → A) (xs : List A) → is_empty (modify_at i f xs) ≡ is_empty xs
modify_at_empty i f [] = refl
modify_at_empty zero f (x ∷ xs) = refl
modify_at_empty (suc i) f (x ∷ xs) = refl

take_from_workers_empty :
    {D B : Type 0} (id : ℕ) (ws : List (Worker D B)) (x : Decoder D × List (Worker D B))
    → take_from_workers id ws ≡ some x
    → is_empty x.1 ≡ is_empty ws
unfolding take_from_workers
take_from_workers_empty id [] x e = ground arith
take_from_workers_empty id (w ∷ ws) x e = elim (Option-cases (take_from_subbands id w.subbands)) [
  | inr (y, here) ↦ ground (arith, here)
  | inl later ↦ elim (Option-cases (take_from_workers id ws)) [
    | inl nothing ↦ ground (arith, later, nothing)
    | inr (y, found) ↦ ground (arith, later, found)
  ]
]

module _ (F : Double) (B : Type 0) where
  open F use {Real, literal, leq}

  -- What a measure of frequencies and bauds gives for a decoder, for the decoder that is made from
  -- its frequency in MHz, and for a list of such frequencies.
  abbrev pub shown : (Real → ℕ → ℕ) → Decoder Real → ℕ
  shown f d = f d.freq_hz d.baud

  abbrev pub shown_again : (Real → ℕ → ℕ) → Decoder Real → ℕ
  shown_again f d = f (to_hz F B (freq_mhz F B d)) d.baud

  unfoldable pub shown_list : (Real → ℕ → ℕ) → List (Real × ℕ) → ℕ
  shown_list f [] = 0
  shown_list f ((mhz, baud) ∷ ks) = f (to_hz F B mhz) baud + shown_list f ks

  create_on_lightest_empty :
      (m : DecoderManager F B) (d : Decoder Real) (ws : List (Worker Real B))
      → is_empty (create_on_lightest F B m d ws) ≡ is_empty ws
  unfolding create_on_lightest create_subband
  create_on_lightest_empty m d [] = refl
  create_on_lightest_empty m d (w ∷ ws) = modify_at_empty _ _ (w ∷ ws)

  place_decoder_empty :
      (m : DecoderManager F B) (d : Decoder Real) (place : Option (ℕ × ℕ))
      → is_empty (place_decoder F B m d place) ≡ is_empty m.workers
  unfolding place_decoder join_subband
  place_decoder_empty m d none = create_on_lightest_empty m d m.workers
  place_decoder_empty m d (some (wi, si)) = elim (Bool-cases (is_place m.workers (some (wi, si)))) [
    | inl there ↦ rw there (modify_at_empty wi _ m.workers)
    | inr gone ↦ rw gone (create_on_lightest_empty m d m.workers)
  ]

  add_decoder_idle :
      (m : DecoderManager F B) (freq : Real) (baud aes : ℕ)
      → is_idle F B (add_decoder F B m freq baud aes).0 ≡ is_idle F B m
  unfolding add_decoder
  add_decoder_idle m freq baud aes = elim (Bool-cases (is_idle F B m)) [
    | inl idle ↦ rw idle idle
    | inr ready ↦
        rw ready
          (ap (λ (e : Bool). leq m.fs (literal 0 0) || e) (place_decoder_empty m _ _) ∙ ready)
  ]

  equip_shown :
      (f : Real → ℕ → ℕ) (m : DecoderManager F B) (aes : ℕ) (d : Decoder Real)
      → shown f (equip F B m aes d) ≡ shown f d
  unfolding equip set_decoder_recording
  equip_shown f m aes d = elim (Bool-cases (is_voice d)) [
    | inl voice ↦ rw voice (elim (Bool-cases (is_none m.voice_monitor)) [
      | inl free ↦ rw free refl
      | inr taken ↦ rw taken refl
    ])
    | inr data_ ↦ rw data_ refl
  ]

  add_decoder_shown :
      (f : Real → ℕ → ℕ) (m : DecoderManager F B) (freq : Real) (baud aes : ℕ)
      → is_idle F B m ≡ false
      → total (shown f) (add_decoder F B m freq baud aes).0.workers
        ≡ total (shown f) m.workers + f freq baud
  unfolding add_decoder new_decoder
  add_decoder_shown f m freq baud aes ready = rw ready (
      let d = equip F B m aes (new_decoder F B freq baud m.next_id) in
      total-place_decoder F B (shown f) m d _ (ground (arith, ready))
      ∙ ap (λ (i : ℕ). total (shown f) m.workers + i)
          (equip_shown f m aes (new_decoder F B freq baud m.next_id)))

  pub add_listed_shown :
      (f : Real → ℕ → ℕ) (ks : List (Real × ℕ)) (m : DecoderManager F B)
      → is_idle F B m ≡ false
      → total (shown f) (add_listed F B m ks).workers ≡ total (shown f) m.workers + shown_list f ks
  unfolding add_listed shown_list
  add_listed_shown f [] m ready = omega arith
  add_listed_shown f ((mhz, baud) ∷ ks) m ready =
      let m' = (add_decoder F B m (to_hz F B mhz) baud 0).0 in
      let ready' : is_idle F B m' ≡ false = add_decoder_idle m (to_hz F B mhz) baud 0 ∙ ready in
      omega
        (arith, add_listed_shown f ks m' ready', add_decoder_shown f m (to_hz F B mhz) baud 0 ready)

  insert_by_freq-sum_of :
      (f : Decoder Real → ℕ) (d : Decoder Real) (ds : List (Decoder Real))
      → sum_of f (insert_by_freq F B d ds) ≡ f d + sum_of f ds
  unfolding insert_by_freq sum_of
  insert_by_freq-sum_of f d [] = refl
  insert_by_freq-sum_of f d (e ∷ ds) = ground (arith, insert_by_freq-sum_of f d ds)

  pub sort_by_freq-sum_of :
      (f : Decoder Real → ℕ) (ds : List (Decoder Real))
      → sum_of f (sort_by_freq F B ds) ≡ sum_of f ds
  unfolding sort_by_freq sum_of
  sort_by_freq-sum_of f [] = refl
  sort_by_freq-sum_of f (d ∷ ds) =
      omega (arith, insert_by_freq-sum_of f d (sort_by_freq F B ds), sort_by_freq-sum_of f ds)

  pub listed_decoders_shown :
      (f : Real → ℕ → ℕ) (ds : List (Decoder Real))
      → shown_list f (listed_decoders F B ds) ≡ sum_of (shown_again f) ds
  unfolding listed_decoders shown_list sum_of
  listed_decoders_shown f [] = refl
  listed_decoders_shown f (d ∷ ds) = omega (arith, listed_decoders_shown f ds)

  pub remove_channel_empty :
      (m : DecoderManager F B) (id : Option ℕ)
      → is_empty (remove_channel F B m id).0.workers ≡ is_empty m.workers
  unfolding remove_decoder after_removal
  remove_channel_empty m none = refl
  remove_channel_empty m (some id) = elim (Option-cases (take_from_workers id m.workers)) [
    | inl nothing ↦
        ap {B = Bool}
          (λ (o : Option (Decoder Real × List (Worker Real B))).
            is_empty (after_removal F B m id o).0.workers)
          nothing
    | inr (x, found) ↦
        ap {B = Bool}
          (λ (o : Option (Decoder Real × List (Worker Real B))).
            is_empty (after_removal F B m id o).0.workers)
          found
        ∙ take_from_workers_empty id m.workers x found
  ]

  map_empty :
      (f : Worker Real B → Worker Real B) (ws : List (Worker Real B))
      → is_empty (map f ws) ≡ is_empty ws
  map_empty f [] = refl
  map_empty f (w ∷ ws) = refl

  pub moved_ready :
      (m : DecoderManager F B) (rate center : Real)
      → is_empty m.workers ≡ false
      → leq rate (literal 0 0) ≡ false
      → is_idle F B (moved F B m rate center) ≡ false
  unfolding configure remove_all
  moved_ready m rate center h r = ground (arith, map_empty clear_worker m.workers)

  pub moved_total :
      (f : Real → ℕ → ℕ) (m : DecoderManager F B) (rate center : Real)
      → total (shown f) (moved F B m rate center).workers ≡ 0
  unfolding configure remove_all
  moved_total f m rate center = total-clear_worker (shown f) m.workers
