-- ===== src/Voice/Refused.antt =====
-- Assignments that are not followed.
use inmar_scope.Prelude.{
  ◌≡◌, refl, sym, ap, ◌∙◌, arith, List, [], ◌∷◌, Bool, true, false, not, ◌||◌, leb, Option, none,
  some, if_either, Bool-cases, if_true, ◌≢◌, ◌⊎◌, inl, inr, if◌then◌else◌,
}
use inmar_scope.Double.{Double}
use inmar_scope.Log.Types.{CassignEntry}
use inmar_scope.Voice.{App}
use inmar_scope.Voice.Follow.{
  usable, newest_voice, seen_all, is_blacklisted, follow_b, follow_a, follow_pick, look,
  update_voice_follow,
}

true_ne_false : true ≢ false
true_ne_false e = cc e

module _ (F : Double) (B : Type 0) where
  open F use {Real, literal, sub}

  -- The newest usable entry, which stands last, is refused; `so_far` is for the entries before, and
  -- stays if there is none.
  unfoldable pub last_refused : App F B → Bool → List (CassignEntry Real) → Bool
  last_refused a so_far [] = so_far
  last_refused a so_far (e ∷ es) =
      let here = if usable F B e then is_blacklisted F B a e.aes_id else so_far in
      last_refused a here es

  pick_refused : App F B → Bool → Option (CassignEntry Real) → Bool
  pick_refused a so_far none = so_far
  pick_refused a so_far (some e) = is_blacklisted F B a e.aes_id

  last_refused_lem :
      (a : App F B) (es : List (CassignEntry Real)) (so_far : Bool)
      → last_refused a so_far es ≡ pick_refused a so_far (newest_voice F B es)
  unfolding last_refused newest_voice pick_refused
  last_refused_lem a [] so_far = refl
  last_refused_lem a (e ∷ es) so_far =
      ground
        (arith, last_refused_lem a es (is_blacklisted F B a e.aes_id), last_refused_lem a es so_far)

  -- A look of either receiver.
  look-seen_all :
      (follow : App F B → CassignEntry Real → App F B) (a : App F B)
      → leb a.cassign_log.count_ a.follow_seen_count ≡ false
      → (a.voice_follow ≡ false)
        ⊎ (follow_pick F B follow (seen_all F B a) (newest_voice F B a.cassign_log.items)
            ≡ seen_all F B a)
      → look F B follow a ≡ seen_all F B a
  unfolding look
  look-seen_all follow a fresh (inl off) = if_true (not a.voice_follow) _ (ap not off) refl
  look-seen_all follow a fresh (inr refused) =
      if_either (λ (x : App F B). x ≡ seen_all F B a) (not a.voice_follow) (λ off. refl)
        (λ on.
          if_either (λ (x : App F B). x ≡ seen_all F B a)
            (leb a.cassign_log.count_ a.follow_seen_count)
            (λ nothing_new. absurd (true_ne_false (sym nothing_new ∙ fresh))) (λ more. refused))

  update-seen_all :
      (tune : Real → Real) (now : Real) (a : App F B)
      → a.following ≡ false
      → ((follow : App F B → CassignEntry Real → App F B) → look F B follow a ≡ seen_all F B a)
      → update_voice_follow F B tune now a ≡ seen_all F B a
  unfolding update_voice_follow
  update-seen_all tune now a idle looks =
      let P : App F B → Type 0 = λ x. x ≡ seen_all F B a in
      if_either P a.dual_mode
        (λ two.
          if_either P a.following (λ active. absurd (true_ne_false (sym active ∙ idle)))
            (λ rest. looks (follow_b F B now)))
        (λ one.
          if_either P a.following (λ active. absurd (true_ne_false (sym active ∙ idle)))
            (λ rest. looks (follow_a F B tune now)))

  follow_pick_refused :
      (follow : App F B → CassignEntry Real → App F B) (a : App F B)
      (o : Option (CassignEntry Real))
      → pick_refused a true o ≡ true
      → follow_pick F B follow a o ≡ a
  unfolding follow_pick pick_refused
  follow_pick_refused follow a none refused = refl
  follow_pick_refused follow a (some e) refused =
      if_true (is_blacklisted F B a e.aes_id) _ refused refl

  -- While no follow is active, an `updateVoiceFollow` that
  -- finds new entries in the log and nothing to follow only takes note of how many there are: this
  -- is so, with one receiver and with two, if the follow is off, if no entry is a usable voice
  -- assignment, and if the newest usable one is for an aircraft of a country on the blacklist,
  -- however many older ones there are.
  pub update_voice_follow-seen_all :
      (tune : Real → Real) (now : Real) (a : App F B)
      → a.following ≡ false
      → leb a.cassign_log.count_ a.follow_seen_count ≡ false
      → (not a.voice_follow || last_refused a true a.cassign_log.items) ≡ true
      → update_voice_follow F B tune now a ≡ seen_all F B a
  unfolding pick_refused
  update_voice_follow-seen_all tune now a idle fresh nothing =
      update-seen_all tune now a idle (λ follow. elim (Bool-cases a.voice_follow) [
        | inl on ↦ look-seen_all follow a fresh (
            inr (
              follow_pick_refused follow (seen_all F B a) _
                (sym (last_refused_lem a a.cassign_log.items true) ∙ ground (arith, nothing, on))))
        | inr off ↦ look-seen_all follow a fresh (inl off)
      ])
