-- ===== src/Log/Voice/Ends.antt =====
-- The end of a call in `VoiceCallLog`.
use inmar_scope.Prelude.{
  ℕ, ◌≡◌, refl, ap, ◌∙◌, List, [], ◌∷◌, ◌++◌, none, some, Bool, true, false, not, ◌&&◌, arith,
  if◌then◌else◌, Text,
}
use inmar_scope.Log.Types.{VoiceCallRecord, store_voice}
use inmar_scope.Log.Voice.{
  VoiceCallLog, is_channel, end_record, end_newest, update_end, has_slash, base_name,
}
use inmar_scope.Double.{Double}

base_name_plain : (s : Text) → has_slash s ≡ false → base_name s ≡ s
unfolding base_name
base_name_plain [] h = refl
base_name_plain (c ∷ s) h = ground (arith, base_name_plain s)

has_slash_here : (dir name : Text) → has_slash (dir ++ 47 ∷ name) ≡ true
unfolding has_slash
has_slash_here [] name = refl
has_slash_here (c ∷ dir) name = ground (arith, has_slash_here dir name)

-- Of a path, what stands behind the last slash is kept, and of a name with no slash all.
base_name_lem :
    (dir name : Text)
    → has_slash name ≡ false
    → (base_name name ≡ name) × (base_name (dir ++ 47 ∷ name) ≡ name)
unfolding base_name
base_name_lem [] name h = (base_name_plain name h, rw h)
base_name_lem (c ∷ dir) name h =
    let rest = base_name_lem dir name h in (rest.0, rw (has_slash_here dir name) rest.1)

module _ (F : Double) where
  open F use {Real, literal, less}

  -- A live recording of the channel.
  unfoldable pub is_live : ℕ → VoiceCallRecord Real → Bool
  is_live id r = is_channel F id r.channel_id && r.recording

  unfoldable pub none_live : ℕ → List (VoiceCallRecord Real) → Bool
  none_live id [] = true
  none_live id (r ∷ rs) = not (is_live id r) && none_live id rs

  end_newest-none :
      (id : ℕ) (duration : Real) (filename : Text) (rs : List (VoiceCallRecord Real))
      → none_live id rs ≡ true
      → end_newest F id duration filename rs ≡ none
  unfolding end_newest none_live is_live
  end_newest-none id duration filename [] h = refl
  end_newest-none id duration filename (r ∷ rs) h =
      ground (arith, end_newest-none id duration filename rs)

  end_newest-here :
      (id : ℕ) (duration : Real) (filename : Text) (before after : List (VoiceCallRecord Real))
      (r : VoiceCallRecord Real)
      → is_live id r ≡ true
      → none_live id after ≡ true
      → end_newest F id duration filename (before ++ r ∷ after)
        ≡ some
            (before ++ end_record F duration filename r ∷ after, end_record F duration filename r)
  unfolding end_newest is_live
  end_newest-here id duration filename [] after r live rest =
      rw (end_newest-none id duration filename after rest, live)
  end_newest-here id duration filename (x ∷ before) after r live rest =
      rw (end_newest-here id duration filename before after r live rest)

  -- The end of a call changes the newest live record of its channel, by `end_record`, and no other
  -- record; the store gets this record if there is a store and the duration is positive.
  pub update_end-newest :
      (l : VoiceCallLog F) (id : ℕ) (duration : Real) (filename : Text)
      (before after : List (VoiceCallRecord Real)) (r : VoiceCallRecord Real)
      → l.items ≡ before ++ r ∷ after
      → is_live id r ≡ true
      → none_live id after ≡ true
      → let ended = end_record F duration filename r in
        update_end F l id duration filename ≡ (
          record l { items = before ++ ended ∷ after },
          if l.has_store && less (literal 0 0) duration then store_voice ended ∷ [] else [],
        )
  unfolding update_end end_record
  update_end-newest l id duration filename before after r is live rest =
      let found =
        ap (end_newest F id duration filename) is
        ∙ end_newest-here id duration filename before after r live rest in
      rw (found, update_end)

  -- A call that ends with no live record of its channel leaves the log as it is.
  pub update_end-missing :
      (l : VoiceCallLog F) (id : ℕ) (duration : Real) (filename : Text)
      → none_live id l.items ≡ true
      → update_end F l id duration filename ≡ (l, [])
  unfolding update_end
  update_end-missing l id duration filename h =
      rw (end_newest-none id duration filename l.items h, update_end)
