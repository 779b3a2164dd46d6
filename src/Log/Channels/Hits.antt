-- ===== src/Log/Channels/Hits.antt =====
-- The broadcasts that `ChannelTable` has counted.
use inmar_scope.Prelude.{ℕ, ◌+◌, ◌≡◌, refl, List, [], ◌∷◌, Bool, arith, Bool-cases, inl, inr, Text}
use inmar_scope.Double.{Double}
use inmar_scope.Log.Types.{NetworkChannel}
use inmar_scope.Log.Messages.{u64}
use inmar_scope.Log.Channels.{
  ChannelTable, new_sat_info, same_channel, add_channel_to, add_channel, set_satellite,
  clear_channels,
}

-- The hits of all channels.
unfoldable pub total_hits : {D : Type 0} → List (NetworkChannel D) → ℕ
total_hits [] = 0
total_hits (c ∷ cs) = c.hits + total_hits cs

module _ (F : Double) where
  open F use {Real}

  add_hits :
      (freq : Real) (kind : Text) (ges : ℕ) (decodable : Bool) (baud : ℕ)
      (cs : List (NetworkChannel Real))
      → u64 (total_hits (add_channel_to F freq kind ges decodable baud cs))
        ≡ u64 (total_hits cs + 1)
  unfolding add_channel_to total_hits
  add_hits freq kind ges decodable baud [] = refl
  add_hits freq kind ges decodable baud (c ∷ cs) = elim (Bool-cases (same_channel F freq kind c)) [
    | inl hit ↦ rw hit (omega arith)
    | inr miss ↦ rw miss (omega (arith, add_hits freq kind ges decodable baud cs))
  ]

  -- The methods that change the table.
  pub data Op : Type 0 where
    heard : Real → Text → ℕ → Bool → ℕ → Op
    satellite : ℕ → Text → Op
    wipe : Op

  unfoldable pub step : ChannelTable F → Op → ChannelTable F
  step t (heard freq kind ges decodable baud) = add_channel F t freq kind ges decodable baud
  step t (satellite id long) = set_satellite F t id long
  step t wipe = clear_channels F t

  unfoldable pub run : ChannelTable F → List Op → ChannelTable F
  run t [] = t
  run t (o ∷ os) = run (step t o) os

  -- The broadcasts since the last `clear`, on top of `n` before.
  unfoldable pub broadcasts : ℕ → List Op → ℕ
  broadcasts n [] = n
  broadcasts n (heard freq kind ges decodable baud ∷ os) = broadcasts (n + 1) os
  broadcasts n (satellite id long ∷ os) = broadcasts n os
  broadcasts n (wipe ∷ os) = broadcasts 0 os

  run_hits :
      (os : List Op) (t : ChannelTable F) (n : ℕ)
      → u64 (total_hits t.chans) ≡ u64 n
      → u64 (total_hits (run t os).chans) ≡ u64 (broadcasts n os)
  unfolding run step broadcasts add_channel set_satellite clear_channels
  run_hits [] t n e = e
  run_hits (heard freq kind ges decodable baud ∷ os) t n e =
      run_hits os (add_channel F t freq kind ges decodable baud) (n + 1)
        (omega (arith, e, add_hits freq kind ges decodable baud t.chans))
  run_hits (satellite id long ∷ os) t n e = run_hits os (set_satellite F t id long) n e
  run_hits (wipe ∷ os) t n e = run_hits os (clear_channels F t) 0 (unfold total_hits in refl)

  -- The table as it is made.
  abbrev pub no_channels : ChannelTable F
  no_channels = record { chans = []; sat = new_sat_info }

  -- After any methods on a new table, the hits of all channels
  -- add up to the number of broadcasts since the last `clear`, modulo 2^64.
  pub run-total_hits :
      (os : List Op) → u64 (total_hits (run no_channels os).chans) ≡ u64 (broadcasts 0 os)
  unfolding total_hits
  run-total_hits os = run_hits os no_channels 0 refl
