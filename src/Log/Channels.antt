-- ===== src/Log/Channels.antt =====
-- `ChannelTable` of src/decode/message_log.h.
pub mod Hits
mod Tests
use inmar_scope.Prelude.{
  ℕ, ◌+◌, List, [], ◌∷◌, Bool, true, false, ◌&&◌, if◌then◌else◌, Text, text_eq,
}
use inmar_scope.Log.Types.{NetworkChannel, SatInfo}
use inmar_scope.Log.Messages.{u64}
use inmar_scope.Double.{Double}

unfoldable pub new_sat_info : SatInfo
new_sat_info = record { valid = false; sat_id = 0; longitude = [] }

module _ (F : Double) where
  open F use {Real, literal, sub, fabs, less}

  pub record ChannelTable : Type 0 where
    pub chans : List (NetworkChannel Real)
    pub sat : SatInfo

  unfoldable pub same_channel : Real → Text → NetworkChannel Real → Bool
  same_channel freq kind c = less (fabs (sub c.freq_mhz freq)) (literal 5 4) && text_eq c.kind kind

  -- The loop of `addChannel`, and the `push_back` when it finds nothing.
  unfoldable pub add_channel_to :
      Real → Text → ℕ → Bool → ℕ → List (NetworkChannel Real) → List (NetworkChannel Real)
  unfolding same_channel
  add_channel_to freq kind ges decodable baud [] =
      record {
        freq_mhz = freq;
        kind = kind;
        ges = ges;
        hits = 1;
        decodable = decodable;
        baud = baud;
      }
      ∷ []
  add_channel_to freq kind ges decodable baud (c ∷ cs) =
      let rest = add_channel_to freq kind ges decodable baud cs in
      if same_channel freq kind c
      then record c { hits = u64 (c.hits + 1); ges = ges } ∷ cs
      else c ∷ rest

  unfoldable pub add_channel : ChannelTable → Real → Text → ℕ → Bool → ℕ → ChannelTable
  unfolding add_channel_to
  add_channel t freq kind ges decodable baud = record t {
    chans = add_channel_to freq kind ges decodable baud t.chans;
  }

  unfoldable pub set_satellite : ChannelTable → ℕ → Text → ChannelTable
  set_satellite t id long = record t {
    sat = record { valid = true; sat_id = id; longitude = long };
  }

  unfoldable pub clear_channels : ChannelTable → ChannelTable
  clear_channels t = record { chans = []; sat = new_sat_info }
