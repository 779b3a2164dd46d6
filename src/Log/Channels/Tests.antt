-- ===== src/Log/Channels/Tests.antt =====
-- `ChannelTable` on a few broadcasts.
use inmar_scope.Prelude.{◌≡◌, List, [], ◌∷◌, true, codes}
use inmar_scope.Double.{scaled}
use inmar_scope.Log.Messages.{u64}
use inmar_scope.Log.Channels.Hits.{
  Op, heard, satellite, run, no_channels, broadcasts, total_hits, run-total_hits,
}

abbrev session : List (Op scaled)
session =
    heard 1545000000 (codes "Psmc") 0x90 true 1200
    ∷ satellite 2 (codes "64.5E")
    ∷ heard 1545000100 (codes "Psmc") 0x91 true 1200
    ∷ heard 1546000000 (codes "Psmc") 0x90 true 600
    ∷ []

run-total_hits_example : u64 (total_hits (run scaled (no_channels scaled) session).chans) ≡ 3
unfolding broadcasts
run-total_hits_example = run-total_hits scaled session
