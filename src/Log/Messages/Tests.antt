-- ===== src/Log/Messages/Tests.antt =====
-- `MessageLog` on a short sequence of methods.
use inmar_scope.Prelude.{false, ℕ, ◌≡◌, List, [], ◌∷◌, codes}
use inmar_scope.Log.Types.{DecodedMessage, store_acars, store_su}
use inmar_scope.Log.Messages.{
  Op, add_op, acars_op, su_op, clear_op, archive_op, live_op, run, snapshot, count,
}
use inmar_scope.Log.Messages.Refine.{view, view_step, empty, stored, run_lem}

abbrev sample : DecodedMessage ℕ
sample = record {
  time_sec = 12;
  channel_id = 3;
  freq_mhz = 1545;
  aes_id = 0xa00001;
  ges_id = 0x90;
  downlink = 1;
  reg = codes "N123";
  label = codes "H1";
  mode = 50;
  block_id = 65;
  text = codes "POS";
  hex = [];
  su_type = 0;
  decoded = [];
  has_pos = false;
  lat = 0;
  lon = 0;
  alt = 0;
  icao = codes "A00001";
  flight = [];
}

abbrev session : List (Op ℕ)
session =
    add_op sample
    ∷ acars_op sample 600
    ∷ clear_op
    ∷ su_op sample 1200
    ∷ archive_op []
    ∷ live_op
    ∷ []

run_lem_example :
    (snapshot (run (empty, []) session).0 ≡ sample ∷ [])
    × (count (run (empty, []) session).0 ≡ 3)
    × ((run (empty, []) session).1 ≡ store_acars sample 600 ∷ store_su sample 1200 ∷ [])
unfolding view view_step stored
run_lem_example = run_lem session
