-- ===== src/Log/LesFreqs/Tests.antt =====
-- `LesFreqTable` on two broadcasts of near frequencies.
use inmar_scope.Prelude.{ℕ, List, [], ◌∷◌, false, codes}
use inmar_scope.Log.Types.{LesFreqEntry}
use inmar_scope.Log.LesFreqs.Apart.{Op, heard, Apart, run, run-Apart}
use inmar_scope.Double.{scaled}

abbrev station : ℕ → LesFreqEntry ℕ
station freq = record {
  freq_mhz = freq;
  sat_id = 1;
  les_id = 2;
  sat_name = codes "AOR-E";
  les_label = [];
  services = 0;
  last_seen = 0;
  hits = 1;
  has_decoder = false;
}

abbrev broadcasts : List (Op scaled)
broadcasts = heard (station 1537_700_000) ∷ heard (station 1537_699_900) ∷ []

run-Apart_example : Apart scaled (run scaled [] broadcasts)
run-Apart_example = run-Apart scaled broadcasts
