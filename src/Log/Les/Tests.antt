-- ===== src/Log/Les/Tests.antt =====
-- `LesLog` on two messages.
use inmar_scope.Prelude.{ℕ, ◌≡◌, List, [], ◌∷◌, false, codes}
use inmar_scope.Log.Types.{LesMessage, StoreCall, store_les}
use inmar_scope.Log.Les.{LesLog, les_snapshot, les_count, les_set_archive, les_clear_archive}
use inmar_scope.Log.Les.Newest.{les_add_all, messages, stored, no_messages, les_add_all-newest}

abbrev sample : ℕ → LesMessage ℕ
sample n = record {
  channel_id = 1;
  freq_mhz = 1537;
  frame_number = n;
  time_utc = codes "00:00:09";
  sat_name = codes "POR";
  les_id = 4;
  les_label = codes "POR LES 4";
  channel = 7;
  pkt_no = n;
  text = codes "TEXT";
  is_encrypted = false;
}

abbrev arrivals : List (ℕ × LesMessage ℕ)
arrivals = (100, sample 1) ∷ (200, sample 2) ∷ []

abbrev result : LesLog ℕ × List (StoreCall ℕ)
result = les_add_all (no_messages, []) arrivals

les_add_all-newest_example :
    (les_snapshot result.0 ≡ sample 1 ∷ sample 2 ∷ [])
    × (les_count result.0 ≡ 2)
    × (result.1 ≡ store_les 100 (sample 1) ∷ store_les 200 (sample 2) ∷ [])
    × (les_snapshot (les_set_archive result.0 []) ≡ [])
    × (les_snapshot (les_clear_archive (les_set_archive result.0 [])) ≡ sample 1 ∷ sample 2 ∷ [])
unfolding messages stored
les_add_all-newest_example = les_add_all-newest arrivals []
