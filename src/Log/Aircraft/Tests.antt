-- ===== src/Log/Aircraft/Tests.antt =====
-- `AircraftTable` on two messages of one aircraft.
use inmar_scope.Prelude.{ℕ, ◌≡◌, refl, List, [], ◌∷◌, some, true, false, arith, codes, Text, Bool}
use inmar_scope.Log.OrdMap.{find, modify, Ascends}
use inmar_scope.Log.Types.{DecodedMessage}
use inmar_scope.Log.Aircraft.{update, merge_message, new_aircraft}
use inmar_scope.Log.Aircraft.Merge.{Arrival}
use inmar_scope.Log.Aircraft.History.{KnownAs, update_all, update_all-known}
use inmar_scope.Double.{scaled}
use mathlib.Core.Option

abbrev message : Text → Text → Bool → DecodedMessage ℕ
message icao flight has_pos = record {
  time_sec = 0;
  channel_id = 1;
  freq_mhz = 1545;
  aes_id = 77;
  ges_id = 2;
  downlink = 1;
  reg = [];
  label = [];
  mode = 0;
  block_id = 0;
  text = [];
  hex = [];
  su_type = 0;
  decoded = [];
  has_pos = has_pos;
  lat = 51;
  lon = 7;
  alt = 36000;
  icao = icao;
  flight = flight;
}

abbrev arrivals : List (Arrival scaled)
arrivals = (message (codes "3C6444") [] true, 100) ∷ (message [] (codes "DLH1") false, 200) ∷ []

keeps_the_address :
    Option.map (λ e. e.icao) (find 77 (update_all scaled [] arrivals)) ≡ some (codes "3C6444")
unfolding find update_all update modify merge_message new_aircraft
keeps_the_address = refl

update_all-known_example :
    KnownAs scaled 77 arrivals (find 77 (update_all scaled [] arrivals))
    × Ascends 0 (update_all scaled [] arrivals)
update_all-known_example = update_all-known scaled arrivals 77 (omega arith)
