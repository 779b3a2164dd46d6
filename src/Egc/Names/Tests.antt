-- ===== src/Egc/Names/Tests.antt =====
-- Names and texts on small inputs.
use inmar_scope.Prelude.{◌≤◌, ◌≡◌, refl, [], ◌∷◌, codes, length}
use inmar_scope.Egc.Names.{
  case_of, service_name, les_label, les_name_lookup, sat_name, ia5_text, bit_names, pop_back,
  services8_text, slot_name, slots_from, tdm_slots,
}
use inmar_scope.Egc.Names.Printable.{Printable, ia5_text-Printable}

service : service_name 0x31 ≡ codes "SafetyNET, NAVAREA/METAREA Warning/Forecast"
unfolding service_name case_of
service = refl

label : les_label 1 4 ≡ codes "AOR-E LES 4 (Vizada-Telenor, Norway)"
unfolding les_label les_name_lookup sat_name case_of
label = refl

services : services8_text 0xa1 ≡ codes "DistressAlert InmC FleetNet"
unfolding services8_text bit_names pop_back
services = refl

slots : tdm_slots (0x01 ∷ 0x80 ∷ 0 ∷ 0 ∷ 0 ∷ 0 ∷ 0 ∷ []) 0 ≡ codes "A:SIG H:CH"
unfolding tdm_slots slots_from slot_name case_of
slots = refl

ia5_text-Printable_example :
    Printable (ia5_text (0xd3 ∷ 0x4f ∷ 13 ∷ 10 ∷ 7 ∷ []))
    × (length (ia5_text (0xd3 ∷ 0x4f ∷ 13 ∷ 10 ∷ 7 ∷ [])) ≤ 5)
ia5_text-Printable_example = ia5_text-Printable (0xd3 ∷ 0x4f ∷ 13 ∷ 10 ∷ 7 ∷ [])
