-- ===== src/BandPlan/Tests.antt =====
-- Band plans: runs on one plan, with JSON values of a small type.
use inmar_scope.Prelude.{ℕ, ◌≡◌, refl, arith, [], true, false, Text, text_eq, codes}
use inmar_scope.BandPlan.Values.{Value, text, number, integer, nothing, item, field, values}
use inmar_scope.Double.{scaled}
use inmar_scope.BandPlan.{BandPlan, Checked, ok, reject, read_color}
use inmar_scope.Log.Country.{is_hex_digit}
use inmar_scope.BandPlan.Loading.{read_plan, read_entry}
use inmar_scope.BandPlan.Groups.{band_plan_groups}
use inmar_scope.BandPlan.Accepted.{good_plan, read_plan-good_plan}
use inmar_scope.BandPlan.Windows.{occurrences, covered, band_plan_groups-covered}

abbrev band : ℕ → ℕ → ℕ → Text → Value → Value
band lo hi f service more = field (codes "lo") (number lo) (
    field (codes "hi") (number hi) (
      field (codes "label") (text (codes "P"))
        (field (codes "frequency") (number f) (field (codes "service") (text service) more))))

abbrev plan_of : Value → Value
plan_of bands = field (codes "name") (text (codes "Atlantic")) (field (codes "bands") bands nothing)

-- Two channels of one service, out of order, and one of another.
abbrev two_services : Value
two_services = plan_of (
    item
      (band 1546000 1547000 1546500 (codes "Aero data")
        (field (codes "baud") (integer 600) nothing))
      (item (band 1545000 1545800 1545600 (codes "Aero data") nothing) (
        item
          (band 1537000 1538000 1537700 (codes "STD-C")
            (field (codes "decoder") (text (codes "egc")) nothing))
          nothing)))

abbrev result : Checked (BandPlan ℕ) → BandPlan ℕ
result (ok p) = p
result (reject why) = record {
  name = [];
  designator = [];
  notes = [];
  position = 0;
  file_path = [];
  entries = [];
  regions = [];
  countries = [];
  error = why;
  valid = false;
}

abbrev reason : Checked (BandPlan ℕ) → Text
reason (ok p) = []
reason (reject why) = why

abbrev plan : BandPlan ℕ
plan = result (read_plan scaled values (codes "a.json") two_services)

decoder_needs_channel :
    reason (
      read_plan scaled values (codes "a.json") (
        plan_of (
          item
            (field (codes "lo") (number 1) (
              field (codes "hi") (number 2) (
                field
                  (codes "label")
                  (text (codes "P"))
                  (field (codes "baud") (integer 600) nothing))))
            nothing)))
    ≡ codes "Band 1: decoder requires a channel frequency"
unfolding read_plan text_eq read_entry
decoder_needs_channel = refl

read_plan-good_plan_example : good_plan scaled values plan ≡ true
unfolding read_plan text_eq read_entry read_color is_hex_digit
read_plan-good_plan_example =
    read_plan-good_plan scaled values refl (λ x y h. ground (arith, h)) (codes "a.json")
      two_services plan refl

band_plan_groups-covered_example :
    occurrences 1 (covered scaled (band_plan_groups scaled plan 2400000000000)) ≡ 1
unfolding read_plan text_eq read_entry read_color is_hex_digit
band_plan_groups-covered_example =
    band_plan_groups-covered scaled plan 2400000000000 refl refl refl 1
