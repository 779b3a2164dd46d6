-- ===== src/Egc/Names.antt =====
-- Names and texts of codes: src/decode/egc/egc_decoder.cpp.
mod Tests
pub mod Printable
use inmar_scope.Prelude.{
  ℕ, zero, suc, ◌+◌, ◌*◌, ◌/◌, ◌%◌, ◌^◌, List, [], ◌∷◌, ◌++◌, Bool, ◌&&◌, not, ltb, leb, ◌==◌,
  if◌then◌else◌, take, Text, codes, is_empty, get_or, length,
}
use inmar_scope.Double.{Double}
use inmar_scope.Egc.Format.{dec, dec2}
use inmar_scope.Egc.Packet.{byte_at}

-- A `switch` over a list of cases.
unfoldable pub case_of : List (ℕ × Text) → ℕ → Text → Text
case_of [] code other = other
case_of ((c, name) ∷ cs) code other =
    let rest = case_of cs code other in if c == code then name else rest

abbrev pub service_names : List (ℕ × Text)
service_names =
    (0x00, codes "System, All ships (general call)")
    ∷ (0x02, codes "FleetNET, Group Call")
    ∷ (0x04, codes "SafetyNET, Nav/Met/Piracy Warning to Rectangular Area")
    ∷ (0x11, codes "System, Inmarsat System Message")
    ∷ (0x13, codes "SafetyNET, Nav/Met/Piracy Coastal Warning")
    ∷ (0x14, codes "SafetyNET, Shore-to-Ship Distress Alert to Circular Area")
    ∷ (0x23, codes "System, EGC System Message")
    ∷ (0x24, codes "SafetyNET, Nav/Met/Piracy Warning to Circular Area")
    ∷ (0x31, codes "SafetyNET, NAVAREA/METAREA Warning/Forecast")
    ∷ (0x33, codes "System, Download Group Identity")
    ∷ (0x34, codes "SafetyNET, SAR Coordination to Rectangular Area")
    ∷ (0x44, codes "SafetyNET, SAR Coordination to Circular Area")
    ∷ (0x72, codes "FleetNET, Chart Correction Service")
    ∷ (0x73, codes "SafetyNET, Chart Correction Service for Fixed Areas")
    ∷ []

unfoldable pub service_name : ℕ → Text
unfolding case_of
service_name code = case_of service_names code (codes "Unknown")

unfoldable pub priority_name : ℕ → Text
unfolding case_of
priority_name p =
    case_of
      ((0, codes "Routine")
        ∷ (1, codes "Safety")
        ∷ (2, codes "Urgency")
        ∷ (3, codes "Distress")
        ∷ [])
      p (codes "?")

unfoldable pub sat_name : ℕ → Text
unfolding case_of
sat_name sat_id =
    case_of ((0, codes "AOR-W") ∷ (1, codes "AOR-E") ∷ (2, codes "POR") ∷ (3, codes "IOR") ∷ [])
      sat_id (codes "?")

-- The text of one byte, with no parity bit.
unfoldable pub ia5_char : ℕ → Text
ia5_char b =
    let c = b % 128 in
    if c == 13
    then []
    else if c == 10
    then 10 ∷ []
    else (if leb 32 c && ltb c 127 then c else 46) ∷ []

unfoldable pub ia5_text : List ℕ → Text
unfolding ia5_char
ia5_text [] = []
ia5_text (b ∷ bs) = ia5_char b ++ ia5_text bs

-- The texts of the set bits, from the bit of value `weight` down, each with a space behind it.
unfoldable pub bit_names : ℕ → List Text → ℕ → Text
bit_names svc [] weight = []
bit_names svc (name ∷ names) weight =
    let rest = bit_names svc names (weight / 2) in
    if svc / weight % 2 == 1 then name ++ 32 ∷ rest else rest

-- `s.pop_back()`
unfoldable pub pop_back : Text → Text
pop_back [] = []
pop_back (c ∷ []) = []
pop_back (c ∷ s) = c ∷ pop_back s

unfoldable pub services8_text : ℕ → Text
unfolding bit_names pop_back
services8_text svc =
    let s =
      bit_names svc
        (codes "DistressAlert"
          ∷ codes "SafetyNet"
          ∷ codes "InmC"
          ∷ codes "StoreFwd"
          ∷ codes "HalfDuplex"
          ∷ codes "FullDuplex"
          ∷ codes "ClosedNet"
          ∷ codes "FleetNet"
          ∷ [])
        0x80 in
    if is_empty s then codes "None" else pop_back s

unfoldable pub services_text : ℕ → Text
unfolding bit_names pop_back
services_text svc =
    let s =
      bit_names svc
        (codes "MaritimeDistressAlert"
          ∷ codes "SafetyNet"
          ∷ codes "InmarsatC"
          ∷ codes "StoreFwd"
          ∷ codes "HalfDuplex"
          ∷ codes "FullDuplex"
          ∷ codes "ClosedNet"
          ∷ codes "FleetNet"
          ∷ codes "PrefixSF"
          ∷ codes "LandMobileAlert"
          ∷ codes "AeroC"
          ∷ codes "ITA2"
          ∷ codes "DATA"
          ∷ codes "BasicX400"
          ∷ codes "EnhancedX400"
          ∷ codes "LowPowerCMES"
          ∷ [])
        0x8000 in
    if is_empty s then codes "None" else pop_back s

-- The cases of `lesNameLookup`: satellite times 100 and station.
abbrev pub les_names : List (ℕ × Text)
les_names =
    let all_four = λ (les : ℕ) (name : Text) (rest : List (ℕ × Text)).
      (les, name) ∷ (les + 100, name) ∷ (les + 200, name) ∷ (les + 300, name) ∷ rest in
    all_four 1 (codes "Vizada-Telenor, USA") (
      (2, codes "Stratos Global (Burum-2), Netherlands")
      ∷ (102, codes "Stratos Global (Burum-2), Netherlands")
      ∷ (302, codes "Stratos Global (Burum-2), Netherlands")
      ∷ (202, codes "Stratos Global (Auckland), New Zealand")
      ∷ all_four 3 (codes "KDDI, Japan") (
          all_four 4 (codes "Vizada-Telenor, Norway") (
            all_four 44 (codes "NCS") (
              (105, codes "Telecom, Italy")
              ∷ (335, codes "Telecom, Italy")
              ∷ (305, codes "OTESTAT, Greece")
              ∷ (120, codes "OTESTAT, Greece")
              ∷ (306, codes "VSNL, India")
              ∷ (110, codes "Turk Telecom, Turkey")
              ∷ (310, codes "Turk Telecom, Turkey")
              ∷ (211, codes "Beijing MCN, China")
              ∷ (311, codes "Beijing MCN, China")
              ∷ all_four 12 (codes "Stratos Global (Burum), Netherlands") (
                  (114, codes "Embratel, Brazil")
                  ∷ (116, codes "Telekomunikacja Polska, Poland")
                  ∷ (316, codes "Telekomunikacja Polska, Poland")
                  ∷ (117, codes "Morsviazsputnik, Russia")
                  ∷ (217, codes "Morsviazsputnik, Russia")
                  ∷ (317, codes "Morsviazsputnik, Russia")
                  ∷ all_four 21 (codes "Vizada (FT), France") (
                      (127, codes "Bezeq, Israel")
                      ∷ (327, codes "Bezeq, Israel")
                      ∷ (210, codes "Singapore Telecom, Singapore")
                      ∷ (328, codes "Singapore Telecom, Singapore")
                      ∷ (330, codes "VISHIPEL, Vietnam")
                      ∷ []))))))

unfoldable pub les_name_lookup : ℕ → ℕ → Text
unfolding case_of
les_name_lookup sat les_id = if ltb 63 les_id then [] else case_of les_names (sat * 100 + les_id) []

unfoldable pub les_label : ℕ → ℕ → Text
unfolding les_name_lookup sat_name
les_label sat les_id =
    let n = les_name_lookup sat les_id in
    let label = sat_name sat ++ codes " LES " ++ dec les_id in
    if is_empty n then label else label ++ codes " (" ++ n ++ codes ")"

unfoldable pub slot_name : ℕ → Text
unfolding case_of
slot_name v = case_of ((0, codes "--") ∷ (1, codes "SIG") ∷ (2, codes "CH") ∷ []) v (codes "??")

-- The 28 slots from `slot` on, with `left` to go; `s` is the text so far.
unfoldable pub slots_from : List ℕ → ℕ → ℕ → ℕ → Text → Text
unfolding slot_name
slots_from d pos zero slot s = s
slots_from d pos (suc left) slot s =
    let v = byte_at d (pos + slot / 4) / 4 ^ (slot % 4) % 4 in
    slots_from d pos left (slot + 1) (
      if v == 0
      then s
      else (if is_empty s then s else s ++ 32 ∷ []) ++ (65 + slot) ∷ 58 ∷ slot_name v)

unfoldable pub tdm_slots : List ℕ → ℕ → Text
unfolding slots_from
tdm_slots d pos = take 100 (slots_from d pos 28 0 [])

module _ (F : Double) where
  open F use {Real, literal, of_int, sub, mul, div, trunc}

  -- The time of day of a frame, as `decodeFrame` computes it.
  unfoldable pub frame_time : ℕ → Text
  frame_time frame_no =
      let hr = div (mul (of_int frame_no) (literal 864 2)) (literal 36000 1) in
      let h = trunc hr in
      let mins = mul (sub hr (of_int h)) (of_int 60) in
      let mn = trunc mins in
      let sc = trunc (mul (sub mins (of_int mn)) (of_int 60)) in
      take 15 (dec2 h ++ 58 ∷ dec2 mn ++ 58 ∷ dec2 sc)
