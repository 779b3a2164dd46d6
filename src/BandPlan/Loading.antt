-- ===== src/BandPlan/Loading.antt =====
-- `loadBandPlan`: the checks of a plan and of its bands.
use inmar_scope.Prelude.{
  ℕ, ◌+◌, List, [], ◌∷◌, ◌++◌, Bool, true, false, not, ◌||◌, ◌==◌, if◌then◌else◌, Option, none,
  some, Text, is_empty, text_eq, codes,
}
use inmar_scope.Double.{Double}
use inmar_scope.Egc.Format.{dec}
use inmar_scope.BandPlan.{
  Jansson, BandPlanEntry, BandPlan, Checked, ok, reject, ◌>>=◌, ◌>>◌, require, sort_unique,
  read_color,
}

abbrev pub given : {A : Type 0} → Option A → Bool
given none = false
given (some a) = true

module _ (F : Double) (J : Jansson F.Real) where
  open F use {Real, literal, fabs, less, leq, is_finite}
  open J use {Json, object_get, is_object, array_items, string_value, number_value, integer_value}

  -- The string of a key, empty if there is none.
  unfoldable pub text_of : Json → Text → Text
  text_of o key = elim (object_get o key) [
    | none ↦ []
    | some v ↦ elim (string_value v) [ none ↦ [] | some t ↦ t ]
  ]

  -- The items of an array that are all strings and not empty.
  unfoldable pub scope_items : List Json → Option (List Text)
  scope_items [] = some []
  scope_items (v ∷ vs) = elim (string_value v) [
    | none ↦ none
    | some t ↦
        if is_empty t then none else elim (scope_items vs) [ none ↦ none | some ts ↦ some (t ∷ ts) ]
  ]

  unfoldable pub plural_scopes : Option Json → Option (List Text)
  unfolding scope_items
  plural_scopes none = some []
  plural_scopes (some v) = elim (array_items v) [ none ↦ none | some vs ↦ scope_items vs ]

  unfoldable pub singular_scope : Option Json → Option (List Text)
  unfolding scope_items
  singular_scope none = some []
  singular_scope (some v) = scope_items (v ∷ [])

  unfoldable pub scopes : Json → Text → Text → Text → Checked (List Text)
  unfolding plural_scopes singular_scope
  scopes root plural singular why = elim (plural_scopes (object_get root plural)) [
    | none ↦ reject why
    | some many ↦ elim (singular_scope (object_get root singular)) [
      | none ↦ reject why
      | some one ↦ ok (sort_unique (many ++ one))
    ]
  ]

  unfoldable pub number_of : Option Json → Option Real
  number_of none = none
  number_of (some v) = number_value v

  unfoldable pub position_of : Option Json → Checked Real
  position_of none = ok (literal 0 0)
  position_of (some v) = elim (number_value v) [
    | none ↦ reject (codes "Satellite position must be degrees from -180 to 180")
    | some p ↦
        if not (is_finite p) || less (literal 180 0) (fabs p)
        then reject (codes "Satellite position must be degrees from -180 to 180")
        else ok p
  ]

  unfoldable pub read_limits : Text → Option Real → Option Real → Text → Checked (Real × Real)
  read_limits prefix (some lo) (some hi) label =
      if not (is_finite lo)
        || not (is_finite hi)
        || less lo (literal 0 0)
        || leq hi lo
        || is_empty label
      then reject (prefix ++ codes "require 0 <= lo < hi in MHz and a non-empty label")
      else ok (lo, hi)
  read_limits prefix _ _ label = reject (prefix ++ codes "lo and hi must be numbers in MHz")

  unfoldable pub check_frequency : Text → Real → Real → Option Real → Checked Real
  check_frequency prefix lo hi none =
      reject (prefix ++ codes "frequency must be a channel center in MHz")
  check_frequency prefix lo hi (some f) =
      if not (is_finite f) || leq f (literal 0 0) || less f lo || less hi f
      then reject (prefix ++ codes "channel frequency must be inside lo/hi")
      else ok f

  unfoldable pub read_frequency : Text → Real → Real → Option Json → Checked Real
  unfolding check_frequency
  read_frequency prefix lo hi none = ok (literal 0 0)
  read_frequency prefix lo hi (some v) = check_frequency prefix lo hi (number_value v)

  abbrev pub is_aero_baud : ℕ → Bool
  is_aero_baud n = (n == 600) || (n == 1200) || (n == 8400) || (n == 10500)

  unfoldable pub aero_baud : Text → Option (Option ℕ) → Checked ℕ
  aero_baud prefix none = reject (prefix ++ codes "baud must be an integer")
  aero_baud prefix (some none) = reject (prefix ++ codes "unsupported Aero baud")
  aero_baud prefix (some (some n)) =
      if is_aero_baud n then ok n else reject (prefix ++ codes "unsupported Aero baud")

  unfoldable pub read_baud : Text → Option Json → Checked ℕ
  unfolding aero_baud
  read_baud prefix none = ok 0
  read_baud prefix (some v) = aero_baud prefix (integer_value v)

  unfoldable pub check_decoder : Text → ℕ → Option Text → Checked ℕ
  check_decoder prefix baud none = reject (prefix ++ codes "decoder must be egc without Aero baud")
  check_decoder prefix baud (some t) =
      if not (text_eq t (codes "egc")) || not (baud == 0)
      then reject (prefix ++ codes "decoder must be egc without Aero baud")
      else ok 1

  unfoldable pub read_decoder : Text → ℕ → Option Json → Checked ℕ
  unfolding check_decoder
  read_decoder prefix baud none = ok baud
  read_decoder prefix baud (some v) = check_decoder prefix baud (string_value v)

  unfoldable pub color_text : Option Json → Option Text
  color_text none = some (codes "888888")
  color_text (some v) = string_value v

  unfoldable pub check_color : Text → Option Text → Checked ℕ
  check_color prefix none =
      reject (prefix ++ codes "color must contain six hexadecimal digits (RRGGBB)")
  check_color prefix (some t) = elim (read_color t) [
    | none ↦ reject (prefix ++ codes "color must contain six hexadecimal digits (RRGGBB)")
    | some c ↦ ok c
  ]

  abbrev pub band_prefix : ℕ → Text
  band_prefix i = codes "Band " ++ dec (i + 1) ++ codes ": "

  -- The body of the loop over the bands.
  unfoldable pub read_entry : ℕ → Json → Checked (BandPlanEntry Real)
  unfolding text_of number_of read_limits read_frequency read_baud read_decoder color_text
      check_color
  read_entry i entry = do
    let prefix = band_prefix i
    require (is_object entry) (prefix ++ codes "expected an object")
    let label = text_of entry (codes "label")
    limits ←
        read_limits prefix (number_of (object_get entry (codes "lo")))
          (number_of (object_get entry (codes "hi"))) label
    frequency ← read_frequency prefix limits.0 limits.1 (object_get entry (codes "frequency"))
    aero ← read_baud prefix (object_get entry (codes "baud"))
    baud ← read_decoder prefix aero (object_get entry (codes "decoder"))
    require ((baud == 0) || not (leq frequency (literal 0 0)))
        (prefix ++ codes "decoder requires a channel frequency")
    color ← check_color prefix (color_text (object_get entry (codes "color")))
    ok (record {
      lo_mhz = limits.0;
      hi_mhz = limits.1;
      label = label;
      color = color;
      frequency_mhz = frequency;
      service = text_of entry (codes "service");
      baud = baud;
    })

  unfoldable pub read_entries : ℕ → List Json → Checked (List (BandPlanEntry Real))
  read_entries i [] = ok []
  read_entries i (v ∷ vs) = do e ← read_entry i v; es ← read_entries (i + 1) vs; ok (e ∷ es)

  -- `std::sort` by the lower limit, which is free to order equal ones.
  unfoldable pub insert_entry :
      BandPlanEntry Real → List (BandPlanEntry Real) → List (BandPlanEntry Real)
  insert_entry e [] = e ∷ []
  insert_entry e (f ∷ fs) = if less f.lo_mhz e.lo_mhz then f ∷ insert_entry e fs else e ∷ f ∷ fs

  unfoldable pub sort_entries : List (BandPlanEntry Real) → List (BandPlanEntry Real)
  unfolding insert_entry
  sort_entries [] = []
  sort_entries (e ∷ es) = insert_entry e (sort_entries es)

  unfoldable pub check_bands : Option (List Json) → Checked (List Json)
  check_bands none = reject (codes "A non-empty bands array is required")
  check_bands (some []) = reject (codes "A non-empty bands array is required")
  check_bands (some (v ∷ vs)) = ok (v ∷ vs)

  unfoldable pub bands_of : Option Json → Checked (List Json)
  unfolding check_bands
  bands_of none = reject (codes "A non-empty bands array is required")
  bands_of (some v) = check_bands (array_items v)

  unfoldable pub read_plan : Text → Json → Checked (BandPlan Real)
  unfolding text_of position_of scopes bands_of read_entries sort_entries
  read_plan path root = do
    require (is_object root) (codes "Expected a JSON object")
    let name = text_of root (codes "name")
    require (not (is_empty name)) (codes "A non-empty name is required")
    position ← position_of (object_get root (codes "position"))
    regions ←
        scopes root (codes "regions") (codes "region")
          (codes "Regions/countries must contain non-empty text names")
    countries ←
        scopes root (codes "countries") (codes "country")
          (codes "Regions/countries must contain non-empty text names")
    bands ← bands_of (object_get root (codes "bands"))
    entries ← read_entries 0 bands
    ok (record {
      name = name;
      designator = text_of root (codes "designator");
      notes = text_of root (codes "notes");
      position = position;
      file_path = path;
      entries = sort_entries entries;
      regions = regions;
      countries = countries;
      error = [];
      valid = true;
    })
