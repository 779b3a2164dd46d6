-- ===== src/BandPlan/Values.antt =====
-- JSON values of a small type: an instance of the parameter jansson to run the model with.
use inmar_scope.Prelude.{
  ℕ, ◌*◌, List, [], ◌∷◌, Bool, true, false, Option, none, some, Text, text_eq, if◌then◌else◌,
}
use inmar_scope.BandPlan.{Jansson}

pub data Value : Type 0 where
  text : Text → Value
  -- in thousandths
  number : ℕ → Value
  integer : ℕ → Value
  nothing : Value
  -- an item, or a key with its value, before others
  item : Value → Value → Value
  field : Text → Value → Value → Value

abbrev object_get : Value → Text → Option Value
object_get (field k v rest) key = if text_eq k key then some v else object_get rest key
object_get v key = none

abbrev is_object : Value → Bool
is_object (field k v rest) = true
is_object v = false

abbrev items : Value → List Value
items (item v rest) = v ∷ items rest
items v = []

abbrev array_items : Value → Option (List Value)
array_items (item v rest) = some (v ∷ items rest)
array_items v = none

abbrev string_value : Value → Option Text
string_value (text t) = some t
string_value v = none

abbrev number_value : Value → Option ℕ
number_value (number n) = some (n * 1000)
number_value v = none

abbrev integer_value : Value → Option (Option ℕ)
integer_value (integer n) = some (some n)
integer_value v = none

abbrev pub values : Jansson ℕ
values = record {
  Json = Value;
  object_get = object_get;
  is_object = is_object;
  array_items = array_items;
  string_value = string_value;
  number_value = number_value;
  integer_value = integer_value;
}
