-- ===== src/Json.antt =====
-- `serde_json::Value`, and the accessors that the commands use. The parser is a parameter of what
-- calls it.
use ad_block.Base.{ℕ, Bool, true, false, List, [], ◌∷◌, Option, none, some, if◌then◌else◌}
use ad_block.Text.{Text, text_eq}

-- `number` has the value when it is a non-negative 64-bit integer.
mutual
  pub data Value : Type 0 where
    null : Value
    boolean : Bool → Value
    number : Option ℕ → Value
    string : Text → Value
    array : Values → Value
    object : Fields → Value

  pub data Values : Type 0 where
    end_of_array : Values
    value_then : Value → Values → Values

  pub data Fields : Type 0 where
    end_of_object : Fields
    field_then : Text → Value → Fields → Fields

unfoldable pub get_field : Text → Fields → Option Value
get_field key end_of_object = none
get_field key (field_then k v fields) =
    let rest = get_field key fields in if text_eq k key then some v else rest

unfoldable pub get : Text → Value → Option Value
unfolding get_field
get key (object fields) = get_field key fields
get key null = none
get key (boolean b) = none
get key (number n) = none
get key (string t) = none
get key (array vs) = none

abbrev pub as_str : Option Value → Option Text
as_str none = none
as_str (some (string t)) = some t
as_str (some null) = none
as_str (some (boolean b)) = none
as_str (some (number n)) = none
as_str (some (array vs)) = none
as_str (some (object fields)) = none

abbrev pub as_bool : Option Value → Option Bool
as_bool none = none
as_bool (some (boolean b)) = some b
as_bool (some null) = none
as_bool (some (string t)) = none
as_bool (some (number n)) = none
as_bool (some (array vs)) = none
as_bool (some (object fields)) = none

abbrev pub as_u64 : Option Value → Option ℕ
as_u64 none = none
as_u64 (some (number n)) = n
as_u64 (some null) = none
as_u64 (some (boolean b)) = none
as_u64 (some (string t)) = none
as_u64 (some (array vs)) = none
as_u64 (some (object fields)) = none

abbrev pub as_array : Option Value → Option Values
as_array none = none
as_array (some (array vs)) = some vs
as_array (some null) = none
as_array (some (boolean b)) = none
as_array (some (number n)) = none
as_array (some (string t)) = none
as_array (some (object fields)) = none

-- The strings of an array.
unfoldable pub strings : Values → List Text
strings end_of_array = []
strings (value_then v vs) = elim (as_str (some v)) [ some t ↦ t ∷ strings vs | none ↦ strings vs ]

-- `v.get(key).and_then(Value::as_bool) == Some(true)`
abbrev pub is_true : Option Bool → Bool
is_true (some true) = true
is_true (some false) = false
is_true none = false
