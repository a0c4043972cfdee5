-- ===== src/Observation/Json.antt =====
-- `serde_json::Value` as the source matches on it and reads it. Parsing is serde_json's own and is a
-- parameter of the definitions that use it.
use open_proxy.Common.{
  ℕ, String, Bool, Option, none, some, List, [], ◌∷◌, if◌then◌else◌, string_eq, ◌==◌,
}

-- A number is one that `as_u64` gives, or another: negative, or with a fraction.
mutual
  pub data Value : Type 0 where
    null : Value
    bool : Bool → Value
    u64 : ℕ → Value
    other_number : Value
    text : String → Value
    array : Items → Value
    object : Fields → Value

  pub data Items : Type 0 where
    end : Items
    item : Value → Items → Items

  pub data Fields : Type 0 where
    close : Fields
    field : String → Value → Fields → Fields

pub elements : Items → List Value
elements end = []
elements (item v vs) = v ∷ elements vs

-- `map.get(key)`
unfoldable pub get_field : String → Fields → Option Value
get_field k close = none
get_field k (field j v fs) = if j == k then some v else get_field k fs

-- `value.get(key)`: `None` where the value is no object.
unfoldable pub get : String → Value → Option Value
unfolding get_field
get k (object fs) = get_field k fs
get k null = none
get k (bool b) = none
get k (u64 n) = none
get k other_number = none
get k (text s) = none
get k (array vs) = none

unfoldable pub as_array : Value → Option (List Value)
unfolding elements
as_array (array vs) = some (elements vs)
as_array null = none
as_array (bool b) = none
as_array (u64 n) = none
as_array other_number = none
as_array (text s) = none
as_array (object fs) = none

unfoldable pub as_object : Value → Option Fields
as_object (object fs) = some fs
as_object null = none
as_object (bool b) = none
as_object (u64 n) = none
as_object other_number = none
as_object (text s) = none
as_object (array vs) = none

unfoldable pub as_u64 : Value → Option ℕ
as_u64 (u64 n) = some n
as_u64 null = none
as_u64 (bool b) = none
as_u64 other_number = none
as_u64 (text s) = none
as_u64 (array vs) = none
as_u64 (object fs) = none

unfoldable pub as_str : Value → Option String
as_str (text s) = some s
as_str null = none
as_str (bool b) = none
as_str (u64 n) = none
as_str other_number = none
as_str (array vs) = none
as_str (object fs) = none

-- `None` and `null` are both no reading.
unfoldable pub present : Option Value → Option Value
present none = none
present (some null) = none
present (some (bool b)) = some (bool b)
present (some (u64 n)) = some (u64 n)
present (some other_number) = some other_number
present (some (text s)) = some (text s)
present (some (array vs)) = some (array vs)
present (some (object fs)) = some (object fs)
