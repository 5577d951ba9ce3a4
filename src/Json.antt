-- ===== src/Json.antt =====
-- `serde_json::Value` as the code reads it: the constructors that it matches on, and the readers
-- `get`, `as_str` and `is_object`. A number is kept as its text.
use dravr_tronc.Common.{
  Bool, true, false, Option, none, some, String, ◌==◌, string_eq, if◌then◌else◌, ◌||◌,
}

mutual
  pub data Value : Type 0 where
    null : Value
    boolean : Bool → Value
    number : String → Value
    string : String → Value
    array : Items → Value
    object : Fields → Value

  pub data Items : Type 0 where
    nil : Items
    cons : Value → Items → Items

  pub data Fields : Type 0 where
    end : Fields
    field : String → Value → Fields → Fields

-- `Map::get`.
abbrev pub get_field : String → Fields → Option Value
get_field k end = none
get_field k (field j v fs) = if j == k then some v else get_field k fs

-- `Value::get` with a text for its index: `None` on anything but an object.
abbrev pub get : String → Value → Option Value
get k (object fs) = get_field k fs
get k _ = none

abbrev pub is_object : Value → Bool
is_object (object fs) = true
is_object _ = false

abbrev pub as_object : Value → Option Fields
as_object (object fs) = some fs
as_object _ = none

abbrev pub as_str : Value → Option String
as_str (string s) = some s
as_str _ = none

abbrev pub is_empty : Fields → Bool
is_empty end = true
is_empty (field k v fs) = false

abbrev pub contains_key : String → Fields → Bool
contains_key k end = false
contains_key k (field j v fs) = (j == k) || contains_key k fs
