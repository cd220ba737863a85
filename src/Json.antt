-- ===== src/Json.antt =====
-- `serde_json::Value` and `serde_json::Map`. A number that is no integer is kept as its text; the
-- code that is modelled asks only for integers.
use polykit_rust.Prelude.{◌^◌, ◌-◌, String, Bool, ◌&&◌, Option, none, some, [], ◌∷◌, if◌then◌else◌}
use polykit_rust.Prelude.Int.{ℤ, pos, negsuc, leb_ℤ}
use polykit_rust.Prelude.Assoc.{Assoc}

mutual
  pub data Value : Type 0 where
    null : Value
    bool : Bool → Value
    int : ℤ → Value
    real : String → Value
    string : String → Value
    array : Items → Value
    object : Fields → Value

  pub data Items : Type 0 where
    nil : Items
    cons : Value → Items → Items

  pub data Fields : Type 0 where
    end : Fields
    field : String → Value → Fields → Fields

-- `Map<String, Value>`
abbrev pub Record : Type 0
Record = Assoc Value

abbrev pub to_fields : Record → Fields
to_fields [] = end
to_fields ((k, v) ∷ r) = field k v (to_fields r)

abbrev pub of_fields : Fields → Record
of_fields end = []
of_fields (field k v r) = (k, v) ∷ of_fields r

-- `Value::as_str`, `as_bool`, `as_i64`, `as_object`
abbrev pub as_str : Value → Option String
as_str (string s) = some s
as_str _ = none

abbrev pub as_bool : Value → Option Bool
as_bool (bool b) = some b
as_bool _ = none

abbrev pub as_i64 : Value → Option ℤ
as_i64 (int z) =
    if leb_ℤ (negsuc (2 ^ 63 - 1)) z && leb_ℤ z (pos (2 ^ 63 - 1)) then some z else none
as_i64 _ = none

abbrev pub as_object : Value → Option Record
as_object (object r) = some (of_fields r)
as_object _ = none
