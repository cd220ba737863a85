-- ===== src/Registry/Schema.antt =====
-- crates/polybase/src/registry/schema.rs, and the comparison of a snapshot with the registry in
-- crates/polybase/src/registry/mod.rs. A map that is collected keeps the last value of a key.
pub mod Collected
pub mod Drift
pub mod Reported
use Prim.Native.String.{◌++◌}
use polykit_rust.Prelude.{
  ℕ, String, Bool, true, false, ◌||◌, Option, none, some, List, [], ◌∷◌, map, retain, filter_map,
  if◌then◌else◌,
}
use mathlib.Core.List
use polykit_rust.Prelude.Text.{codes, codes_eq, to_ascii_lowercase, trim}
use polykit_rust.Prelude.Assoc
use polykit_rust.Prelude.Assoc.{Assoc}
use polykit_rust.Prelude.Result.{Result, ok, err}
use polykit_rust.Json.{Value, Record, as_str, as_object}
use polykit_rust.Errors.{RegistryError, invalid_remote_schema}
use polykit_rust.Registry.{ColumnDef, EntityConfig, is_synced, unwrap_or}
use polykit_rust.Registry.Catalog.{Registry}

pub record ColumnShape : Type 0 where
  pub name : String
  pub data_type : String

pub record TableShape : Type 0 where
  pub columns : List ColumnShape

pub record SchemaSnapshot : Type 0 where
  pub tables : Assoc TableShape

-- `collect` of pairs into a map, onto the map that is given
unfoldable pub collect {ℓ} : {V : Type ℓ} → List (String × V) → Assoc V → Assoc V
unfolding Assoc.insert
collect [] m = m
collect (e ∷ es) m = collect es (Assoc.insert e.0 e.1 m)

abbrev pub shape_pair : ColumnShape → String × String
shape_pair column = (column.name, column.data_type)

abbrev pub column_map : TableShape → Assoc String
column_map shape = collect (map shape_pair shape.columns) []

-- `Value::get` of a key
abbrev pub value_get : String → Value → Option Value
value_get key value = elim (as_object value) [ none ↦ none | some r ↦ Assoc.get key r ]

abbrev pub and_then {ℓ κ} : {A : Type ℓ} {B : Type κ} → Option A → (A → Option B) → Option B
and_then none f = none
and_then (some a) f = f a

abbrev pub or_else {ℓ} : {A : Type ℓ} → Option A → Option A → Option A
or_else none b = b
or_else (some a) b = some a

abbrev pub property_shape : String × Value → ColumnShape
property_shape property = record {
  name = property.0;
  data_type = unwrap_or "unknown" (
      or_else (and_then (value_get "type" property.1) as_str)
        (and_then (value_get "format" property.1) as_str));
}

-- the loop over the schemas, with the map that is built
unfoldable pub openapi_tables : Record → Assoc TableShape → Assoc TableShape
unfolding Assoc.insert Assoc.get
openapi_tables [] tables = tables
openapi_tables (e ∷ es) tables = elim (and_then (value_get "properties" e.1) as_object) [
  | none ↦ openapi_tables es tables
  | some properties ↦
      openapi_tables es
        (Assoc.insert e.0 (record { columns = map property_shape properties }) tables)
]

unfoldable pub from_openapi : Value → Result RegistryError SchemaSnapshot
unfolding openapi_tables Assoc.get
from_openapi value =
    elim (and_then (and_then (value_get "components" value) (value_get "schemas")) as_object) [
      | none ↦ err (invalid_remote_schema "missing components.schemas")
      | some schemas ↦ ok (record { tables = openapi_tables schemas [] })
    ]

abbrev pub is_one_of : List ℕ → List String → Bool
is_one_of text [] = false
is_one_of text (s ∷ ss) = codes_eq text (codes s) || is_one_of text ss

-- The normalized type, by its code points.
unfoldable pub normalize_type : String → List ℕ
unfolding to_ascii_lowercase trim
normalize_type value =
    let lower = to_ascii_lowercase (codes (trim value)) in
    if is_one_of lower ("int" ∷ "integer" ∷ "int8" ∷ "bigint" ∷ [])
    then codes "integer"
    else if is_one_of lower ("real" ∷ "float" ∷ "double" ∷ "double precision" ∷ [])
    then codes "real"
    else if is_one_of lower ("bool" ∷ "boolean" ∷ [])
    then codes "boolean"
    else if is_one_of lower ("text" ∷ "varchar" ∷ "character varying" ∷ "string" ∷ [])
    then codes "string"
    else lower

pub data SchemaLocation : Type 0 where
  local remote : SchemaLocation

abbrev pub remote_column : ColumnDef → Option (String × String)
remote_column column = elim column.remote_name [
  | none ↦ none
  | some name ↦ some (name, unwrap_or "unknown" column.remote_type)
]

-- the columns of the wire, with that of the user
unfoldable pub remote_columns : EntityConfig → List (String × String)
unfolding filter_map
remote_columns config =
    let columns = filter_map remote_column config.columns in
    if config.include_user_id
    then (elim config.user_id_column [
      | none ↦ columns
      | some user_id_column ↦ List.◌++◌ columns ((user_id_column, "string") ∷ [])
    ])
    else columns

abbrev pub expected_columns : SchemaLocation → EntityConfig → List (String × String)
expected_columns local config = map (λ c. (c.local_name, c.sql_type)) config.columns
expected_columns remote config = remote_columns config

abbrev pub concerns : SchemaLocation → EntityConfig → Bool
concerns local config = true
concerns remote config = is_synced config

abbrev pub values : Assoc EntityConfig → List EntityConfig
values by_table = map (λ e. e.1) by_table

abbrev pub remote_entry : EntityConfig → String × TableShape
remote_entry config = (
  config.table_name,
  record { columns = map (λ c. record { name = c.0; data_type = c.1 }) (remote_columns config) },
)

abbrev pub build_remote_snapshot_from_registry : Registry → SchemaSnapshot
build_remote_snapshot_from_registry inner = record {
  tables = collect (map remote_entry (retain is_synced (values inner.by_table))) [];
}

abbrev pub mismatch : String → String → String → String → String
mismatch table column expected found =
    "table '"
    ++ (table
        ++ ("' column '"
            ++ (column ++ ("' type mismatch: expected " ++ (expected ++ (", found " ++ found))))))

-- what is reported of one expected column
unfoldable pub column_issue : String → Assoc String → String × String → List String
unfolding Assoc.get normalize_type
column_issue table actual expected = elim (Assoc.get expected.0 actual) [
  | none ↦ ("table '" ++ (table ++ ("' missing column: " ++ expected.0))) ∷ []
  | some found ↦
      if codes_eq (normalize_type expected.1) (normalize_type found)
      then []
      else mismatch table expected.0 expected.1 found ∷ []
]

unfoldable pub column_issues : String → Assoc String → List (String × String) → List String
unfolding column_issue
column_issues table actual [] = []
column_issues table actual (e ∷ es) =
    List.◌++◌ (column_issue table actual e) (column_issues table actual es)

unfoldable pub table_issues : SchemaLocation → SchemaSnapshot → EntityConfig → List String
unfolding column_issues Assoc.get collect remote_columns
table_issues location snapshot config = elim (Assoc.get config.table_name snapshot.tables) [
  | none ↦ ("missing table: " ++ config.table_name) ∷ []
  | some shape ↦
      column_issues config.table_name (column_map shape) (expected_columns location config)
]

unfoldable pub all_issues : SchemaLocation → SchemaSnapshot → List EntityConfig → List String
unfolding table_issues
all_issues location snapshot [] = []
all_issues location snapshot (c ∷ cs) =
    List.◌++◌ (table_issues location snapshot c) (all_issues location snapshot cs)

abbrev pub validate_schema : SchemaLocation → SchemaSnapshot → Registry → List String
validate_schema location snapshot inner =
    all_issues location snapshot (retain (concerns location) (values inner.by_table))

abbrev pub validate_local_schema_snapshot : SchemaSnapshot → Registry → List String
validate_local_schema_snapshot snapshot inner = validate_schema local snapshot inner

abbrev pub validate_remote_schema_snapshot : SchemaSnapshot → Registry → List String
validate_remote_schema_snapshot snapshot inner = validate_schema remote snapshot inner
