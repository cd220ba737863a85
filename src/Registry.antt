-- ===== src/Registry.antt =====
-- crates/polybase/src/registry/mod.rs: the entities of an app, and how their rows are renamed and
-- prepared for the wire.
pub mod Mapping
pub mod Serialize
pub mod Catalog
pub mod Builders
pub mod Schema
use polykit_rust.Prelude.{
  ℕ, ◌+◌, String, ◌==◌, Bool, true, false, not, ◌&&◌, ◌||◌, Option, none, some, List, [], ◌∷◌, ◌++◌,
  map, retain, filter_map, if◌then◌else◌,
}
use polykit_rust.Prelude.Int.{ℤ}
use polykit_rust.Prelude.Text.{codes, to_ascii_uppercase, codes_eq}
use polykit_rust.Prelude.Assoc
use polykit_rust.Prelude.Assoc.{Assoc}
use polykit_rust.Prelude.Result.{Result, ok, err, ok_or, ◌>>=◌}
use polykit_rust.Json.{Value, Record, string, int}
use polykit_rust.Errors.{RegistryError, encryption_failed, factory_failed, table_not_registered}
use polykit_rust.Encryption.{is_encrypted}
use polykit_rust.Encryption.Codec.{Codec}

pub data TableScope : Type 0 where
  synced local_only : TableScope

-- function and default operation
pub data WritePath : Type 0 where
  postgrest : WritePath
  edge : String → String → WritePath

pub record ColumnDef : Type 0 where
  pub canonical_name : String
  pub local_name : String
  pub remote_name : Option String
  pub sql_type : String
  pub remote_type : Option String
  pub encrypted : Bool

abbrev pub unwrap_or {ℓ} : {A : Type ℓ} → A → Option A → A
unwrap_or d none = d
unwrap_or d (some a) = a

abbrev pub effective_remote_name : ColumnDef → String
effective_remote_name c = unwrap_or c.canonical_name c.remote_name

pub record ParentRelation : Type 0 where
  pub parent_table : String
  pub parent_id_column : String

abbrev pub FactoryFn : Type 0
FactoryFn = Record → Result RegistryError Value

pub record EntityConfig : Type 0 where
  pub table_name : String
  pub entity_type_name : Option String
  pub columns : List ColumnDef
  pub parent_relation : Option ParentRelation
  pub user_id_column : Option String
  pub include_user_id : Bool
  pub factory : Option FactoryFn
  pub scope : TableScope
  pub write_path : WritePath
  pub conflict_target : String

-- the builders `ColumnDef::synced`, `ColumnDef::local_only`, `EntityConfig::synced` and
-- `EntityConfig::local_only`
abbrev pub synced_column : String → String → String → String → String → Bool → ColumnDef
synced_column canonical_name local_name remote_name sql_type remote_type encrypted = record {
  canonical_name = canonical_name;
  local_name = local_name;
  remote_name = some remote_name;
  sql_type = sql_type;
  remote_type = some remote_type;
  encrypted = encrypted;
}

abbrev pub local_only_column : String → String → ColumnDef
local_only_column name sql_type = record {
  canonical_name = name;
  local_name = name;
  remote_name = none;
  sql_type = sql_type;
  remote_type = none;
  encrypted = false;
}

abbrev pub synced_entity : String → String → EntityConfig
synced_entity table entity_type = record {
  table_name = table;
  entity_type_name = some entity_type;
  columns = [];
  parent_relation = none;
  user_id_column = some "user_id";
  include_user_id = true;
  factory = none;
  scope = synced;
  write_path = postgrest;
  conflict_target = "id";
}

abbrev pub local_only_entity : String → EntityConfig
local_only_entity table = record {
  table_name = table;
  entity_type_name = none;
  columns = [];
  parent_relation = none;
  user_id_column = none;
  include_user_id = false;
  factory = none;
  scope = local_only;
  write_path = postgrest;
  conflict_target = "id";
}

abbrev pub column_names : EntityConfig → List String
column_names config = map (λ c. c.canonical_name) config.columns

abbrev pub local_column_names : EntityConfig → List String
local_column_names config = map (λ c. c.local_name) config.columns

unfoldable pub remote_column_names : EntityConfig → List String
unfolding filter_map
remote_column_names config =
    let names = filter_map (λ c. c.remote_name) config.columns in
    if config.include_user_id
    then (elim config.user_id_column [ some column ↦ names ++ column ∷ [] | none ↦ names ])
    else names

abbrev pub encrypted_columns : EntityConfig → List String
encrypted_columns config = map (λ c. c.canonical_name) (retain (λ c. c.encrypted) config.columns)

abbrev pub is_synced : EntityConfig → Bool
is_synced config = elim config.scope [ synced ↦ true | local_only ↦ false ]

-- What the code reads of `SystemTime`, `Utc` and `Instant`.
pub record Clock : Type 0 where
  pub micros : ℤ
  pub millis : ℤ
  pub rfc3339 : String
  pub instant : ℕ

find_column : String → List ColumnDef → Option ColumnDef
find_column name [] = none
find_column name (c ∷ cs) = if c.canonical_name == name then some c else find_column name cs

abbrev is_integer_type : String → Bool
is_integer_type sql_type =
    let upper = to_ascii_uppercase (codes sql_type) in
    codes_eq upper (codes "INTEGER")
    || codes_eq upper (codes "BIGINT")
    || codes_eq upper (codes "INT")
    || codes_eq upper (codes "INT64")

unfoldable pub tombstone_updated_at_value : Clock → EntityConfig → Value
unfolding find_column to_ascii_uppercase
tombstone_updated_at_value clock config = elim (find_column "updated_at" config.columns) [
  | none ↦ string clock.rfc3339
  | some column ↦ if is_integer_type column.sql_type then int clock.millis else string clock.rfc3339
]

-- `if let Some(value)` of a lookup, `insert` it
unfoldable pub copy : String → Option Value → Record → Record
unfolding Assoc.insert
copy key none target = target
copy key (some value) target = Assoc.insert key value target

-- the loops of both mappings, with the map that is built
unfoldable pub remote_to_local : List ColumnDef → Record → Record → Record
unfolding Assoc.get copy
remote_to_local [] remote local = local
remote_to_local (c ∷ cs) remote local = elim c.remote_name [
  | none ↦ remote_to_local cs remote local
  | some remote_name ↦
      remote_to_local cs remote (copy c.local_name (Assoc.get remote_name remote) local)
]

unfoldable pub local_to_remote : List ColumnDef → Record → Record → Record
unfolding Assoc.get copy
local_to_remote [] local remote = remote
local_to_remote (c ∷ cs) local remote = elim c.remote_name [
  | none ↦ local_to_remote cs local remote
  | some remote_name ↦
      local_to_remote cs local (copy remote_name (Assoc.get c.local_name local) remote)
]

abbrev pub map_remote_to_local : EntityConfig → Record → Record
map_remote_to_local config remote = remote_to_local config.columns remote []

abbrev pub map_local_to_remote : EntityConfig → Record → Record
map_local_to_remote config local = local_to_remote config.columns local []

unfoldable pub create_entity : EntityConfig → Record → Result RegistryError Value
create_entity config record_ = elim config.factory [
  | none ↦ err (factory_failed config.table_name "no factory registered")
  | some factory ↦ factory record_
]
