-- ===== src/Registry/Catalog.antt =====
-- `Registry` of crates/polybase/src/registry/mod.rs. Registering a synced entity that has no type
-- name panics: `none`.
use polykit_rust.Prelude.{
  String, ◌==◌, ◌≡◌, Bool, true, false, Option, none, some, List, [], ◌∷◌, map, arith, Option-cases,
  inl, inr, if◌then◌else◌,
}
use polykit_rust.Prelude.Assoc
use polykit_rust.Prelude.Assoc.{Assoc, get-insert}
use polykit_rust.Prelude.Result.{Result, err}
use polykit_rust.Json.{Record}
use polykit_rust.Errors.{RegistryError, table_not_registered}
use polykit_rust.Encryption.Codec.{Codec}
use polykit_rust.Registry.{EntityConfig, is_synced}
use polykit_rust.Registry.Serialize.{serialize_for_remote}

pub record Registry : Type 0 where
  pub by_type : Assoc EntityConfig
  pub by_table : Assoc EntityConfig
  pub table_to_type : Assoc String

abbrev pub new : Registry
new = record { by_type = []; by_table = []; table_to_type = [] }

unfoldable pub register : EntityConfig → Registry → Option Registry
unfolding Assoc.insert
register config inner =
    let table = config.table_name in
    let by_table = Assoc.insert table config inner.by_table in
    if is_synced config
    then (elim config.entity_type_name [
      | none ↦ none
      | some entity_type ↦ some (record {
        by_type = Assoc.insert entity_type config inner.by_type;
        by_table = by_table;
        table_to_type = Assoc.insert table entity_type inner.table_to_type;
      })
    ])
    else some (record inner { by_table = by_table })

abbrev pub config_for_type : String → Registry → Option EntityConfig
config_for_type entity_type_name inner = Assoc.get entity_type_name inner.by_type

abbrev pub config_for_table : String → Registry → Option EntityConfig
config_for_table table_name inner = Assoc.get table_name inner.by_table

abbrev is_some {ℓ} : {A : Type ℓ} → Option A → Bool
is_some none = false
is_some (some a) = true

abbrev pub is_registered_type : String → Registry → Bool
is_registered_type entity_type_name inner = is_some (Assoc.get entity_type_name inner.by_type)

abbrev pub is_registered_table : String → Registry → Bool
is_registered_table table_name inner = is_some (Assoc.get table_name inner.table_to_type)

abbrev pub registered_tables : Registry → List String
registered_tables inner = map (λ e. e.0) inner.table_to_type

abbrev pub registered_types : Registry → List String
registered_types inner = map (λ e. e.0) inner.by_type

unfoldable pub serialize_remote_payload :
    String → Record → Option Codec → String → Registry → Result RegistryError Record
unfolding serialize_for_remote
serialize_remote_payload table_name payload encryption user_id inner =
    elim (config_for_table table_name inner) [
      | none ↦ err (table_not_registered table_name)
      | some config ↦ serialize_for_remote encryption user_id config payload
    ]

-- Entities that are registered in turn.
unfoldable pub register_all : List EntityConfig → Registry → Option Registry
unfolding register
register_all [] inner = some inner
register_all (c ∷ cs) inner = elim (register c inner) [
  | none ↦ none
  | some inner' ↦ register_all cs inner'
]

-- the last entity of a list with a table
unfoldable pub last_for : String → List EntityConfig → Option EntityConfig
last_for table [] = none
last_for table (c ∷ cs) = elim (last_for table cs) [
  | some d ↦ some d
  | none ↦ if c.table_name == table then some c else none
]

register-config :
    (table : String) (c : EntityConfig) (inner inner' : Registry)
    → register c inner ≡ some inner'
    → config_for_table table inner'
      ≡ (if c.table_name == table then some c else config_for_table table inner)
unfolding register
register-config table c inner inner' h = elim (Option-cases c.entity_type_name) [
  | inl no_type ↦ ground (arith, no_type, get-insert c.table_name table c inner.by_table)
  | inr (t, has) ↦ ground (arith, has, get-insert c.table_name table c inner.by_table)
]

-- Whatever was registered, a table is looked up as the last entity that was registered for it.
pub config_for_table-register_all :
    (table : String) (cs : List EntityConfig) (inner inner' : Registry)
    → register_all cs inner ≡ some inner'
    → config_for_table table inner'
      ≡ elim (last_for table cs) [ some c ↦ some c | none ↦ config_for_table table inner ]
unfolding register_all last_for
config_for_table-register_all table [] inner inner' h = ground arith
config_for_table-register_all table (c ∷ cs) inner inner' h =
    elim (Option-cases (register c inner)) [
      | inl panics ↦ ground (arith, h, panics)
      | inr (next, registered) ↦
          let rest : register_all cs next ≡ some inner' = ground (arith, h, registered) in
          ground (
            arith,
            config_for_table-register_all table cs next inner' rest,
            register-config table c inner next registered,
          )
    ]
