-- ===== src/Kvs/Api.antt =====
-- The key-value store over the coordinator (crates/polybase/src/kvs.rs). The type that a value is
-- read at is a parameter, with its decoder `from_value`; `from_str` decodes a JSON text.
use polykit_rust.Prelude.{
  String, Bool, true, false, not, Option, none, some, [], ◌∷◌, if◌then◌else◌,
}
use polykit_rust.Prelude.Int.{ℤ, pos, eqb_ℤ, add_i64}
use polykit_rust.Prelude.Parse.{parse_i64}
use polykit_rust.Prelude.Assoc
use polykit_rust.Prelude.Result.{Result, ok, err}
use polykit_rust.Json.{Value, Record, as_bool, as_i64, as_str, string, int, bool}
use polykit_rust.Errors.{PolyError, json}
use polykit_rust.Registry.{EntityConfig, synced_entity, synced_column, unwrap_or}
use polykit_rust.Registry.Catalog.{Registry, register, is_registered_table}
use polykit_rust.Kvs.{kvs_table, encode_id}
use polykit_rust.Sync.Coordinator.{Env, World, persist_change}
use polykit_rust.Sync.Coordinator as Coordinator
use polykit_rust.Sync.Coordinator.Delete as Delete

pub record KvsRow : Type 0 where
  pub namespace : String
  pub key : String
  pub value : Value
  pub version : ℤ
  pub deleted : Bool
  pub updated_at : String

pub record KvsChange : Type 0 where
  pub namespace : String
  pub key : String
  pub deleted : Bool

abbrev pub kvs_entity_config : EntityConfig
kvs_entity_config = record (synced_entity kvs_table "Kvs") {
  columns =
      synced_column "id" "id" "id" "TEXT" "string" false
      ∷ synced_column "namespace" "namespace" "namespace" "TEXT" "string" false
      ∷ synced_column "key" "key" "key" "TEXT" "string" false
      ∷ synced_column "value" "value" "value" "TEXT" "jsonb" false
      ∷ synced_column "version" "version" "version" "INTEGER" "integer" false
      ∷ synced_column "deleted" "deleted" "deleted" "INTEGER" "boolean" false
      ∷ synced_column "updated_at" "updated_at" "updated_at" "TEXT" "string" false
      ∷ [];
  user_id_column = some "user_id";
  include_user_id = true;
  conflict_target = "id,user_id";
}

abbrev pub register_kvs : Registry → Option Registry
unfolding register Assoc.get
register_kvs registry =
    if not (is_registered_table kvs_table registry)
    then register kvs_entity_config registry
    else some registry

-- the flag of a row, which a store may keep as a Boolean or as a number
unfoldable pub is_deleted : Record → Bool
unfolding Assoc.get
is_deleted row = elim (Assoc.get "deleted" row) [
  | none ↦ false
  | some v ↦ elim (as_bool v) [
    | some b ↦ b
    | none ↦ not (eqb_ℤ (unwrap_or (pos 0) (as_i64 v)) (pos 0))
  ]
]

-- the version of a row, a number or the text of one
unfoldable pub version_at : Record → ℤ
unfolding Assoc.get parse_i64
version_at row = elim (Assoc.get "version" row) [
  | none ↦ pos 0
  | some v ↦ elim (as_i64 v) [
    | some n ↦ n
    | none ↦ elim (as_str v) [ none ↦ pos 0 | some s ↦ unwrap_or (pos 0) (parse_i64 s) ]
  ]
]

-- A text is taken for a JSON text, if it is one.
abbrev pub decode_stored : (String → Option Value) → Value → Value
decode_stored from_str v = elim (as_str v) [
  | none ↦ v
  | some text ↦ elim (from_str text) [ some parsed ↦ parsed | none ↦ v ]
]

abbrev pub kvs_record : String → String → Value → ℤ → String → Record
kvs_record namespace key value version updated_at =
    ("id", string (encode_id namespace key))
    ∷ ("namespace", string namespace)
    ∷ ("key", string key)
    ∷ ("value", value)
    ∷ ("version", int version)
    ∷ ("deleted", bool false)
    ∷ ("updated_at", string updated_at)
    ∷ []

module _ {S Q : Type 0} (env : Env S Q) where
  unfoldable pub next_version_for : String → World S Q → Result PolyError ℤ
  unfolding version_at add_i64
  next_version_for id w = elim (env.store.read_record kvs_table id w.local) [
    | err e ↦ err e
    | ok none ↦ ok (pos 1)
    | ok (some row) ↦ ok (add_i64 (version_at row) 1)
  ]

  unfoldable pub get {ℓ} :
      {T : Type ℓ}
      → (String → Option Value)
      → (Value → Result String T)
      → String
      → String
      → World S Q
      → Result PolyError (Option T)
  unfolding encode_id is_deleted Assoc.get
  get from_str from_value namespace key w =
      elim (env.store.read_record kvs_table (encode_id namespace key) w.local) [
        | err e ↦ err e
        | ok none ↦ ok none
        | ok (some row) ↦ if is_deleted row then ok none else (elim (Assoc.get "value" row) [
          | none ↦ ok none
          | some raw ↦ elim (from_value (decode_stored from_str raw)) [
            | err e ↦ err (json e)
            | ok typed ↦ ok (some typed)
          ]
        ])
      ]

  -- `value` is the value that `to_value` makes.
  unfoldable pub set : String → String → Value → World S Q → World S Q × Result PolyError (Unit {0})
  unfolding next_version_for encode_id Coordinator.persist_change_with_op
  set namespace key value w = elim (next_version_for (encode_id namespace key) w) [
    | err e ↦ (w, err e)
    | ok version ↦
        persist_change env kvs_table (kvs_record namespace key value version env.clock.rfc3339) w
  ]

  unfoldable pub delete : String → String → World S Q → World S Q × Result PolyError (Unit {0})
  unfolding next_version_for encode_id Delete.delete
  delete namespace key w = elim (next_version_for (encode_id namespace key) w) [
    | err e ↦ (w, err e)
    | ok version ↦ Delete.delete env kvs_table (encode_id namespace key) version w
  ]
