-- ===== src/Tests/Schema.antt =====
-- The comparison of schemas at concrete inputs.
use polykit_rust.Prelude.{◌≡◌, refl, false, some, [], ◌∷◌}
use polykit_rust.Prelude.Assoc
use polykit_rust.Prelude.Text.{codes}
use polykit_rust.Prelude.Result.{ok}
use polykit_rust.Json.{Value, object, field, end}
use polykit_rust.Registry.{EntityConfig, synced_entity, synced_column}
use polykit_rust.Registry.Builders.{with_columns, write_via_edge}
use polykit_rust.Registry.Catalog.{Registry, new, register_all, config_for_table}
use polykit_rust.Registry.Schema.{
  TableShape, remote, normalize_type, from_openapi, column_map, expected_columns, remote_columns,
  build_remote_snapshot_from_registry, validate_remote_schema_snapshot,
}
use polykit_rust.Registry.Schema.Collected.{HasDistinct}
use polykit_rust.Registry.Schema.Drift.{HasDistinctColumns, registry_without_drift}
use polykit_rust.Registry.Schema.Reported.{IsMatched, silence_means_agreement}

normalize-bigint : normalize_type " BigInt" ≡ codes "integer"
unfolding normalize_type
normalize-bigint = refl

normalize-custom : normalize_type "Custom_type" ≡ codes "custom_type"
unfolding normalize_type
normalize-custom = refl

abbrev things : Value
things = object (
    field "components"
      (object (
        field "schemas"
          (object (
            field "things" (object (field "properties" (object (field "id" (object end) end)) end))
              end))
          end))
      end)

things-unknown :
    from_openapi things
    ≡ ok (record {
      tables =
          ("things", record { columns = record { name = "id"; data_type = "unknown" } ∷ [] }) ∷ [];
    })
unfolding from_openapi
things-unknown = refl

abbrev messages : EntityConfig
messages = write_via_edge "messages-write" "send" (
    with_columns
      (synced_column "id" "id" "id" "TEXT" "string" false
        ∷ synced_column "version" "version" "version" "INTEGER" "integer" false
        ∷ [])
      (synced_entity "messages" "Message"))

messages-HasDistinctColumns : HasDistinctColumns (messages ∷ [])
unfolding HasDistinctColumns HasDistinct remote_columns Assoc.get
messages-HasDistinctColumns = ((refl, (refl, (refl, tt))), tt)

messages_registry : (inner : Registry) × (register_all (messages ∷ []) new ≡ some inner)
unfolding register_all
messages_registry = (_, refl)

registry_without_drift_example :
    validate_remote_schema_snapshot
      (build_remote_snapshot_from_registry messages_registry.0)
      messages_registry.0
    ≡ []
registry_without_drift_example =
    registry_without_drift (messages ∷ []) messages_registry.0 messages-HasDistinctColumns
      messages_registry.1

found : config_for_table "messages" messages_registry.0 ≡ some messages
unfolding messages_registry Assoc.get
found = refl

silence_means_agreement_example :
    (shape : TableShape) × (Assoc.get "messages"
        (build_remote_snapshot_from_registry messages_registry.0).tables
      ≡ some shape)
    × IsMatched (column_map shape) (expected_columns remote messages)
silence_means_agreement_example =
    silence_means_agreement remote (build_remote_snapshot_from_registry messages_registry.0)
      messages_registry.0 "messages" messages found refl registry_without_drift_example
