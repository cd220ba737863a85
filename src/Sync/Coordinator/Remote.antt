-- ===== src/Sync/Coordinator/Remote.antt =====
-- Rows that come from the server: `decode_remote_record`, `apply_remote_record` and
-- `reconcile_plan_for` of crates/polybase/src/sync/coordinator.rs.
use polykit_rust.Prelude.{String, Bool, false, Option, none, some, List, ◌∷◌, ◌++◌, filter_map}
use polykit_rust.Prelude.Int.{ℤ, pos}
use polykit_rust.Prelude.Assoc
use polykit_rust.Prelude.Result.{Result, ok, err, ◌>>=◌, ok_or}
use polykit_rust.Json.{Value, Record, as_str, as_bool, as_i64, as_object}
use polykit_rust.Errors.{PolyError, no_session, registry, table_not_registered}
use polykit_rust.Registry.{unwrap_or, map_remote_to_local}
use polykit_rust.Registry.Serialize.{decrypt_record_columns, decrypt_columns}
use polykit_rust.Registry.Catalog.{config_for_table}
use polykit_rust.Sync.Planner.{VersionTriple, ReconcilePlan, make_plan}
use polykit_rust.Sync.Coordinator.{Env, World, upserted, kvs_steps, kvs_events}

unfoldable pub bool_at : String → Record → Bool
unfolding Assoc.get
bool_at key r = elim (Assoc.get key r) [ none ↦ false | some v ↦ unwrap_or false (as_bool v) ]

unfoldable pub i64_at : String → Record → ℤ
unfolding Assoc.get
i64_at key r = elim (Assoc.get key r) [ none ↦ pos 0 | some v ↦ unwrap_or (pos 0) (as_i64 v) ]

module _ {S Q : Type 0} (env : Env S Q) where
  unfoldable pub decode_remote_record : String → Record → String → Result PolyError Record
  unfolding decrypt_columns Assoc.get
  decode_remote_record table r user_id = elim env.encryption [
    | none ↦ ok r
    | some enc ↦ elim (config_for_table table env.registry) [
      | none ↦ ok r
      | some entity ↦ decrypt_record_columns entity enc user_id r
    ]
  ]

  unfoldable pub apply_remote_record :
      String → Record → String → World S Q → World S Q × Result PolyError (Unit {0})
  unfolding decrypt_columns kvs_events bool_at Assoc.get
  apply_remote_record table r user_id w = elim (config_for_table table env.registry) [
    | none ↦ (w, err (registry (table_not_registered table)))
    | some entity ↦
        let decrypted : Result PolyError Record = elim env.encryption [
          | none ↦ ok r
          | some enc ↦ decrypt_record_columns entity enc user_id r
        ] in
        elim decrypted [
          | err e ↦ (w, err e)
          | ok plain ↦
              let local_record = map_remote_to_local entity plain in
              elim (env.store.upsert_record table local_record w.local) [
                | err e ↦ (w, err e)
                | ok l ↦ (
                  record w {
                    local = l;
                    steps =
                        w.steps
                        ++ upserted table local_record
                          ∷ kvs_steps table plain (bool_at "deleted" plain);
                  },
                  ok tt,
                )
              ]
        ]
  ]

-- the closure of `filter_map` over the rows of the probe
unfoldable pub version_triple : Value → Option VersionTriple
unfolding i64_at bool_at Assoc.get
version_triple row = elim (as_object row) [
  | none ↦ none
  | some r ↦ elim (Assoc.get "id" r) [
    | none ↦ none
    | some v ↦ elim (as_str v) [
      | none ↦ none
      | some id ↦
          some (record { id = id; version = i64_at "version" r; deleted = bool_at "deleted" r })
    ]
  ]
]

module _ {S Q : Type 0} (env : Env S Q) where
  -- `read_versions` is the puller's probe, for an access token; a plan that panics is `none`.
  unfoldable pub reconcile_plan_for :
      (String → String → Result PolyError (List Value))
      → String
      → List VersionTriple
      → Result PolyError (Option ReconcilePlan)
  unfolding make_plan filter_map version_triple Assoc.get
  reconcile_plan_for read_versions table local_versions = do
    entity ← ok_or (registry (table_not_registered table)) (config_for_table table env.registry)
    session ← ok_or no_session env.session
    remote_rows ← read_versions table session.access_token
    ok (make_plan local_versions (filter_map version_triple remote_rows))
