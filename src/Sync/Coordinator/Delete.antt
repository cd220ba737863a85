-- ===== src/Sync/Coordinator/Delete.antt =====
-- `delete` of crates/polybase/src/sync/coordinator.rs.
use polykit_rust.Prelude.{String, ◌==◌, true, none, some, List, [], ◌∷◌, ◌++◌, if◌then◌else◌}
use polykit_rust.Prelude.Int.{ℤ}
use polykit_rust.Prelude.Assoc
use polykit_rust.Prelude.Result.{Result, ok, err}
use polykit_rust.Json.{object, to_fields, string, int, bool}
use polykit_rust.Errors.{PolyError, no_session, registry, table_not_registered}
use polykit_rust.Errors.Show.{to_string}
use polykit_rust.Edge
use polykit_rust.Edge.{with_op, call_outcome}
use polykit_rust.Registry.{EntityConfig, postgrest, edge, tombstone_updated_at_value}
use polykit_rust.Registry.Catalog.{config_for_table}
use polykit_rust.Events.{kvs_changed}
use polykit_rust.Kvs.{kvs_table, decode_id}
use polykit_rust.OfflineQueue.{QueuedOperation, tombstone}
use polykit_rust.Sync.Echo.{EchoTracker, mark_pushed}
use polykit_rust.Sync.Push.{update_tombstone, tombstone_request}
use polykit_rust.Auth.{SessionPayload}
use polykit_rust.Sync.Coordinator.{
  Step, marked_deleted, marked, sent, published, Env, World, Dispatch, is_ignored, settle_failure,
  edge_dispatch,
}

-- the `KvsChanged` of a deleted key
unfoldable pub deleted_steps : String → String → List Step
unfolding decode_id
deleted_steps table entity_id =
    if table == kvs_table
    then (elim (decode_id entity_id) [
      | none ↦ []
      | some (namespace, key) ↦ published (kvs_changed namespace key true) ∷ []
    ])
    else []

module _ {S Q : Type 0} (env : Env S Q) where
  -- the `match config.write_path` of a delete
  unfoldable pub dispatch_delete :
      String → String → ℤ → EntityConfig → SessionPayload → EchoTracker → Dispatch
  unfolding update_tombstone call_outcome mark_pushed tombstone_updated_at_value
  dispatch_delete table entity_id version entity session echo = elim entity.write_path [
    | postgrest ↦
        let updated_at = tombstone_updated_at_value env.clock entity in
        let token = session.access_token in
        let (echo', result) =
          update_tombstone env.config env.send env.clock.instant table entity_id version updated_at
            token echo in
        record {
          steps =
              marked table entity_id
              ∷ sent (tombstone_request env.config table entity_id version updated_at token)
              ∷ [];
          echo = echo';
          result = result;
        }
    | edge function default_op ↦
        let payload = object (
          to_fields
            (("id", string entity_id) ∷ ("version", int version) ∷ ("deleted", bool true) ∷ [])) in
        edge_dispatch env (with_op "delete" (Edge.new function payload)) table entity_id
          session.access_token echo
  ]

  abbrev pub queued_tombstone : String → String → ℤ → PolyError → QueuedOperation
  queued_tombstone table entity_id version e = record {
    table = table;
    entity_id = entity_id;
    kind = tombstone version;
    queued_at_micros = env.clock.micros;
    retry_count = 0;
    last_error = some (to_string e);
  }

  unfoldable pub settle_delete :
      String
      → String
      → ℤ
      → Result PolyError (Unit {0})
      → World S Q
      → World S Q × Result PolyError (Unit {0})
  unfolding settle_failure deleted_steps is_ignored to_string
  settle_delete table entity_id version (ok u) w =
      (record w { steps = w.steps ++ deleted_steps table entity_id }, ok tt)
  settle_delete table entity_id version (err e) w =
      if is_ignored e
      then (w, ok tt)
      else settle_failure env table entity_id e (queued_tombstone table entity_id version e) [] w

  -- the part of a delete after the local mirror has it
  abbrev pub push_delete :
      String
      → String
      → ℤ
      → EntityConfig
      → SessionPayload
      → World S Q
      → World S Q × Result PolyError (Unit {0})
  push_delete table entity_id version entity session w =
      let d = dispatch_delete table entity_id version entity session w.echo in
      settle_delete table entity_id version d.result
        (record w { echo = d.echo; steps = w.steps ++ d.steps })

  unfoldable pub delete : String → String → ℤ → World S Q → World S Q × Result PolyError (Unit {0})
  unfolding dispatch_delete settle_delete Assoc.get
  delete table entity_id version w = elim (config_for_table table env.registry) [
    | none ↦ (w, err (registry (table_not_registered table)))
    | some entity ↦ elim env.session [
      | none ↦ (w, err no_session)
      | some session ↦ elim (env.store.mark_deleted table entity_id version w.local) [
        | err e ↦ (w, err e)
        | ok l ↦
            push_delete table entity_id version entity session (record w {
              local = l;
              steps = w.steps ++ marked_deleted table entity_id version ∷ [];
            })
      ]
    ]
  ]
