-- ===== src/Sync/Coordinator.antt =====
-- crates/polybase/src/sync/coordinator.rs: writes, deletes and merges, over the interfaces of the
-- store, the queue, the network and the clock. What a call does outside is a list of steps.
pub mod Order
pub mod Durable
pub mod Remote
pub mod Delete
pub mod Tombstone
use polykit_rust.Prelude.{
  ℕ, String, ◌==◌, Bool, true, false, Option, none, some, List, [], ◌∷◌, ◌++◌, filter_map,
  if◌then◌else◌,
}
use polykit_rust.Prelude.Int.{ℤ, pos}
use polykit_rust.Prelude.Assoc
use polykit_rust.Prelude.Result.{Result, ok, err, ◌>>=◌, ok_or, map_err}
use polykit_rust.Json.{
  Value, Record, to_fields, as_str, as_bool, as_i64, as_object, object, string, int, bool,
}
use polykit_rust.Errors.{
  PolyError, no_session, http, edge, push, registry, offline_queue, EdgeError, PushError,
  same_version_mutation_ignored, OfflineQueueError, table_not_registered, missing_field,
}
use polykit_rust.Errors.Edge as EdgeErrors
use polykit_rust.Errors.Push as PushErrors
use polykit_rust.Errors.Show.{to_string}
use polykit_rust.Client.{ClientConfig, Request, Send}
use polykit_rust.Edge
use polykit_rust.Edge.{RawEnvelope, call_request, call_outcome, with_op}
use polykit_rust.Encryption.Codec.{Codec}
use polykit_rust.Registry.{
  EntityConfig, WritePath, postgrest, edge, Clock, unwrap_or, map_remote_to_local,
  tombstone_updated_at_value,
}
use polykit_rust.Registry.Serialize.{serialize_for_remote, decrypt_record_columns}
use polykit_rust.Registry.Catalog.{Registry, config_for_table}
use polykit_rust.Events.{PolyEvent, offline_queue_changed, kvs_changed, version_regression_detected}
use polykit_rust.Auth.{SessionPayload}
use polykit_rust.Persistence.{LocalStore}
use polykit_rust.Kvs.{kvs_table, decode_id}
use polykit_rust.OfflineQueue.{QueuedOperation, QueuedOperationKind, write, tombstone}
use polykit_rust.Sync.Echo.{EchoTracker, mark_pushed}
use polykit_rust.Sync.Planner.{VersionTriple, ReconcilePlan, make_plan}
use polykit_rust.Sync.Push.{upsert, upsert_request, update_tombstone, tombstone_request}

-- the methods of the queue that the coordinator calls
pub record OfflineQueue {ℓ} (Q : Type ℓ) : Type ℓ where
  pub enqueue : QueuedOperation → Q → Result OfflineQueueError Q
  pub depth : Q → Result OfflineQueueError ℕ

-- What a call does outside: it writes to the store, marks an echo, sends, enqueues, publishes.
pub data Step : Type 0 where
  upserted : String → Record → Step
  marked_deleted : String → String → ℤ → Step
  marked : String → String → Step
  sent : Request → Step
  enqueued : QueuedOperation → Step
  published : PolyEvent → Step

-- What a coordinator is built with, and what it reads from outside in one call.
pub record Env (S Q : Type 0) : Type 0 where
  pub config : ClientConfig
  pub registry : Registry
  pub session : Option SessionPayload
  pub encryption : Option Codec
  pub send : Send
  pub from_str : String → Result String RawEnvelope
  pub generated : String × String
  pub clock : Clock
  pub store : LocalStore S
  pub offline : OfflineQueue Q

pub record World (S Q : Type 0) : Type 0 where
  pub local : S
  pub queue : Q
  pub echo : EchoTracker
  pub steps : List Step

unfoldable pub is_transient : PolyError → Bool
is_transient (PolyError.edge (EdgeError.transient f m)) = true
is_transient (PolyError.edge (EdgeError.forbidden f m)) = true
is_transient (push (PushError.transient t m)) = true
is_transient (http m) = true
is_transient _ = false

unfoldable pub is_version_regression : PolyError → Bool
is_version_regression (push e) = PushErrors.is_version_regression e
is_version_regression (PolyError.edge e) = EdgeErrors.is_version_regression e
is_version_regression _ = false

-- the pattern of the arm for a benign rejection
unfoldable pub is_ignored : PolyError → Bool
is_ignored (push (same_version_mutation_ignored t)) = true
is_ignored _ = false

-- `record.get(key).and_then(Value::as_str)`
unfoldable pub str_at : String → Record → Option String
unfolding Assoc.get
str_at key r = elim (Assoc.get key r) [ none ↦ none | some v ↦ as_str v ]

-- the events of `publish_kvs_event`
unfoldable pub kvs_events : Record → Bool → List Step
unfolding str_at
kvs_events r deleted = elim (str_at "namespace" r) [
  | none ↦ []
  | some namespace ↦ elim (str_at "key" r) [
    | none ↦ []
    | some key ↦ published (kvs_changed namespace key deleted) ∷ []
  ]
]

-- the `KvsChanged` of a write or a merge, for its table alone
abbrev pub kvs_steps : String → Record → Bool → List Step
kvs_steps table r deleted = if table == kvs_table then kvs_events r deleted else []

-- A write that passed the guards: its entity, its id, its session, and its payload for the wire.
pub record Prepared : Type 0 where
  pub entity : EntityConfig
  pub entity_id : String
  pub session : SessionPayload
  pub payload : Record

-- What a network attempt did, and how it ended.
pub record Dispatch : Type 0 where
  pub steps : List Step
  pub echo : EchoTracker
  pub result : Result PolyError (Unit {0})

module _ {S Q : Type 0} (env : Env S Q) where
  unfoldable pub prepare : String → Record → Result PolyError Prepared
  unfolding str_at serialize_for_remote Assoc.get
  prepare table r = do
    entity ← ok_or (registry (table_not_registered table)) (config_for_table table env.registry)
    entity_id ← ok_or (registry (missing_field table "id")) (str_at "id" r)
    session ← ok_or no_session env.session
    payload ← map_err registry (serialize_for_remote env.encryption session.user_id entity r)
    ok (record { entity = entity; entity_id = entity_id; session = session; payload = payload })

  abbrev pub edge_dispatch : Edge.EdgeRequest → String → String → String → EchoTracker → Dispatch
  edge_dispatch request table entity_id access_token echo =
      let req = call_request env.config request env.generated access_token in
      record {
        steps = marked table entity_id ∷ sent req ∷ [];
        echo = mark_pushed env.clock.instant table entity_id echo;
        result = elim (call_outcome env.from_str request.function (env.send req)) [
          | ok done ↦ ok tt
          | err e ↦ err (PolyError.edge e)
        ];
      }

  -- the `match config.write_path` of a write
  unfoldable pub dispatch_write : String → Option String → Prepared → EchoTracker → Dispatch
  unfolding upsert call_outcome mark_pushed
  dispatch_write table op w echo = elim w.entity.write_path [
    | postgrest ↦
        let token = w.session.access_token in
        let (echo', result) =
          upsert env.config env.send env.clock.instant table w.payload w.entity.conflict_target
            token echo in
        record {
          steps = elim (str_at "id" w.payload) [
            | none ↦ []
            | some id ↦
                marked table id
                ∷ sent (upsert_request env.config table w.payload w.entity.conflict_target token)
                ∷ []
          ];
          echo = echo';
          result = result;
        }
    | edge function default_op ↦
        let chosen = unwrap_or default_op op in
        edge_dispatch (with_op chosen (Edge.new function (object (to_fields w.payload)))) table
          w.entity_id w.session.access_token echo
  ]

  -- Enqueue an operation after a passing failure, and tell of the queue's depth.
  unfoldable pub enqueue_failed :
      QueuedOperation → List Step → World S Q → World S Q × Result PolyError (Unit {0})
  enqueue_failed op more w = elim (env.offline.enqueue op w.queue) [
    | err e ↦ (w, err (offline_queue e))
    | ok q ↦
        let depth : ℕ = elim (env.offline.depth q) [ ok n ↦ n | err e ↦ 0 ] in
        (
          record w {
            queue = q;
            steps = w.steps ++ (enqueued op ∷ published (offline_queue_changed depth false) ∷ more);
          },
          ok tt,
        )
  ]

  abbrev pub queued_write : String → Prepared → PolyError → QueuedOperation
  queued_write table p e = record {
    table = table;
    entity_id = p.entity_id;
    kind = write (object (to_fields p.payload));
    queued_at_micros = env.clock.micros;
    retry_count = 0;
    last_error = some (to_string e);
  }

  -- the last arms of the `match result` of a write and of a delete
  unfoldable pub settle_failure :
      String
      → String
      → PolyError
      → QueuedOperation
      → List Step
      → World S Q
      → World S Q × Result PolyError (Unit {0})
  unfolding is_transient is_version_regression enqueue_failed
  settle_failure table entity_id e op more w =
      if is_transient e then enqueue_failed op more w else (
        (if is_version_regression e
            then record w {
              steps = w.steps ++ published (version_regression_detected table entity_id) ∷ [];
            }
            else w),
        err e,
      )

  unfoldable pub settle_write :
      String
      → Prepared
      → Result PolyError (Unit {0})
      → World S Q
      → World S Q × Result PolyError (Unit {0})
  unfolding settle_failure kvs_events to_string is_ignored
  settle_write table p (ok u) w =
      (record w { steps = w.steps ++ kvs_steps table p.payload false }, ok tt)
  settle_write table p (err e) w =
      if is_ignored e
      then (record w { steps = w.steps ++ kvs_steps table p.payload false }, ok tt)
      else settle_failure table p.entity_id e (queued_write table p e)
          (kvs_steps table p.payload false) w

  -- the part of a write after the local mirror has it
  abbrev pub push_write :
      String → Option String → Prepared → World S Q → World S Q × Result PolyError (Unit {0})
  push_write table op p w =
      let d = dispatch_write table op p w.echo in
      settle_write table p d.result (record w { echo = d.echo; steps = w.steps ++ d.steps })

  unfoldable pub persist_change_with_op :
      String → Record → Option String → World S Q → World S Q × Result PolyError (Unit {0})
  unfolding prepare dispatch_write settle_write
  persist_change_with_op table r op w = elim (prepare table r) [
    | err e ↦ (w, err e)
    | ok p ↦
        let local_record = map_remote_to_local p.entity p.payload in
        elim (env.store.upsert_record table local_record w.local) [
          | err e ↦ (w, err e)
          | ok l ↦
              push_write table op p
                (record w { local = l; steps = w.steps ++ upserted table local_record ∷ [] })
        ]
  ]

  abbrev pub persist_change : String → Record → World S Q → World S Q × Result PolyError (Unit {0})
  persist_change table r w = persist_change_with_op table r none w
