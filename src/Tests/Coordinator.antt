-- ===== src/Tests/Coordinator.antt =====
-- The theorems on writes at a concrete coordinator, whose server cannot be reached or refuses.
use polykit_rust.Prelude.{◌≡◌, ◌⊎◌, refl, true, false, none, some, List, [], ◌∷◌, ◌++◌}
use polykit_rust.Prelude.Int.{pos}
use polykit_rust.Prelude.Result.{ok, err}
use polykit_rust.Json.{Record, string, object, to_fields}
use polykit_rust.Errors.{PolyError, push, PushError}
use polykit_rust.Contract.Message.{is_same_version_mutation_message}
use polykit_rust.Persistence.{null_local_store}
use polykit_rust.Client.{Send, status_text}
use polykit_rust.Registry.{EntityConfig, synced_entity, synced_column, map_remote_to_local}
use polykit_rust.OfflineQueue.{QueuedOperation, MemoryQueue, write, tombstone}
use polykit_rust.OfflineQueue.Lookup.{key_of, find}
use polykit_rust.Kvs.{encode_id, decode_id}
use polykit_rust.Kvs.Ids.{decode_id-encode_id}
use polykit_rust.Sync.Echo.{with_default_window}
use polykit_rust.Auth.{SessionPayload}
use polykit_rust.Sync.Coordinator.{
  Step, Env, World, Prepared, prepare, dispatch_write, persist_change_with_op,
}
use polykit_rust.Registry.Catalog.{config_for_table}
use polykit_rust.Sync.Coordinator.Delete.{dispatch_delete, delete}
use polykit_rust.Sync.Coordinator.Tombstone.{delete-in_order, delete_durable}
use polykit_rust.Sync.Coordinator.Order.{in_order, persist_in_order}
use polykit_rust.Sync.Coordinator.Durable.{memory, accepts, persist_durable}

abbrev notes : EntityConfig
notes = record (synced_entity "notes" "Note") {
  columns = synced_column "id" "id" "id" "TEXT" "string" false ∷ [];
}

abbrev note : Record
note = ("id", string "n1") ∷ []

abbrev env_with : Send → Env Record MemoryQueue
env_with send = record {
  config = record {
    supabase_url = "https://example.supabase.co/";
    supabase_anon_key = "anon";
    encryption_secret = none;
    storage_bucket = none;
  };
  registry = record { by_type = []; by_table = ("notes", notes) ∷ []; table_to_type = [] };
  session = some (record {
    user_id = "ann";
    access_token = "jwt";
    refresh_token = "r";
    expires_at = pos 0;
    updated_at = 1;
  });
  encryption = none;
  send = send;
  from_str = λ body. err "no envelope";
  generated = ("k", "r");
  clock = record { micros = pos 7; millis = pos 0; rfc3339 = "now"; instant = 3 };
  store = record null_local_store { upsert_record = λ table r s. ok r };
  offline = memory;
}

abbrev offline : Env Record MemoryQueue
offline = env_with (λ request. err "no route")

abbrev refusing : Env Record MemoryQueue
refusing = env_with (λ request. ok (record { status = 400; body = ok "value too long" }))

abbrev start : World Record MemoryQueue
start = record { local = []; queue = []; echo = with_default_window; steps = [] }

persist_in_order_example :
    (s : List Step) × ((persist_change_with_op offline "notes" note none start).0.steps ≡ [] ++ s)
    × (in_order 0 s ≡ true)
persist_in_order_example = persist_in_order offline "notes" note none start

abbrev too_long : PolyError
too_long = push (PushError.permanent "notes" "HTTP 400: value too long")

is_refused : (persist_change_with_op refusing "notes" note none start).1 ≡ err too_long
unfolding persist_change_with_op status_text is_same_version_mutation_message
is_refused = refl

succeeds : (persist_change_with_op offline "notes" note none start).1 ≡ ok tt
unfolding persist_change_with_op
succeeds = refl

persist_durable_example :
    let w' = (persist_change_with_op offline "notes" note none start).0 in
    (p : Prepared) × (prepare offline "notes" note ≡ ok p)
    × (offline.store.upsert_record "notes" (map_remote_to_local p.entity p.payload) start.local
        ≡ ok w'.local)
    × (((accepts (dispatch_write offline "notes" none p start.echo).result ≡ true)
          × (w'.queue ≡ start.queue))
        ⊎ ((queued : QueuedOperation) × (find (key_of queued) w'.queue ≡ some queued)
            × (key_of queued ≡ record { table = "notes"; entity_id = p.entity_id })
            × (queued.kind ≡ write (object (to_fields p.payload)))))
persist_durable_example = persist_durable offline "notes" note none start refl succeeds

decode_id-encode_id_example : decode_id (encode_id "prism" "a::b") ≡ some ("prism", "a::b")
decode_id-encode_id_example =
    decode_id-encode_id "prism" "a::b" (refl, (refl, (refl, (refl, (refl, tt)))))

deletes : (delete offline "notes" "n1" (pos 4) start).1 ≡ ok tt
unfolding delete
deletes = refl

delete_durable_example :
    let w' = (delete offline "notes" "n1" (pos 4) start).0 in
    (entity : EntityConfig) × (session : SessionPayload) × (config_for_table "notes"
        offline.registry
      ≡ some entity)
    × (offline.session ≡ some session)
    × (offline.store.mark_deleted "notes" "n1" (pos 4) start.local ≡ ok w'.local)
    × (((queued : QueuedOperation) × (find (key_of queued) w'.queue ≡ some queued)
          × (key_of queued ≡ record { table = "notes"; entity_id = "n1" })
          × (queued.kind ≡ tombstone (pos 4)))
        ⊎ ((accepts (dispatch_delete offline "notes" "n1" (pos 4) entity session start.echo).result
              ≡ true)
            × (w'.queue ≡ start.queue)))
delete_durable_example = delete_durable offline "notes" "n1" (pos 4) start refl deletes

delete-in_order_example :
    (s : List Step) × ((delete offline "notes" "n1" (pos 4) start).0.steps ≡ [] ++ s)
    × (in_order 0 s ≡ true)
delete-in_order_example = delete-in_order offline "notes" "n1" (pos 4) start
