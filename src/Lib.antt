-- ===== src/Lib.antt =====
-- A model of the sync engine of polykit-rust (crates/polybase), and what is proved of it.
--
-- The engine keeps a local mirror of the tables of a Supabase project. A write goes to the mirror
-- first, then to the server, by PostgREST or through an Edge Function; one that fails for a passing
-- reason is queued and replayed later. Rows that the server announces are merged into the mirror,
-- unless they echo a write of this client. A reconcile pass compares the versions of both sides.
--
--   Contract.antt      crates/polybase/src/contract.rs: versions and queue timestamps (Version),
--                      the reconnect ladder (Backoff), the reconcile action of a row (Reconcile),
--                      the finalization of a replayed queue (Finalize), messages and keys (Message)
--   OfflineQueue.antt  crates/polybase/src/offline_queue/mod.rs: the queued operation and MemoryQueue
--   Sync/Reducer.antt  crates/polybase/src/sync/reducer.rs: when a replay is scheduled
--   Sync/Planner.antt  crates/polybase/src/sync/reconcile.rs: the plan of a reconcile pass
--   Sync/Echo.antt     crates/polybase/src/sync/echo.rs: the writes that were pushed lately
--   Sync/Push.antt     crates/polybase/src/sync/push.rs: upserts, tombstones, and their rejection
--   Sync/Coordinator.antt
--                      crates/polybase/src/sync/coordinator.rs: writes (Order, Durable), deletes
--                      (Delete, Tombstone), merges and reconcile plans (Remote)
--   Sync/Remote.antt   crates/polybase/src/sync/remote.rs: the live writer and reader (Echoes, Versions)
--                      and the in-memory pair (Memory)
--   Sync/Pull.antt     crates/polybase/src/sync/pull.rs: the reads of a reconcile pass
--   Auth.antt          crates/polybase/src/auth.rs: the session store, its refresh (Refresh), runs of
--                      both (Run), and what they keep (Watermark, Told, Flight, Cooldown)
--   Edge.antt          crates/polybase/src/edge.rs: calls of Edge Functions
--   Client.antt        crates/polybase/src/client.rs: addresses, requests and replies
--   Errors.antt        crates/polybase/src/errors.rs: the error types
--   Encryption.antt    crates/polybase/src/encryption.rs: the wire format of texts and blobs
--   Registry.antt      crates/polybase/src/registry/mod.rs: entities, renaming (Mapping), the payload
--                      of the wire (Serialize), lookup by table (Catalog)
--   Registry/Schema.antt
--                      crates/polybase/src/registry/schema.rs: snapshots of a schema, and how the registry
--                      compares them (Collected, Drift, Reported)
--   Polylog/Clean.antt crates/polylog/src/clean.rs: the wrappers of debug values
--   Storage.antt       crates/polybase/src/storage.rs: buckets, and what is read back of them (Transfer)
--   Kvs.antt           crates/polybase/src/kvs.rs: the ids of key-value rows (Ids), the methods over the
--                      coordinator (Api), and what they read back (ReadBack)
--   Events.antt        crates/polybase/src/events.rs: the events
--   Persistence.antt   crates/polybase/src/persistence.rs: the store's interface
--   Sqlite.antt        crates/polybase-sqlite/src/queue.rs: the statements on the table (Rows, Lookup), the
--                      queue (Queue), and how it follows the in-memory queue (Loop, View, Refine);
--                      crates/polybase-sqlite/src/store.rs: the local mirror (Store), and what a
--                      key-value row reads back as (Store/Keeps)
--   FileQueue.antt     crates/tauri-plugin-polybase/src/queue_store.rs: the queue in a file, and what
--                      a new process finds there (Restart)
--   Json.antt          the JSON values and records that these exchange
--   Prelude.antt       helpers: lists, integers, texts, maps, sorting, results
--   Tests.antt         the theorems at concrete inputs
--
-- A name of the model is the name of the function or type that it models. A method that changes its
-- object takes the object as its last argument and returns the new one. A method that runs under a
-- lock is one step. An `i64` is an integer whose sums wrap as in a release build; a `u32` is a natural
-- number whose bound is written out where the code saturates. A panic is `none`. A `HashMap` is
-- an association list; nothing depends on the order in which it is iterated. The loops are
-- over lists and need no fuel, but for the loop over wrappers in polylog, which has as much fuel as its
-- text has characters, and each round shortens the text.
--
-- Parameters of the model: sending a request (reqwest), the codec of JSON texts (serde_json), the
-- clocks, the file system, floating-point numbers, what a column of SQLite keeps of a value, and the
-- primitives of encryption (aes_gcm, hkdf, base64, uuid) with the conversions of UTF-8.
-- `Encryption.RoundTrip.Laws` states what is relied on of the last, `Sqlite.Store.Keeps.Affinities`
-- what is relied on of SQLite, and `Storage.Transfer.KeepsObjects` of the storage service.
--
-- The coordinator's store and queue are interfaces (`Persistence.LocalStore`,
-- `Sync.Coordinator.OfflineQueue`); `Sync.Coordinator.Durable.memory` is the in-memory queue as such.
-- What a call does outside is recorded in the order in which it is done, as `Step`s.
--
-- A refresh of the session waits for the network outside the lock, so that it is split into steps:
-- a caller claims the flight, stores its reply, notes it, and gives the flight back, each after any
-- other calls. `finish_refresh` is the last three with nothing in between. What `set_session` and
-- `clear_session` tell the hook and the subscribers is recorded in the store. The finalization of
-- the SQLite queue is a read and a transaction, between which other calls may run.
--
-- Not modelled: realtime delivery, the subscription to key-value changes, the pools of the SQLite
-- store, the commands of the Tauri plugin, what the crate polylog does beyond the wrappers of debug
-- values, and the crate polysym. Failures of the statements on the SQLite queue are not modelled;
-- those of the SQLite store are a parameter, and those of the file system are modelled for the queue
-- in a file.
pub mod Auth
pub mod Client
pub mod Contract
pub mod Edge
pub mod Encryption
pub mod Errors
pub mod Events
pub mod FileQueue
pub mod Json
pub mod Kvs
pub mod OfflineQueue
pub mod Persistence
pub mod Polylog
pub mod Prelude
pub mod Registry
pub mod Sqlite
pub mod Storage
pub mod Sync
pub mod Tests
