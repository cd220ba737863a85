-- ===== src/FileQueue.antt =====
-- crates/tauri-plugin-polybase/src/queue_store.rs: the queue that is kept in a JSON file. What the
-- file system does in a call, and the JSON codec of a list of operations, are parameters.
pub mod Restart
use polykit_rust.Prelude.{
  ℕ, String, ◌==◌, Bool, true, false, not, ◌&&◌, Option, none, some, List, [], ◌∷◌, ◌++◌, map,
  retain, length, if◌then◌else◌,
}
use polykit_rust.Prelude.Result.{Result, ok, err}
use polykit_rust.Errors.{OfflineQueueError, io, decode}
use polykit_rust.Contract.Finalize.{ContractOperation, holds, finalize_queue_after_processing}
use polykit_rust.OfflineQueue.{QueuedOperation, to_contract, enqueue}
use polykit_rust.OfflineQueue as Memory

pub record FileBackedQueue : Type 0 where
  pub cache : List QueuedOperation
  pub file : Option String  -- the contents of `path`, if it is there
  pub disabled : Bool

-- `serde_json::to_vec` and `from_slice`
pub record ListCodec : Type 0 where
  pub to_vec : List QueuedOperation → Result String String
  pub from_slice : String → Result String (List QueuedOperation)

-- What the file system does in a call. A write that fails has an error, and leaves something.
pub record Disk : Type 0 where
  pub read_error : Option String
  pub create_dir_error : Option String
  pub write_error : Option (String × Option String)

abbrev pub new : Bool → Option String → FileBackedQueue
new disabled file = record { cache = []; file = file; disabled = disabled }

abbrev pub is_empty {ℓ} : {A : Type ℓ} → List A → Bool
is_empty [] = true
is_empty (x ∷ xs) = false

-- the part of `load_into_cache` that reads
abbrev pub read_file :
    ListCodec → Disk → FileBackedQueue → FileBackedQueue × Result OfflineQueueError (Unit {0})
read_file codec disk q = elim disk.read_error [
  | some e ↦ (q, err (io e))
  | none ↦ elim q.file [
    | none ↦ (q, ok tt)
    | some bytes ↦ if bytes == "" then (q, ok tt) else (elim (codec.from_slice bytes) [
      | err e ↦ (q, err (decode e))
      | ok parsed ↦ (record q { cache = parsed }, ok tt)
    ])
  ]
]

unfoldable pub load_into_cache :
    ListCodec → Disk → FileBackedQueue → FileBackedQueue × Result OfflineQueueError (Unit {0})
load_into_cache codec disk q =
    if q.disabled
    then (q, ok tt)
    else if not (is_empty q.cache)
    then (q, ok tt)
    else read_file codec disk q

unfoldable pub flush_locked :
    ListCodec → Disk → FileBackedQueue → FileBackedQueue × Result OfflineQueueError (Unit {0})
flush_locked codec disk q = if q.disabled then (q, ok tt) else (elim disk.create_dir_error [
  | some e ↦ (q, err (io e))
  | none ↦ elim (codec.to_vec q.cache) [
    | err e ↦ (q, err (decode e))
    | ok bytes ↦ elim disk.write_error [
      | some (e, left) ↦ (record q { file = left }, err (io e))
      | none ↦ (record q { file = some bytes }, ok tt)
    ]
  ]
])

-- A method: it loads, changes the cache, and flushes.
unfoldable pub with_cache :
    ListCodec
    → Disk
    → (List QueuedOperation → List QueuedOperation)
    → FileBackedQueue
    → FileBackedQueue × Result OfflineQueueError (Unit {0})
unfolding load_into_cache flush_locked
with_cache codec disk change q =
    let (loaded, result) = load_into_cache codec disk q in
    elim result [
      | err e ↦ (loaded, err e)
      | ok u ↦ flush_locked codec disk (record loaded { cache = change loaded.cache })
    ]

unfoldable pub enqueue_file :
    ListCodec
    → Disk
    → QueuedOperation
    → FileBackedQueue
    → FileBackedQueue × Result OfflineQueueError (Unit {0})
unfolding with_cache Memory.enqueue
enqueue_file codec disk op q =
    with_cache codec disk
      (λ cache.
        retain (λ e. not (e.table == op.table && e.entity_id == op.entity_id)) cache ++ op ∷ [])
      q

-- the change that finalizing makes: the failed operations keep their counts and errors
unfoldable pub retained_ops :
    List QueuedOperation → List QueuedOperation → List QueuedOperation → List QueuedOperation
unfolding holds retain finalize_queue_after_processing
retained_ops snapshot failed cache =
    let retained =
      finalize_queue_after_processing (map to_contract cache) (map to_contract snapshot)
        (map to_contract failed) in
    retain (λ op. holds (to_contract op) retained) cache

unfoldable pub finalize_file :
    ListCodec
    → Disk
    → List QueuedOperation
    → List QueuedOperation
    → FileBackedQueue
    → FileBackedQueue × Result OfflineQueueError (Unit {0})
unfolding with_cache retained_ops
finalize_file codec disk snapshot failed q = with_cache codec disk (retained_ops snapshot failed) q

unfoldable pub snapshot_file :
    ListCodec
    → Disk
    → FileBackedQueue
    → FileBackedQueue × Result OfflineQueueError (List QueuedOperation)
unfolding load_into_cache
snapshot_file codec disk q =
    let (loaded, result) = load_into_cache codec disk q in
    (loaded, elim result [ err e ↦ err e | ok u ↦ ok loaded.cache ])

unfoldable pub depth_file :
    ListCodec → Disk → FileBackedQueue → FileBackedQueue × Result OfflineQueueError ℕ
unfolding load_into_cache
depth_file codec disk q =
    let (loaded, result) = load_into_cache codec disk q in
    (loaded, elim result [ err e ↦ err e | ok u ↦ ok (length loaded.cache) ])
