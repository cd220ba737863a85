-- ===== src/FileQueue/Restart.antt =====
-- What a process that starts anew finds in the file.
use polykit_rust.Prelude.{
  String, ◌==◌, ◌≡◌, refl, false, none, some, List, [], arith, Option-cases, inl, inr, ◌∙◌,
}
use polykit_rust.Prelude.Result.{Result, ok, err, Result-cases}
use polykit_rust.Errors.{OfflineQueueError, io}
use polykit_rust.OfflineQueue.{QueuedOperation}
use polykit_rust.OfflineQueue as Memory
use polykit_rust.FileQueue.{
  FileBackedQueue, ListCodec, Disk, new, is_empty, load_into_cache, flush_locked, with_cache,
  enqueue_file, finalize_file, retained_ops, snapshot_file,
}

-- The decoder reads what the encoder writes, which is never empty.
pub record RoundTrips (codec : ListCodec) : Type 0 where
  pub reads_back :
      (ops : List QueuedOperation) (bytes : String)
      → codec.to_vec ops ≡ ok bytes
      → codec.from_slice bytes ≡ ok ops
  pub not_empty :
      (ops : List QueuedOperation) (bytes : String)
      → codec.to_vec ops ≡ ok bytes
      → (bytes == "") ≡ false

-- A file system that fails at nothing.
abbrev pub healthy : Disk
healthy = record { read_error = none; create_dir_error = none; write_error = none }

-- The process ends, and starts anew on the file that is left.
abbrev pub restart : FileBackedQueue → FileBackedQueue
restart q = new q.disabled q.file

-- A call that changes the queue.
pub data Call : Type 0 where
  enqueues : QueuedOperation → Call
  finalizes : List QueuedOperation → List QueuedOperation → Call

module _ (codec : ListCodec) where
  flush_locked-saves :
      (disk : Disk) (q : FileBackedQueue)
      → q.disabled ≡ false
      → (flush_locked codec disk q).1 ≡ ok tt
      → (bytes : String) × (codec.to_vec q.cache ≡ ok bytes)
        × ((flush_locked codec disk q).0 ≡ record q { file = some bytes })
  unfolding flush_locked
  flush_locked-saves disk q on done = elim (Option-cases disk.create_dir_error) [
    | inr (e, failed) ↦ ground (arith, done, on, failed)
    | inl made ↦ elim (Result-cases (codec.to_vec q.cache)) [
      | inr (e, failed) ↦ ground (arith, done, on, made, failed)
      | inl (bytes, text) ↦ elim (Option-cases disk.write_error) [
        | inr (e, failed) ↦ ground (arith, done, on, made, text, failed)
        | inl written ↦ (bytes, text, ground (arith, on, made, text, written))
      ]
    ]
  ]

  -- A process that starts on a file reads what was written to it.
  saved-restart :
      (q : FileBackedQueue) (bytes : String)
      → RoundTrips codec
      → q.disabled ≡ false
      → codec.to_vec q.cache ≡ ok bytes
      → (snapshot_file codec healthy (restart (record q { file = some bytes }))).1 ≡ ok q.cache
  unfolding snapshot_file load_into_cache
  saved-restart q bytes laws on text =
      ground (arith, on, laws.not_empty q.cache bytes text, laws.reads_back q.cache bytes text)

  load_into_cache-disabled :
      (disk : Disk) (q : FileBackedQueue) → (load_into_cache codec disk q).0.disabled ≡ q.disabled
  unfolding load_into_cache
  load_into_cache-disabled disk q = ground arith

  with_cache-restart :
      (disk : Disk) (change : List QueuedOperation → List QueuedOperation) (q : FileBackedQueue)
      → RoundTrips codec
      → q.disabled ≡ false
      → (with_cache codec disk change q).1 ≡ ok tt
      → (ops : List QueuedOperation) × ((snapshot_file codec disk q).1 ≡ ok ops)
        × ((snapshot_file codec healthy (restart (with_cache codec disk change q).0)).1
            ≡ ok (change ops))
  unfolding with_cache snapshot_file
  with_cache-restart disk change q laws on done =
      let loaded : FileBackedQueue = (load_into_cache codec disk q).0 in
      elim (Result-cases (load_into_cache codec disk q).1) [
        | inr (e, failed) ↦ ground (arith, done, failed)
        | inl (u, read) ↦
            let q' : FileBackedQueue = record loaded { cache = change loaded.cache } in
            let still_on : loaded.disabled ≡ false = load_into_cache-disabled disk q ∙ on in
            let (bytes, text, is) =
              flush_locked-saves disk q' still_on (ground (arith, done, read)) in
            let after : (with_cache codec disk change q).0 ≡ record q' { file = some bytes } =
              ground (arith, read, is) in
            (
              loaded.cache,
              ground (arith, read),
              rw after (saved-restart q' bytes laws still_on text),
            )
      ]

  -- What a call that changes the queue does to the operations.
  abbrev pub changed : Call → List QueuedOperation → List QueuedOperation
  changed (enqueues op) ops = Memory.enqueue op ops
  changed (finalizes s f) ops = retained_ops s f ops

  abbrev pub perform :
      Disk → Call → FileBackedQueue → FileBackedQueue × Result OfflineQueueError (Unit {0})
  perform disk (enqueues op) q = enqueue_file codec disk op q
  perform disk (finalizes s f) q = finalize_file codec disk s f q

  -- A call that succeeded on a queue that is not disabled survives the end of the process, over a
  -- codec that decodes what it encoded: a process that starts anew on the file sees the operations
  -- that the queue had before the call, as the call changes them.
  pub call_survives_restart :
      (disk : Disk) (c : Call) (q : FileBackedQueue)
      → RoundTrips codec
      → q.disabled ≡ false
      → (perform disk c q).1 ≡ ok tt
      → (ops : List QueuedOperation) × ((snapshot_file codec disk q).1 ≡ ok ops)
        × ((snapshot_file codec healthy (restart (perform disk c q).0)).1 ≡ ok (changed c ops))
  unfolding enqueue_file finalize_file Memory.enqueue
  call_survives_restart disk (enqueues op) q laws on done =
      with_cache-restart disk (Memory.enqueue op) q laws on done
  call_survives_restart disk (finalizes s f) q laws on done =
      with_cache-restart disk (retained_ops s f) q laws on done

  -- What was sent comes back: where finalizing leaves nothing queued in a queue that is not disabled, but its write fails and leaves
  -- the file as it was, the call returns the error, and the same process then reads all operations
  -- of the file again.
  pub failed_finalize_resurrects :
      (disk : Disk) (s f : List QueuedOperation) (q : FileBackedQueue) (bytes e : String)
      → RoundTrips codec
      → q.disabled ≡ false
      → is_empty q.cache ≡ false
      → codec.to_vec q.cache ≡ ok bytes
      → q.file ≡ some bytes
      → retained_ops s f q.cache ≡ []
      → (empty : String) × (codec.to_vec [] ≡ ok empty)
      → disk.create_dir_error ≡ none
      → disk.write_error ≡ some (e, q.file)
      → ((finalize_file codec disk s f q).1 ≡ err (io e))
        × ((snapshot_file codec healthy (finalize_file codec disk s f q).0).1 ≡ ok q.cache)
  unfolding finalize_file with_cache load_into_cache flush_locked snapshot_file
  failed_finalize_resurrects disk s f q bytes e laws on some_left text is sent (empty, none_text)
        dir failed =
      let left : finalize_file codec disk s f q ≡ (record q { cache = [] }, err (io e)) =
        ground (arith, on, some_left, sent, none_text, dir, failed) in
      let back : (snapshot_file codec healthy (record q { cache = [] })).1 ≡ ok q.cache =
        rw is (saved-restart q bytes laws on text) in
      (rw left refl, rw left back)
