-- ===== src/Tests/OfflineQueue.antt =====
-- The theorems on the in-memory queue at concrete operations.
use polykit_rust.Prelude.{◌≡◌, refl, none, some, List, [], ◌∷◌, String}
use polykit_rust.Prelude.Int.{ℤ, pos}
use polykit_rust.Json.{null}
use polykit_rust.Contract.Finalize.{Key, has_key, last_queued_at, holds}
use polykit_rust.OfflineQueue.{
  QueuedOperation, write, MemoryQueue, enqueue, snapshot, finalize_after_processing,
}
use polykit_rust.OfflineQueue.Lookup.{find, QueueIsDeduped}
use polykit_rust.OfflineQueue.Finalize.{and_then, replay_outcome, find-finalize}
use polykit_rust.OfflineQueue.Replay.{enqueue_all, latest, after_replay, replay_cycle}
use polykit_rust.OfflineQueue.Collision.{collision_drops}

abbrev write_at : String → ℤ → QueuedOperation
write_at id t = record {
  table = "notes";
  entity_id = id;
  kind = write null;
  queued_at_micros = t;
  retry_count = 0;
  last_error = none;
}

abbrev key_at : String → Key
key_at id = record { table = "notes"; entity_id = id }

abbrev queued : MemoryQueue
queued = write_at "a" (pos 1) ∷ write_at "b" (pos 2) ∷ []

queued-IsDeduped : QueueIsDeduped queued
unfolding has_key
queued-IsDeduped = (refl, (refl, tt))

abbrev failures : List QueuedOperation
failures = record (write_at "a" (pos 1)) { last_error = some "offline" } ∷ []

find-finalize_example :
    find (key_at "a") (finalize_after_processing queued failures queued)
    ≡ and_then (find (key_at "a") queued) (replay_outcome queued failures)
find-finalize_example = find-finalize queued failures queued (key_at "a") queued-IsDeduped

-- `a` fails, and `b` is edited again while it is sent.
replay_cycle_example :
    find (key_at "a") (
      finalize_after_processing
        (snapshot queued)
        failures
        (enqueue_all (write_at "b" (pos 3) ∷ []) queued))
    ≡ elim (latest (key_at "a") (write_at "b" (pos 3) ∷ [])) [
      | some op ↦ some op
      | none ↦ and_then (find (key_at "a") queued) (after_replay failures)
    ]
unfolding holds last_queued_at
replay_cycle_example =
    replay_cycle queued (write_at "b" (pos 3) ∷ []) failures (key_at "a") queued-IsDeduped
      (refl, tt) (refl, tt)

collision_drops_example :
    find
      (key_at "b")
      (finalize_after_processing (snapshot queued) [] (enqueue (write_at "b" (pos 2)) queued))
    ≡ none
unfolding find
collision_drops_example =
    collision_drops queued (write_at "b" (pos 2)) (write_at "b" (pos 2)) queued-IsDeduped refl refl
