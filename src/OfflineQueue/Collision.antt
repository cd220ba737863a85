-- ===== src/OfflineQueue/Collision.antt =====
-- An operation that is enqueued during a replay with the timestamp that the snapshot has for its
-- key is taken for the one that was replayed.
use polykit_rust.Prelude.{◌≡◌, none, some, [], arith, map}
use polykit_rust.Prelude.Int.{eqb_ℤ_refl}
use polykit_rust.Contract.Finalize.Membership.{key_eq_refl, first_queued_at}
use polykit_rust.OfflineQueue.{
  QueuedOperation, MemoryQueue, to_contract, enqueue, snapshot, finalize_after_processing,
}
use polykit_rust.OfflineQueue.Lookup.{
  key_of, find, QueueIsDeduped, find-enqueue, enqueue-QueueIsDeduped,
}
use polykit_rust.OfflineQueue.Finalize.{find-key_of, find-holds, replay_outcome, find-finalize}
use polykit_rust.OfflineQueue.Replay.{last_queued_at_self}

-- If nothing fails in a replay, and an operation is enqueued meanwhile that shares key and
-- timestamp with a replayed one, then finalizing drops it: its key is left with nothing queued.
pub collision_drops :
    (q : MemoryQueue) (old op : QueuedOperation)
    → QueueIsDeduped q
    → find (key_of op) q ≡ some old
    → op.queued_at_micros ≡ old.queued_at_micros
    → find (key_of op) (finalize_after_processing (snapshot q) [] (enqueue op q)) ≡ none
unfolding snapshot replay_outcome first_queued_at
collision_drops q old op d here same =
    rw
      (
        find-finalize q [] (enqueue op q) (key_of op) (enqueue-QueueIsDeduped op q d),
        find-enqueue (key_of op) op q,
        key_eq_refl (key_of op),
      )
      (ground (
        arith,
        last_queued_at_self (to_contract old) (map to_contract q) d
            (find-holds (key_of op) q old here),
        find-key_of (key_of op) q old here,
        eqb_ℤ_refl op.queued_at_micros,
      ))
