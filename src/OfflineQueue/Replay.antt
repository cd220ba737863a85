-- ===== src/OfflineQueue/Replay.antt =====
-- A replay cycle: a snapshot is taken, operations are enqueued while it is replayed, and the
-- queue is finalized with the operations that failed.
use polykit_rust.Prelude.{
  ◌≡◌, refl, Bool, true, false, Option, none, some, All, List, [], ◌∷◌, map, if◌then◌else◌, arith,
  Option-cases, inl, inr,
}
use polykit_rust.Prelude.Int.{eqb_ℤ_iff, eqb_ℤ_refl}
use polykit_rust.Contract.Finalize.{
  ContractOperation, Key, key, key_eq, op_eq, holds, has_key, queued_is, last_queued_at,
}
use polykit_rust.Contract.Finalize.Membership.{key_eq_iff, key_eq_refl, first_queued_at}
use polykit_rust.Contract.Finalize.Dedupe.{IsDeduped}
use polykit_rust.OfflineQueue.{
  QueuedOperation, MemoryQueue, to_contract, enqueue, snapshot, bump_u32, last_error_of,
  finalize_after_processing,
}
use polykit_rust.OfflineQueue.Lookup.{
  key_of, find, QueueIsDeduped, find-enqueue, enqueue-QueueIsDeduped,
}
use polykit_rust.OfflineQueue.Finalize.{
  and_then, op_eq_iff, find-holds, replay_outcome, find-finalize, has_key_of_holds,
}

unfoldable pub enqueue_all : List QueuedOperation → MemoryQueue → MemoryQueue
enqueue_all [] q = q
enqueue_all (op ∷ ops) q = enqueue_all ops (enqueue op q)

-- the last operation of a list with a key
unfoldable pub latest : Key → List QueuedOperation → Option QueuedOperation
latest k [] = none
latest k (op ∷ ops) = elim (latest k ops) [
  | some o ↦ some o
  | none ↦ if key_eq (key_of op) k then some op else none
]

find-enqueue_all :
    (k : Key) (ops : List QueuedOperation) (q : MemoryQueue)
    → find k (enqueue_all ops q) ≡ elim (latest k ops) [ some op ↦ some op | none ↦ find k q ]
unfolding enqueue_all latest
find-enqueue_all k [] q = refl
find-enqueue_all k (op ∷ ops) q =
    ground (arith, find-enqueue_all k ops (enqueue op q), find-enqueue k op q)

enqueue_all-QueueIsDeduped :
    (ops : List QueuedOperation) (q : MemoryQueue)
    → QueueIsDeduped q
    → QueueIsDeduped (enqueue_all ops q)
unfolding enqueue_all
enqueue_all-QueueIsDeduped [] q d = d
enqueue_all-QueueIsDeduped (op ∷ ops) q d =
    enqueue_all-QueueIsDeduped ops (enqueue op q) (enqueue-QueueIsDeduped op q d)

last_queued_at_absent :
    (k : Key) (c : List ContractOperation) → has_key k c ≡ false → last_queued_at k c ≡ none
unfolding last_queued_at has_key
last_queued_at_absent k [] h = refl
last_queued_at_absent k (e ∷ c) h = ground (arith, last_queued_at_absent k c)

-- In a list with one operation for a key, the last timestamp of an operation's key is its own.
pub last_queued_at_self :
    (op : ContractOperation) (c : List ContractOperation)
    → IsDeduped c
    → holds op c ≡ true
    → last_queued_at (key op) c ≡ some op.queued_at_micros
unfolding last_queued_at holds
last_queued_at_self op [] d h = cc
last_queued_at_self op (e ∷ c) d h = ground (
  arith,
  last_queued_at_self op c d.1,
  last_queued_at_absent (key e) c d.0,
  op_eq_iff e op,
  key_eq_iff (key e) (key op),
  key_eq_refl (key e),
  has_key_of_holds op c,
)

abbrev is_some {ℓ} : {A : Type ℓ} → Option A → Bool
is_some none = false
is_some (some a) = true

-- The failures of a replay are operations of its snapshot.
abbrev pub FailedFrom : MemoryQueue → List QueuedOperation → Type 0
FailedFrom q failed = All (λ f. holds (to_contract f) (map to_contract q) ≡ true) failed

-- What was enqueued during a replay has another timestamp than the snapshot had for its key.
abbrev pub IsConcurrent : MemoryQueue → QueuedOperation → Type 0
IsConcurrent q op =
    queued_is (last_queued_at (key_of op) (map to_contract q)) op.queued_at_micros ≡ false

holds-congr :
    (a b : ContractOperation) (c : List ContractOperation)
    → op_eq a b ≡ true
    → holds a c ≡ true
    → holds b c ≡ true
holds-congr a b c e h = rw (← op_eq_iff a b e) h

-- In a list with one operation for a key, operations of one key are one.
op_eq_of_key :
    (a b : ContractOperation) (c : List ContractOperation)
    → IsDeduped c
    → holds a c ≡ true
    → holds b c ≡ true
    → op_eq a b ≡ key_eq (key a) (key b)
op_eq_of_key a b c d ha hb = ground (
  arith,
  last_queued_at_self a c d ha,
  last_queued_at_self b c d hb,
  key_eq_iff (key a) (key b),
  eqb_ℤ_iff a.queued_at_micros b.queued_at_micros,
)

holds-FailedFrom :
    (q : MemoryQueue) (failed : List QueuedOperation) (k : ContractOperation)
    → FailedFrom q failed
    → holds k (map to_contract failed) ≡ true
    → holds k (map to_contract q) ≡ true
unfolding holds
holds-FailedFrom q [] k all h = cc
holds-FailedFrom q (f ∷ failed) k all h = ground (
  arith,
  holds-FailedFrom q failed k all.1,
  λ (e : op_eq (to_contract f) k ≡ true). holds-congr (to_contract f) k (map to_contract q) e all.0,
)

first_queued_at-FailedFrom :
    (q : MemoryQueue) (failed : List QueuedOperation) (old : ContractOperation)
    → QueueIsDeduped q
    → holds old (map to_contract q) ≡ true
    → FailedFrom q failed
    → queued_is (first_queued_at (key old) (map to_contract failed)) old.queued_at_micros
      ≡ holds old (map to_contract failed)
unfolding first_queued_at holds
first_queued_at-FailedFrom q [] old d h all = refl
first_queued_at-FailedFrom q (f ∷ failed) old d h all = ground (
  arith,
  first_queued_at-FailedFrom q failed old d h all.1,
  op_eq_of_key (to_contract f) old (map to_contract q) d all.0 h,
  eqb_ℤ_iff f.queued_at_micros old.queued_at_micros,
)

last_error_of-none_iff :
    (k : ContractOperation) (f : List QueuedOperation)
    → holds k (map to_contract f) ≡ is_some (last_error_of k f)
unfolding last_error_of holds
last_error_of-none_iff k [] = refl
last_error_of-none_iff k (o ∷ f) = ground (arith, last_error_of-none_iff k f)

-- What a replay makes of an operation of its snapshot for which nothing newer was enqueued.
unfoldable pub after_replay : List QueuedOperation → QueuedOperation → Option QueuedOperation
after_replay failed old = elim (last_error_of (to_contract old) failed) [
  | none ↦ none
  | some e ↦ some (record old { retry_count = bump_u32 old.retry_count; last_error = e })
]

replay_outcome-concurrent :
    (q : MemoryQueue) (failed : List QueuedOperation) (op : QueuedOperation)
    → QueueIsDeduped q
    → FailedFrom q failed
    → IsConcurrent q op
    → replay_outcome q failed op ≡ some op
unfolding replay_outcome
replay_outcome-concurrent q failed op d all fresh = ground (
  arith,
  last_error_of-none_iff (to_contract op) failed,
  holds-FailedFrom q failed (to_contract op) all,
  last_queued_at_self (to_contract op) (map to_contract q) d,
  eqb_ℤ_refl op.queued_at_micros,
)

replay_outcome-old :
    (q : MemoryQueue) (failed : List QueuedOperation) (old : QueuedOperation)
    → QueueIsDeduped q
    → FailedFrom q failed
    → holds (to_contract old) (map to_contract q) ≡ true
    → replay_outcome q failed old ≡ after_replay failed old
unfolding replay_outcome after_replay
replay_outcome-old q failed old d all h = ground (
  arith,
  last_error_of-none_iff (to_contract old) failed,
  first_queued_at-FailedFrom q failed (to_contract old) d h all,
  last_queued_at_self (to_contract old) (map to_contract q) d h,
  eqb_ℤ_refl old.queued_at_micros,
)

latest-IsConcurrent :
    (q : MemoryQueue) (k : Key) (ops : List QueuedOperation) (op : QueuedOperation)
    → All (IsConcurrent q) ops
    → latest k ops ≡ some op
    → IsConcurrent q op
unfolding latest
latest-IsConcurrent q k [] op all h = cc
latest-IsConcurrent q k (o ∷ ops) op all h = ground (arith, latest-IsConcurrent q k ops op all.1)

-- A replay loses nothing. Take a queue with at most one operation for a key, a replay of its
-- snapshot in which only operations of the snapshot fail, and enqueues meanwhile, each with another
-- timestamp than the snapshot has for its key. Afterwards a key that was enqueued meanwhile has
-- the last such operation, unchanged. Any other key has its old operation, with its retry
-- count bumped and its last error recorded, if that operation failed, and nothing if it did not.
pub replay_cycle :
    (q : MemoryQueue) (ops failed : List QueuedOperation) (k : Key)
    → QueueIsDeduped q
    → FailedFrom q failed
    → All (IsConcurrent q) ops
    → find k (finalize_after_processing (snapshot q) failed (enqueue_all ops q))
      ≡ elim (latest k ops) [ some op ↦ some op | none ↦ and_then (find k q) (after_replay failed) ]
unfolding snapshot
replay_cycle q ops failed k d all fresh =
    rw
      (
        find-finalize q failed (enqueue_all ops q) k (enqueue_all-QueueIsDeduped ops q d),
        find-enqueue_all k ops q,
      )
      (elim (Option-cases (latest k ops)) [
        | inl older ↦ rw older (elim (Option-cases (find k q)) [
          | inl absent ↦ rw absent
          | inr (old, here) ↦
              rw here (replay_outcome-old q failed old d all (find-holds k q old here))
        ])
        | inr (op, newer) ↦ rw newer (
            replay_outcome-concurrent q failed op d all
              (latest-IsConcurrent q k ops op fresh newer))
      ])
