-- ===== src/OfflineQueue/Finalize.antt =====
-- What finalizing a replay leaves under each key of the queue.
use polykit_rust.Prelude.{
  ◌≡◌, refl, ap, Bool, true, not, ◌||◌, Option, none, some, List, [], ◌∷◌, map, retain, filter_map,
  if◌then◌else◌, arith, Option-cases, inl, inr, eq_iff,
}
use polykit_rust.Prelude.Int.{eqb_ℤ_iff, eqb_ℤ_refl}
use polykit_rust.Contract.Finalize.{
  ContractOperation, Key, key, key_eq, op_eq, holds, has_key, queued_is, last_queued_at,
  unprocessed, finalize_queue_after_processing,
}
use polykit_rust.Contract.Finalize.Membership.{
  key_eq_iff, key_eq_refl, first_queued_at, holds-finalize,
}
use polykit_rust.Contract.Finalize.Dedupe.{IsDeduped, has_key-retain}
use polykit_rust.OfflineQueue.{
  QueuedOperation, MemoryQueue, to_contract, mark_failure, settle, finalize_after_processing,
}
use polykit_rust.OfflineQueue.Lookup.{key_of, find, QueueIsDeduped, find_of_absent}

abbrev pub and_then {ℓ} : {A B : Type ℓ} → Option A → (A → Option B) → Option B
and_then none f = none
and_then (some a) f = f a

pub op_eq_iff : (a b : ContractOperation) → op_eq a b ≡ true → a ≡ b
op_eq_iff a b h = ground (
  arith,
  eq_iff a.table b.table,
  eq_iff a.entity_id b.entity_id,
  eqb_ℤ_iff a.queued_at_micros b.queued_at_micros,
)

pub has_key_of_holds :
    (op : ContractOperation) (c : List ContractOperation)
    → holds op c ≡ true
    → has_key (key op) c ≡ true
unfolding holds has_key
has_key_of_holds op [] h = cc
has_key_of_holds op (e ∷ c) h = ground (arith, has_key_of_holds op c)

has_key-congr :
    (a b : Key) (c : List ContractOperation) → key_eq a b ≡ true → has_key a c ≡ has_key b c
has_key-congr a b c h = ap (λ k. has_key k c) (key_eq_iff a b h)

-- Where a key stands once, a filter leaves it exactly if the test holds of its operation.
has_key-retain_self :
    (op : ContractOperation) (p : ContractOperation → Bool) (c : List ContractOperation)
    → IsDeduped c
    → holds op c ≡ true
    → has_key (key op) (retain p c) ≡ p op
unfolding holds retain has_key
has_key-retain_self op p [] d h = cc
has_key-retain_self op p (e ∷ c) d h = ground (
  arith,
  has_key-retain_self op p c d.1,
  has_key-retain (key e) p c d.0,
  op_eq_iff e op,
  key_eq_refl (key e),
  key_eq_iff (key e) (key op),
  has_key_of_holds op c,
)

find-filter_map :
    (g : QueuedOperation → Option QueuedOperation)
    → ((op op' : QueuedOperation) → g op ≡ some op' → key_of op' ≡ key_of op)
    → (k : Key) (q : MemoryQueue) → QueueIsDeduped q
    → find k (filter_map g q) ≡ and_then (find k q) g
unfolding find filter_map
find-filter_map g keeps k [] d = refl
find-filter_map g keeps k (e ∷ q) d = elim (Option-cases (g e)) [
  | inl dropped ↦
      rw (dropped, filter_map)
        (ground (
          arith,
          find-filter_map g keeps k q d.1,
          find_of_absent (key_of e) q d.0,
          key_eq_iff (key_of e) k,
        ))
  | inr (e', kept) ↦
      rw (kept, filter_map) (ground (arith, find-filter_map g keeps k q d.1, keeps e e' kept))
]

pub find-key_of :
    (k : Key) (q : MemoryQueue) (op : QueuedOperation) → find k q ≡ some op → key_of op ≡ k
unfolding find
find-key_of k [] op h = cc
find-key_of k (e ∷ q) op h = ground (arith, find-key_of k q op, key_eq_iff (key_of e) k)

pub find-holds :
    (k : Key) (q : MemoryQueue) (op : QueuedOperation)
    → find k q ≡ some op
    → holds (to_contract op) (map to_contract q) ≡ true
unfolding find holds
find-holds k [] op h = cc
find-holds k (e ∷ q) op h =
    ground (arith, find-holds k q op, key_eq_refl (key_of op), eqb_ℤ_refl op.queued_at_micros)

-- What finalizing makes of an operation that is queued: it stays if the snapshot did not see it,
-- and if it is the first failed operation of its key.
unfoldable pub replay_outcome :
    List QueuedOperation → List QueuedOperation → QueuedOperation → Option QueuedOperation
unfolding mark_failure
replay_outcome snapshot failed op =
    let seen =
      queued_is (last_queued_at (key_of op) (map to_contract snapshot)) op.queued_at_micros in
    let failed_first =
      queued_is (first_queued_at (key_of op) (map to_contract failed)) op.queued_at_micros in
    if not seen || failed_first then some (mark_failure failed op) else none

holds-retained :
    (s f : List QueuedOperation) (q : MemoryQueue) (op : QueuedOperation)
    → QueueIsDeduped q
    → holds (to_contract op) (map to_contract q) ≡ true
    → holds (to_contract op) (
        finalize_queue_after_processing (map to_contract q) (map to_contract s) (map to_contract f))
      ≡ (not (queued_is (last_queued_at (key_of op) (map to_contract s)) op.queued_at_micros)
          || queued_is (first_queued_at (key_of op) (map to_contract f)) op.queued_at_micros)
unfolding unprocessed
holds-retained s f q op d h =
    let c = to_contract op in
    ground (
      arith,
      holds-finalize c (map to_contract q) (map to_contract s) (map to_contract f),
      has_key-retain_self c
          (λ o. not (queued_is (last_queued_at (key o) (map to_contract s)) o.queued_at_micros))
          (map to_contract q) d h,
    )

pub settle-outcome :
    (s f : List QueuedOperation) (q : MemoryQueue) (op : QueuedOperation)
    → QueueIsDeduped q
    → holds (to_contract op) (map to_contract q) ≡ true
    → settle
        (finalize_queue_after_processing
          (map to_contract q)
          (map to_contract s)
          (map to_contract f))
        f
        op
      ≡ replay_outcome s f op
unfolding settle replay_outcome
settle-outcome s f q op d h = rw (holds-retained s f q op d h)

settle-key_of :
    (retained : List ContractOperation) (f : List QueuedOperation) (op op' : QueuedOperation)
    → settle retained f op ≡ some op'
    → key_of op' ≡ key_of op
unfolding settle mark_failure
settle-key_of retained f op op' h = ground arith

-- Finalizing decides about the operation under each key by the snapshot and the failures, and
-- brings in no other operation.
pub find-finalize :
    (s f : List QueuedOperation) (q : MemoryQueue) (k : Key)
    → QueueIsDeduped q
    → find k (finalize_after_processing s f q) ≡ and_then (find k q) (replay_outcome s f)
unfolding finalize_after_processing
find-finalize s f q k d =
    let retained =
      finalize_queue_after_processing (map to_contract q) (map to_contract s) (map to_contract f) in
    elim (Option-cases (find k q)) [
      | inl absent ↦
          rw (find-filter_map (settle retained f) (settle-key_of retained f) k q d) (rw absent)
      | inr (op, here) ↦
          rw (find-filter_map (settle retained f) (settle-key_of retained f) k q d)
            (rw here (settle-outcome s f q op d (find-holds k q op here)))
    ]
