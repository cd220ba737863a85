-- ===== src/OfflineQueue/Lookup.antt =====
-- A queue as a map from keys to operations: what enqueuing and finalizing do to it.
use polykit_rust.Prelude.{
  ◌==◌, ◌≡◌, refl, false, not, ◌&&◌, Option, none, some, [], ◌∷◌, ◌++◌, map, retain, if◌then◌else◌,
  arith,
}
use mathlib.Core.List.{map-append}
use polykit_rust.Contract.Finalize.{Key, key_eq, has_key}
use polykit_rust.Contract.Finalize.Membership.{key_eq_iff, key_eq_comm, key_eq_refl}
use polykit_rust.Contract.Finalize.Dedupe.{IsDeduped, append-IsDeduped}
use polykit_rust.OfflineQueue.{QueuedOperation, MemoryQueue, to_contract, enqueue}

abbrev pub key_of : QueuedOperation → Key
key_of op = record { table = op.table; entity_id = op.entity_id }

-- The operation that is queued for a key.
unfoldable pub find : Key → MemoryQueue → Option QueuedOperation
find k [] = none
find k (op ∷ queue) = if key_eq (key_of op) k then some op else find k queue

-- At most one operation is queued for a key.
abbrev pub QueueIsDeduped : MemoryQueue → Type 0
QueueIsDeduped queue = IsDeduped (map to_contract queue)

pub find_of_absent :
    (k : Key) (q : MemoryQueue) → has_key k (map to_contract q) ≡ false → find k q ≡ none
unfolding find has_key
find_of_absent k [] h = refl
find_of_absent k (op ∷ q) h = ground (arith, find_of_absent k q)

find-append :
    (k : Key) (q : MemoryQueue) (op : QueuedOperation)
    → find k (q ++ op ∷ [])
      ≡ elim (find k q) [ some e ↦ some e | none ↦ if key_eq (key_of op) k then some op else none ]
unfolding find
find-append k [] op = refl
find-append k (e ∷ q) op = ground (arith, find-append k q op)

find-drop :
    (k j : Key) (q : MemoryQueue)
    → find k (retain (λ e. not (e.table == j.table && e.entity_id == j.entity_id)) q)
      ≡ (if key_eq j k then none else find k q)
unfolding find retain
find-drop k j [] = ground arith
find-drop k j (e ∷ q) = ground (
  arith,
  find-drop k j q,
  key_eq_iff (key_of e) j,
  key_eq_iff (key_of e) k,
  key_eq_iff j k,
  key_eq_comm (key_of e) j,
)

-- Enqueuing puts the operation under its key, in place of any older one, and touches no other key.
pub find-enqueue :
    (k : Key) (op : QueuedOperation) (q : MemoryQueue)
    → find k (enqueue op q) ≡ (if key_eq (key_of op) k then some op else find k q)
unfolding enqueue
find-enqueue k op q = ground (
  arith,
  find-append k (retain (λ e. not (e.table == op.table && e.entity_id == op.entity_id)) q) op,
  find-drop k (key_of op) q,
)

has_key-enqueue :
    (k : Key) (op : QueuedOperation) (q : MemoryQueue)
    → has_key k
        (map to_contract (retain (λ e. not (e.table == op.table && e.entity_id == op.entity_id)) q))
      ≡ (not (key_eq (key_of op) k) && has_key k (map to_contract q))
unfolding has_key retain
has_key-enqueue k op [] = ground arith
has_key-enqueue k op (e ∷ q) = ground (
  arith,
  has_key-enqueue k op q,
  key_eq_iff (key_of e) k,
  key_eq_iff (key_of e) (key_of op),
  key_eq_iff (key_of op) k,
  key_eq_comm (key_of e) (key_of op),
)

enqueue-dedupe :
    (op : QueuedOperation) (q : MemoryQueue)
    → QueueIsDeduped q
    → has_key (key_of op) (map to_contract q) ≡ false
    → QueueIsDeduped (q ++ op ∷ [])
enqueue-dedupe op q d h = rw map-append (append-IsDeduped (map to_contract q) (to_contract op) d h)

has_key-drop :
    (k : Key) (e : QueuedOperation) (q : MemoryQueue)
    → has_key (key_of e) (map to_contract q) ≡ false
    → has_key
        (key_of e)
        (map to_contract (retain (λ e. not (e.table == k.table && e.entity_id == k.entity_id)) q))
      ≡ false
unfolding has_key retain
has_key-drop k e [] h = refl
has_key-drop k e (o ∷ q) h = ground (arith, has_key-drop k e q)

drop-dedupe :
    (k : Key) (q : MemoryQueue)
    → QueueIsDeduped q
    → QueueIsDeduped (retain (λ e. not (e.table == k.table && e.entity_id == k.entity_id)) q)
unfolding retain
drop-dedupe k [] d = tt
drop-dedupe k (e ∷ q) d = ground (arith, drop-dedupe k q d.1, has_key-drop k e q d.0)

-- Enqueuing keeps at most one operation for a key.
pub enqueue-QueueIsDeduped :
    (op : QueuedOperation) (q : MemoryQueue) → QueueIsDeduped q → QueueIsDeduped (enqueue op q)
unfolding enqueue
enqueue-QueueIsDeduped op q d =
    enqueue-dedupe op (retain (λ e. not (e.table == op.table && e.entity_id == op.entity_id)) q)
      (drop-dedupe (key_of op) q d)
      (ground (arith, has_key-enqueue (key_of op) op q, key_eq_refl (key_of op)))
