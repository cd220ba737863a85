-- ===== src/OfflineQueue.antt =====
-- crates/polybase/src/offline_queue/mod.rs: the queued operation, and the in-memory queue. Each
-- method of `MemoryQueue` runs under its lock and cannot fail, so it is a function on the queue.
pub mod Lookup
pub mod Finalize
pub mod Replay
pub mod Collision
use polykit_rust.Prelude.{
  ℕ, ◌+◌, ◌-◌, ◌^◌, String, ◌==◌, Bool, not, ◌&&◌, Option, none, some, List, [], ◌∷◌, ◌++◌, map,
  length, retain, filter_map, ltb, if◌then◌else◌,
}
use polykit_rust.Prelude.Int.{ℤ}
use polykit_rust.Json.{Value}
use polykit_rust.Contract.Finalize.{
  ContractOperation, Key, key_eq, op_eq, holds, finalize_queue_after_processing,
}

pub data QueuedOperationKind : Type 0 where
  write : Value → QueuedOperationKind
  tombstone : ℤ → QueuedOperationKind
  hard_delete : QueuedOperationKind

pub record QueuedOperation : Type 0 where
  pub table : String
  pub entity_id : String
  pub kind : QueuedOperationKind
  pub queued_at_micros : ℤ
  pub retry_count : ℕ  -- u32
  pub last_error : Option String

abbrev pub to_contract : QueuedOperation → ContractOperation
to_contract op = record {
  table = op.table;
  entity_id = op.entity_id;
  queued_at_micros = op.queued_at_micros;
}

abbrev pub u32_max : ℕ
u32_max = 2 ^ 32 - 1

-- `saturating_add(1)` on a `u32`
abbrev pub bump_u32 : ℕ → ℕ
bump_u32 n = if ltb n u32_max then n + 1 else u32_max

abbrev pub MemoryQueue : Type 0
MemoryQueue = List QueuedOperation

abbrev pub new : MemoryQueue
new = []

-- Drop any older entry with the same key, then push the new one at the back.
unfoldable pub enqueue : QueuedOperation → MemoryQueue → MemoryQueue
unfolding retain
enqueue op queue =
    retain (λ e. not (e.table == op.table && e.entity_id == op.entity_id)) queue ++ op ∷ []

unfoldable pub snapshot : MemoryQueue → List QueuedOperation
snapshot queue = queue

unfoldable pub depth : MemoryQueue → ℕ
depth queue = length queue

-- the `HashMap` from full key to last error, of the failed operations
unfoldable pub last_error_of : ContractOperation → List QueuedOperation → Option (Option String)
last_error_of full_key [] = none
last_error_of full_key (f ∷ failed) = elim (last_error_of full_key failed) [
  | some e ↦ some e
  | none ↦ if op_eq (to_contract f) full_key then some f.last_error else none
]

unfoldable pub mark_failure : List QueuedOperation → QueuedOperation → QueuedOperation
unfolding last_error_of
mark_failure failed op = elim (last_error_of (to_contract op) failed) [
  | none ↦ op
  | some e ↦ record op { retry_count = bump_u32 op.retry_count; last_error = e }
]

-- the closure of `retain_mut`
unfoldable pub settle :
    List ContractOperation → List QueuedOperation → QueuedOperation → Option QueuedOperation
unfolding holds mark_failure
settle retained failed op =
    if holds (to_contract op) retained then some (mark_failure failed op) else none

unfoldable pub finalize_after_processing :
    List QueuedOperation → List QueuedOperation → MemoryQueue → MemoryQueue
unfolding finalize_queue_after_processing filter_map settle
finalize_after_processing snapshot failed queue =
    let retained =
      finalize_queue_after_processing (map to_contract queue) (map to_contract snapshot)
        (map to_contract failed) in
    filter_map (settle retained failed) queue
