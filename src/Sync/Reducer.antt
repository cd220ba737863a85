-- ===== src/Sync/Reducer.antt =====
-- crates/polybase/src/sync/reducer.rs: the scheduler of replays, a pure state machine. A `Duration`
-- is in milliseconds.
pub mod Gates
pub mod Stalls
use polykit_rust.Prelude.{
  ℕ, ◌+◌, ◌*◌, Bool, true, false, not, ◌||◌, List, [], ◌∷◌, ltb, if◌then◌else◌,
}
use polykit_rust.Contract.Backoff.{
  reconnect_debounce_secs, enqueue_coalesce_ms, forward_progress_retry_ms,
  reconnect_backoff_seconds,
}
use polykit_rust.OfflineQueue.{bump_u32}

pub record ReducerState : Type 0 where
  pub is_connected : Bool
  pub is_signed_in : Bool
  pub is_processing : Bool
  pub has_pending : Bool
  pub consecutive_failures : ℕ  -- u32

abbrev pub default : ReducerState
default = record {
  is_connected = true;
  is_signed_in = true;
  is_processing = false;
  has_pending = false;
  consecutive_failures = 0;
}

pub data ReducerEvent : Type 0 where
  app_launched : Bool → ReducerEvent
  connectivity_changed : Bool → ReducerEvent
  auth_state_changed : Bool → ReducerEvent
  offline_operation_enqueued : ReducerEvent
  offline_queue_processing_started : ReducerEvent
  offline_queue_processed : ℕ → Bool → ReducerEvent

pub data ReducerEffect : Type 0 where
  schedule : ℕ → ReducerEffect
  process_now : ReducerEffect

abbrev from_secs : ℕ → ℕ
from_secs s = s * 1000

unfoldable pub step : ReducerState → ReducerEvent → ReducerState × List ReducerEffect
step state (app_launched has_pending) =
    let next = record state { has_pending = has_pending } in
    if not has_pending || not next.is_connected || not next.is_signed_in || next.is_processing
    then (next, [])
    else (next, schedule 0 ∷ [])
step state (connectivity_changed is_connected) =
    let was_connected = state.is_connected in
    let next = record state { is_connected = is_connected } in
    if not is_connected || was_connected
    then (next, [])
    else if not next.has_pending || not next.is_signed_in || next.is_processing
    then (next, [])
    else (next, schedule (from_secs reconnect_debounce_secs) ∷ [])
step state (auth_state_changed is_signed_in) =
    let was_signed_in = state.is_signed_in in
    let next = record state { is_signed_in = is_signed_in } in
    if not is_signed_in || was_signed_in
    then (next, [])
    else if not next.has_pending || not next.is_connected || next.is_processing
    then (next, [])
    else (next, schedule 0 ∷ [])
step state offline_operation_enqueued =
    let next = record state { has_pending = true } in
    if not next.is_connected || not next.is_signed_in || next.is_processing
    then (next, [])
    else (next, schedule enqueue_coalesce_ms ∷ [])
step state offline_queue_processing_started = (record state { is_processing = true }, [])
step state (offline_queue_processed processed_count still_has_pending) =
    let next = record state { is_processing = false; has_pending = still_has_pending } in
    let counted = record next {
      consecutive_failures =
          if ltb 0 processed_count then 0 else bump_u32 next.consecutive_failures;
    } in
    if not still_has_pending
    then (record next { consecutive_failures = 0 }, [])
    else if not counted.is_connected || not counted.is_signed_in
    then (counted, [])
    else if ltb 0 processed_count
    then (counted, schedule forward_progress_retry_ms ∷ [])
    else (
      counted,
      schedule (from_secs (reconnect_backoff_seconds counted.consecutive_failures)) ∷ [],
    )
