-- ===== src/Events.antt =====
-- crates/polybase/src/events.rs: the events that the engine publishes.
use polykit_rust.Prelude.{ℕ, String, Bool, Option}
use polykit_rust.Sync.Planner.{ReconcileActionCounts}

pub data SessionChangeKind : Type 0 where
  user_changed credentials_refreshed cleared : SessionChangeKind

pub data RealtimeOp : Type 0 where
  insert update delete : RealtimeOp

pub data ReconcilePhase : Type 0 where
  started completed failed : ReconcilePhase

pub data PolyEvent : Type 0 where
  session_changed : Option String → SessionChangeKind → PolyEvent
  realtime_changed : String → String → RealtimeOp → PolyEvent
  offline_queue_changed : ℕ → Bool → PolyEvent
  reconcile_progress : String → ReconcilePhase → Option ReconcileActionCounts → PolyEvent
  pull_progress : String → ℕ → Bool → PolyEvent
  kvs_changed : String → String → Bool → PolyEvent
  version_regression_detected : String → String → PolyEvent
