-- ===== src/Sync.antt =====
-- crates/polybase/src/sync: the scheduler, the echo tracker, the reconcile planner, the push
-- classifiers, and the coordinator that joins them.
pub mod Reducer
pub mod Planner
pub mod Echo
pub mod Push
pub mod Coordinator
pub mod Remote
pub mod Pull
