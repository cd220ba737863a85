-- ===== src/Contract.antt =====
-- The frozen invariants of crates/polybase/src/contract.rs: constants, version and timestamp
-- arithmetic, the backoff ladder, message classifiers, the reconcile decision, and the rule by
-- which a replayed queue is finalized.
pub mod Version
pub mod Backoff
pub mod Message
pub mod Reconcile
pub mod Finalize
