-- ===== src/Polylog.antt =====
-- The crate crates/polylog.
pub mod Clean
