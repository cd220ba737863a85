-- ===== src/Sqlite.antt =====
-- crates/polybase-sqlite: the queue in a SQLite table.
pub mod Rows
pub mod Queue
pub mod Lookup
pub mod Loop
pub mod View
pub mod Refine
pub mod Store
