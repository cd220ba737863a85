-- ===== src/Tests.antt =====
-- The theorems at concrete inputs.
mod Contract
mod OfflineQueue
mod Sync
mod Wire
mod Coordinator
mod Toy
mod Registry
mod Schema
mod Polylog
mod Auth
mod Kvs
mod Sqlite
mod Storage
