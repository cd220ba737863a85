-- ===== src/Errors.antt =====
-- crates/polybase/src/errors.rs: the error types and their classification. An error of another
-- crate (`reqwest::Error`, `serde_json::Error`) is kept as the text that it displays as.
pub mod Edge
pub mod Push
pub mod Show
use polykit_rust.Prelude.{String}

pub data EncryptionError : Type 0 where
  empty_secret : EncryptionError
  operation_failed : String → EncryptionError

-- function, code, message
pub data EdgeError : Type 0 where
  validation : String → String → String → EdgeError
  conflict : String → String → String → EdgeError
  forbidden : String → String → EdgeError
  transient : String → String → EdgeError
  permanent : String → String → EdgeError
  decode : String → String → EdgeError

-- table, message
pub data PushError : Type 0 where
  transient : String → String → PushError
  permanent : String → String → PushError
  same_version_mutation_ignored : String → PushError

pub data PullError : Type 0 where
  failed : String → String → PullError
  decode : String → String → PullError

pub data RegistryError : Type 0 where
  table_not_registered : String → RegistryError
  type_not_registered : String → RegistryError
  encryption_failed : String → String → RegistryError
  missing_field : String → String → RegistryError
  missing_user_id : String → RegistryError
  factory_failed : String → String → RegistryError
  invalid_remote_schema : String → RegistryError

-- bucket, path, message
pub data StorageError : Type 0 where
  failed : String → String → String → StorageError
  not_found : String → String → StorageError

pub data OfflineQueueError : Type 0 where
  io : String → OfflineQueueError
  decode : String → OfflineQueueError

pub data PolyError : Type 0 where
  not_configured : String → PolyError
  no_session : PolyError
  http : String → PolyError
  json : String → PolyError
  edge : EdgeError → PolyError
  push : PushError → PolyError
  pull : PullError → PolyError
  registry : RegistryError → PolyError
  storage : StorageError → PolyError
  offline_queue : OfflineQueueError → PolyError
  local : String → PolyError
  encryption : EncryptionError → PolyError
  other : String → PolyError
