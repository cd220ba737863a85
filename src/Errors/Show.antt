-- ===== src/Errors/Show.antt =====
-- `Display` of the error types of crates/polybase/src/errors.rs.
use Prim.Native.String.{◌++◌}
use polykit_rust.Prelude.{String}
use polykit_rust.Errors.{
  EdgeError, PushError, PullError, RegistryError, table_not_registered, type_not_registered,
  encryption_failed, missing_field, missing_user_id, factory_failed, invalid_remote_schema,
  StorageError, not_found, OfflineQueueError, io, EncryptionError, empty_secret, operation_failed,
  PolyError, not_configured, no_session, http, json, edge, push, pull, registry, storage,
  offline_queue, local, encryption, other,
}

abbrev pub edge_error : EdgeError → String
edge_error (EdgeError.validation f c m) = "validation error from " ++ f ++ ": " ++ c ++ ": " ++ m
edge_error (EdgeError.conflict f c m) = "conflict from " ++ f ++ ": " ++ c ++ ": " ++ m
edge_error (EdgeError.forbidden f m) = "forbidden from " ++ f ++ ": " ++ m
edge_error (EdgeError.transient f m) = "transient error from " ++ f ++ ": " ++ m
edge_error (EdgeError.permanent f m) = "permanent error from " ++ f ++ ": " ++ m
edge_error (EdgeError.decode f m) = "decode failed for " ++ f ++ ": " ++ m

abbrev pub push_error : PushError → String
push_error (PushError.transient t m) = "transient push failure on " ++ t ++ ": " ++ m
push_error (PushError.permanent t m) = "permanent push failure on " ++ t ++ ": " ++ m
push_error (PushError.same_version_mutation_ignored t) = "same-version mutation ignored on " ++ t

abbrev pub pull_error : PullError → String
pull_error (PullError.failed t m) = "pull failed on " ++ t ++ ": " ++ m
pull_error (PullError.decode t m) = "decode failed on " ++ t ++ ": " ++ m

abbrev pub registry_error : RegistryError → String
registry_error (table_not_registered t) = "table not registered: " ++ t
registry_error (type_not_registered t) = "entity type not registered: " ++ t
registry_error (encryption_failed t c) = "encryption failed for " ++ t ++ "." ++ c
registry_error (missing_field t f) = "missing required field " ++ f ++ " on table " ++ t
registry_error (missing_user_id t) = "write payload missing active user id on table " ++ t
registry_error (factory_failed t m) = "factory failed for " ++ t ++ ": " ++ m
registry_error (invalid_remote_schema m) = "invalid remote schema: " ++ m

abbrev pub storage_error : StorageError → String
storage_error (StorageError.failed b p m) = "storage error on " ++ b ++ "/" ++ p ++ ": " ++ m
storage_error (not_found b p) = "storage object not found at " ++ b ++ "/" ++ p

abbrev pub offline_queue_error : OfflineQueueError → String
offline_queue_error (io m) = "queue io error: " ++ m
offline_queue_error (OfflineQueueError.decode m) = "queue decode failed: " ++ m

abbrev pub encryption_error : EncryptionError → String
encryption_error empty_secret = "encryption secret is empty"
encryption_error (operation_failed m) = "encryption operation failed: " ++ m

unfoldable pub to_string : PolyError → String
to_string (not_configured m) = "polybase not configured: " ++ m
to_string no_session = "no active session"
to_string (http m) = m
to_string (json m) = m
to_string (edge e) = edge_error e
to_string (push e) = push_error e
to_string (pull e) = pull_error e
to_string (registry e) = registry_error e
to_string (storage e) = storage_error e
to_string (offline_queue e) = offline_queue_error e
to_string (local m) = "local store error: " ++ m
to_string (encryption e) = encryption_error e
to_string (other m) = m
