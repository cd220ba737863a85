-- ===== src/Errors/Edge.antt =====
-- The methods of `EdgeError` in crates/polybase/src/errors.rs.
use polykit_rust.Prelude.{String, Bool, true, false}
use polykit_rust.Contract.Message.{is_same_version_mutation_message, is_version_regression_message}
use polykit_rust.Errors.{EdgeError}

abbrev pub is_transient : EdgeError → Bool
is_transient (EdgeError.transient f m) = true
is_transient (EdgeError.forbidden f m) = true
is_transient _ = false

abbrev pub message : EdgeError → String
message (EdgeError.validation f c m) = m
message (EdgeError.conflict f c m) = m
message (EdgeError.forbidden f m) = m
message (EdgeError.transient f m) = m
message (EdgeError.permanent f m) = m
message (EdgeError.decode f m) = m

abbrev pub function : EdgeError → String
function (EdgeError.validation f c m) = f
function (EdgeError.conflict f c m) = f
function (EdgeError.forbidden f m) = f
function (EdgeError.transient f m) = f
function (EdgeError.permanent f m) = f
function (EdgeError.decode f m) = f

abbrev pub is_benign_same_version_mutation : EdgeError → Bool
is_benign_same_version_mutation e = is_same_version_mutation_message (message e)

abbrev pub is_version_regression : EdgeError → Bool
is_version_regression e = is_version_regression_message (message e)
