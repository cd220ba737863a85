-- ===== src/Errors/Push.antt =====
-- The methods of `PushError` in crates/polybase/src/errors.rs.
use polykit_rust.Prelude.{Bool, true, false}
use polykit_rust.Contract.Message.{is_version_regression_message}
use polykit_rust.Errors.{PushError}

abbrev pub is_transient : PushError → Bool
is_transient (PushError.transient t m) = true
is_transient _ = false

abbrev pub is_permanent : PushError → Bool
is_permanent (PushError.permanent t m) = true
is_permanent _ = false

abbrev pub is_version_regression : PushError → Bool
is_version_regression (PushError.permanent t m) = is_version_regression_message m
is_version_regression _ = false
