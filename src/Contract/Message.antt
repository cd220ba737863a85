-- ===== src/Contract/Message.antt =====
-- The message classifiers of contract.rs, and the keys and paths that it formats.
use Prim.Native.String.{◌++◌}
use polykit_rust.Prelude.{String, Bool}
use polykit_rust.Prelude.Text.{codes, to_ascii_lowercase, contains}

abbrev pub same_version_mutation_marker : String
same_version_mutation_marker = "same-version mutation"

abbrev pub version_regression_marker : String
version_regression_marker = "version regression"

unfoldable pub is_same_version_mutation_message : String → Bool
unfolding contains to_ascii_lowercase
is_same_version_mutation_message message =
    contains (to_ascii_lowercase (codes message)) (codes same_version_mutation_marker)

unfoldable pub is_version_regression_message : String → Bool
unfolding contains to_ascii_lowercase
is_version_regression_message message =
    contains (to_ascii_lowercase (codes message)) (codes version_regression_marker)

unfoldable pub echo_tracker_key : String → String → String
echo_tracker_key table entity_id = table ++ (":" ++ entity_id)

unfoldable pub attachment_storage_path : String → String → String → String → String
attachment_storage_path user_id conversation_id attachment_id extension =
    user_id ++ ("/" ++ (conversation_id ++ ("/" ++ (attachment_id ++ ("." ++ extension)))))
