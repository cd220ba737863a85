-- ===== src/Registry/Serialize.antt =====
-- Preparing a payload for the wire (crates/polybase/src/registry/mod.rs), and decrypting a row that
-- came from there (`decrypt_record_columns` of crates/polybase/src/sync/coordinator.rs).
pub mod Cover
pub mod RoundTrip
use polykit_rust.Prelude.{
  ℕ, ◌+◌, String, Bool, true, false, not, Option, none, some, List, [], ◌∷◌, if◌then◌else◌,
}
use polykit_rust.Prelude.Assoc
use polykit_rust.Prelude.Result.{Result, ok, err, ◌>>=◌}
use polykit_rust.Json.{Value, Record, string, as_str}
use polykit_rust.Errors.{RegistryError, encryption_failed, PolyError, encryption}
use polykit_rust.Encryption.{is_encrypted}
use polykit_rust.Encryption.Codec.{Codec}
use polykit_rust.Registry.{ColumnDef, EntityConfig, effective_remote_name}

-- the text under a key
unfoldable pub string_at : String → Record → Option String
unfolding Assoc.get
string_at key r = elim (Assoc.get key r) [ none ↦ none | some v ↦ as_str v ]

-- the body of the loop over the columns; `draw` is the index of the nonce
unfoldable pub encrypt_column :
    Codec → String → String → ℕ → ColumnDef → Record → Result RegistryError Record
unfolding string_at Assoc.insert
encrypt_column enc user_id table draw column serialized =
    let key = effective_remote_name column in
    if not column.encrypted then ok serialized else elim (string_at key serialized) [
      | none ↦ ok serialized
      | some current_value ↦
          if is_encrypted current_value
          then ok serialized
          else elim (enc.encrypt draw current_value user_id) [
            | err e ↦ err (encryption_failed table column.canonical_name)
            | ok encrypted ↦ ok (Assoc.insert key (string encrypted) serialized)
          ]
    ]

unfoldable pub encrypt_columns :
    Codec → String → String → ℕ → List ColumnDef → Record → Result RegistryError Record
unfolding encrypt_column
encrypt_columns enc user_id table draw [] serialized = ok serialized
encrypt_columns enc user_id table draw (column ∷ columns) serialized = do
  serialized' ← encrypt_column enc user_id table draw column serialized
  encrypt_columns enc user_id table (draw + 1) columns serialized'

unfoldable pub inject_user : EntityConfig → String → Record → Record
unfolding Assoc.insert
inject_user config user_id serialized =
    if config.include_user_id
    then (elim config.user_id_column [
      | none ↦ serialized
      | some column ↦ Assoc.insert column (string user_id) serialized
    ])
    else serialized

unfoldable pub serialize_for_remote :
    Option Codec → String → EntityConfig → Record → Result RegistryError Record
unfolding encrypt_columns inject_user
serialize_for_remote none user_id config payload = ok (inject_user config user_id payload)
serialize_for_remote (some enc) user_id config payload = do
  serialized ← encrypt_columns enc user_id config.table_name 0 config.columns payload
  ok (inject_user config user_id serialized)

unfoldable pub decrypt_column : Codec → String → ColumnDef → Record → Result PolyError Record
unfolding string_at Assoc.insert
decrypt_column enc user_id column record_ =
    let key = effective_remote_name column in
    if not column.encrypted then ok record_ else elim (string_at key record_) [
      | none ↦ ok record_
      | some text ↦
          if is_encrypted text
          then (elim (enc.decrypt text user_id) [
            | err e ↦ err (encryption e)
            | ok plain ↦ ok (Assoc.insert key (string plain) record_)
          ])
          else ok record_
    ]

unfoldable pub decrypt_columns : Codec → String → List ColumnDef → Record → Result PolyError Record
unfolding decrypt_column
decrypt_columns enc user_id [] record_ = ok record_
decrypt_columns enc user_id (column ∷ columns) record_ = do
  record' ← decrypt_column enc user_id column record_
  decrypt_columns enc user_id columns record'

abbrev pub decrypt_record_columns : EntityConfig → Codec → String → Record → Result PolyError Record
decrypt_record_columns config enc user_id record_ =
    decrypt_columns enc user_id config.columns record_
