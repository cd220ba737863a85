-- ===== src/Kvs/ReadBack.antt =====
-- What a key reads as after it was set or deleted, and the versions of its row.
use polykit_rust.Prelude.{
  String, ◌≡◌, refl, Bool, true, false, Option, none, some, arith, Option-cases, inl, inr,
}
use polykit_rust.Prelude.Int.{
  ℤ, pos, InI64, ◌+ℤ◌, ◌≤ℤ◌, add_i64, i64_max, add_i64_exact, +ℤ_parts, wrap_i64-InI64,
}
use polykit_rust.Prelude.Assoc
use polykit_rust.Prelude.Result.{Result, ok, err, Result-cases}
use polykit_rust.Json.{Value, Record, as_i64, string, int, array, object}
use polykit_rust.Errors.{json}
use polykit_rust.Contract.Version.{undelete_minimum_version}
use polykit_rust.Contract.Reconcile.{determine_reconcile_action, adopt_tombstone}
use polykit_rust.Registry.{map_remote_to_local, copy, remote_to_local}
use polykit_rust.Registry.Serialize.{
  serialize_for_remote, inject_user, encrypt_columns, encrypt_column,
}
use polykit_rust.Registry.Catalog.{config_for_table}
use polykit_rust.Kvs.{kvs_table, encode_id}
use polykit_rust.Kvs.Api.{
  kvs_entity_config, kvs_record, is_deleted, version_at, decode_stored, next_version_for, get, set,
}
use polykit_rust.Auth.{SessionPayload}
use polykit_rust.Encryption.Codec.{Codec}
use polykit_rust.Persistence.{LocalStore}
use polykit_rust.Sync.Coordinator.{Env, World, Prepared, str_at, prepare}
use polykit_rust.Sync.Coordinator.Durable.{local_of, mirrored, persist-cases, push_write-local}

-- The values that a text column keeps: texts, numbers of an `i64`, arrays and objects.
abbrev pub is_kept : Value → Bool
is_kept (string s) = true
is_kept (int z) = elim (as_i64 (int z)) [ none ↦ false | some i ↦ true ]
is_kept (array vs) = true
is_kept (object fs) = true
is_kept _ = false

-- what such a column reads as
abbrev pub column_text : (Value → String) → Value → Value
column_text to_string (string s) = string s
column_text to_string v = string (to_string v)

-- A store whose rows of the table `kvs` have a text column for the value and number columns for the
-- version and the flag: a row that was put reads back with these columns.
unfoldable pub Keeps : {S : Type 0} → (Value → String) → LocalStore S → Type 0
Keeps {S} to_string store =
    (namespace key : String) (value : Value) (version : ℤ) (now : String) (s s' : S)
    → is_kept value ≡ true
    → InI64 version
    → store.upsert_record kvs_table (kvs_record namespace key value version now) s ≡ ok s'
    → (row : Record) × (store.read_record kvs_table (encode_id namespace key) s' ≡ ok (some row))
      × (Assoc.get "value" row ≡ some (column_text to_string value))
      × (Assoc.get "version" row ≡ some (int version))
      × (Assoc.get "deleted" row ≡ some (int (pos 0)))

-- The JSON text of a value that is no text is decoded to the value.
abbrev pub Decodes : (String → Option Value) → (Value → String) → Value → Type 0
Decodes from_str to_string (string s) = Unit
Decodes from_str to_string v = from_str (to_string v) ≡ some v

decode_stored-column_text :
    (from_str : String → Option Value) (to_string : Value → String) (value : Value)
    → Decodes from_str to_string value
    → decode_stored from_str (column_text to_string value) ≡ decode_stored from_str value
decode_stored-column_text from_str to_string Value.null h = rw h refl
decode_stored-column_text from_str to_string (Value.bool b) h = rw h refl
decode_stored-column_text from_str to_string (int z) h = rw h refl
decode_stored-column_text from_str to_string (Value.real r) h = rw h refl
decode_stored-column_text from_str to_string (string s) h = refl
decode_stored-column_text from_str to_string (array vs) h = rw h refl
decode_stored-column_text from_str to_string (object fs) h = rw h refl

-- the payload of a row for the wire: the row, and its user
abbrev wire : String → Record → Record
unfolding Assoc.insert
wire user r = Assoc.insert "user_id" (string user) r

serialize-kvs :
    (encryption : Option Codec) (user namespace key : String) (value : Value) (version : ℤ)
    (now : String)
    → serialize_for_remote encryption user kvs_entity_config
        (kvs_record namespace key value version now)
      ≡ ok (wire user (kvs_record namespace key value version now))
unfolding serialize_for_remote inject_user encrypt_columns encrypt_column Assoc.insert
serialize-kvs none user namespace key value version now = refl
serialize-kvs (some enc) user namespace key value version now = refl

wire-local :
    (user namespace key : String) (value : Value) (version : ℤ) (now : String)
    → map_remote_to_local kvs_entity_config (wire user (kvs_record namespace key value version now))
      ≡ kvs_record namespace key value version now
unfolding remote_to_local copy Assoc.insert Assoc.get
wire-local user namespace key value version now = refl

version_at-int :
    (row : Record) (version : ℤ)
    → Assoc.get "version" row ≡ some (int version)
    → InI64 version
    → version_at row ≡ version
unfolding version_at
version_at-int row version is range = rw (version_at, is) (ground (arith, range))

is_deleted-zero :
    (row : Record) → Assoc.get "deleted" row ≡ some (int (pos 0)) → is_deleted row ≡ false
unfolding is_deleted
is_deleted-zero row is = rw (is_deleted, is) refl

-- One step above a tombstone is below the undelete threshold.
step_below_threshold :
    (v : ℤ)
    → InI64 v
    → v +ℤ pos 1000 ≤ℤ i64_max
    → determine_reconcile_action (add_i64 v 1) false v true ≡ adopt_tombstone
unfolding undelete_minimum_version determine_reconcile_action
step_below_threshold v range room =
    let one : add_i64 v 1 ≡ v +ℤ pos 1 =
      add_i64_exact v 1 range (omega (arith, +ℤ_parts v (pos 1000), +ℤ_parts v (pos 1))) in
    let thousand : add_i64 v 1000 ≡ v +ℤ pos 1000 = add_i64_exact v 1000 range room in
    rw (one, thousand) (ground (arith, +ℤ_parts v (pos 1000), +ℤ_parts v (pos 1)))

module _ {S Q : Type 0} (env : Env S Q) where
  abbrev prepared : SessionPayload → String → Record → Prepared
  prepared session id r = record {
    entity = kvs_entity_config;
    entity_id = id;
    session = session;
    payload = wire session.user_id r;
  }

  prepare-kvs :
      (namespace key : String) (value : Value) (version : ℤ) (now : String) (p : Prepared)
      → config_for_table kvs_table env.registry ≡ some kvs_entity_config
      → prepare env kvs_table (kvs_record namespace key value version now) ≡ ok p
      → local_of env p ≡ kvs_record namespace key value version now
  unfolding prepare str_at Assoc.get
  prepare-kvs namespace key value version now p registered ready =
      let r : Record = kvs_record namespace key value version now in
      elim (Option-cases env.session) [
        | inl out ↦ ground (arith, ready, registered, out)
        | inr (session, is) ↦
            let id : String = encode_id namespace key in
            let made : prepare env kvs_table r ≡ ok (prepared session id r) =
              rw (registered, is)
                (rw (serialize-kvs env.encryption session.user_id namespace key value version now)
                  refl) in
            let same : p ≡ prepared session id r = ground (arith, ready, made) in
            rw same (wire-local session.user_id namespace key value version now)
      ]

  set-version :
      (namespace key : String) (w : World S Q) (version : ℤ)
      → next_version_for env (encode_id namespace key) w ≡ ok version
      → InI64 version
  unfolding next_version_for add_i64
  set-version namespace key w version due =
      elim (Result-cases (env.store.read_record kvs_table (encode_id namespace key) w.local)) [
        | inr (e, failed) ↦ ground (arith, due, failed)
        | inl (found, read) ↦ elim (Option-cases found) [
          | inl fresh ↦
              let first : version ≡ pos 1 = ground (arith, due, read, fresh) in
              rw first (omega arith)
          | inr (row, old) ↦
              let next : version ≡ add_i64 (version_at row) 1 = ground (arith, due, read, old) in
              rw next (wrap_i64-InI64 (version_at row +ℤ pos 1))
        ]
      ]

  -- A `set` that succeeds leaves its row in the mirror, with the version that was due.
  set-stored :
      (to_string : Value → String) (namespace key : String) (value : Value) (w : World S Q)
      → config_for_table kvs_table env.registry ≡ some kvs_entity_config
      → Keeps to_string env.store
      → is_kept value ≡ true
      → (set env namespace key value w).1 ≡ ok tt
      → (version : ℤ) × (row : Record) × (next_version_for env (encode_id namespace key) w
          ≡ ok version)
        × InI64 version
        × (env.store.read_record kvs_table
              (encode_id namespace key)
              (set env namespace key value w).0.local
            ≡ ok (some row))
        × (Assoc.get "value" row ≡ some (column_text to_string value))
        × (Assoc.get "version" row ≡ some (int version))
        × (Assoc.get "deleted" row ≡ some (int (pos 0)))
  unfolding set Keeps
  set-stored to_string namespace key value w registered keeps kept done =
      let id : String = encode_id namespace key in
      elim (Result-cases (next_version_for env id w)) [
        | inr (e, failed) ↦ ground (arith, done, failed)
        | inl (version, due) ↦
            let now = env.clock.rfc3339 in
            let r : Record = kvs_record namespace key value version now in
            elim (persist-cases env kvs_table r none w) [
              | inl (e, refused) ↦ ground (arith, done, due, refused)
              | inr (p, l, ready, stored, pushed) ↦
                  let same : local_of env p ≡ r =
                    prepare-kvs namespace key value version now p registered ready in
                  let put : env.store.upsert_record kvs_table r w.local ≡ ok l =
                    rw same at stored in
                  let range = set-version namespace key w version due in
                  let (row, reads, has, is_version, live) =
                    keeps namespace key value version now w.local l kept range put in
                  (
                    version,
                    row,
                    due,
                    range,
                    rw (set, due)
                        (rw
                          (
                            pushed,
                            push_write-local env kvs_table none p (mirrored env kvs_table p l w),
                          )
                          reads),
                    has,
                    is_version,
                    live,
                  )
            ]
      ]

  -- A key that was set reads as its value. The table `kvs` is registered; the value is a text, an
  -- `i64`, an array or an object, whose JSON text decodes to it; and the store keeps the value of a row
  -- in a text column and its flag and version in number columns. Then after a `set` that succeeded
  -- `get` decodes the value that was set, where a text that is itself a JSON text stands for the JSON
  -- value that it writes.
  pub get-set {ℓ} :
      {T : Type ℓ}
      → (from_str : String → Option Value) (to_string : Value → String)
      → (from_value : Value → Result String T) (namespace key : String) (value : Value)
      → (w : World S Q) → config_for_table kvs_table env.registry ≡ some kvs_entity_config
      → Keeps to_string env.store
      → is_kept value ≡ true
      → Decodes from_str to_string value
      → (set env namespace key value w).1 ≡ ok tt
      → get env from_str from_value namespace key (set env namespace key value w).0
        ≡ elim (from_value (decode_stored from_str value)) [
          | err e ↦ err (json e)
          | ok typed ↦ ok (some typed)
        ]
  unfolding get
  get-set from_str to_string from_value namespace key value w registered keeps kept decodes done =
      let (version, row, due, range, reads, has, is_version, live) =
        set-stored to_string namespace key value w registered keeps kept done in
      rw (get, reads)
        (rw (is_deleted-zero row live, has)
          (rw (decode_stored-column_text from_str to_string value decodes) refl))

  -- A key that is set again after its delete stays below the undelete threshold: where the mirror
  -- held its tombstone of a version, a `set` that succeeded leaves a live row in the mirror, of which
  -- a reconcile pass that meets that tombstone on the server decides to adopt the tombstone again.
  -- The table is registered, the value and the store are as for a key that reads back, and the
  -- version is an `i64` with room for 1000 more.
  pub set_after_delete_is_undone :
      (to_string : Value → String) (namespace key : String) (value : Value) (w : World S Q)
      (row : Record)
      → config_for_table kvs_table env.registry ≡ some kvs_entity_config
      → Keeps to_string env.store
      → is_kept value ≡ true
      → env.store.read_record kvs_table (encode_id namespace key) w.local ≡ ok (some row)
      → InI64 (version_at row)
      → version_at row +ℤ pos 1000 ≤ℤ i64_max
      → (set env namespace key value w).1 ≡ ok tt
      → (after : Record) × (env.store.read_record kvs_table
            (encode_id namespace key)
            (set env namespace key value w).0.local
          ≡ ok (some after))
        × (is_deleted after ≡ false)
        × (determine_reconcile_action (version_at after) (is_deleted after) (version_at row) true
            ≡ adopt_tombstone)
  unfolding next_version_for
  set_after_delete_is_undone to_string namespace key value w row registered keeps kept was range
        room done =
      let (version, after, due, fits, reads, has, is_version, live) =
        set-stored to_string namespace key value w registered keeps kept done in
      let next : version ≡ add_i64 (version_at row) 1 = ground (arith, due, was) in
      (
        after,
        reads,
        is_deleted-zero after live,
        rw (version_at-int after version is_version fits, is_deleted-zero after live, next)
            (step_below_threshold (version_at row) range room),
      )
