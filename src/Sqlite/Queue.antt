-- ===== src/Sqlite/Queue.antt =====
-- `SqliteOfflineQueue` of crates/polybase-sqlite/src/queue.rs. The state is the table of the
-- active user, if there is one. The JSON codec of an operation's kind is a parameter.
use polykit_rust.Prelude.{
  ℕ, ◌^◌, String, Option, none, some, List, [], ◌∷◌, map, length, ltb, if◌then◌else◌,
}
use polykit_rust.Prelude.Int.{ℤ, pos, negsuc}
use polykit_rust.Prelude.Result.{Result, ok, err}
use polykit_rust.Errors.{OfflineQueueError, io, decode}
use polykit_rust.Contract.Finalize.{ContractOperation, holds, finalize_queue_after_processing}
use polykit_rust.OfflineQueue.{QueuedOperation, QueuedOperationKind, to_contract, last_error_of}
use polykit_rust.Sqlite.Rows.{
  QueueRow, insert_or_replace, delete_where, update_where, select_ordered,
}

-- `serde_json::to_string` and `from_str` of a `QueuedOperationKind`
pub record KindCodec : Type 0 where
  pub to_string : QueuedOperationKind → Result String String
  pub from_str : String → Result String QueuedOperationKind

-- `u32::try_from(…).unwrap_or(0)`
abbrev pub to_u32 : ℤ → ℕ
to_u32 (pos n) = if ltb n (2 ^ 32) then n else 0
to_u32 (negsuc n) = 0

abbrev pub row_of : QueuedOperation → String → QueueRow
row_of op kind_json = record {
  table_name = op.table;
  entity_id = op.entity_id;
  kind = kind_json;
  queued_at_micros = op.queued_at_micros;
  retry_count = pos op.retry_count;
  last_error = op.last_error;
}

abbrev pub with_kind : QueueRow → QueuedOperationKind → QueuedOperation
with_kind row kind = record {
  table = row.table_name;
  entity_id = row.entity_id;
  kind = kind;
  queued_at_micros = row.queued_at_micros;
  retry_count = to_u32 row.retry_count;
  last_error = row.last_error;
}

module _ (codec : KindCodec) where
  unfoldable pub try_from : QueueRow → Result OfflineQueueError QueuedOperation
  try_from row = elim (codec.from_str row.kind) [
    | err e ↦ err (decode e)
    | ok kind ↦ ok (with_kind row kind)
  ]

  -- `map(try_from).collect()`
  unfoldable pub collect : List QueueRow → Result OfflineQueueError (List QueuedOperation)
  unfolding try_from
  collect [] = ok []
  collect (row ∷ rows) =
      let rest = collect rows in
      elim (try_from row) [
        | err e ↦ err e
        | ok op ↦ elim rest [ err e ↦ err e | ok ops ↦ ok (op ∷ ops) ]
      ]

  unfoldable pub snapshot : List QueueRow → Result OfflineQueueError (List QueuedOperation)
  unfolding collect select_ordered
  snapshot rows = collect (select_ordered rows)

  unfoldable pub enqueue :
      QueuedOperation → List QueueRow → Result OfflineQueueError (List QueueRow)
  unfolding insert_or_replace
  enqueue op rows = elim (codec.to_string op.kind) [
    | err e ↦ err (decode e)
    | ok kind_json ↦ ok (insert_or_replace (row_of op kind_json) rows)
  ]

  -- the body of the loop of the transaction
  unfoldable pub settle_op :
      List ContractOperation
      → List QueuedOperation
      → QueuedOperation
      → List QueueRow
      → List QueueRow
  unfolding holds last_error_of delete_where update_where
  settle_op retained failed op rows =
      if holds (to_contract op) retained
      then (elim (last_error_of (to_contract op) failed) [
        | none ↦ rows
        | some last_error ↦ update_where (to_contract op) last_error rows
      ])
      else delete_where (to_contract op) rows

  unfoldable pub settle_ops :
      List ContractOperation
      → List QueuedOperation
      → List QueuedOperation
      → List QueueRow
      → List QueueRow
  unfolding settle_op
  settle_ops retained failed [] rows = rows
  settle_ops retained failed (op ∷ current) rows =
      settle_ops retained failed current (settle_op retained failed op rows)

  -- The transaction, on the rows that are there when it begins; `current` was read before it.
  unfoldable pub commit :
      List QueuedOperation
      → List QueuedOperation
      → List QueuedOperation
      → List QueueRow
      → List QueueRow
  unfolding settle_ops finalize_queue_after_processing
  commit snapshotted failed current rows =
      let retained =
        finalize_queue_after_processing (map to_contract current) (map to_contract snapshotted)
          (map to_contract failed) in
      settle_ops retained failed current rows

  unfoldable pub finalize_after_processing :
      List QueuedOperation
      → List QueuedOperation
      → List QueueRow
      → Result OfflineQueueError (List QueueRow)
  unfolding snapshot commit
  finalize_after_processing snapshotted failed rows = elim (snapshot rows) [
    | err e ↦ err e
    | ok current ↦ ok (commit snapshotted failed current rows)
  ]

  unfoldable pub depth : List QueueRow → ℕ
  depth rows = length rows

  -- A method on the table of the active user; `io` if there is none.
  abbrev pub with_pool {ℓ} :
      {A : Type ℓ}
      → (List QueueRow → Result OfflineQueueError A)
      → Option (List QueueRow)
      → Result OfflineQueueError A
  with_pool f none = err (io "no active user pool")
  with_pool f (some rows) = f rows
