-- ===== src/Sqlite/Loop.antt =====
-- What the loop of the transaction leaves of the row under a key.
use polykit_rust.Prelude.{
  ◌≡◌, String, not, true, false, Option, none, some, List, [], ◌∷◌, arith, if◌then◌else◌,
  Bool-cases, Option-cases, inl, inr,
}
use polykit_rust.Prelude.Int.{eqb_ℤ, eqb_ℤ_refl}
use polykit_rust.Contract.Finalize.{ContractOperation, Key, key_eq, holds}
use polykit_rust.Contract.Finalize.Membership.{key_eq_iff, key_eq_comm, key_eq_refl}
use polykit_rust.OfflineQueue.{QueuedOperation, to_contract, last_error_of}
use polykit_rust.OfflineQueue.Lookup.{key_of, find, QueueIsDeduped, find_of_absent}
use polykit_rust.OfflineQueue.Finalize.{and_then}
use polykit_rust.Sqlite.Rows.{
  QueueRow, row_key, row_contract, is_row_of, failed_again, delete_where, update_where,
}
use polykit_rust.Sqlite.Queue.{KindCodec, settle_op, settle_ops}
use polykit_rust.Sqlite.Lookup.{
  row_find, IsKeyed, row_find-row_key, row_find-retain, retain-IsKeyed, row_find-map, map-IsKeyed,
}

-- what a settled operation leaves of a row
unfoldable pub bumped : List QueuedOperation → QueuedOperation → QueueRow → QueueRow
bumped failed op r = elim (last_error_of (to_contract op) failed) [
  | none ↦ r
  | some e ↦ failed_again e r
]

unfoldable pub settled :
    List ContractOperation → List QueuedOperation → QueuedOperation → QueueRow → Option QueueRow
settled retained failed op r =
    if is_row_of (to_contract op) r
    then (if holds (to_contract op) retained then some (bumped failed op r) else none)
    else some r

pub settled-other :
    (k : Key) (retained : List ContractOperation) (failed : List QueuedOperation)
    (op : QueuedOperation) (r : QueueRow)
    → key_eq (key_of op) k ≡ false
    → key_eq (row_key r) k ≡ true
    → settled retained failed op r ≡ some r
unfolding settled
settled-other k retained failed op r other here =
    ground (arith, other, here, key_eq_iff (row_key r) k, key_eq_comm (row_key r) (key_of op))

pub settled-own :
    (retained : List ContractOperation) (failed : List QueuedOperation) (op : QueuedOperation)
    (r : QueueRow)
    → row_contract r ≡ to_contract op
    → settled retained failed op r
      ≡ (if holds (to_contract op) retained then some (bumped failed op r) else none)
unfolding settled
settled-own retained failed op r same =
    ground (arith, same, key_eq_refl (key_of op), eqb_ℤ_refl op.queued_at_micros)

pub settled-newer :
    (retained : List ContractOperation) (failed : List QueuedOperation) (op : QueuedOperation)
    (r : QueueRow)
    → eqb_ℤ op.queued_at_micros r.queued_at_micros ≡ false
    → settled retained failed op r ≡ some r
unfolding settled
settled-newer retained failed op r other = ground (arith, other)

-- the change that an `UPDATE` makes to a row
abbrev updated : ContractOperation → Option String → QueueRow → QueueRow
updated op e r = if is_row_of op r then failed_again e r else r

updated-row_key :
    (op : ContractOperation) (e : Option String) (r : QueueRow)
    → row_key (updated op e r) ≡ row_key r
updated-row_key op e r = ground arith

module _ (codec : KindCodec) where
  settle_op-IsKeyed :
      (retained : List ContractOperation) (failed : List QueuedOperation) (op : QueuedOperation)
      (rows : List QueueRow)
      → IsKeyed rows
      → IsKeyed (settle_op codec retained failed op rows)
  unfolding settle_op delete_where update_where
  settle_op-IsKeyed retained failed op rows d =
      elim (Bool-cases (holds (to_contract op) retained)) [
        | inr dropped ↦
            rw (settle_op, dropped)
              (retain-IsKeyed (λ r. not (is_row_of (to_contract op) r)) rows d)
        | inl held ↦ elim (Option-cases (last_error_of (to_contract op) failed)) [
          | inl passed ↦ rw (settle_op, held) (rw passed d)
          | inr (e, again) ↦
              rw (settle_op, held)
                (rw again (
                  map-IsKeyed (updated (to_contract op) e) (updated-row_key (to_contract op) e) rows
                    d))
        ]
      ]

  row_find-settle_op :
      (k : Key) (retained : List ContractOperation) (failed : List QueuedOperation)
      (op : QueuedOperation) (rows : List QueueRow)
      → IsKeyed rows
      → row_find k (settle_op codec retained failed op rows)
        ≡ and_then (row_find k rows) (settled retained failed op)
  unfolding settle_op settled bumped delete_where update_where
  row_find-settle_op k retained failed op rows d =
      elim (Bool-cases (holds (to_contract op) retained)) [
        | inr dropped ↦ elim (Option-cases (row_find k rows)) [
          | inl absent ↦ ground (
            arith,
            dropped,
            absent,
            row_find-retain k (λ (r : QueueRow). not (is_row_of (to_contract op) r)) rows d,
          )
          | inr (r, here) ↦ ground (
            arith,
            dropped,
            here,
            row_find-retain k (λ (r : QueueRow). not (is_row_of (to_contract op) r)) rows d,
          )
        ]
        | inl held ↦ elim (Option-cases (last_error_of (to_contract op) failed)) [
          | inl passed ↦ ground (arith, held, passed)
          | inr (e, again) ↦ ground (
            arith,
            held,
            again,
            row_find-map k (updated (to_contract op) e) (updated-row_key (to_contract op) e) rows,
          )
        ]
      ]

  -- what the loop leaves of the row under a key, by the operation that it finds there
  abbrev pub after_loop :
      List ContractOperation
      → List QueuedOperation
      → Option QueuedOperation
      → QueueRow
      → Option QueueRow
  after_loop retained failed none r = some r
  after_loop retained failed (some op) r = settled retained failed op r

  pub row_find-settle_ops :
      (k : Key) (retained : List ContractOperation) (failed ops : List QueuedOperation)
      (rows : List QueueRow)
      → QueueIsDeduped ops
      → IsKeyed rows
      → row_find k (settle_ops codec retained failed ops rows)
        ≡ and_then (row_find k rows) (after_loop retained failed (find k ops))
  unfolding settle_ops find
  row_find-settle_ops k retained failed [] rows u d = ground arith
  row_find-settle_ops k retained failed (op ∷ ops) rows u d =
      let rows' : List QueueRow = settle_op codec retained failed op rows in
      let rest =
        row_find-settle_ops k retained failed ops rows' u.1
          (settle_op-IsKeyed retained failed op rows d) in
      let first = row_find-settle_op k retained failed op rows d in
      elim (Bool-cases (key_eq (key_of op) k)) [
        | inl same ↦
            let gone : find k ops ≡ none =
              find_of_absent k ops (rw⁻¹ (key_eq_iff (key_of op) k same) u.0) in
            ground (arith, rest, first, same, gone)
        | inr other ↦ elim (Option-cases (row_find k rows)) [
          | inl absent ↦ ground (arith, rest, first, other, absent)
          | inr (r, here) ↦ ground (
            arith,
            rest,
            first,
            other,
            here,
            settled-other k retained failed op r other (row_find-row_key k rows r here),
          )
        ]
      ]
