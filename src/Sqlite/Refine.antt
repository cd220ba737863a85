-- ===== src/Sqlite/Refine.antt =====
-- The SQLite queue does what the in-memory queue does: its table shows the same operation under
-- each key, whatever the order of its rows.
use polykit_rust.Prelude.{
  ℕ, ◌<◌, ◌-◌, ◌^◌, ◌≡◌, refl, String, false, some, List, [], ◌∷◌, map, arith, All, if◌then◌else◌,
  Bool-cases, Option-cases, inl, inr, ◌∙◌,
}
use polykit_rust.Prelude.Int.{pos, +ℤ_parts, eqb_ℤ}
use polykit_rust.Prelude.Result.{ok, Result-cases}
use polykit_rust.Contract.Finalize.{
  ContractOperation, Key, key_eq, queued_is, finalize_queue_after_processing,
}
use polykit_rust.Contract.Finalize.Membership.{key_eq_refl}
use polykit_rust.OfflineQueue.{
  QueuedOperation, QueuedOperationKind, MemoryQueue, to_contract, last_error_of, mark_failure,
  settle, bump_u32,
}
use polykit_rust.OfflineQueue as Memory
use polykit_rust.OfflineQueue.Lookup.{key_of, find, QueueIsDeduped, find-enqueue}
use polykit_rust.OfflineQueue.Finalize.{
  and_then, find-holds, replay_outcome, settle-outcome, find-finalize,
}
use polykit_rust.Sqlite.Rows.{QueueRow, row_key, row_contract, insert_or_replace}
use polykit_rust.Sqlite.Queue.{
  KindCodec, row_of, with_kind, try_from, snapshot, enqueue, commit, finalize_after_processing,
}
use polykit_rust.Sqlite.Loop.{bumped, settled-own, settled-newer, row_find-settle_ops}
use polykit_rust.Sqlite.View.{decoded, view, decoded-key_of, find-snapshot, snapshot-IsDeduped}
use polykit_rust.Sqlite.Lookup.{
  row_find, IsKeyed, row_find-insert_or_replace, insert_or_replace-IsKeyed,
}

module _ (codec : KindCodec) where
  -- The retry count fits a `u32` once more.
  abbrev CountFits : QueueRow → Type 0
  CountFits r = (n : ℕ) × (r.retry_count ≡ pos n) × (n < 2 ^ 32 - 1)

  bumped-decoded :
      (failed : List QueuedOperation) (r : QueueRow) (op : QueuedOperation)
      → CountFits r
      → try_from codec r ≡ ok op
      → decoded codec (bumped failed op r) ≡ some (mark_failure failed op)
  unfolding decoded bumped mark_failure try_from
  bumped-decoded failed r op (n, is, fits) h = elim (Result-cases (codec.from_str r.kind)) [
    | inr (e, bad) ↦ ground (arith, h, bad)
    | inl (kind, read) ↦
        let same : op ≡ with_kind r kind = ground (arith, h, read) in
        rw same (elim (Option-cases (last_error_of (row_contract r) failed)) [
          | inl passed ↦ ground (arith, passed, read)
          | inr (e, again) ↦ ground (arith, again, read, is, fits, +ℤ_parts r.retry_count (pos 1))
        ])
  ]

  All-row_find :
      (k : Key) (rows : List QueueRow) (r : QueueRow)
      → All CountFits rows
      → row_find k rows ≡ some r
      → CountFits r
  unfolding row_find
  All-row_find k [] r all h = ground (arith, h)
  All-row_find k (s ∷ rows) r all h = elim (Bool-cases (key_eq (row_key s) k)) [
    | inl same ↦ let is : s ≡ r = ground (arith, same, h) in rw⁻¹ is (all.0)
    | inr other ↦ All-row_find k rows r all.1 (ground (arith, other, h))
  ]

  -- The table shows a queue: the same operation under each key.
  abbrev pub Shows : List QueueRow → MemoryQueue → Type 0
  Shows rows q = (k : Key) → view codec k rows ≡ find k q

  pub commit-settles :
      (k : Key) (s f current : List QueuedOperation) (rows : List QueueRow)
      → QueueIsDeduped current
      → IsKeyed rows
      → snapshot codec rows ≡ ok current
      → All CountFits rows
      → view codec k (commit codec s f current rows)
        ≡ and_then (find k current) (replay_outcome s f)
  unfolding commit view decoded settle
  commit-settles k s f current rows u d read fits =
      let retained : List ContractOperation =
        finalize_queue_after_processing (map to_contract current) (map to_contract s)
          (map to_contract f) in
      let loop = row_find-settle_ops codec k retained f current rows u d in
      let shown = find-snapshot codec k rows current d read in
      elim (Option-cases (row_find k rows)) [
        | inl absent ↦ ground (arith, loop, shown, absent)
        | inr (r, here) ↦ elim (Result-cases (try_from codec r)) [
          | inr (e, bad) ↦ ground (arith, loop, shown, here, bad)
          | inl (op, good) ↦
              let found : find k current ≡ some op = ground (arith, shown, here, good) in
              let outcome : settle retained f op ≡ replay_outcome s f op =
                settle-outcome s f current op u (find-holds k current op found) in
              ground (
                arith,
                loop,
                here,
                found,
                outcome,
                settled-own retained f op r (decoded-key_of codec r op good),
                bumped-decoded f r op (All-row_find k rows r fits here) good,
              )
        ]
      ]

  -- Finalizing keeps the table in step with the in-memory queue: where the table shows a queue, its
  -- rows decode, and no retry count is at its end, the transaction succeeds, and the new table shows
  -- what finalizing leaves of the in-memory queue.
  pub finalize_refines :
      (s f current : List QueuedOperation) (q : MemoryQueue) (rows : List QueueRow)
      → IsKeyed rows
      → QueueIsDeduped q
      → All CountFits rows
      → snapshot codec rows ≡ ok current
      → Shows rows q
      → (rows' : List QueueRow) × (finalize_after_processing codec s f rows ≡ ok rows')
        × Shows rows' (Memory.finalize_after_processing s f q)
  unfolding finalize_after_processing
  finalize_refines s f current q rows d u fits read shows =
      let deduped : QueueIsDeduped current = snapshot-IsDeduped codec rows current d read in
      (
        commit codec s f current rows,
        rw (finalize_after_processing, read) refl,
        λ k.
            commit-settles k s f current rows deduped d read fits
            ∙ (rw (find-snapshot codec k rows current d read, shows k, find-finalize s f q k u)
                refl),
      )

  -- The decoder reads what the encoder writes.
  abbrev pub ReadsBack : Type 0
  ReadsBack =
      (kind : QueuedOperationKind) (text : String)
      → codec.to_string kind ≡ ok text
      → codec.from_str text ≡ ok kind

  view-insert :
      (k : Key) (op : QueuedOperation) (text : String) (rows : List QueueRow)
      → ReadsBack
      → codec.to_string op.kind ≡ ok text
      → op.retry_count < 2 ^ 32
      → view codec k (insert_or_replace (row_of op text) rows)
        ≡ (if key_eq (key_of op) k then some op else view codec k rows)
  unfolding view decoded try_from
  view-insert k op text rows back made fits =
      ground
        (arith, row_find-insert_or_replace k (row_of op text) rows, back op.kind text made, fits)

  -- Enqueuing keeps the table in step with the in-memory queue, for an operation whose kind can be
  -- written as JSON and whose retry count is a `u32`.
  pub enqueue_refines :
      (op : QueuedOperation) (text : String) (q : MemoryQueue) (rows : List QueueRow)
      → ReadsBack
      → codec.to_string op.kind ≡ ok text
      → op.retry_count < 2 ^ 32
      → Shows rows q
      → (rows' : List QueueRow) × (enqueue codec op rows ≡ ok rows')
        × Shows rows' (Memory.enqueue op q)
  unfolding enqueue
  enqueue_refines op text q rows back made fits shows = (
    insert_or_replace (row_of op text) rows,
    rw (enqueue, made) refl,
    λ k. view-insert k op text rows back made fits ∙ (rw (shows k, find-enqueue k op q) refl),
  )

  -- An operation that is enqueued between the read and the transaction is kept as it is, if the
  -- read saw no operation of its key with its timestamp.
  pub enqueued_meanwhile_kept :
      (s f current : List QueuedOperation) (op : QueuedOperation) (text : String)
      (rows : List QueueRow)
      → IsKeyed rows
      → snapshot codec rows ≡ ok current
      → ReadsBack
      → codec.to_string op.kind ≡ ok text
      → op.retry_count < 2 ^ 32
      → queued_is
          (and_then (find (key_of op) current) (λ o. some o.queued_at_micros))
          op.queued_at_micros
        ≡ false
      → view codec (key_of op) (commit codec s f current (insert_or_replace (row_of op text) rows))
        ≡ some op
  unfolding commit view
  enqueued_meanwhile_kept s f current op text rows d read back made fits fresh =
      let k : Key = key_of op in
      let row : QueueRow = row_of op text in
      let rows' : List QueueRow = insert_or_replace row rows in
      let retained : List ContractOperation =
        finalize_queue_after_processing (map to_contract current) (map to_contract s)
          (map to_contract f) in
      let loop =
        row_find-settle_ops codec k retained f current rows'
          (snapshot-IsDeduped codec rows current d read) (insert_or_replace-IsKeyed row rows d) in
      let there : row_find k rows' ≡ some row =
        ground (arith, row_find-insert_or_replace k row rows, key_eq_refl k) in
      let shown : view codec k rows' ≡ some op =
        ground (arith, view-insert k op text rows back made fits, key_eq_refl k) in
      elim (Option-cases (find k current)) [
        | inl absent ↦ ground (arith, loop, there, shown, absent)
        | inr (o, here) ↦
            let other : eqb_ℤ o.queued_at_micros op.queued_at_micros ≡ false =
              ground (arith, fresh, here) in
            ground (arith, loop, there, shown, here, settled-newer retained f o row other)
      ]
