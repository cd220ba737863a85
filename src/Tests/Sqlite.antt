-- ===== src/Tests/Sqlite.antt =====
-- The theorems on the stored queues at concrete operations, with codecs of one kind and of one
-- queue.
use polykit_rust.Prelude.{
  ◌==◌, ◌≡◌, String, refl, Bool, true, false, Option, none, some, List, [], ◌∷◌, arith,
  if◌then◌else◌, ◌&&◌, eq_iff, num_eq, num_eq_iff, Bool-cases, inl, inr,
}
use polykit_rust.Prelude.Int.{pos, eqb_ℤ, eqb_ℤ_iff}
use polykit_rust.Prelude.Result.{Result, ok, err}
use polykit_rust.Errors.{io}
use polykit_rust.Contract.Finalize.{has_key}
use polykit_rust.OfflineQueue.{
  QueuedOperation, QueuedOperationKind, write, tombstone, hard_delete, MemoryQueue,
}
use polykit_rust.OfflineQueue as Memory
use polykit_rust.OfflineQueue.Lookup.{key_of, find}
use polykit_rust.Sqlite.Rows.{QueueRow, insert_or_replace, select_ordered}
use polykit_rust.Sqlite.Queue.{
  KindCodec, row_of, try_from, collect, snapshot, enqueue, commit, finalize_after_processing,
}
use polykit_rust.Sqlite.Lookup.{row_find}
use polykit_rust.Sqlite.View.{decoded, view}
use polykit_rust.Sqlite.Refine.{
  ReadsBack, Shows, finalize_refines, enqueue_refines, enqueued_meanwhile_kept,
}
use polykit_rust.FileQueue.{
  FileBackedQueue, ListCodec, Disk, retained_ops, snapshot_file, finalize_file,
}
use polykit_rust.FileQueue.Restart.{
  RoundTrips, healthy, restart, finalizes, perform, changed, call_survives_restart,
  failed_finalize_resurrects,
}

abbrev kind_text : QueuedOperationKind → Result String String
kind_text hard_delete = ok "d"
kind_text (write v) = err "no JSON here"
kind_text (tombstone v) = err "no JSON here"

abbrev codec : KindCodec
codec = record {
  to_string = kind_text;
  from_str = λ text. if text == "d" then ok hard_delete else err "no kind";
}

reads_back : ReadsBack codec
reads_back hard_delete text made = ground (arith, made, eq_iff text "d")
reads_back (write v) text made = ground (arith, made)
reads_back (tombstone v) text made = ground (arith, made)

abbrev op : QueuedOperation
op = record {
  table = "notes";
  entity_id = "n1";
  kind = hard_delete;
  queued_at_micros = pos 7;
  retry_count = 1;
  last_error = none;
}

abbrev newer : QueuedOperation
newer = record op { queued_at_micros = pos 8; retry_count = 0 }

abbrev rows : List QueueRow
rows = row_of op "d" ∷ []

reads : snapshot codec rows ≡ ok (op ∷ [])
unfolding snapshot collect select_ordered try_from
reads = refl

shows : Shows codec rows (op ∷ [])
unfolding view row_find decoded try_from find
shows k = ground arith

finalize_refines_example :
    (rows' : List QueueRow) × (finalize_after_processing codec (op ∷ []) (op ∷ []) rows ≡ ok rows')
    × Shows codec rows' (Memory.finalize_after_processing (op ∷ []) (op ∷ []) (op ∷ []))
unfolding row_find has_key
finalize_refines_example =
    finalize_refines codec (op ∷ []) (op ∷ []) (op ∷ []) (op ∷ []) rows (refl, tt) (refl, tt)
      ((1, refl, omega arith), tt) reads shows

enqueue_refines_example :
    (rows' : List QueueRow) × (enqueue codec newer rows ≡ ok rows')
    × Shows codec rows' (Memory.enqueue newer (op ∷ []))
enqueue_refines_example =
    enqueue_refines codec newer "d" (op ∷ []) rows reads_back refl (omega arith) shows

enqueued_meanwhile_kept_example :
    view codec
      (key_of newer)
      (commit codec (op ∷ []) [] (op ∷ []) (insert_or_replace (row_of newer "d") rows))
    ≡ some newer
unfolding find row_find
enqueued_meanwhile_kept_example =
    enqueued_meanwhile_kept codec (op ∷ []) [] (op ∷ []) newer "d" rows (refl, tt) reads reads_back
      refl (omega arith) refl

-- is it the operation `op`
abbrev is_op : QueuedOperation → Bool
is_op o =
    elim o.kind [ hard_delete ↦ true | write v ↦ false | tombstone v ↦ false ]
    && ((o.table == "notes")
        && ((o.entity_id == "n1")
            && (eqb_ℤ o.queued_at_micros (pos 7)
                && (num_eq o.retry_count 1 && elim o.last_error [ none ↦ true | some e ↦ false ]))))

abbrev list_text : List QueuedOperation → Result String String
list_text [] = ok "[]"
list_text (o ∷ []) = if is_op o then ok "[op]" else err "another"
list_text (o ∷ p ∷ ops) = err "more"

abbrev list_of : String → Result String (List QueuedOperation)
list_of bytes =
    if bytes == "[]" then ok [] else if bytes == "[op]" then ok (op ∷ []) else err "no list"

abbrev list_codec : ListCodec
list_codec = record { to_vec = list_text; from_slice = list_of }

is_hard_delete :
    (kind : QueuedOperationKind)
    → elim kind [ hard_delete ↦ true | write v ↦ false | tombstone v ↦ false ] ≡ true
    → kind ≡ hard_delete
is_hard_delete hard_delete h = refl
is_hard_delete (write v) h = cc
is_hard_delete (tombstone v) h = cc

is_none : (o : Option String) → elim o [ none ↦ true | some e ↦ false ] ≡ true → o ≡ none
is_none none h = refl
is_none (some e) h = cc

is_op-eq : (o : QueuedOperation) → is_op o ≡ true → o ≡ op
is_op-eq o h =
    let kind : o.kind ≡ hard_delete = is_hard_delete o.kind (ground (arith, h)) in
    let error : o.last_error ≡ none = is_none o.last_error (ground (arith, h)) in
    ground (
      arith,
      h,
      kind,
      error,
      eq_iff o.table "notes",
      eq_iff o.entity_id "n1",
      eqb_ℤ_iff o.queued_at_micros (pos 7),
      num_eq_iff o.retry_count 1,
    )

list-reads_back :
    (ops : List QueuedOperation) (bytes : String)
    → list_text ops ≡ ok bytes
    → list_of bytes ≡ ok ops
list-reads_back [] bytes h = let is : bytes ≡ "[]" = ground (arith, h) in rw is refl
list-reads_back (o ∷ []) bytes h = elim (Bool-cases (is_op o)) [
  | inl same ↦ let is : bytes ≡ "[op]" = ground (arith, h, same) in rw (is, is_op-eq o same) refl
  | inr other ↦ ground (arith, h, other)
]
list-reads_back (o ∷ p ∷ ops) bytes h = ground (arith, h)

list-not_empty :
    (ops : List QueuedOperation) (bytes : String) → list_text ops ≡ ok bytes → (bytes == "") ≡ false
list-not_empty [] bytes h = let is : bytes ≡ "[]" = ground (arith, h) in rw is refl
list-not_empty (o ∷ []) bytes h = let is : bytes ≡ "[op]" = ground (arith, h) in rw is refl
list-not_empty (o ∷ p ∷ ops) bytes h = ground (arith, h)

laws : RoundTrips list_codec
laws = record { reads_back = list-reads_back; not_empty = list-not_empty }

abbrev full : FileBackedQueue
full = record { cache = op ∷ []; file = some "[op]"; disabled = false }

abbrev broken : Disk
broken = record healthy { write_error = some ("disk full", some "[op]") }

call_survives_restart_example :
    (ops : List QueuedOperation) × ((snapshot_file list_codec healthy full).1 ≡ ok ops)
    × ((snapshot_file list_codec healthy
          (restart (perform list_codec healthy (finalizes (op ∷ []) []) full).0)).1
        ≡ ok (changed list_codec (finalizes (op ∷ []) []) ops))
unfolding finalize_file retained_ops
call_survives_restart_example =
    call_survives_restart list_codec healthy (finalizes (op ∷ []) []) full laws refl refl

failed_finalize_resurrects_example :
    ((finalize_file list_codec broken (op ∷ []) [] full).1 ≡ err (io "disk full"))
    × ((snapshot_file list_codec healthy (finalize_file list_codec broken (op ∷ []) [] full).0).1
        ≡ ok (op ∷ []))
unfolding retained_ops
failed_finalize_resurrects_example =
    failed_finalize_resurrects list_codec broken (op ∷ []) [] full "[op]" "disk full" laws refl refl
      refl refl refl ("[]", refl) refl refl
