-- ===== src/Sqlite/View.antt =====
-- What a table shows: the operation that the row under a key decodes to.
use polykit_rust.Prelude.{
  ◌≡◌, refl, false, Option, none, some, List, [], ◌∷◌, map, arith, inl, inr, ◌∙◌, ap,
}
use polykit_rust.Prelude.Result.{ok, err, Result-cases}
use polykit_rust.Contract.Finalize.{Key, key, has_key}
use polykit_rust.OfflineQueue.{QueuedOperation, to_contract}
use polykit_rust.OfflineQueue.Lookup.{key_of, find, QueueIsDeduped}
use polykit_rust.OfflineQueue.Finalize.{and_then}
use polykit_rust.Sqlite.Rows.{QueueRow, row_key, row_contract, select_ordered}
use polykit_rust.Sqlite.Queue.{KindCodec, try_from, collect, snapshot}
use polykit_rust.Sqlite.Lookup.{row_find, IsKeyed, row_find-select_ordered, select_ordered-IsKeyed}

module _ (codec : KindCodec) where
  unfoldable pub decoded : QueueRow → Option QueuedOperation
  unfolding try_from
  decoded r = elim (try_from codec r) [ err e ↦ none | ok op ↦ some op ]

  -- The operation that the table shows under a key.
  unfoldable pub view : Key → List QueueRow → Option QueuedOperation
  unfolding row_find decoded
  view k rows = and_then (row_find k rows) decoded

  pub decoded-key_of :
      (r : QueueRow) (op : QueuedOperation)
      → try_from codec r ≡ ok op
      → row_contract r ≡ to_contract op
  unfolding try_from
  decoded-key_of r op h = elim (Result-cases (codec.from_str r.kind)) [
    | inl (kind, is) ↦ ground (arith, h, is)
    | inr (e, bad) ↦ ground (arith, h, bad)
  ]

  collect-cons :
      (r : QueueRow) (rows : List QueueRow) (ops : List QueuedOperation)
      → collect codec (r ∷ rows) ≡ ok ops
      → (op : QueuedOperation) × (rest : List QueuedOperation) × (try_from codec r ≡ ok op)
        × (collect codec rows ≡ ok rest)
        × (ops ≡ op ∷ rest)
  unfolding collect
  collect-cons r rows ops h = elim (Result-cases (try_from codec r)) [
    | inr (e, bad) ↦ ground (arith, h, bad)
    | inl (op, good) ↦ elim (Result-cases (collect codec rows)) [
      | inr (e, bad) ↦ ground (arith, h, good, bad)
      | inl (rest, others) ↦ (op, rest, good, others, ground (arith, h, good, others))
    ]
  ]

  has_key-collect :
      (k : Key) (rows : List QueueRow) (ops : List QueuedOperation)
      → collect codec rows ≡ ok ops
      → row_find k rows ≡ none
      → has_key k (map to_contract ops) ≡ false
  unfolding collect has_key row_find
  has_key-collect k [] ops h absent = let empty : ops ≡ [] = ground (arith, h) in rw empty refl
  has_key-collect k (r ∷ rows) ops h absent =
      let (op, rest, good, others, is) = collect-cons r rows ops h in
      rw is (ground (arith, absent, has_key-collect k rows rest others, decoded-key_of r op good))

  -- What a table decodes to has its operations under their keys.
  find-collect :
      (k : Key) (rows : List QueueRow) (ops : List QueuedOperation)
      → collect codec rows ≡ ok ops
      → find k ops ≡ view k rows
  unfolding collect find view row_find decoded
  find-collect k [] ops h = let empty : ops ≡ [] = ground (arith, h) in rw empty refl
  find-collect k (r ∷ rows) ops h =
      let (op, rest, good, others, is) = collect-cons r rows ops h in
      rw is (ground (arith, good, find-collect k rows rest others, decoded-key_of r op good))

  collect-IsDeduped :
      (rows : List QueueRow) (ops : List QueuedOperation)
      → collect codec rows ≡ ok ops
      → IsKeyed rows
      → QueueIsDeduped ops
  unfolding collect
  collect-IsDeduped [] ops h d = let empty : ops ≡ [] = ground (arith, h) in rw empty tt
  collect-IsDeduped (r ∷ rows) ops h d =
      let (op, rest, good, others, is) = collect-cons r rows ops h in
      let same : row_key r ≡ key_of op = ap (λ c. key c) (decoded-key_of r op good) in
      rw is (
        rw⁻¹ same (has_key-collect (row_key r) rows rest others d.0),
        collect-IsDeduped rows rest others d.1,
      )

  -- What is read shows the table.
  pub find-snapshot :
      (k : Key) (rows : List QueueRow) (current : List QueuedOperation)
      → IsKeyed rows
      → snapshot codec rows ≡ ok current
      → find k current ≡ view k rows
  unfolding snapshot view
  find-snapshot k rows current d h =
      find-collect k (select_ordered rows) current h ∙ (rw (row_find-select_ordered k rows d) refl)

  pub snapshot-IsDeduped :
      (rows : List QueueRow) (current : List QueuedOperation)
      → IsKeyed rows
      → snapshot codec rows ≡ ok current
      → QueueIsDeduped current
  unfolding snapshot
  snapshot-IsDeduped rows current d h =
      collect-IsDeduped (select_ordered rows) current h (select_ordered-IsKeyed rows d)
