-- ===== src/Sqlite/Lookup.antt =====
-- The row under a key, and what the statements do to it.
use polykit_rust.Prelude.{
  ◌≡◌, refl, Bool, true, not, Option, none, some, List, [], ◌∷◌, ◌++◌, map, retain, arith,
  if◌then◌else◌, Bool-cases, inl, inr,
}
use polykit_rust.Contract.Finalize.{Key, key_eq}
use polykit_rust.Contract.Finalize.Membership.{key_eq_iff, key_eq_comm, key_eq_refl}
use polykit_rust.OfflineQueue.Finalize.{and_then}
use polykit_rust.Sqlite.Rows.{
  QueueRow, row_key, insert_or_replace, comes_before, insert_row, select_ordered,
}

unfoldable pub row_find : Key → List QueueRow → Option QueueRow
row_find k [] = none
row_find k (r ∷ rows) = if key_eq (row_key r) k then some r else row_find k rows

-- The primary key.
abbrev pub IsKeyed : List QueueRow → Type 0
IsKeyed [] = Unit
IsKeyed (r ∷ rows) = (row_find (row_key r) rows ≡ none) × IsKeyed rows

pub row_find-row_key :
    (k : Key) (rows : List QueueRow) (r : QueueRow)
    → row_find k rows ≡ some r
    → key_eq (row_key r) k ≡ true
unfolding row_find
row_find-row_key k [] r h = cc
row_find-row_key k (s ∷ rows) r h = ground (arith, row_find-row_key k rows r)

row_find-append :
    (k : Key) (rows : List QueueRow) (r : QueueRow)
    → row_find k (rows ++ r ∷ []) ≡ elim (row_find k rows) [
      | some s ↦ some s
      | none ↦ if key_eq (row_key r) k then some r else none
    ]
unfolding row_find
row_find-append k [] r = refl
row_find-append k (s ∷ rows) r = ground (arith, row_find-append k rows r)

-- A filter under a key: the row that is there stays if it passes.
pub row_find-retain_absent :
    (k : Key) (p : QueueRow → Bool) (rows : List QueueRow)
    → row_find k rows ≡ none
    → row_find k (retain p rows) ≡ none
unfolding row_find retain
row_find-retain_absent k p [] h = refl
row_find-retain_absent k p (r ∷ rows) h = ground (arith, row_find-retain_absent k p rows)

pub row_find-retain :
    (k : Key) (p : QueueRow → Bool) (rows : List QueueRow)
    → IsKeyed rows
    → row_find k (retain p rows) ≡ and_then (row_find k rows) (λ r. if p r then some r else none)
unfolding row_find retain
row_find-retain k p [] d = refl
row_find-retain k p (r ∷ rows) d = ground (
  arith,
  row_find-retain k p rows d.1,
  row_find-retain_absent (row_key r) p rows d.0,
  key_eq_iff (row_key r) k,
)

pub retain-IsKeyed :
    (p : QueueRow → Bool) (rows : List QueueRow) → IsKeyed rows → IsKeyed (retain p rows)
unfolding retain
retain-IsKeyed p [] d = tt
retain-IsKeyed p (r ∷ rows) d =
    ground (arith, retain-IsKeyed p rows d.1, row_find-retain_absent (row_key r) p rows d.0)

row_find-drop :
    (k j : Key) (rows : List QueueRow)
    → row_find k (retain (λ r. not (key_eq (row_key r) j)) rows)
      ≡ (if key_eq j k then none else row_find k rows)
unfolding row_find retain
row_find-drop k j [] = ground arith
row_find-drop k j (r ∷ rows) = ground (
  arith,
  row_find-drop k j rows,
  key_eq_iff (row_key r) j,
  key_eq_iff (row_key r) k,
  key_eq_iff j k,
  key_eq_comm (row_key r) j,
)

-- `INSERT OR REPLACE` puts the row under its key, and touches no other key.
pub row_find-insert_or_replace :
    (k : Key) (row : QueueRow) (rows : List QueueRow)
    → row_find k (insert_or_replace row rows)
      ≡ (if key_eq (row_key row) k then some row else row_find k rows)
unfolding insert_or_replace
row_find-insert_or_replace k row rows = ground (
  arith,
  row_find-append k (retain (λ r. not (key_eq (row_key r) (row_key row))) rows) row,
  row_find-drop k (row_key row) rows,
)

-- A change of the rows that keeps their keys.
pub row_find-map :
    (k : Key) (g : QueueRow → QueueRow)
    → ((r : QueueRow) → row_key (g r) ≡ row_key r)
    → (rows : List QueueRow)
    → row_find k (map g rows) ≡ and_then (row_find k rows) (λ r. some (g r))
unfolding row_find
row_find-map k g keeps [] = refl
row_find-map k g keeps (r ∷ rows) = ground (arith, keeps r, row_find-map k g keeps rows)

pub map-IsKeyed :
    (g : QueueRow → QueueRow)
    → ((r : QueueRow) → row_key (g r) ≡ row_key r)
    → (rows : List QueueRow) → IsKeyed rows
    → IsKeyed (map g rows)
map-IsKeyed g keeps [] d = tt
map-IsKeyed g keeps (r ∷ rows) d = (
  rw (keeps r, row_find-map (row_key r) g keeps rows) (rw (d.0) refl),
  map-IsKeyed g keeps rows d.1,
)

-- Ordering the rows changes none of them.
row_find-insert_row :
    (k : Key) (r : QueueRow) (rows : List QueueRow)
    → row_find (row_key r) rows ≡ none
    → row_find k (insert_row r rows) ≡ (if key_eq (row_key r) k then some r else row_find k rows)
unfolding row_find insert_row
row_find-insert_row k r [] h = refl
row_find-insert_row k r (s ∷ rows) h = ground (
  arith,
  row_find-insert_row k r rows,
  key_eq_iff (row_key s) k,
  key_eq_iff (row_key r) k,
  key_eq_comm (row_key s) (row_key r),
)

pub row_find-select_ordered :
    (k : Key) (rows : List QueueRow)
    → IsKeyed rows
    → row_find k (select_ordered rows) ≡ row_find k rows
unfolding row_find select_ordered
row_find-select_ordered k [] d = refl
row_find-select_ordered k (r ∷ rows) d = ground (
  arith,
  row_find-insert_row k r (select_ordered rows),
  row_find-select_ordered (row_key r) rows d.1,
  row_find-select_ordered k rows d.1,
  d.0,
)

insert_row-IsKeyed :
    (r : QueueRow) (rows : List QueueRow)
    → row_find (row_key r) rows ≡ none
    → IsKeyed rows
    → IsKeyed (insert_row r rows)
unfolding row_find insert_row
insert_row-IsKeyed r [] h d = (refl, tt)
insert_row-IsKeyed r (s ∷ rows) h d = elim (Bool-cases (comes_before s r)) [
  | inl earlier ↦ rw earlier (
    ground (
      arith,
      h,
      d.0,
      row_find-insert_row (row_key s) r rows,
      key_eq_comm (row_key s) (row_key r),
    ),
    insert_row-IsKeyed r rows (ground (arith, h)) d.1,
  )
  | inr later ↦ rw later (h, d)
]

pub select_ordered-IsKeyed : (rows : List QueueRow) → IsKeyed rows → IsKeyed (select_ordered rows)
unfolding select_ordered
select_ordered-IsKeyed [] d = tt
select_ordered-IsKeyed (r ∷ rows) d =
    insert_row-IsKeyed r (select_ordered rows)
      (rw (row_find-select_ordered (row_key r) rows d.1) d.0) (select_ordered-IsKeyed rows d.1)

append-IsKeyed :
    (rows : List QueueRow) (r : QueueRow)
    → IsKeyed rows
    → row_find (row_key r) rows ≡ none
    → IsKeyed (rows ++ r ∷ [])
unfolding row_find
append-IsKeyed [] r d h = (refl, tt)
append-IsKeyed (s ∷ rows) r d h = (
  ground (arith, h, d.0, row_find-append (row_key s) rows r, key_eq_comm (row_key s) (row_key r)),
  append-IsKeyed rows r d.1 (ground (arith, h)),
)

pub insert_or_replace-IsKeyed :
    (row : QueueRow) (rows : List QueueRow) → IsKeyed rows → IsKeyed (insert_or_replace row rows)
unfolding insert_or_replace
insert_or_replace-IsKeyed row rows d =
    let others : List QueueRow = retain (λ r. not (key_eq (row_key r) (row_key row))) rows in
    append-IsKeyed others row (retain-IsKeyed (λ r. not (key_eq (row_key r) (row_key row))) rows d)
      (rw (row_find-drop (row_key row) (row_key row) rows) (rw (key_eq_refl (row_key row)) refl))
