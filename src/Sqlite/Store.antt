-- ===== src/Sqlite/Store.antt =====
-- crates/polybase-sqlite/src/store.rs: the local mirror in SQLite. What a column keeps of a value that
-- is bound to it, the defaults of a table, the failures of statements, the pools of the users, and
-- the texts of numbers and of JSON values are parameters. A row is found by its text `id`; one that
-- has none is found by no method.
pub mod Keeps
use polykit_rust.Prelude.{
  String, ◌==◌, Bool, true, false, not, Option, none, some, List, [], ◌∷◌, map, any, if◌then◌else◌,
}
use polykit_rust.Prelude.Int.{ℤ, pos, eqb_ℤ}
use polykit_rust.Prelude.Assoc
use polykit_rust.Prelude.Assoc.{Assoc}
use polykit_rust.Prelude.Result.{Result, ok, err}
use polykit_rust.Json.{Value, Record, as_i64}
use polykit_rust.Errors.{PolyError, local}
use polykit_rust.Registry.{unwrap_or}
use polykit_rust.Registry.Schema.{collect}
use polykit_rust.Persistence.{VersionRow, LocalStore}
use polykit_rust.Sync.Coordinator.{str_at}

-- A value of SQLite; a floating-point number is kept as a text.
pub data Cell : Type 0 where
  null : Cell
  integer : ℤ → Cell
  real : String → Cell
  text : String → Cell
  blob : Cell

abbrev pub Row : Type 0
Row = Assoc Cell

-- the tables by their names, and their rows by their ids
abbrev pub Database : Type 0
Database = Assoc (Assoc Row)

-- the pool of the active user, if there is one
abbrev pub Pool : Type 0
Pool = Option Database

pub record Sql : Type 0 where
  pub affine : String → String → Cell → Cell
  pub defaults : String → Row
  pub failure : String → List (String × Cell) → Database → Option String
  pub not_integer : String → String
  pub switch : String → Pool → Result String Pool
  pub to_string : Value → String
  pub as_f64 : Value → String
  pub from_f64 : String → Option Value

abbrev pub pool_required : PolyError
pool_required = local "no active user pool"

-- A statement on a table with the columns that it writes, after which `f` gives the result.
abbrev pub on_pool {ℓ} :
    {A : Type ℓ}
    → Sql
    → String
    → List (String × Cell)
    → (Database → Result PolyError A)
    → Pool
    → Result PolyError A
on_pool sql table cells f none = err pool_required
on_pool sql table cells f (some db) = elim (sql.failure table cells db) [
  | some e ↦ err (local e)
  | none ↦ f db
]

abbrev pub table_of : String → Database → Assoc Row
table_of table db = unwrap_or [] (Assoc.get table db)

abbrev pub with_table : String → Assoc Row → Database → Result PolyError Pool
with_table table rows db = ok (some (Assoc.insert table rows db))

unfoldable pub bind_json_value : Sql → Value → Cell
bind_json_value sql Value.null = null
bind_json_value sql (Value.bool b) = integer (if b then pos 1 else pos 0)
bind_json_value sql (Value.int z) = elim (as_i64 (Value.int z)) [
  | some i ↦ integer i
  | none ↦ real (sql.as_f64 (Value.int z))
]
bind_json_value sql (Value.real r) = real (sql.as_f64 (Value.real r))
bind_json_value sql (Value.string s) = text s
bind_json_value sql (Value.array vs) = text (sql.to_string (Value.array vs))
bind_json_value sql (Value.object fs) = text (sql.to_string (Value.object fs))

abbrev pub cell_value : Sql → Cell → Value
cell_value sql null = Value.null
cell_value sql (integer z) = Value.int z
cell_value sql (real r) = unwrap_or Value.null (sql.from_f64 r)
cell_value sql (text s) = Value.string s
cell_value sql blob = Value.null

abbrev pub row_to_record : Sql → Row → Record
row_to_record sql row = map (λ e. (e.0, cell_value sql e.1)) row

-- the columns of an `INSERT`, as the table keeps them
abbrev pub bound : Sql → String → Record → List (String × Cell)
bound sql table r = map (λ e. (e.0, sql.affine table e.0 (bind_json_value sql e.1))) r

-- `INSERT ... ON CONFLICT(id) DO UPDATE`: the columns replace those of the row or of the defaults.
unfoldable pub upserted : Sql → String → Record → String → Assoc Row → Assoc Row
upserted sql table r id rows =
    Assoc.insert id
      (collect (bound sql table r) (unwrap_or (sql.defaults table) (Assoc.get id rows))) rows

abbrev pub tombstone_cells : ℤ → List (String × Cell)
tombstone_cells version = ("deleted", integer (pos 1)) ∷ ("version", integer version) ∷ []

-- the columns that an `UPDATE` sets, in the row of an id if there is one
abbrev pub updated : Sql → String → String → List (String × Cell) → Assoc Row → Assoc Row
updated sql table id cells rows = elim (Assoc.get id rows) [
  | none ↦ rows
  | some row ↦ Assoc.insert id (collect (map (λ e. (e.0, sql.affine table e.0 e.1)) cells) row) rows
]

-- `try_get` of an `i64`
abbrev pub integer_at : Sql → String → Row → Result PolyError ℤ
integer_at sql column row = elim (Assoc.get column row) [
  | some (integer z) ↦ ok z
  | _ ↦ err (local (sql.not_integer column))
]

abbrev pub version_row : Sql → String → Row → Result PolyError VersionRow
version_row sql id row = elim (integer_at sql "version" row) [
  | err e ↦ err e
  | ok version ↦ elim (integer_at sql "deleted" row) [
    | err e ↦ err e
    | ok deleted ↦ ok (record { id = id; version = version; deleted = not (eqb_ℤ deleted (pos 0)) })
  ]
]

unfoldable pub version_rows : Sql → List String → Assoc Row → Result PolyError (List VersionRow)
unfolding Assoc.get any
version_rows sql ids [] = ok []
version_rows sql ids (e ∷ es) =
    let rest = version_rows sql ids es in
    if any (λ id. e.0 == id) ids
    then (elim (version_row sql e.0 e.1) [
      | err e' ↦ err e'
      | ok row ↦ elim rest [ err e' ↦ err e' | ok rows ↦ ok (row ∷ rows) ]
    ])
    else rest

abbrev is_empty {ℓ} : {A : Type ℓ} → List A → Bool
is_empty [] = true
is_empty (x ∷ xs) = false

module _ (sql : Sql) where
  abbrev pub switch_user : String → Pool → Result PolyError Pool
  switch_user user_id pool = elim (sql.switch user_id pool) [
    | err e ↦ err (local e)
    | ok opened ↦ ok opened
  ]

  unfoldable pub read_versions : String → List String → Pool → Result PolyError (List VersionRow)
  unfolding version_rows
  read_versions table ids pool =
      if is_empty ids
      then ok []
      else on_pool sql table [] (λ db. version_rows sql ids (table_of table db)) pool

  unfoldable pub read_record : String → String → Pool → Result PolyError (Option Record)
  read_record table id pool =
      on_pool sql table []
        (λ db. elim (Assoc.get id (table_of table db)) [
          | none ↦ ok none
          | some row ↦ ok (some (row_to_record sql row))
        ])
        pool

  abbrev pub read_all_ids : String → Pool → Result PolyError (List String)
  read_all_ids table pool =
      on_pool sql table [] (λ db. ok (map (λ e. e.0) (table_of table db))) pool

  unfoldable pub upsert_record : String → Record → Pool → Result PolyError Pool
  upsert_record table r none = err pool_required
  upsert_record table r (some db) =
      if is_empty r
      then ok (some db)
      else on_pool sql table (bound sql table r)
          (λ db'. elim (str_at "id" r) [
            | none ↦ ok (some db')
            | some id ↦ with_table table (upserted sql table r id (table_of table db')) db'
          ])
          (some db)

  unfoldable pub mark_deleted : String → String → ℤ → Pool → Result PolyError Pool
  mark_deleted table id version pool =
      on_pool sql table (tombstone_cells version)
        (λ db.
          with_table table (updated sql table id (tombstone_cells version) (table_of table db)) db)
        pool

  unfoldable pub hard_delete : String → String → Pool → Result PolyError Pool
  hard_delete table id pool =
      on_pool sql table [] (λ db. with_table table (Assoc.remove id (table_of table db)) db) pool

  abbrev pub sqlite_local_store : LocalStore Pool
  sqlite_local_store = record {
    switch_user = switch_user;
    read_versions = read_versions;
    read_record = read_record;
    read_all_ids = read_all_ids;
    upsert_record = upsert_record;
    mark_deleted = mark_deleted;
    hard_delete = hard_delete;
  }
