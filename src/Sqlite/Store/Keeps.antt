-- ===== src/Sqlite/Store/Keeps.antt =====
-- What a row of the table `kvs` reads back as, which
-- crates/polybase-sqlite/migrations/0001_kvs.sql declares.
use polykit_rust.Prelude.{
  String, ◌≡◌, refl, ap, ◌∙◌, true, false, none, some, [], ◌∷◌, arith, eq_refl, Option-cases, inl,
  inr,
}
use polykit_rust.Prelude.Int.{ℤ, pos, InI64}
use polykit_rust.Prelude.Assoc
use polykit_rust.Prelude.Assoc.{Assoc, get-insert}
use polykit_rust.Prelude.Result.{ok}
use polykit_rust.Json.{Value, Record, string, int, array, object}
use polykit_rust.Registry.Schema.{collect}
use polykit_rust.Registry.Schema.Collected.{HasDistinct, IsWithin, collect-IsWithin}
use polykit_rust.Kvs.{kvs_table, encode_id}
use polykit_rust.Kvs.Api.{kvs_record}
use polykit_rust.Kvs.ReadBack.{is_kept, column_text, Keeps}
use polykit_rust.Sync.Coordinator.{str_at}
use polykit_rust.Sqlite.Store.{
  Cell, integer, text, Row, Database, Pool, Sql, bind_json_value, cell_value, row_to_record, bound,
  upserted, table_of, upsert_record, read_record, sqlite_local_store,
}

-- What the code relies on: a text column keeps texts, and a number as its text; an integer column
-- keeps integers; and a row that is there can be read.
pub record Affinities (sql : Sql) : Type 0 where
  pub value_text : (s : String) → sql.affine kvs_table "value" (text s) ≡ text s
  pub value_integer :
      (z : ℤ) → sql.affine kvs_table "value" (integer z) ≡ text (sql.to_string (int z))
  pub version_integer : (z : ℤ) → sql.affine kvs_table "version" (integer z) ≡ integer z
  pub deleted_integer : (z : ℤ) → sql.affine kvs_table "deleted" (integer z) ≡ integer z
  pub selects : (db : Database) → sql.failure kvs_table [] db ≡ none

get-row_to_record :
    (sql : Sql) (k : String) (row : Row) (c : Cell)
    → Assoc.get k row ≡ some c
    → Assoc.get k (row_to_record sql row) ≡ some (cell_value sql c)
unfolding Assoc.get
get-row_to_record sql k [] c h = ground (arith, h)
get-row_to_record sql k (e ∷ es) c h = ground (arith, h, get-row_to_record sql k es c)

int-bound : (sql : Sql) (z : ℤ) → is_kept (int z) ≡ true → bind_json_value sql (int z) ≡ integer z
unfolding bind_json_value
int-bound sql z kept = ground (arith, kept)

value-kept :
    (sql : Sql) (value : Value)
    → Affinities sql
    → is_kept value ≡ true
    → cell_value sql (sql.affine kvs_table "value" (bind_json_value sql value))
      ≡ column_text sql.to_string value
unfolding bind_json_value
value-kept sql Value.null a kept = ground (arith, kept)
value-kept sql (Value.bool b) a kept = ground (arith, kept)
value-kept sql (int z) a kept = rw (int-bound sql z kept) (rw (a.value_integer z) refl)
value-kept sql (Value.real r) a kept = ground (arith, kept)
value-kept sql (string s) a kept = rw (a.value_text s) refl
value-kept sql (array vs) a kept = rw (a.value_text (sql.to_string (array vs))) refl
value-kept sql (object fs) a kept = rw (a.value_text (sql.to_string (object fs))) refl

version-bound :
    (sql : Sql) (version : ℤ) → InI64 version → bind_json_value sql (int version) ≡ integer version
unfolding bind_json_value
version-bound sql version range = ground (arith, range)

kvs_record-HasDistinct :
    (sql : Sql) (namespace key : String) (value : Value) (version : ℤ) (now : String)
    → HasDistinct (bound sql kvs_table (kvs_record namespace key value version now))
unfolding HasDistinct Assoc.get
kvs_record-HasDistinct sql namespace key value version now =
    (refl, (refl, (refl, (refl, (refl, (refl, (refl, tt)))))))

-- what a record that was put reads back as, over the row or the defaults that it was put on
read_back :
    (sql : Sql) (a : Affinities sql) (namespace key : String) (value : Value) (version : ℤ)
    (now : String) (base : Row)
    → is_kept value ≡ true
    → InI64 version
    → let row =
        row_to_record sql
          (collect (bound sql kvs_table (kvs_record namespace key value version now)) base) in
      (Assoc.get "value" row ≡ some (column_text sql.to_string value))
      × (Assoc.get "version" row ≡ some (int version))
      × (Assoc.get "deleted" row ≡ some (int (pos 0)))
unfolding IsWithin bind_json_value
read_back sql a namespace key value version now base kept range =
    let cells = bound sql kvs_table (kvs_record namespace key value version now) in
    let within =
      collect-IsWithin cells base (kvs_record-HasDistinct sql namespace key value version now) in
    let row : Row = collect cells base in
    let of_value = within.1.1.1.0 in
    let of_version = within.1.1.1.1.0 in
    let of_deleted = within.1.1.1.1.1.0 in
    (
      get-row_to_record sql "value" row (sql.affine kvs_table "value" (bind_json_value sql value))
            of_value
          ∙ ap some (value-kept sql value a kept),
      get-row_to_record sql "version" row
            (sql.affine kvs_table "version" (bind_json_value sql (int version))) of_version
          ∙ rw (version-bound sql version range, a.version_integer version) refl,
      get-row_to_record sql "deleted" row
            (sql.affine kvs_table "deleted" (bind_json_value sql (Value.bool false))) of_deleted
          ∙ rw (a.deleted_integer (pos 0)) refl,
    )

-- what a record is put on
abbrev base_of : Sql → String → Assoc Row → Row
base_of sql id rows = elim (Assoc.get id rows) [ none ↦ sql.defaults kvs_table | some row ↦ row ]

get-upserted :
    (sql : Sql) (id : String) (r : Record) (rows : Assoc Row)
    → Assoc.get id (upserted sql kvs_table r id rows)
      ≡ some (collect (bound sql kvs_table r) (base_of sql id rows))
unfolding upserted
get-upserted sql id r rows =
    rw (get-insert id id (collect (bound sql kvs_table r) (base_of sql id rows)) rows, eq_refl id)
      refl

row_found :
    (sql : Sql) (id : String) (row : Row) (rows : Assoc Row) (db : Database)
    → Affinities sql
    → Assoc.get id rows ≡ some row
    → read_record sql kvs_table id (some (Assoc.insert kvs_table rows db))
      ≡ ok (some (row_to_record sql row))
unfolding read_record
row_found sql id row rows db a found = ground (
  arith,
  a.selects (Assoc.insert kvs_table rows db),
  get-insert kvs_table kvs_table rows db,
  found,
)

-- A row of the table `kvs` that was put into the SQLite store, over any row of its id or none, reads
-- back with its version, a flag of zero, and the text of its value in the columns of that name, where
-- the value is a text, an `i64`, an array or an object, and the version is an `i64`. SQLite keeps
-- the columns by their declared affinity, and a row that is there can be read.
pub read_record-upsert_record :
    (sql : Sql) (a : Affinities sql) (namespace key : String) (value : Value) (version : ℤ)
    (now : String) (s s' : Pool)
    → is_kept value ≡ true
    → InI64 version
    → upsert_record sql kvs_table (kvs_record namespace key value version now) s ≡ ok s'
    → (row : Record) × (read_record sql kvs_table (encode_id namespace key) s' ≡ ok (some row))
      × (Assoc.get "value" row ≡ some (column_text sql.to_string value))
      × (Assoc.get "version" row ≡ some (int version))
      × (Assoc.get "deleted" row ≡ some (int (pos 0)))
unfolding upsert_record str_at Assoc.get
read_record-upsert_record sql a namespace key value version now none s' kept range put =
    ground (arith, put)
read_record-upsert_record sql a namespace key value version now (some db) s' kept range put =
    let id : String = encode_id namespace key in
    let r : Record = kvs_record namespace key value version now in
    let rows : Assoc Row = table_of kvs_table db in
    let after : Assoc Row = upserted sql kvs_table r id rows in
    elim (Option-cases (sql.failure kvs_table (bound sql kvs_table r) db)) [
      | inr (e, fails) ↦ ground (arith, put, fails)
      | inl runs ↦
          let same : some (Assoc.insert kvs_table after db) ≡ s' = ground (arith, put, runs) in
          let columns =
            read_back sql a namespace key value version now (base_of sql id rows) kept range in
          (
            row_to_record sql (collect (bound sql kvs_table r) (base_of sql id rows)),
            rw (← same) (
                row_found sql id (collect (bound sql kvs_table r) (base_of sql id rows)) after db a
                  (get-upserted sql id r rows)),
            columns.0,
            columns.1,
            columns.2,
          )
    ]

pub sqlite-Keeps : (sql : Sql) → Affinities sql → Keeps sql.to_string (sqlite_local_store sql)
unfolding Keeps
sqlite-Keeps sql a = read_record-upsert_record sql a
