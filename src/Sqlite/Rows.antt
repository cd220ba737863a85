-- ===== src/Sqlite/Rows.antt =====
-- The statements of crates/polybase-sqlite/src/queue.rs on the table `polybase_queue`, whose primary
-- key is `(table_name, entity_id)`, as functions on its rows. Texts are ordered by their bytes.
use polykit_rust.Prelude.{
  String, ◌==◌, Bool, not, ◌&&◌, ◌||◌, Option, List, [], ◌∷◌, ◌++◌, map, retain, if◌then◌else◌,
}
use polykit_rust.Prelude.Int.{ℤ, pos, ◌+ℤ◌, ltb_ℤ, eqb_ℤ}
use polykit_rust.Prelude.Order.{str_ltb}
use polykit_rust.Contract.Finalize.{ContractOperation, Key, key_eq, op_eq}

pub record QueueRow : Type 0 where
  pub table_name : String
  pub entity_id : String
  pub kind : String
  pub queued_at_micros : ℤ
  pub retry_count : ℤ  -- i64
  pub last_error : Option String

abbrev pub row_key : QueueRow → Key
row_key r = record { table = r.table_name; entity_id = r.entity_id }

abbrev pub row_contract : QueueRow → ContractOperation
row_contract r = record {
  table = r.table_name;
  entity_id = r.entity_id;
  queued_at_micros = r.queued_at_micros;
}

-- `WHERE table_name = ?1 AND entity_id = ?2 AND queued_at_micros = ?3`
abbrev pub is_row_of : ContractOperation → QueueRow → Bool
is_row_of op r = op_eq (row_contract r) op

-- `INSERT OR REPLACE`
unfoldable pub insert_or_replace : QueueRow → List QueueRow → List QueueRow
unfolding retain
insert_or_replace row rows = retain (λ r. not (key_eq (row_key r) (row_key row))) rows ++ row ∷ []

-- `DELETE`
unfoldable pub delete_where : ContractOperation → List QueueRow → List QueueRow
unfolding retain
delete_where op rows = retain (λ r. not (is_row_of op r)) rows

abbrev pub failed_again : Option String → QueueRow → QueueRow
failed_again last_error r = record r {
  retry_count = r.retry_count +ℤ pos 1;
  last_error = last_error;
}

-- `UPDATE … SET retry_count = retry_count + 1, last_error = ?1`
unfoldable pub update_where : ContractOperation → Option String → List QueueRow → List QueueRow
update_where op last_error rows =
    map (λ r. if is_row_of op r then failed_again last_error r else r) rows

-- `ORDER BY queued_at_micros ASC, table_name ASC, entity_id ASC`
abbrev pub comes_before : QueueRow → QueueRow → Bool
comes_before a b =
    ltb_ℤ a.queued_at_micros b.queued_at_micros
    || (eqb_ℤ a.queued_at_micros b.queued_at_micros
        && (str_ltb a.table_name b.table_name
            || ((a.table_name == b.table_name) && str_ltb a.entity_id b.entity_id)))

unfoldable pub insert_row : QueueRow → List QueueRow → List QueueRow
insert_row r [] = r ∷ []
insert_row r (s ∷ rows) = if comes_before s r then s ∷ insert_row r rows else r ∷ s ∷ rows

unfoldable pub select_ordered : List QueueRow → List QueueRow
unfolding insert_row
select_ordered [] = []
select_ordered (r ∷ rows) = insert_row r (select_ordered rows)
