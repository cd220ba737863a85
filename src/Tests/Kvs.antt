-- ===== src/Tests/Kvs.antt =====
-- The theorems on keys and on the remote writer at concrete data: one preference, over a mirror
-- in SQLite and a server that is not reached, and rows that a server accepts.
use polykit_rust.Prelude.{
  ◌≡◌, refl, String, true, false, Bool, Option, none, some, [], ◌∷◌, arith, ◌==◌, if◌then◌else◌,
}
use polykit_rust.Prelude.Int.{ℤ, pos, add_i64, InI64}
use polykit_rust.Prelude.Assoc
use polykit_rust.Prelude.Result.{Result, ok, err}
use polykit_rust.Json.{Value, Record, string, int, nil, cons, object, field, end, Items}
use polykit_rust.Client.{Send, ClientConfig}
use polykit_rust.Prelude.Int as Int
use polykit_rust.Prelude.Int.{wrap_i64}
use polykit_rust.Prelude.Parse.{parse_i64}
use polykit_rust.Registry.{remote_to_local, copy}
use polykit_rust.Registry.Serialize.{serialize_for_remote, inject_user}
use polykit_rust.Sync.Push.{upsert_outcome}
use polykit_rust.Sync.Echo.{mark_pushed}
use polykit_rust.Sync.Coordinator.{
  persist_change_with_op, prepare, dispatch_write, settle_write, str_at, kvs_events,
}
use polykit_rust.Sqlite.Store.{
  Cell, integer, text, Row, Pool, Sql, row_to_record, sqlite_local_store,
  upsert_record as put_record, read_record, upserted, bind_json_value,
}
use polykit_rust.Sqlite.Store.Keeps.{Affinities, sqlite-Keeps, read_record-upsert_record}
use polykit_rust.Registry.Schema.{collect}
use polykit_rust.Contract.Reconcile.{determine_reconcile_action, adopt_tombstone}
use polykit_rust.OfflineQueue.{MemoryQueue}
use polykit_rust.Kvs.{kvs_table, encode_id}
use polykit_rust.Kvs.Api.{
  kvs_entity_config, kvs_record, is_deleted, version_at, next_version_for, get, set,
}
use polykit_rust.Kvs.ReadBack.{get-set, set_after_delete_is_undone}
use polykit_rust.Sync.Echo.{with_default_window, was_recently_pushed}
use polykit_rust.Sync.Echo.Window.{respond_all, vacuums}
use polykit_rust.Sync.Push.{upsert}
use polykit_rust.Sync.Coordinator.{Env, World}
use polykit_rust.Sync.Coordinator.Durable.{memory}
use polykit_rust.Prelude.Text.{contains}
use polykit_rust.Sync.Remote.{
  read_outcome, upsert_record, upsert_records, fetch_versions, collect_versions,
}
use polykit_rust.Sync.Remote.Echoes.{says_ignored, batch_suppressed, writer_agrees_with_pusher}

abbrev numeral : Value → String
numeral v = "42"

abbrev as_text : Cell → Cell
as_text (integer z) = text (numeral (int z))
as_text c = c

-- A database whose column `value` is a text column.
abbrev toy_sql : Sql
toy_sql = record {
  affine = λ table column c. if column == "value" then as_text c else c;
  defaults = λ table. [];
  failure = λ table cells db. none;
  not_integer = λ column. column;
  switch = λ user_id pool. ok pool;
  to_string = numeral;
  as_f64 = numeral;
  from_f64 = λ s. none;
}

toy_sql-Affinities : Affinities toy_sql
toy_sql-Affinities = record {
  value_text = λ s. refl;
  value_integer = λ z. refl;
  version_integer = λ z. refl;
  deleted_integer = λ z. refl;
  selects = λ db. refl;
}

abbrev accepting : Send
accepting request = ok (record { status = 201; body = ok "" })

abbrev config : ClientConfig
config = record {
  supabase_url = "https://example.supabase.co";
  supabase_anon_key = "anon";
  encryption_secret = none;
  storage_bucket = none;
}

abbrev unreachable : Send
unreachable request = err "unreachable"

abbrev env : Env Pool MemoryQueue
env = record {
  config = config;
  registry = record {
    by_type = [];
    by_table = (kvs_table, kvs_entity_config) ∷ [];
    table_to_type = [];
  };
  session = some (record {
    user_id = "ann";
    access_token = "jwt";
    refresh_token = "r";
    expires_at = pos 0;
    updated_at = 1;
  });
  encryption = none;
  send = unreachable;
  from_str = λ body. err "no envelope";
  generated = ("k", "r");
  clock = record { micros = pos 7; millis = pos 0; rfc3339 = "now"; instant = 3 };
  store = sqlite_local_store toy_sql;
  offline = memory;
}

abbrev tombstone_row : Row
tombstone_row = ("version", integer (pos 4)) ∷ ("deleted", integer (pos 1)) ∷ []

abbrev world : World Pool MemoryQueue
world = record {
  local = some ((kvs_table, ("ui::theme", tombstone_row) ∷ []) ∷ []);
  queue = [];
  echo = with_default_window;
  steps = [];
}

abbrev parses : String → Option Value
parses s = if s == "42" then some (int (pos 42)) else none

abbrev as_is : Value → Result String Value
as_is v = ok v

done : (set env "ui" "theme" (int (pos 42)) world).1 ≡ ok tt
unfolding set next_version_for version_at parse_i64 add_i64 wrap_i64 Int.◌+ℤ◌ encode_id
    persist_change_with_op prepare dispatch_write settle_write upsert upsert_outcome mark_pushed
    str_at serialize_for_remote inject_user remote_to_local copy Assoc.get Assoc.insert kvs_events
    put_record read_record upserted bind_json_value collect
done = refl

get-set_example :
    get env parses as_is "ui" "theme" (set env "ui" "theme" (int (pos 42)) world).0
    ≡ ok (some (int (pos 42)))
unfolding Assoc.get
get-set_example =
    get-set env parses numeral as_is "ui" "theme" (int (pos 42)) world refl
      (sqlite-Keeps toy_sql toy_sql-Affinities) refl refl done

after_put :
    (pool : Pool) × (put_record toy_sql kvs_table
        (kvs_record "ui" "theme" (int (pos 42)) (pos 5) "now")
        world.local
      ≡ ok pool)
unfolding put_record read_record upserted bind_json_value collect str_at Assoc.get Assoc.insert
after_put = (_, refl)

read_record-upsert_record_example :
    (row : Record) × (read_record toy_sql kvs_table (encode_id "ui" "theme") after_put.0
      ≡ ok (some row))
    × (Assoc.get "value" row ≡ some (string "42"))
    × (Assoc.get "version" row ≡ some (int (pos 5)))
    × (Assoc.get "deleted" row ≡ some (int (pos 0)))
read_record-upsert_record_example =
    read_record-upsert_record toy_sql toy_sql-Affinities "ui" "theme" (int (pos 42)) (pos 5) "now"
      world.local after_put.0 refl (omega arith, omega arith) after_put.1

held :
    env.store.read_record kvs_table (encode_id "ui" "theme") world.local
    ≡ ok (some (row_to_record toy_sql tombstone_row))
unfolding read_record Assoc.get encode_id
held = refl

four : version_at (row_to_record toy_sql tombstone_row) ≡ pos 4
unfolding version_at Assoc.get
four = refl

set_after_delete_is_undone_example :
    (after : Record) × (env.store.read_record kvs_table
        (encode_id "ui" "theme")
        (set env "ui" "theme" (int (pos 42)) world).0.local
      ≡ ok (some after))
    × (is_deleted after ≡ false)
    × (determine_reconcile_action
          (version_at after)
          (is_deleted after)
          (version_at (row_to_record toy_sql tombstone_row))
          true
        ≡ adopt_tombstone)
unfolding version_at Assoc.get Int.◌+ℤ◌
set_after_delete_is_undone_example =
    set_after_delete_is_undone env numeral "ui" "theme" (int (pos 42)) world
      (row_to_record toy_sql tombstone_row) refl (sqlite-Keeps toy_sql toy_sql-Affinities) refl held
      (omega arith) (omega arith) done

abbrev row_a : Record
row_a = ("id", string "a") ∷ ("version", int (pos 1)) ∷ []

abbrev row_b : Record
row_b = ("id", string "b") ∷ ("version", int (pos 2)) ∷ []

batch_suppressed_example :
    (was_recently_pushed 14 "notes" "a" (
      respond_all
        ((12, vacuums) ∷ [])
        (upsert_records config accepting 10 "notes"
          (row_b ∷ row_a ∷ row_b ∷ [])
          "jwt"
          with_default_window).0)).0
    ≡ true
unfolding Assoc.get
batch_suppressed_example =
    batch_suppressed config accepting 10 14 "notes" (row_b ∷ []) row_a (row_b ∷ []) "a" "jwt"
      ((12, vacuums) ∷ []) with_default_window refl (omega arith) (omega arith)
      ((omega arith, omega arith), tt)

writer_agrees_with_pusher_example :
    upsert_record config accepting 10 "notes" row_a "jwt" with_default_window
    ≡ upsert config accepting 10 "notes" row_a "id" "jwt" with_default_window
unfolding Assoc.get contains says_ignored
writer_agrees_with_pusher_example =
    writer_agrees_with_pusher config accepting 10 "notes" row_a "a" "jwt" with_default_window refl
      refl

abbrev reply_rows : Items
reply_rows =
    cons (object (field "id" (string "a") (field "version" (int (pos 3)) end)))
      (cons (object (field "id" (string "a") (field "version" (int (pos 4)) end))) nil)

abbrev decode_rows : String → Result String Items
decode_rows body = ok reply_rows

abbrev versions : Assoc.Assoc (ℤ × Bool)
versions = ("a", (pos 4, false)) ∷ []

fetches : fetch_versions config accepting decode_rows "notes" "user_id" none "jwt" ≡ ok versions
unfolding fetch_versions read_outcome collect_versions Assoc.insert Assoc.get
fetches = refl
