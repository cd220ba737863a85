-- ===== src/Sync/Remote.antt =====
-- crates/polybase/src/sync/remote.rs: the live writer and reader, over PostgREST. `from_str` is the
-- decoder of JSON texts.
pub mod Memory
pub mod Echoes
pub mod Versions
use Prim.Native.String.{◌++◌}
use mathlib.Core.List
use polykit_rust.Prelude.{
  ℕ, String, Bool, false, not, ◌||◌, Option, none, some, List, [], ◌∷◌, map, filter_map,
  if◌then◌else◌,
}
use polykit_rust.Prelude.Int.{ℤ}
use polykit_rust.Prelude.Text.{codes, to_ascii_lowercase, contains}
use polykit_rust.Prelude.Assoc
use polykit_rust.Prelude.Assoc.{Assoc}
use polykit_rust.Prelude.Result.{Result, ok, err}
use polykit_rust.Json.{
  Value, Items, nil, cons, Record, to_fields, as_str, as_i64, as_bool, as_object, object, array,
}
use polykit_rust.Errors.{PolyError, http, push, pull, PullError, same_version_mutation_ignored}
use polykit_rust.Client.{
  ClientConfig, Request, Response, Send, post, patch, get, rest_url, is_success, text_or_default,
  status_text,
}
use polykit_rust.Registry.{unwrap_or}
use polykit_rust.Sync.Echo.{EchoTracker, mark_pushed}
use polykit_rust.Sync.Push.{headers, http_message, classify_push_error_message}

pub record RemoteFilter : Type 0 where
  pub eq : List (String × String)
  pub gte : List (String × String)

abbrev pub from_pairs : List (String × String) → RemoteFilter
from_pairs pairs = record { eq = pairs; gte = [] }

abbrev pub with_gte : String → String → RemoteFilter → RemoteFilter
with_gte column value filter = record filter { gte = List.◌++◌ filter.gte ((column, value) ∷ []) }

-- `record.get(key)` with one of the `as_` methods after it
abbrev pub field_as {ℓ} : {A : Type ℓ} → (Value → Option A) → String → Record → Option A
unfolding Assoc.get
field_as as_type key row = elim (Assoc.get key row) [ none ↦ none | some v ↦ as_type v ]

abbrev pub rows_json : List Record → Items
rows_json [] = nil
rows_json (r ∷ rs) = cons (object (to_fields r)) (rows_json rs)

abbrev pub writer_request : ClientConfig → String → List Record → String → Request
unfolding rest_url
writer_request config table records access_token = record {
  method = post;
  url = rest_url config table;
  headers = headers config access_token "resolution=merge-duplicates,return=minimal";
  query = ("on_conflict", "id") ∷ [];
  json = array (rows_json records);
}

-- the reply to a batch of rows, or to an update of fields
unfoldable pub write_outcome : String → Result String Response → Result PolyError (Unit {0})
unfolding classify_push_error_message status_text
write_outcome table (err transport) = err (http transport)
write_outcome table (ok resp) =
    if is_success resp.status
    then ok tt
    else err
        (push (classify_push_error_message table (http_message resp.status (text_or_default resp))))

abbrev pub is_benign_body : String → Bool
unfolding to_ascii_lowercase contains
is_benign_body body =
    let lower = to_ascii_lowercase (codes body) in
    contains lower (codes "same-version mutation") || contains lower (codes "ignored")

-- the reply to one row
unfoldable pub upsert_record_outcome : String → Result String Response → Result PolyError (Unit {0})
unfolding classify_push_error_message status_text to_ascii_lowercase contains
upsert_record_outcome table (err transport) = err (http transport)
upsert_record_outcome table (ok resp) =
    let body = text_or_default resp in
    if is_success resp.status
    then ok tt
    else if is_benign_body body
    then err (push (same_version_mutation_ignored table))
    else err (push (classify_push_error_message table (http_message resp.status body)))

-- `if let Some(id)` of a row, mark it
unfoldable pub mark_row : ℕ → String → Record → EchoTracker → EchoTracker
unfolding Assoc.get mark_pushed
mark_row now table row echo = elim (field_as as_str "id" row) [
  | none ↦ echo
  | some id ↦ mark_pushed now table id echo
]

unfoldable pub mark_rows : ℕ → String → List Record → EchoTracker → EchoTracker
unfolding mark_row
mark_rows now table [] echo = echo
mark_rows now table (r ∷ rs) echo = mark_rows now table rs (mark_row now table r echo)

unfoldable pub upsert_record :
    ClientConfig
    → Send
    → ℕ
    → String
    → Record
    → String
    → EchoTracker
    → EchoTracker × Result PolyError (Unit {0})
unfolding mark_row upsert_record_outcome rest_url
upsert_record config send now table row access_token echo = (
  mark_row now table row echo,
  upsert_record_outcome table (send (writer_request config table (row ∷ []) access_token)),
)

unfoldable pub upsert_records :
    ClientConfig
    → Send
    → ℕ
    → String
    → List Record
    → String
    → EchoTracker
    → EchoTracker × Result PolyError (Unit {0})
unfolding mark_rows write_outcome rest_url
upsert_records config send now table [] access_token echo = (echo, ok tt)
upsert_records config send now table (row ∷ rows) access_token echo = (
  mark_rows now table (row ∷ rows) echo,
  write_outcome table (send (writer_request config table (row ∷ rows) access_token)),
)

abbrev pub update_request : ClientConfig → String → String → Record → String → Request
unfolding rest_url
update_request config table id fields access_token = record {
  method = patch;
  url = rest_url config table;
  headers = headers config access_token "return=minimal";
  query = ("id", "eq." ++ id) ∷ [];
  json = object (to_fields fields);
}

unfoldable pub update_fields :
    ClientConfig
    → Send
    → ℕ
    → String
    → String
    → Record
    → String
    → EchoTracker
    → EchoTracker × Result PolyError (Unit {0})
unfolding mark_pushed write_outcome rest_url
update_fields config send now table id fields access_token echo = (
  mark_pushed now table id echo,
  write_outcome table (send (update_request config table id fields access_token)),
)

abbrev pub read_request : ClientConfig → String → List (String × String) → String → Request
unfolding rest_url
read_request config table query access_token = record {
  method = get;
  url = rest_url config table;
  headers =
      ("apikey", config.supabase_anon_key) ∷ ("Authorization", "Bearer " ++ access_token) ∷ [];
  query = query;
  json = Value.null;
}

-- the scope by user that both reads may have
abbrev pub user_scope : String → Option String → List (String × String)
user_scope user_id_column none = []
user_scope user_id_column (some uid) = (user_id_column, "eq." ++ uid) ∷ []

abbrev pub filter_query : Option RemoteFilter → List (String × String)
filter_query none = []
filter_query (some extra) =
    List.◌++◌ (map (λ e. (e.0, "eq." ++ e.1)) extra.eq) (map (λ e. (e.0, "gte." ++ e.1)) extra.gte)

-- What a read gets: the decoded body of a success, or the error of the reply. The status comes
-- before the body.
unfoldable pub read_outcome {ℓ} :
    {A : Type ℓ} → (String → Result String A) → String → Result String Response → Result PolyError A
unfolding status_text
read_outcome from_str table (err transport) = err (http transport)
read_outcome from_str table (ok resp) =
    if not (is_success resp.status)
    then err (pull (PullError.failed table (http_message resp.status (text_or_default resp))))
    else (elim resp.body [
      | err e ↦ err (http e)
      | ok body ↦ elim (from_str body) [ err e ↦ err (http e) | ok value ↦ ok value ]
    ])

abbrev pub objects : Items → List Record
objects nil = []
objects (cons v vs) = elim (as_object v) [ none ↦ objects vs | some r ↦ r ∷ objects vs ]

-- `as_array().cloned().unwrap_or_default()`
abbrev pub as_array : Value → Items
as_array (array vs) = vs
as_array _ = nil

unfoldable pub fetch_records :
    ClientConfig
    → Send
    → (String → Result String Value)
    → String
    → String
    → Option String
    → Option RemoteFilter
    → String
    → Result PolyError (List Record)
unfolding read_outcome rest_url
fetch_records config send from_str table user_id_column user_id filter access_token =
    let query =
      ("select", "*") ∷ List.◌++◌ (user_scope user_id_column user_id) (filter_query filter) in
    elim (read_outcome from_str table (send (read_request config table query access_token))) [
      | err e ↦ err e
      | ok value ↦ ok (objects (as_array value))
    ]

-- the version and the flag of a row that has both an id and a version
abbrev pub version_of : Record → Option (String × (ℤ × Bool))
unfolding Assoc.get
version_of row = elim (field_as as_str "id" row) [
  | none ↦ none
  | some id ↦ elim (field_as as_i64 "version" row) [
    | none ↦ none
    | some version ↦ some (id, (version, unwrap_or false (field_as as_bool "deleted" row)))
  ]
]

-- the loop of `fetch_versions`: a later row replaces an earlier one of its id
unfoldable pub collect_versions : List Record → Assoc (ℤ × Bool) → Assoc (ℤ × Bool)
unfolding Assoc.insert Assoc.get
collect_versions [] versions = versions
collect_versions (row ∷ rows) versions =
    collect_versions rows
      (elim (version_of row) [ none ↦ versions | some (id, v) ↦ Assoc.insert id v versions ])

-- `from_items` decodes an array of values.
unfoldable pub fetch_versions :
    ClientConfig
    → Send
    → (String → Result String Items)
    → String
    → String
    → Option String
    → String
    → Result PolyError (Assoc (ℤ × Bool))
unfolding read_outcome collect_versions rest_url
fetch_versions config send from_items table user_id_column user_id access_token =
    let query = ("select", "id,version,deleted") ∷ user_scope user_id_column user_id in
    elim (read_outcome from_items table (send (read_request config table query access_token))) [
      | err e ↦ err e
      | ok rows ↦ ok (collect_versions (objects rows) [])
    ]
