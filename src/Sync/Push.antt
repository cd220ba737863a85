-- ===== src/Sync/Push.antt =====
-- crates/polybase/src/sync/push.rs: upserts and tombstones, and what a rejection means.
pub mod Classify
use Prim.Native.String.{◌++◌}
use polykit_rust.Prelude.{
  ℕ, String, Bool, true, Option, none, some, List, [], ◌∷◌, any, if◌then◌else◌,
}
use polykit_rust.Prelude.Int.{ℤ}
use polykit_rust.Prelude.Text.{codes, to_ascii_lowercase, contains}
use polykit_rust.Prelude.Assoc
use polykit_rust.Prelude.Result.{Result, ok, err}
use polykit_rust.Json.{Value, Record, to_fields, as_str, object, array, cons, nil, int, bool}
use polykit_rust.Contract.Message.{is_same_version_mutation_message}
use polykit_rust.Errors.{
  PolyError, http, push, PushError, permanent, transient, same_version_mutation_ignored,
}
use polykit_rust.Client.{
  ClientConfig, Request, Response, Send, Method, post, patch, rest_url, is_success, text_or_default,
  status_text,
}
use polykit_rust.Sync.Echo.{EchoTracker, mark_pushed}

abbrev pub permanent_push_error_patterns : List String
permanent_push_error_patterns =
    "version regression" ∷ "is immutable" ∷ "same-version mutation" ∷ "undelete requires version"
    ∷ "string is too long for tsvector" ∷ "value too long" ∷ "violates check constraint"
    ∷ "violates not-null constraint" ∷ "violates unique constraint" ∷ "invalid input syntax" ∷ []

unfoldable pub is_permanent_push_error_message : String → Bool
unfolding to_ascii_lowercase any contains
is_permanent_push_error_message message =
    let lower = to_ascii_lowercase (codes message) in
    any (λ pattern. contains lower (codes pattern)) permanent_push_error_patterns

unfoldable pub classify_push_error_message : String → String → PushError
unfolding is_permanent_push_error_message
classify_push_error_message table message =
    if is_permanent_push_error_message message
    then PushError.permanent table message
    else PushError.transient table message

-- the headers of both requests but the `Prefer` of each
abbrev pub headers : ClientConfig → String → String → List (String × String)
headers config access_token prefer =
    ("apikey", config.supabase_anon_key)
    ∷ ("Authorization", "Bearer " ++ access_token)
    ∷ ("Prefer", prefer)
    ∷ []

abbrev pub http_message : ℕ → String → String
http_message status body = "HTTP " ++ (status_text status ++ (": " ++ body))

abbrev pub upsert_request : ClientConfig → String → Record → String → String → Request
upsert_request config table record_ conflict_target access_token = record {
  method = post;
  url = rest_url config table;
  headers = headers config access_token "resolution=merge-duplicates,return=minimal";
  query = ("on_conflict", conflict_target) ∷ [];
  json = array (cons (object (to_fields record_)) nil);
}

unfoldable pub upsert_outcome : String → Result String Response → Result PolyError (Unit {0})
unfolding classify_push_error_message
upsert_outcome table (err transport) = err (http transport)
upsert_outcome table (ok resp) =
    let body = text_or_default resp in
    if is_success resp.status
    then ok tt
    else if is_same_version_mutation_message body
    then err (push (same_version_mutation_ignored table))
    else err (push (classify_push_error_message table (http_message resp.status body)))

-- The tracker is marked before the request is sent.
unfoldable pub upsert :
    ClientConfig
    → Send
    → ℕ
    → String
    → Record
    → String
    → String
    → EchoTracker
    → EchoTracker × Result PolyError (Unit {0})
unfolding upsert_outcome mark_pushed Assoc.get
upsert config send now table record_ conflict_target access_token echo =
    elim (Assoc.get "id" record_) [
      | none ↦ (echo, err (push (PushError.permanent table "record missing 'id' field")))
      | some v ↦ elim (as_str v) [
        | none ↦ (echo, err (push (PushError.permanent table "record missing 'id' field")))
        | some entity_id ↦
            let echo' = mark_pushed now table entity_id echo in
            (
              echo',
              upsert_outcome table
                  (send (upsert_request config table record_ conflict_target access_token)),
            )
      ]
    ]

abbrev pub tombstone_request : ClientConfig → String → String → ℤ → Value → String → Request
tombstone_request config table entity_id version updated_at access_token = record {
  method = patch;
  url = rest_url config table;
  headers = headers config access_token "return=minimal";
  query = ("id", "eq." ++ entity_id) ∷ [];
  json = object (
      to_fields
        (("version", int version) ∷ ("deleted", bool true) ∷ ("updated_at", updated_at) ∷ []));
}

unfoldable pub tombstone_outcome : String → Result String Response → Result PolyError (Unit {0})
unfolding classify_push_error_message
tombstone_outcome table (err transport) = err (http transport)
tombstone_outcome table (ok resp) =
    if is_success resp.status
    then ok tt
    else err
        (push (classify_push_error_message table (http_message resp.status (text_or_default resp))))

unfoldable pub update_tombstone :
    ClientConfig
    → Send
    → ℕ
    → String
    → String
    → ℤ
    → Value
    → String
    → EchoTracker
    → EchoTracker × Result PolyError (Unit {0})
unfolding tombstone_outcome mark_pushed
update_tombstone config send now table entity_id version updated_at access_token echo =
    let echo' = mark_pushed now table entity_id echo in
    (
      echo',
      tombstone_outcome table
          (send (tombstone_request config table entity_id version updated_at access_token)),
    )
