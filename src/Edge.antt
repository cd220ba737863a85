-- ===== src/Edge.antt =====
-- crates/polybase/src/edge.rs: calls of Edge Functions. The JSON decoder of the server's envelope
-- is a parameter.
pub mod Classify
use Prim.Native.String.{◌++◌}
use polykit_rust.Prelude.{
  ℕ, String, ◌==◌, Bool, true, false, not, ◌&&◌, ◌||◌, Option, none, some, List, [], ◌∷◌, num_eq,
  if◌then◌else◌,
}
use polykit_rust.Prelude.Text.{codes, to_ascii_lowercase, codes_eq, contains}
use polykit_rust.Prelude.Result.{Result, ok, err}
use polykit_rust.Json.{Value, object, field, end}
use polykit_rust.Errors.{
  PolyError, edge, EdgeError, validation, conflict, forbidden, transient, permanent, decode,
}
use polykit_rust.Client.{
  ClientConfig, Request, Response, Send, Method, post, functions_url, is_success, is_server_error,
  status_text,
}

pub record EdgeRequest : Type 0 where
  pub function : String
  pub op : Option String
  pub payload : Value
  pub idempotency_key : Option String
  pub request_id : Option String

abbrev pub new : String → Value → EdgeRequest
new function payload = record {
  function = function;
  op = none;
  payload = payload;
  idempotency_key = none;
  request_id = none;
}

abbrev pub with_op : String → EdgeRequest → EdgeRequest
with_op op request = record request { op = some op }

pub record EdgeOk : Type 0 where
  pub data_ : Value
  pub request_id : Option String

pub record EdgeErrorBody : Type 0 where
  pub code : String
  pub message : String
  pub details : Option Value

pub record RawEnvelope : Type 0 where
  pub success : Bool
  pub data_ : Option Value
  pub error : Option EdgeErrorBody
  pub request_id : Option String

unfoldable pub build_url : ClientConfig → String → Option String → String
build_url config function none = functions_url config function
build_url config function (some op) =
    let base = functions_url config function in
    if not (op == "") then base ++ ("/v1/" ++ op) else base

abbrev pub wrap_body : Value → Value
wrap_body payload = object (field "payload" payload end)

abbrev or_else : Option String → String → String
or_else none d = d
or_else (some s) d = s

-- `generated` are the keys that are drawn where the request has none.
abbrev pub call_request : ClientConfig → EdgeRequest → String × String → String → Request
call_request config request generated access_token = record {
  method = post;
  url = build_url config request.function request.op;
  headers =
      ("apikey", config.supabase_anon_key)
      ∷ ("Authorization", "Bearer " ++ access_token)
      ∷ ("Idempotency-Key", or_else request.idempotency_key generated.0)
      ∷ ("X-Request-Id", or_else request.request_id generated.1)
      ∷ [];
  query = [];
  json = wrap_body request.payload;
}

abbrev text_contains : String → String → Bool
text_contains text part = contains (to_ascii_lowercase (codes text)) (codes part)

-- `str::eq_ignore_ascii_case`
unfoldable pub eq_ignore_ascii_case : String → String → Bool
unfolding to_ascii_lowercase
eq_ignore_ascii_case s t = codes_eq (to_ascii_lowercase (codes s)) (to_ascii_lowercase (codes t))

unfoldable pub classify_error : String → ℕ → EdgeErrorBody → EdgeError
unfolding contains to_ascii_lowercase eq_ignore_ascii_case
classify_error function status error =
    if num_eq status 401 || num_eq status 403
    then EdgeError.forbidden function error.message
    else if is_server_error status
    then (if eq_ignore_ascii_case error.code "permanent"
        then EdgeError.permanent function error.message
        else EdgeError.transient function error.message)
    else if text_contains error.code "conflict"
        || (text_contains error.code "version" || text_contains error.code "idempotency")
    then EdgeError.conflict function error.code error.message
    else EdgeError.validation function error.code error.message

-- the body of the error of a reply that is no success
abbrev error_of : ℕ → String → Result String RawEnvelope → EdgeErrorBody
error_of status body (err e) = record { code = status_text status; message = body; details = none }
error_of status body (ok envelope) = elim envelope.error [
  | some error ↦ error
  | none ↦ record { code = status_text status; message = body; details = none }
]

-- what a reply with a decoded success status means
abbrev envelope_outcome : String → ℕ → String → Result String RawEnvelope → Result EdgeError EdgeOk
envelope_outcome function status body (err e) = err (EdgeError.decode function e)
envelope_outcome function status body (ok envelope) =
    if envelope.success
    then (elim envelope.data_ [
      | none ↦ err (EdgeError.decode function "envelope.success was true but data was missing")
      | some value ↦ ok (record { data_ = value; request_id = envelope.request_id })
    ])
    else err (
        classify_error function status (elim envelope.error [
          | some error ↦ error
          | none ↦ record { code = "unknown"; message = body; details = none }
        ]))

-- The result of a call from its reply. The data is asked for as a `Value`, whose decoding from a
-- `Value` cannot fail.
unfoldable pub call_outcome :
    (String → Result String RawEnvelope) → String → Result String Response → Result EdgeError EdgeOk
unfolding classify_error
call_outcome from_str function (err transport) = err (EdgeError.transient function transport)
call_outcome from_str function (ok resp) = elim resp.body [
  | err e ↦ err (EdgeError.transient function ("read body: " ++ e))
  | ok body ↦
      if is_success resp.status
      then envelope_outcome function resp.status body (from_str body)
      else err (classify_error function resp.status (error_of resp.status body (from_str body)))
]

unfoldable pub call :
    ClientConfig
    → Send
    → (String → Result String RawEnvelope)
    → EdgeRequest
    → String × String
    → String
    → Result EdgeError EdgeOk
unfolding call_outcome
call config send from_str request generated access_token =
    call_outcome from_str request.function
      (send (call_request config request generated access_token))
