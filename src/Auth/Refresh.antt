-- ===== src/Auth/Refresh.antt =====
-- The refresh of a session: `refresh_if_needed`, `perform_refresh` and `refresh_payload` of
-- crates/polybase/src/auth.rs. Between the steps of a refresh other calls may run: a caller
-- checks, claims the flight, waits for the reply, and finishes.
use Prim.Native.String.{◌++◌}
use polykit_rust.Prelude.{
  ℕ, ◌-◌, ◌*◌, ◌/◌, String, ◌==◌, Bool, true, false, not, ◌||◌, Option, none, some, [], ◌∷◌, ltb,
  if◌then◌else◌,
}
use polykit_rust.Prelude.Int.{ℤ, pos, saturating_add_i64}
use polykit_rust.Prelude.Text.{codes, contains, trim, decimal}
use polykit_rust.Prelude.Result.{Result, ok, err, map_err}
use polykit_rust.Json.{object, field, end, string}
use polykit_rust.Errors.{PolyError, no_session, http, other}
use polykit_rust.Errors.Show.{to_string}
use polykit_rust.Client.{
  ClientConfig, Request, Response, post, auth_url, is_success, text_or_default, status_text,
}
use polykit_rust.Auth.{
  SessionPayload, SessionMutationKind, SessionStore, set_session, clear_session,
  session_expires_within,
}

abbrev pub refresh_cooldown : ℕ  -- nanoseconds
refresh_cooldown = 30 * 1000000000

pub record EnsureFreshResult : Type 0 where
  pub session : SessionPayload
  pub refreshed : Bool

-- the readings of the two clocks
pub record Now : Type 0 where
  pub instant : ℕ  -- nanoseconds
  pub unix_secs : ℤ

pub record RefreshSessionResponse : Type 0 where
  pub access_token : String
  pub refresh_token : Option String
  pub expires_at : Option ℤ
  pub expires_in : Option ℤ
  pub user : Option String  -- its id

-- How a call goes on: it joins the refresh in flight, it returns, or it goes on with the refresh.
pub data Check : Type 0 where
  waits : Check
  returns : Result PolyError (Option EnsureFreshResult) → Check
  goes_on : SessionPayload → Check

abbrev pub still_fresh : SessionPayload → Check
still_fresh session = returns (ok (some (record { session = session; refreshed = false })))

abbrev pub needs_refresh : Bool → ℕ → Now → SessionPayload → Bool
needs_refresh force min_valid_for now session =
    force || session_expires_within now.unix_secs session min_valid_for

-- the error while a failure is younger than the cooldown; `elapsed` stops at 0
unfoldable pub cooling_down : SessionStore → ℕ → Option PolyError
unfolding decimal
cooling_down s instant = elim s.last_failure_at [
  | none ↦ none
  | some failed_at ↦
      let elapsed = instant - failed_at in
      if ltb elapsed refresh_cooldown
      then some (
          other (
            "session refresh is cooling down; retry in "
            ++ (decimal ((refresh_cooldown - elapsed) / 1000000) ++ "ms")))
      else none
]

-- the first reads of `refresh_if_needed`
unfoldable pub check_refresh : Bool → ℕ → Now → SessionStore → Check
unfolding cooling_down session_expires_within
check_refresh force min_valid_for now s = if s.refresh_in_flight then waits else (elim s.session [
  | none ↦ returns (ok none)
  | some session ↦
      if not (needs_refresh force min_valid_for now session)
      then still_fresh session
      else (elim (cooling_down s now.instant) [ some e ↦ returns (err e) | none ↦ goes_on session ])
])

-- The second read, and the claim of the flight: `waits` is the `continue` of a claim that another
-- caller won, `goes_on` the session to refresh.
unfoldable pub claim_refresh : Bool → ℕ → Now → SessionStore → SessionStore × Check
unfolding session_expires_within
claim_refresh force min_valid_for now s = elim s.session [
  | none ↦ (s, returns (err no_session))
  | some session ↦
      if not (needs_refresh force min_valid_for now session)
      then (s, still_fresh session)
      else if s.refresh_in_flight
      then (s, waits)
      else (record s { refresh_in_flight = true }, goes_on session)
]

-- Both with nothing in between.
unfoldable pub refresh_if_needed : Bool → ℕ → Now → SessionStore → SessionStore × Check
unfolding check_refresh claim_refresh
refresh_if_needed force min_valid_for now s = elim (check_refresh force min_valid_for now s) [
  | waits ↦ (s, waits)
  | returns r ↦ (s, returns r)
  | goes_on session ↦ claim_refresh force min_valid_for now s
]

abbrev pub ensure_fresh : ℕ → Now → SessionStore → SessionStore × Check
unfolding refresh_if_needed
ensure_fresh min_valid_for = refresh_if_needed false min_valid_for

abbrev pub force_refresh : Now → SessionStore → SessionStore × Check
unfolding refresh_if_needed
force_refresh = refresh_if_needed true 0

-- what the callers that wait get, from what the leader got
abbrev pub await_outcome :
    Result PolyError (Option EnsureFreshResult) → Result PolyError (Option EnsureFreshResult)
unfolding to_string
await_outcome = map_err (λ (e : PolyError). other (to_string e))

unfoldable pub is_permanent_refresh_failure : String → Bool
unfolding contains
is_permanent_refresh_failure message =
    contains (codes message) (codes "refresh_token_already_used")
    || (contains (codes message) (codes "invalid_grant")
        || contains (codes message) (codes "Invalid Refresh Token"))

abbrev pub refresh_request : ClientConfig → SessionPayload → Request
unfolding auth_url
refresh_request config session = record {
  method = post;
  url = auth_url config "token" ++ "?grant_type=refresh_token";
  headers = ("apikey", config.supabase_anon_key) ∷ [];
  query = [];
  json = object (field "refresh_token" (string session.refresh_token) end);
}

abbrev pub refresh_failure : Response → PolyError
unfolding trim status_text
refresh_failure resp =
    let body = trim (text_or_default resp) in
    let status = "HTTP " ++ status_text resp.status in
    other ("session refresh failed: " ++ (if body == "" then status else status ++ (": " ++ body)))

abbrev pub expiry : ℤ → RefreshSessionResponse → ℤ
unfolding saturating_add_i64
expiry unix_secs payload = elim payload.expires_at [
  | some at ↦ at
  | none ↦ elim payload.expires_in [
    | some span ↦ saturating_add_i64 unix_secs span
    | none ↦ saturating_add_i64 unix_secs (pos 3600)
  ]
]

-- the session that a decoded reply means, for the session that was sent
unfoldable pub refreshed_payload : ℤ → SessionPayload → RefreshSessionResponse → SessionPayload
unfolding saturating_add_i64
refreshed_payload unix_secs session payload = record {
  user_id = elim payload.user [
    | none ↦ session.user_id
    | some id ↦ if id == "" then session.user_id else id
  ];
  access_token = payload.access_token;
  refresh_token = elim payload.refresh_token [ none ↦ session.refresh_token | some t ↦ t ];
  expires_at = expiry unix_secs payload;
  updated_at = 0;
}

-- `from_str` is the decoder of the reply.
unfoldable pub refresh_payload :
    (String → Result String RefreshSessionResponse)
    → ℤ
    → SessionPayload
    → Result String Response
    → Result PolyError SessionPayload
unfolding refreshed_payload trim status_text
refresh_payload from_str unix_secs session (err transport) = err (http transport)
refresh_payload from_str unix_secs session (ok resp) =
    if not (is_success resp.status) then err (refresh_failure resp) else (elim resp.body [
      | err e ↦ err (http e)
      | ok body ↦ elim (from_str body) [
        | err e ↦ err (http e)
        | ok payload ↦ ok (refreshed_payload unix_secs session payload)
      ]
    ])

-- `matches!(mutation.kind, SessionMutationKind::CredentialsRefreshed)`
abbrev pub is_credentials_refreshed : SessionMutationKind → Bool
is_credentials_refreshed SessionMutationKind.credentials_refreshed = true
is_credentials_refreshed _ = false

-- `perform_refresh` from its reply on is two steps, between which other calls may run. The first
-- sets the session, or clears it after a failure for good; it tells whether the reply renewed the
-- credentials of the session.
unfoldable pub store_reply : Result PolyError SessionPayload → SessionStore → SessionStore × Bool
unfolding set_session clear_session is_permanent_refresh_failure to_string
store_reply (ok payload) s =
    let (s', mutation) = set_session payload s in (s', is_credentials_refreshed mutation.kind)
store_reply (err e) s =
    ((if is_permanent_refresh_failure (to_string e) then (clear_session s).0 else s), false)

-- The second notes when the refresh failed, and reads the session that it returns.
unfoldable pub note_reply :
    Now
    → Result PolyError SessionPayload
    → Bool
    → SessionStore
    → SessionStore × Result PolyError (Option EnsureFreshResult)
unfolding is_permanent_refresh_failure to_string
note_reply now (ok payload) refreshed s = (
  record s { last_failure_at = none },
  ok (
      some (record {
        session = elim s.session [ none ↦ payload | some p ↦ p ];
        refreshed = refreshed;
      })),
)
note_reply now (err e) refreshed s = (
  (if is_permanent_refresh_failure (to_string e)
      then s
      else record s { last_failure_at = some now.instant }),
  err e,
)

-- The leader's last step gives the flight back, whoever holds it.
abbrev pub release_flight : SessionStore → SessionStore
release_flight s = record s { refresh_in_flight = false }

-- Both steps of `perform_refresh` with nothing in between.
unfoldable pub perform_refresh :
    Now
    → Result PolyError SessionPayload
    → SessionStore
    → SessionStore × Result PolyError (Option EnsureFreshResult)
unfolding store_reply note_reply
perform_refresh now outcome s =
    let (s', refreshed) = store_reply outcome s in note_reply now outcome refreshed s'

-- All of the leader's steps with nothing in between.
unfoldable pub finish_refresh :
    Now
    → Result PolyError SessionPayload
    → SessionStore
    → SessionStore × Result PolyError (Option EnsureFreshResult)
unfolding perform_refresh
finish_refresh now outcome s =
    let (s', result) = perform_refresh now outcome s in (release_flight s', result)
