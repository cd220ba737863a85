-- ===== src/Auth.antt =====
-- crates/polybase/src/auth.rs: the session store. `set_session` and `clear_session` run under the
-- mutation lock, so each is a function on the store. The calls of the hook and the events that
-- are published are kept in the store, in their order.
pub mod Refresh
pub mod Run
pub mod Stored
pub mod Watermark
pub mod Told
pub mod Flight
pub mod Cooldown
use polykit_rust.Prelude.{
  ℕ, ◌+◌, ◌%◌, ◌^◌, String, ◌==◌, Bool, true, false, ◌&&◌, Option, none, some, List, [], ◌∷◌, ◌++◌,
  leb, if◌then◌else◌,
}
use polykit_rust.Prelude.Int.{ℤ, pos, eqb_ℤ, leb_ℤ, wrap_i64, saturating_add_i64}
use polykit_rust.Events.{PolyEvent, session_changed, SessionChangeKind}

pub record SessionPayload : Type 0 where
  pub user_id : String
  pub access_token : String
  pub refresh_token : String
  pub expires_at : ℤ
  pub updated_at : ℕ  -- u64

pub data SessionMutationKind : Type 0 where
  noop credentials_refreshed user_changed cleared : SessionMutationKind

pub record SessionMutation : Type 0 where
  pub kind : SessionMutationKind
  pub updated_at : ℕ

abbrev pub into_event_kind : SessionMutationKind → Option SessionChangeKind
into_event_kind SessionMutationKind.noop = none
into_event_kind SessionMutationKind.credentials_refreshed =
    some SessionChangeKind.credentials_refreshed
into_event_kind SessionMutationKind.user_changed = some SessionChangeKind.user_changed
into_event_kind SessionMutationKind.cleared = some SessionChangeKind.cleared

-- What a mutation does outside: it calls the hook, it publishes.
pub data Effect : Type 0 where
  hook_called : Option String → Effect
  published : PolyEvent → Effect

pub record SessionStore : Type 0 where
  pub session : Option SessionPayload
  pub update_counter : ℕ  -- u64
  pub last_failure_at : Option ℕ  -- Instant, in nanoseconds
  pub refresh_in_flight : Bool  -- is there a channel
  pub user_change_hook : Bool  -- is there a hook
  pub effects : List Effect

abbrev pub new : SessionStore
new = record {
  session = none;
  update_counter = 1;
  last_failure_at = none;
  refresh_in_flight = false;
  user_change_hook = false;
  effects = [];
}

abbrev pub on_user_changed : SessionStore → SessionStore
on_user_changed s = record s { user_change_hook = true }

unfoldable pub session_matches : SessionPayload → SessionPayload → Bool
session_matches left right =
    (left.user_id == right.user_id)
    && ((left.access_token == right.access_token)
        && ((left.refresh_token == right.refresh_token) && eqb_ℤ left.expires_at right.expires_at))

abbrev pub next_updated_at : SessionStore → ℕ
next_updated_at s = s.update_counter

-- `fetch_add(1)` of an `AtomicU64`
abbrev pub counted : SessionStore → SessionStore
counted s = record s { update_counter = (s.update_counter + 1) % 2 ^ 64 }

abbrev pub fire_user_change_hook : Option String → SessionStore → SessionStore
fire_user_change_hook user s =
    if s.user_change_hook then record s { effects = s.effects ++ hook_called user ∷ [] } else s

-- the kind of a change from the current session, where the two do not match
unfoldable pub change_kind : Option SessionPayload → SessionPayload → SessionMutationKind
change_kind none payload = SessionMutationKind.user_changed
change_kind (some current) payload =
    if current.user_id == payload.user_id
    then SessionMutationKind.credentials_refreshed
    else SessionMutationKind.user_changed

abbrev pub publish_change : Option String → SessionMutationKind → SessionStore → SessionStore
publish_change user kind s = elim (into_event_kind kind) [
  | none ↦ s
  | some change ↦ record s { effects = s.effects ++ published (session_changed user change) ∷ [] }
]

-- `matches!(kind, SessionMutationKind::UserChanged)`
abbrev pub is_user_changed : SessionMutationKind → Bool
is_user_changed SessionMutationKind.user_changed = true
is_user_changed _ = false

-- the part of `set_session` for a payload that does not match
abbrev pub store_session :
    SessionPayload → SessionMutationKind → SessionStore → SessionStore × SessionMutation
store_session payload kind s =
    let assigned = next_updated_at s in
    let stored = record (counted s) { session = some (record payload { updated_at = assigned }) } in
    let told =
      if is_user_changed kind
      then fire_user_change_hook (some payload.user_id) stored
      else stored in
    (publish_change (some payload.user_id) kind told, record { kind = kind; updated_at = assigned })

-- does the payload match the current session
abbrev pub matched : Option SessionPayload → SessionPayload → Bool
unfolding session_matches
matched none payload = false
matched (some current) payload = session_matches current payload

unfoldable pub current_updated_at : SessionStore → ℕ
current_updated_at s = elim s.session [ none ↦ 0 | some p ↦ p.updated_at ]

unfoldable pub set_session : SessionPayload → SessionStore → SessionStore × SessionMutation
unfolding session_matches change_kind current_updated_at
set_session payload s =
    if matched s.session payload
    then (s, record { kind = SessionMutationKind.noop; updated_at = current_updated_at s })
    else store_session payload (change_kind s.session payload) s

unfoldable pub clear_session : SessionStore → SessionStore × SessionMutation
clear_session s =
    let emptied = record s { session = none; last_failure_at = none; refresh_in_flight = false } in
    elim s.session [
      | none ↦ (emptied, record { kind = SessionMutationKind.noop; updated_at = 0 })
      | some p ↦ (
        publish_change none SessionMutationKind.cleared (fire_user_change_hook none emptied),
        record { kind = SessionMutationKind.cleared; updated_at = 0 },
      )
    ]

abbrev pub current : SessionStore → Option SessionPayload
current s = s.session

unfoldable pub current_user_id : SessionStore → Option String
current_user_id s = elim s.session [ none ↦ none | some p ↦ some p.user_id ]

unfoldable pub is_session_valid : ℕ → SessionStore → Bool
is_session_valid min_updated_at s = elim s.session [
  | none ↦ false
  | some p ↦ leb min_updated_at p.updated_at
]

-- `now` is `unix_time_secs`; the seconds of a `Duration` are a `u64`, cast to `i64`.
unfoldable pub session_expires_within : ℤ → SessionPayload → ℕ → Bool
unfolding saturating_add_i64 wrap_i64
session_expires_within now session min_valid_for =
    leb_ℤ session.expires_at (saturating_add_i64 now (wrap_i64 (pos min_valid_for)))

unfoldable pub has_unexpired_session : ℤ → SessionStore → Bool
unfolding session_expires_within
has_unexpired_session now s = elim s.session [
  | none ↦ false
  | some p ↦ if session_expires_within now p 0 then false else true
]
