-- ===== src/Auth/Stored.antt =====
-- The fields of the session store of crates/polybase/src/auth.rs after a mutation.
use polykit_rust.Prelude.{
  ◌+◌, ◌%◌, ◌^◌, ◌≡◌, refl, String, if◌then◌else◌, true, false, Option, none, some, arith,
}
use polykit_rust.Auth.{
  SessionPayload, SessionMutationKind, SessionStore, set_session, clear_session, matched,
  change_kind, is_user_changed, fire_user_change_hook, publish_change, counted,
}

-- the session as it is stored
abbrev pub stamped : SessionPayload → SessionStore → SessionPayload
stamped p s = record p { updated_at = s.update_counter }

pub set_session-matched :
    (p : SessionPayload) (s : SessionStore) → matched s.session p ≡ true → (set_session p s).0 ≡ s
unfolding set_session
set_session-matched p s h = ground (arith, h)

publish_change-fields :
    (u : Option String) (kind : SessionMutationKind) (s : SessionStore)
    → ((publish_change u kind s).session ≡ s.session)
      × ((publish_change u kind s).update_counter ≡ s.update_counter)
      × ((publish_change u kind s).refresh_in_flight ≡ s.refresh_in_flight)
      × ((publish_change u kind s).last_failure_at ≡ s.last_failure_at)
      × ((publish_change u kind s).user_change_hook ≡ s.user_change_hook)
publish_change-fields u SessionMutationKind.noop s = (refl, refl, refl, refl, refl)
publish_change-fields u SessionMutationKind.credentials_refreshed s = (refl, refl, refl, refl, refl)
publish_change-fields u SessionMutationKind.user_changed s = (refl, refl, refl, refl, refl)
publish_change-fields u SessionMutationKind.cleared s = (refl, refl, refl, refl, refl)

-- What `set_session` leaves in the fields, where the payload is new.
pub set_session-stored :
    (p : SessionPayload) (s : SessionStore)
    → matched s.session p ≡ false
    → ((set_session p s).0.session ≡ some (stamped p s))
      × ((set_session p s).0.update_counter ≡ (s.update_counter + 1) % 2 ^ 64)
      × ((set_session p s).0.refresh_in_flight ≡ s.refresh_in_flight)
      × ((set_session p s).0.last_failure_at ≡ s.last_failure_at)
      × ((set_session p s).0.user_change_hook ≡ s.user_change_hook)
unfolding set_session
set_session-stored p s h =
    let told : SessionStore =
      if is_user_changed (change_kind s.session p)
      then fire_user_change_hook (some p.user_id)
          (record (counted s) { session = some (stamped p s) })
      else record (counted s) { session = some (stamped p s) } in
    ground (arith, h, publish_change-fields (some p.user_id) (change_kind s.session p) told)

pub clear_session-fields :
    (s : SessionStore)
    → ((clear_session s).0.session ≡ none)
      × ((clear_session s).0.update_counter ≡ s.update_counter)
      × ((clear_session s).0.refresh_in_flight ≡ false)
      × ((clear_session s).0.last_failure_at ≡ none)
      × ((clear_session s).0.user_change_hook ≡ s.user_change_hook)
unfolding clear_session
clear_session-fields s = ground arith
