-- ===== src/Auth/Cooldown.antt =====
-- What a failed refresh leaves: a cooldown, or nobody signed in.
use polykit_rust.Prelude.{
  ℕ, ◌+◌, ◌*◌, ◌/◌, ◌-◌, ◌⊎◌, ◌<◌, ◌≤◌, ◌≡◌, refl, Bool, true, false, none, some, arith, ltb,
  Bool-cases, inl, inr,
}
use polykit_rust.Prelude.Result.{ok, err}
use polykit_rust.Errors.{PolyError, other}
use Prim.Native.String.{◌++◌}
use polykit_rust.Prelude.Text.{decimal}
use polykit_rust.Errors.Show.{to_string}
use polykit_rust.Auth.{SessionPayload, SessionStore, current_user_id}
use polykit_rust.Auth.Refresh.{
  Now, returns, goes_on, check_refresh, claim_refresh, refresh_if_needed, needs_refresh,
  cooling_down, perform_refresh, finish_refresh, is_permanent_refresh_failure, refresh_cooldown,
}
use polykit_rust.Auth.Stored.{clear_session-fields}

abbrev pub failed : Now → PolyError → SessionStore → SessionStore
failed now e s = (finish_refresh now (err e) s).0

abbrev cooling_error : ℕ → PolyError
unfolding decimal
cooling_error elapsed = other (
    "session refresh is cooling down; retry in "
    ++ (decimal ((refresh_cooldown - elapsed) / 1000000) ++ "ms"))

kept :
    (e : PolyError) (at : Now) (s : SessionStore)
    → is_permanent_refresh_failure (to_string e) ≡ false
    → failed at e s ≡ record s { last_failure_at = some at.instant; refresh_in_flight = false }
unfolding finish_refresh perform_refresh
kept e at s passing = rw passing refl

-- A refresh that failed for a reason that is not final keeps the session. A caller who needs a
-- refresh, forced or not, gets an error and changes nothing while 30 seconds have not passed since;
-- afterwards it takes the flight, to refresh the session that was kept.
pub failure_cools_down :
    (e : PolyError) (at now : Now) (force : Bool) (valid_for : ℕ) (p : SessionPayload)
    (s : SessionStore)
    → is_permanent_refresh_failure (to_string e) ≡ false
    → s.session ≡ some p
    → needs_refresh force valid_for now p ≡ true
    → ((now.instant < at.instant + 30 * 1000000000)
        × ((f : PolyError) × (refresh_if_needed force valid_for now (failed at e s)
              ≡ (failed at e s, returns (err f)))))
      ⊎ ((at.instant + 30 * 1000000000 ≤ now.instant)
          × (refresh_if_needed force valid_for now (failed at e s)
              ≡ (record (failed at e s) { refresh_in_flight = true }, goes_on p)))
unfolding refresh_if_needed check_refresh claim_refresh cooling_down
failure_cools_down e at now force valid_for p s passing is needs =
    elim (Bool-cases (ltb (now.instant - at.instant) refresh_cooldown)) [
      | inl young ↦ inl (
        ground (arith, young),
        (
          cooling_error (now.instant - at.instant),
          rw (kept e at s passing) (ground (arith, is, needs, young)),
        ),
      )
      | inr old ↦
          inr (ground (arith, old), rw (kept e at s passing) (ground (arith, is, needs, old)))
    ]

-- A refresh that failed for good leaves nobody signed in and no cooldown.
pub failure_signs_out :
    (e : PolyError) (at now : Now) (force : Bool) (valid_for : ℕ) (s : SessionStore)
    → is_permanent_refresh_failure (to_string e) ≡ true
    → (current_user_id (failed at e s) ≡ none)
      × ((refresh_if_needed force valid_for now (failed at e s)).1 ≡ returns (ok none))
unfolding finish_refresh perform_refresh refresh_if_needed check_refresh current_user_id
failure_signs_out e at now force valid_for s final =
    let (session, counter, flight, failure, hook) = clear_session-fields s in
    (rw final (rw session refl), ground (arith, final, session))
