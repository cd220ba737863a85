-- ===== src/Tests/Auth.antt =====
-- The theorems on sessions at concrete runs: Ann refreshes, signs out, and Bob signs in.
use polykit_rust.Prelude.{
  ◌≡◌, ◌≤◌, ◌<◌, ◌+◌, ◌*◌, ◌⊎◌, refl, String, true, false, none, some, List, [], ◌∷◌, arith, length,
}
use polykit_rust.Prelude.Int.{pos, saturating_add_i64}
use polykit_rust.Prelude.Text.{contains}
use polykit_rust.Prelude.Result.{Result, ok, err}
use polykit_rust.Errors.{PolyError, http, other}
use polykit_rust.Errors.Show.{to_string}
use polykit_rust.Client.{Response}
use polykit_rust.Auth.{
  SessionPayload, SessionStore, new, on_user_changed, current_updated_at, current_user_id,
  is_session_valid, clear_session,
}
use polykit_rust.Auth.Refresh.{
  Now, RefreshSessionResponse, returns, goes_on, refresh_if_needed, refresh_payload,
  refreshed_payload, finish_refresh, is_permanent_refresh_failure,
}
use polykit_rust.Auth.Run.{Move, signs_in, signs_out, claims, advances, System, run}
use polykit_rust.Auth.Watermark.{is_some, valid_iff_signed_in}
use polykit_rust.Auth.Told.{Informed, told, announced, run-Informed}
use polykit_rust.Auth.Flight.{clears, single_flight, late_reply_signs_in}
use polykit_rust.Auth.Cooldown.{failed, failure_cools_down}

abbrev ann : SessionPayload
ann = record {
  user_id = "ann";
  access_token = "a1";
  refresh_token = "r1";
  expires_at = pos 100;
  updated_at = 0;
}

abbrev bob : SessionPayload
bob = record ann { user_id = "bob"; access_token = "b1" }

abbrev noon : Now
noon = record { instant = 5; unix_secs = pos 90 }

abbrev here : SessionStore
here = record new { session = some (record ann { updated_at = 1 }); update_counter = 2 }

abbrev start : System
start = record { store = here; out = [] }

abbrev switch : List Move
switch =
    claims true 0 noon
    ∷ signs_out
    ∷ signs_in bob
    ∷ advances 0 noon (ok ann)
    ∷ advances 0 noon (ok ann)
    ∷ advances 0 noon (ok ann)
    ∷ []

abbrev staying : List Move
staying = claims true 0 noon ∷ claims true 0 noon ∷ advances 0 noon (ok ann) ∷ signs_in bob ∷ []

abbrev reply : Result String Response
reply = ok (record { status = 200; body = ok "{}" })

abbrev decode : String → Result String RefreshSessionResponse
decode body = ok (record {
  access_token = "a2";
  refresh_token = none;
  expires_at = none;
  expires_in = some (pos 60);
  user = none;
})

renewed : SessionPayload
unfolding refreshed_payload saturating_add_i64
renewed = refreshed_payload (pos 90) ann (record {
  access_token = "a2";
  refresh_token = none;
  expires_at = none;
  expires_in = some (pos 60);
  user = none;
})

valid_iff_signed_in_example :
    is_session_valid (current_updated_at start.store) (run switch start).store
    ≡ is_some (run switch start).store.session
valid_iff_signed_in_example = valid_iff_signed_in switch start (omega arith) (omega arith)

informed : Informed (on_user_changed new)
unfolding told announced current_user_id
informed = record { registered = refl; hook = refl; events = refl }

run-Informed_example :
    Informed (run switch (record { store = on_user_changed new; out = [] })).store
run-Informed_example =
    run-Informed switch (record { store = on_user_changed new; out = [] }) informed

single_flight_example : length (run staying (record { store = here; out = [] })).out ≤ 1
unfolding clears
single_flight_example = single_flight staying here (refl, (refl, (refl, (refl, tt))))

-- After a refresh that failed for good, its leader gives back the flight of the next leader, so that
-- two refreshes are out.
abbrev final_failure : PolyError
final_failure = other "invalid_grant"

abbrev overtaken : List Move
overtaken =
    claims true 0 noon
    ∷ advances 0 noon (err final_failure)
    ∷ signs_in bob
    ∷ claims true 0 noon
    ∷ advances 0 noon (err final_failure)
    ∷ advances 0 noon (err final_failure)
    ∷ claims true 0 noon
    ∷ []

two_out : length (run overtaken (record { store = here; out = [] })).out ≡ 2
unfolding run
two_out = refl

accepted : refresh_payload decode (pos 90) ann reply ≡ ok renewed
unfolding refresh_payload renewed refreshed_payload
accepted = refl

late_reply_signs_in_example :
    current_user_id
      (finish_refresh noon (refresh_payload decode (pos 90) ann reply) (clear_session here).0).0
    ≡ some renewed.user_id
late_reply_signs_in_example =
    late_reply_signs_in decode noon ann renewed reply (clear_session here).0 accepted

transport-passing : is_permanent_refresh_failure (to_string (http "timeout")) ≡ false
unfolding is_permanent_refresh_failure to_string contains
transport-passing = refl

failure_cools_down_example :
    ((5 < 5 + 30 * 1000000000)
      × ((f : PolyError) × (refresh_if_needed true 0 noon (failed noon (http "timeout") here)
            ≡ (failed noon (http "timeout") here, returns (err f)))))
    ⊎ ((5 + 30 * 1000000000 ≤ 5)
        × (refresh_if_needed true 0 noon (failed noon (http "timeout") here) ≡ (
          record (failed noon (http "timeout") here) { refresh_in_flight = true },
          goes_on (record ann { updated_at = 1 }),
        )))
failure_cools_down_example =
    failure_cools_down (http "timeout") noon noon true 0 (record ann { updated_at = 1 }) here
      transport-passing refl refl
