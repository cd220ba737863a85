-- ===== src/Tests/Wire.antt =====
-- The theorems on pushes, calls and the echo tracker at concrete inputs.
use polykit_rust.Prelude.{ℕ, String, ◌≡◌, refl, true, false, none, List, [], ◌∷◌, arith}
use polykit_rust.Prelude.Result.{Result, ok, err}
use polykit_rust.Contract.Message.{is_same_version_mutation_message, is_version_regression_message}
use polykit_rust.Errors.{push, PushError, same_version_mutation_ignored, EdgeError}
use polykit_rust.Errors.Push
use polykit_rust.Client.{Response, status_text}
use polykit_rust.Edge.{EdgeErrorBody, RawEnvelope, call_outcome}
use polykit_rust.Sync.Echo.{with_default_window, mark_pushed, was_recently_pushed}
use polykit_rust.Sync.Echo.Window.{EchoCall, marks, asks, vacuums, respond_all, echo_suppressed}
use polykit_rust.Sync.Push.{http_message, upsert_outcome, tombstone_outcome}
use polykit_rust.Sync.Push.Classify.{regression_recognised, same_version_outcomes}

abbrev regression : Response
regression = record { status = 409; body = ok "Version Regression: 3 < 5" }

abbrev repeated : Response
repeated = record { status = 400; body = ok "same-version mutation on notes" }

is_regression : is_version_regression_message "Version Regression: 3 < 5" ≡ true
unfolding is_version_regression_message
is_regression = refl

is_no_repetition : is_same_version_mutation_message "Version Regression: 3 < 5" ≡ false
unfolding is_same_version_mutation_message
is_no_repetition = refl

is_repetition : is_same_version_mutation_message "same-version mutation on notes" ≡ true
unfolding is_same_version_mutation_message
is_repetition = refl

regression_recognised_example :
    (e : PushError) × (upsert_outcome "notes" (ok regression) ≡ err (push e))
    × (tombstone_outcome "notes" (ok regression) ≡ err (push e))
    × (Push.is_version_regression e ≡ true)
    × (Push.is_transient e ≡ false)
regression_recognised_example =
    regression_recognised "notes" regression refl is_regression is_no_repetition

same_version_outcomes_example :
    (upsert_outcome "notes" (ok repeated) ≡ err (push (same_version_mutation_ignored "notes")))
    × (tombstone_outcome "notes" (ok repeated)
        ≡ err (
            push (PushError.permanent "notes" (http_message 400 "same-version mutation on notes"))))
same_version_outcomes_example = same_version_outcomes "notes" repeated refl is_repetition

abbrev rate_limit : EdgeErrorBody
rate_limit = record { code = "Permanent"; message = "gone"; details = none }

abbrev undecoded : String → Result String RawEnvelope
undecoded body = err "no envelope"

unavailable :
    call_outcome undecoded "notes-write" (ok (record { status = 503; body = ok "busy" }))
    ≡ err (EdgeError.transient "notes-write" "busy")
unfolding call_outcome status_text
unavailable = refl

abbrev calls : List (ℕ × EchoCall)
calls = (1200, asks "notes" "b") ∷ (2000, vacuums) ∷ (2500, marks "notes" "b") ∷ []

echo_suppressed_example :
    (was_recently_pushed 4000 "notes" "a"
      (respond_all calls (mark_pushed 1000 "notes" "a" with_default_window))).0
    ≡ true
echo_suppressed_example =
    echo_suppressed 1000 4000 "notes" "a" calls with_default_window (omega arith) (omega arith)
      ((omega arith, omega arith), ((omega arith, omega arith), ((omega arith, omega arith), tt)))
