-- ===== src/Edge/Classify.antt =====
-- Which failed calls are retried.
use polykit_rust.Prelude.{ℕ, String, ◌≡◌, Bool, true, not, ◌&&◌, ◌||◌, arith, num_eq}
use polykit_rust.Prelude.Result.{Result, ok, err}
use polykit_rust.Errors.{EdgeError}
use polykit_rust.Errors.Edge.{is_transient}
use polykit_rust.Client.{is_server_error}
use polykit_rust.Edge.{
  EdgeErrorBody, RawEnvelope, classify_error, call_outcome, eq_ignore_ascii_case,
}

-- The statuses of a reply that asks for another try, where its code does not forbid it.
abbrev pub retry_status : ℕ → Bool
retry_status status = num_eq status 401 || (num_eq status 403 || is_server_error status)

-- A classified error is retried exactly if its status is 401 or 403, or is a server error whose code
-- is not `permanent`, in whatever case that is written.
pub classify_error-is_transient :
    (function : String) (status : ℕ) (error : EdgeErrorBody)
    → is_transient (classify_error function status error) ≡ (
        num_eq status 401
        || (num_eq status 403
            || (is_server_error status && not (eq_ignore_ascii_case error.code "permanent"))))
unfolding classify_error
classify_error-is_transient function status error = ground arith

-- A call whose reply was read in full is retried only if the status of the reply asks for it: what
-- the server accepted, or rejected with any other status, is not sent again.
pub call_outcome-is_transient :
    (from_str : String → Result String RawEnvelope) (function body : String) (status : ℕ)
    (e : EdgeError)
    → call_outcome from_str function (ok (record { status = status; body = ok body })) ≡ err e
    → is_transient e ≡ true
    → retry_status status ≡ true
unfolding call_outcome
call_outcome-is_transient from_str function body status e h t =
    ground (arith, λ (error : EdgeErrorBody). classify_error-is_transient function status error)
