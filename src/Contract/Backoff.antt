-- ===== src/Contract/Backoff.antt =====
-- The reconnect schedule of contract.rs.
use polykit_rust.Prelude.{ℕ, ◌-◌, ◌≤◌, List, [], ◌∷◌, arith, leb, length, get_or, if◌then◌else◌}

abbrev pub reconnect_debounce_secs : ℕ
reconnect_debounce_secs = 2

abbrev pub enqueue_coalesce_ms : ℕ
enqueue_coalesce_ms = 250

abbrev pub forward_progress_retry_ms : ℕ
forward_progress_retry_ms = 100

abbrev pub reconnect_backoff_ladder_secs : List ℕ
reconnect_backoff_ladder_secs = 2 ∷ 5 ∷ 10 ∷ 30 ∷ 60 ∷ 120 ∷ []

-- `saturating_sub` is the subtraction of ℕ, and the clamped index is within the ladder.
unfoldable pub reconnect_backoff_seconds : ℕ → ℕ
reconnect_backoff_seconds consecutive_failures =
    let index = consecutive_failures - 1 in
    let last = length reconnect_backoff_ladder_secs - 1 in
    let clamped = if leb (length reconnect_backoff_ladder_secs) index then last else index in
    get_or reconnect_backoff_ladder_secs clamped 0

-- More failures never shorten the wait.
pub reconnect_backoff_seconds_mono :
    (n m : ℕ) → n ≤ m → reconnect_backoff_seconds n ≤ reconnect_backoff_seconds m
unfolding reconnect_backoff_seconds
reconnect_backoff_seconds_mono n m h = ground arith
