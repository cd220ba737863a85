-- ===== src/Sync/Reducer/Stalls.antt =====
-- Replays that drain nothing, one after another.
use polykit_rust.Prelude.{ℕ, zero, suc, ◌+◌, ◌*◌, ◌<◌, ◌^◌, ◌≡◌, refl, true, List, [], ◌∷◌, arith}
use polykit_rust.Contract.Backoff.{reconnect_backoff_seconds}
use polykit_rust.OfflineQueue.{u32_max}
use polykit_rust.Sync.Reducer.{
  ReducerState, ReducerEffect, offline_queue_processing_started, offline_queue_processed, schedule,
  step,
}

-- A replay that starts, drains nothing, and leaves operations queued.
unfoldable pub stalled_round : ReducerState → ReducerState × List ReducerEffect
unfolding step
stalled_round s = step (step s offline_queue_processing_started).0 (offline_queue_processed 0 true)

unfoldable pub after_stalls : ℕ → ReducerState → ReducerState
unfolding stalled_round
after_stalls zero s = s
after_stalls (suc n) s = (stalled_round (after_stalls n s)).0

after_stalls_state :
    (n : ℕ) (s : ReducerState)
    → s.consecutive_failures + n < 2 ^ 32
    → ((after_stalls n s).consecutive_failures ≡ s.consecutive_failures + n)
      × ((after_stalls n s).is_connected ≡ s.is_connected)
      × ((after_stalls n s).is_signed_in ≡ s.is_signed_in)
unfolding after_stalls
after_stalls_state zero s h = ground arith
after_stalls_state (suc n) s h = ground (arith, after_stalls_state n s)

-- The waits of the ladder in milliseconds, counted from zero.
unfoldable pub rung : ℕ → ℕ
rung zero = 2000
rung (suc zero) = 5000
rung (suc (suc zero)) = 10000
rung (suc (suc (suc zero))) = 30000
rung (suc (suc (suc (suc zero)))) = 60000
rung (suc (suc (suc (suc (suc n))))) = 120000

reconnect_backoff_seconds-rung : (n : ℕ) → reconnect_backoff_seconds (suc n) * 1000 ≡ rung n
unfolding reconnect_backoff_seconds rung
reconnect_backoff_seconds-rung zero = refl
reconnect_backoff_seconds-rung (suc zero) = refl
reconnect_backoff_seconds-rung (suc (suc zero)) = refl
reconnect_backoff_seconds-rung (suc (suc (suc zero))) = refl
reconnect_backoff_seconds-rung (suc (suc (suc (suc zero)))) = refl
reconnect_backoff_seconds-rung (suc (suc (suc (suc (suc n))))) = ground arith

-- The stalled replays in a row of a connected and signed-in client that had no failure before
-- schedule the next replay after 2, 5, 10, 30 and 60 seconds in turn, and after two minutes from the
-- sixth on, as long as the count of failures is below the largest `u32`.
pub stalls_climb_ladder :
    (n : ℕ) (s : ReducerState)
    → s.is_connected ≡ true
    → s.is_signed_in ≡ true
    → s.consecutive_failures ≡ 0
    → n < u32_max
    → (stalled_round (after_stalls n s)).1 ≡ schedule (rung n) ∷ []
unfolding stalled_round
stalls_climb_ladder n s c a z h =
    rw (← reconnect_backoff_seconds-rung n) (ground (arith, after_stalls_state n s))
