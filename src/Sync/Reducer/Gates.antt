-- ===== src/Sync/Reducer/Gates.antt =====
-- When the scheduler schedules: exactly as its four gates open.
use polykit_rust.Prelude.{
  ◌≡◌, ◌≢◌, Bool, true, false, not, ◌&&◌, List, [], ◌∷◌, arith, length, if◌then◌else◌,
}
use polykit_rust.Sync.Reducer.{
  ReducerState, ReducerEvent, ReducerEffect, offline_queue_processing_started,
  offline_queue_processed, default, step,
}

-- A replay is wanted, and nothing forbids it.
abbrev pub gates_open : ReducerState → Bool
gates_open s = s.has_pending && (s.is_connected && (s.is_signed_in && not s.is_processing))

abbrev pub is_empty : List ReducerEffect → Bool
is_empty [] = true
is_empty (e ∷ es) = false

-- An event has an effect only if it leaves all four gates open.
pub effects_need_gates :
    (s : ReducerState) (e : ReducerEvent) → (step s e).1 ≢ [] → gates_open (step s e).0 ≡ true
unfolding step
effects_need_gates s (offline_queue_processed n p) h = ground arith
effects_need_gates s e h = ground arith

-- An event that opens the gates has exactly one effect.
pub opening_schedules :
    (s : ReducerState) (e : ReducerEvent)
    → gates_open s ≡ false
    → gates_open (step s e).0 ≡ true
    → length (step s e).1 ≡ 1
unfolding step
opening_schedules s (offline_queue_processed n p) c o = ground arith
opening_schedules s e c o = ground arith

-- Whether an effect is outstanding: one was emitted since a replay was last started.
unfoldable pub rearm : ReducerEvent → List ReducerEffect → Bool → Bool
rearm offline_queue_processing_started effects armed = false
rearm _ effects armed = if is_empty effects then armed else true

-- The state after a run of events, and whether an effect is outstanding.
unfoldable pub run : List ReducerEvent → ReducerState → Bool → ReducerState × Bool
unfolding step rearm
run [] s armed = (s, armed)
run (e ∷ es) s armed = run es (step s e).0 (rearm e (step s e).1 armed)

-- If the gates are open, an effect is outstanding.
abbrev NoLostWakeup : ReducerState → Bool → Type 0
NoLostWakeup s armed = gates_open s ≡ true → armed ≡ true

step-NoLostWakeup :
    (s : ReducerState) (e : ReducerEvent) (armed : Bool)
    → NoLostWakeup s armed
    → NoLostWakeup (step s e).0 (rearm e (step s e).1 armed)
unfolding step rearm
step-NoLostWakeup s (offline_queue_processed n p) armed h = ground arith
step-NoLostWakeup s e armed h = ground arith

run-NoLostWakeup :
    (es : List ReducerEvent) (s : ReducerState) (armed : Bool)
    → NoLostWakeup s armed
    → gates_open (run es s armed).0 ≡ true
    → (run es s armed).1 ≡ true
unfolding run
run-NoLostWakeup [] s armed h o = h o
run-NoLostWakeup (e ∷ es) s armed h o =
    run-NoLostWakeup es (step s e).0 (rearm e (step s e).1 armed) (step-NoLostWakeup s e armed h) o

-- No wake-up is lost: after any events from the default state, if operations are pending, the
-- client is connected and signed in, and no replay runs, then an effect was emitted since the last
-- start of a replay.
pub no_lost_wakeup :
    (es : List ReducerEvent)
    → gates_open (run es default false).0 ≡ true
    → (run es default false).1 ≡ true
no_lost_wakeup es o = run-NoLostWakeup es default false (λ c. cc) o
