-- ===== src/Tests/Sync.antt =====
-- The theorems on the scheduler and the reconcile planner at concrete inputs.
use polykit_rust.Prelude.{◌≡◌, ◌≢◌, refl, true, false, some, List, [], ◌∷◌, arith, String}
use polykit_rust.Prelude.Int.{pos}
use polykit_rust.Sync.Reducer.{
  ReducerState, ReducerEvent, connectivity_changed, offline_operation_enqueued, schedule, default,
  step,
}
use polykit_rust.Sync.Reducer.Gates.{gates_open, run, no_lost_wakeup}
use polykit_rust.Sync.Reducer.Stalls.{stalled_round, after_stalls, rung, stalls_climb_ladder}
use polykit_rust.Sync.Planner.{VersionTriple, ReconcilePlan, make_plan}
use polykit_rust.Sync.Planner.Plan.{Placed, make_plan_places}

abbrev cut_off : ReducerState
cut_off = record default { is_connected = false; has_pending = true }

schedules : (step cut_off (connectivity_changed true)).1 ≢ []
unfolding step
schedules h = cc

opens : gates_open (step cut_off (connectivity_changed true)).0 ≡ true
unfolding step
opens = refl

abbrev events : List ReducerEvent
events = connectivity_changed false ∷ offline_operation_enqueued ∷ connectivity_changed true ∷ []

events_open : gates_open (run events default false).0 ≡ true
unfolding run
events_open = refl

no_lost_wakeup_example : (run events default false).1 ≡ true
no_lost_wakeup_example = no_lost_wakeup events events_open

stalls_climb_ladder_example : (stalled_round (after_stalls 3 default)).1 ≡ schedule 30000 ∷ []
unfolding rung
stalls_climb_ladder_example = stalls_climb_ladder 3 default refl refl refl (omega arith)

abbrev row : String → VersionTriple
row id = record { id = id; version = pos 2; deleted = false }

abbrev here : List VersionTriple
here = row "a" ∷ row "b" ∷ []

abbrev there : List VersionTriple
there = record (row "b") { version = pos 3 } ∷ row "c" ∷ []

make_plan_places_example :
    (plan : ReconcilePlan) × (make_plan here there ≡ some plan)
    × ((id : String) → Placed here there plan id)
make_plan_places_example = make_plan_places here there

-- the rows of `there` in another order, after an outdated one
