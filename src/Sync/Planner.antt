-- ===== src/Sync/Planner.antt =====
-- crates/polybase/src/sync/reconcile.rs: the reconcile planner. `HashMap` and `HashSet` are
-- association lists and their keys; the order in which the source iterates over them does not
-- matter, since it sorts what it takes from them. Indexing a map by a missing key panics: `none`.
pub mod Buckets
pub mod Plan
use polykit_rust.Prelude.{
  ℕ, ◌+◌, ◌^◌, ◌-◌, String, Bool, not, Option, none, some, List, [], ◌∷◌, ◌++◌, map, length, retain,
  ltb, if◌then◌else◌,
}
use polykit_rust.Prelude.Int.{ℤ}
use polykit_rust.Prelude.Assoc
use polykit_rust.Prelude.Assoc.{Assoc}
use polykit_rust.Prelude.Sorting.{sort_unstable, mem}
use polykit_rust.OfflineQueue.{u32_max}
use polykit_rust.Contract.Reconcile.{
  ReconcileAction, adopt_tombstone, pull, push, skip, determine_reconcile_action,
}

pub record VersionTriple : Type 0 where
  pub id : String
  pub version : ℤ
  pub deleted : Bool

pub record ReconcilePlan : Type 0 where
  pub adopt_tombstone : List String
  pub pull : List String
  pub push : List String
  pub skip : List String
  pub create_local : List String
  pub create_remote : List String

abbrev pub empty_plan : ReconcilePlan
empty_plan = record {
  adopt_tombstone = [];
  pull = [];
  push = [];
  skip = [];
  create_local = [];
  create_remote = [];
}

pub record ReconcileActionCounts : Type 0 where
  pub adopt_tombstone : ℕ
  pub pull : ℕ
  pub push : ℕ
  pub skip : ℕ

-- `u32::try_from(n).unwrap_or(u32::MAX)`
abbrev pub to_u32 : ℕ → ℕ
to_u32 n = if ltb n (2 ^ 32) then n else u32_max

unfoldable pub counts : ReconcilePlan → ReconcileActionCounts
counts plan = record {
  adopt_tombstone = to_u32 (length plan.adopt_tombstone);
  pull = to_u32 (length plan.pull + length plan.create_local);
  push = to_u32 (length plan.push + length plan.create_remote);
  skip = to_u32 (length plan.skip);
}

-- the `HashMap` from id to triple, collected in the order of the list
unfoldable pub index_from : Assoc VersionTriple → List VersionTriple → Assoc VersionTriple
unfolding Assoc.insert
index_from m [] = m
index_from m (t ∷ ts) = index_from (Assoc.insert t.id t m) ts

abbrev pub index : List VersionTriple → Assoc VersionTriple
index ts = index_from [] ts

abbrev pub keys : Assoc VersionTriple → List String
keys = map (λ e. e.0)

-- the arms of the `match` on the action
abbrev pub put_in : ReconcileAction → String → ReconcilePlan → ReconcilePlan
put_in adopt_tombstone id plan = record plan { adopt_tombstone = plan.adopt_tombstone ++ id ∷ [] }
put_in pull id plan = record plan { pull = plan.pull ++ id ∷ [] }
put_in push id plan = record plan { push = plan.push ++ id ∷ [] }
put_in skip id plan = record plan { skip = plan.skip ++ id ∷ [] }

-- `for id in sorted_common`
unfoldable pub plan_common :
    Assoc VersionTriple → Assoc VersionTriple → List String → ReconcilePlan → Option ReconcilePlan
unfolding Assoc.get determine_reconcile_action
plan_common local_index remote_index [] plan = some plan
plan_common local_index remote_index (id ∷ ids) plan = elim (Assoc.get id local_index) [
  | none ↦ none
  | some local ↦ elim (Assoc.get id remote_index) [
    | none ↦ none
    | some remote ↦ plan_common local_index remote_index ids (
        put_in
          (determine_reconcile_action local.version local.deleted remote.version remote.deleted) id
          plan)
  ]
]

unfoldable pub make_plan : List VersionTriple → List VersionTriple → Option ReconcilePlan
make_plan local remote =
    let local_index = index local in
    let remote_index = index remote in
    let local_ids = keys local_index in
    let remote_ids = keys remote_index in
    let sorted_common = sort_unstable (retain (λ id. mem id remote_ids) local_ids) in
    let local_only = sort_unstable (retain (λ id. not (mem id remote_ids)) local_ids) in
    let remote_only = sort_unstable (retain (λ id. not (mem id local_ids)) remote_ids) in
    elim (plan_common local_index remote_index sorted_common empty_plan) [
      | none ↦ none
      | some plan ↦ some (record plan {
        create_remote = plan.create_remote ++ local_only;
        create_local = plan.create_local ++ remote_only;
      })
    ]
