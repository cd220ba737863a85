-- ===== src/Sync/Planner/Buckets.antt =====
-- What `make_plan` puts in each bucket.
use mathlib.Core.List.{append-nil, append_assoc}
use mathlib.Core.Bool.{false≢true}
use polykit_rust.Prelude.{
  String, ◌==◌, eq_iff, ◌≡◌, refl, ap, Bool, true, false, not, ◌&&◌, ◌||◌, Option, none, some, List,
  [], ◌∷◌, ◌++◌, All, retain, if◌then◌else◌, arith, Option-cases, inl, inr,
}
use polykit_rust.Prelude.Assoc
use polykit_rust.Prelude.Assoc.{Assoc, get-insert}
use polykit_rust.Prelude.Sorting.{mem, IsNodup}
use polykit_rust.Contract.Reconcile.{
  ReconcileAction, adopt_tombstone, pull, push, skip, determine_reconcile_action,
}
use polykit_rust.Sync.Planner.{
  VersionTriple, ReconcilePlan, index_from, index, keys, put_in, plan_common,
}

-- What a list of triples says of an id: the last triple that has it.
unfoldable pub lookup : String → List VersionTriple → Option VersionTriple
lookup id [] = none
lookup id (t ∷ ts) = elim (lookup id ts) [
  | some u ↦ some u
  | none ↦ if t.id == id then some t else none
]

get-index_from :
    (id : String) (m : Assoc VersionTriple) (ts : List VersionTriple)
    → Assoc.get id (index_from m ts)
      ≡ elim (lookup id ts) [ some t ↦ some t | none ↦ Assoc.get id m ]
unfolding index_from lookup
get-index_from id m [] = refl
get-index_from id m (t ∷ ts) =
    ground (arith, get-index_from id (Assoc.insert t.id t m) ts, get-insert t.id id t m)

pub get-index : (id : String) (ts : List VersionTriple) → Assoc.get id (index ts) ≡ lookup id ts
unfolding Assoc.get
get-index id ts = ground (arith, get-index_from id [] ts)

abbrev pub is_some {ℓ} : {A : Type ℓ} → Option A → Bool
is_some none = false
is_some (some a) = true

pub mem-keys : (id : String) (m : Assoc VersionTriple) → mem id (keys m) ≡ is_some (Assoc.get id m)
unfolding mem Assoc.get
mem-keys id [] = refl
mem-keys id ((j, t) ∷ m) = ground (arith, mem-keys id m)

mem-keys-insert :
    (k id : String) (t : VersionTriple) (m : Assoc VersionTriple)
    → mem k (keys (Assoc.insert id t m)) ≡ (id == k || mem k (keys m))
mem-keys-insert k id t m =
    ground (arith, mem-keys k (Assoc.insert id t m), mem-keys k m, get-insert id k t m)

keys-insert-IsNodup :
    (id : String) (t : VersionTriple) (m : Assoc VersionTriple)
    → IsNodup (keys m)
    → IsNodup (keys (Assoc.insert id t m))
unfolding Assoc.insert mem
keys-insert-IsNodup id t [] h = (refl, tt)
keys-insert-IsNodup id t ((j, u) ∷ m) h =
    ground
      (arith, keys-insert-IsNodup id t m h.1, mem-keys-insert j id t m, eq_iff j id, eq_iff id j)

-- The action that the versions of both sides determine, for an id that both have.
unfoldable pub action_for :
    List VersionTriple → List VersionTriple → String → Option ReconcileAction
unfolding lookup
action_for local remote id = elim (lookup id local) [
  | none ↦ none
  | some l ↦ elim (lookup id remote) [
    | none ↦ none
    | some r ↦ some (determine_reconcile_action l.version l.deleted r.version r.deleted)
  ]
]

pub keys-index_from-IsNodup :
    (m : Assoc VersionTriple) (ts : List VersionTriple)
    → IsNodup (keys m)
    → IsNodup (keys (index_from m ts))
unfolding index_from
keys-index_from-IsNodup m [] h = h
keys-index_from-IsNodup m (t ∷ ts) h =
    keys-index_from-IsNodup (Assoc.insert t.id t m) ts (keys-insert-IsNodup t.id t m h)

abbrev pub action_eq : ReconcileAction → ReconcileAction → Bool
action_eq adopt_tombstone adopt_tombstone = true
action_eq pull pull = true
action_eq push push = true
action_eq skip skip = true
action_eq _ _ = false

-- Whether the two sides' versions of an id determine a given action.
unfoldable pub decides : List VersionTriple → List VersionTriple → ReconcileAction → String → Bool
unfolding action_for
decides local remote a id = elim (action_for local remote id) [
  | none ↦ false
  | some b ↦ action_eq a b
]

-- Whether an id stands in one list and not in the other.
unfoldable pub only_in : List VersionTriple → List VersionTriple → String → Bool
unfolding lookup
only_in here there id = is_some (lookup id here) && not (is_some (lookup id there))

-- The plan after some common ids: each bucket is extended by the ids that decide for it.
abbrev pub extend :
    List VersionTriple → List VersionTriple → List String → ReconcilePlan → ReconcilePlan
extend local remote ids plan = record plan {
  adopt_tombstone = plan.adopt_tombstone ++ retain (decides local remote adopt_tombstone) ids;
  pull = plan.pull ++ retain (decides local remote pull) ids;
  push = plan.push ++ retain (decides local remote push) ids;
  skip = plan.skip ++ retain (decides local remote skip) ids;
}

append_one : (xs ys : List String) (id : String) → (xs ++ id ∷ []) ++ ys ≡ xs ++ id ∷ ys
append_one xs ys id = append_assoc xs (id ∷ []) ys

module _ (local remote : List VersionTriple) (id : String) (ids : List String) where
  retain-decides :
      (a b : ReconcileAction)
      → action_for local remote id ≡ some a
      → retain (decides local remote b) (id ∷ ids) ≡ (
          if action_eq b a
          then id ∷ retain (decides local remote b) ids
          else retain (decides local remote b) ids)
  unfolding decides retain
  retain-decides a b h = ground arith

  extend-put_in :
      (plan : ReconcilePlan) (a : ReconcileAction)
      → action_for local remote id ≡ some a
      → extend local remote ids (put_in a id plan) ≡ extend local remote (id ∷ ids) plan
  extend-put_in plan a h = ground (
    arith,
    retain-decides a adopt_tombstone h,
    retain-decides a pull h,
    retain-decides a push h,
    retain-decides a skip h,
    append_one plan.adopt_tombstone (retain (decides local remote adopt_tombstone) ids) id,
    append_one plan.pull (retain (decides local remote pull) ids) id,
    append_one plan.push (retain (decides local remote push) ids) id,
    append_one plan.skip (retain (decides local remote skip) ids) id,
  )

plan_common_step :
    (local remote : List VersionTriple) (id : String) (ids : List String) (plan : ReconcilePlan)
    (a : ReconcileAction)
    → action_for local remote id ≡ some a
    → plan_common (index local) (index remote) (id ∷ ids) plan
      ≡ plan_common (index local) (index remote) ids (put_in a id plan)
unfolding plan_common action_for
plan_common_step local remote id ids plan a h =
    ground (arith, get-index id local, get-index id remote)

pub plan_common_lem :
    (local remote : List VersionTriple) (ids : List String) (plan : ReconcilePlan)
    → All (λ id. is_some (action_for local remote id) ≡ true) ids
    → plan_common (index local) (index remote) ids plan ≡ some (extend local remote ids plan)
unfolding plan_common retain
plan_common_lem local remote [] plan h = simp append-nil
plan_common_lem local remote (id ∷ ids) plan h = elim (Option-cases (action_for local remote id)) [
  | inl none_ ↦ absurd (false≢true (rw none_ at h.0))
  | inr (a, e) ↦ rw (plan_common_step local remote id ids plan a e) (
      rw (plan_common_lem local remote ids (put_in a id plan) h.1)
        (ap some (extend-put_in local remote id ids plan a e)))
]
