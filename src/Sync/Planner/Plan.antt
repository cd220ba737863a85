-- ===== src/Sync/Planner/Plan.antt =====
-- What `make_plan` returns: always a plan, with every known id in one bucket.
use mathlib.Core.Path.{fun_ext}
use polykit_rust.Prelude.{
  String, ◌≡◌, Bool, true, not, ◌&&◌, some, List, [], ◌∷◌, All, retain, arith, eq_refl,
}
use polykit_rust.Prelude.Sorting.{
  sort_unstable, mem, IsNodup, IsSorted, mem-sort_unstable, mem-retain, retain-IsNodup,
  sort_unstable-IsSorted, IsSorted-unique,
}
use polykit_rust.Contract.Reconcile.{ReconcileAction, adopt_tombstone, pull, push, skip}
use polykit_rust.Sync.Planner.{VersionTriple, ReconcilePlan, empty_plan, index, keys, make_plan}
use polykit_rust.Sync.Planner.Buckets.{
  lookup, get-index, is_some, mem-keys, keys-index_from-IsNodup, action_for, decides, only_in,
  plan_common_lem,
}

-- The ids of both lists, and those of one list only, as the planner takes them from its maps.
unfoldable pub common : List VersionTriple → List VersionTriple → List String
common local remote =
    sort_unstable (retain (λ id. mem id (keys (index remote))) (keys (index local)))

unfoldable pub only : List VersionTriple → List VersionTriple → List String
only here there =
    sort_unstable (retain (λ id. not (mem id (keys (index there)))) (keys (index here)))

mem-index :
    (id : String) (ts : List VersionTriple) → mem id (keys (index ts)) ≡ is_some (lookup id ts)
mem-index id ts = rw (mem-keys id (index ts), get-index id ts)

index-IsNodup : (ts : List VersionTriple) → IsNodup (keys (index ts))
index-IsNodup ts = keys-index_from-IsNodup [] ts tt

mem-common :
    (id : String) (l r : List VersionTriple)
    → mem id (common l r) ≡ (is_some (lookup id l) && is_some (lookup id r))
unfolding common
mem-common id l r = simp (mem-sort_unstable, mem-retain, mem-index) (ground arith)

mem-only :
    (id : String) (here there : List VersionTriple)
    → mem id (only here there) ≡ only_in here there id
unfolding only only_in
mem-only id here there = simp (mem-sort_unstable, mem-retain, mem-index) (ground arith)

All-mem :
    (P : String → Bool) (xs : List String)
    → ((id : String) → mem id xs ≡ true → P id ≡ true)
    → All (λ id. P id ≡ true) xs
unfolding mem
All-mem P [] h = tt
All-mem P (x ∷ xs) h = (h x (ground (arith, eq_refl x)), All-mem P xs (λ id m. h id (ground arith)))

common-decided :
    (l r : List VersionTriple) → All (λ id. is_some (action_for l r id) ≡ true) (common l r)
unfolding action_for
common-decided l r =
    All-mem (λ id. is_some (action_for l r id)) (common l r)
      (λ id m. ground (arith, mem-common id l r))

-- The plan that two lists call for.
unfoldable pub plan_of : List VersionTriple → List VersionTriple → ReconcilePlan
plan_of l r = record {
  adopt_tombstone = retain (decides l r adopt_tombstone) (common l r);
  pull = retain (decides l r pull) (common l r);
  push = retain (decides l r push) (common l r);
  skip = retain (decides l r skip) (common l r);
  create_local = only r l;
  create_remote = only l r;
}

make_plan_lem : (l r : List VersionTriple) → make_plan l r ≡ some (plan_of l r)
unfolding make_plan plan_of common only
make_plan_lem l r = rw (plan_common_lem l r (common l r) empty_plan (common-decided l r), make_plan)

retain-decides-common :
    (l r : List VersionTriple) (a : ReconcileAction) (id : String)
    → mem id (retain (decides l r a) (common l r)) ≡ decides l r a id
unfolding decides action_for
retain-decides-common l r a id =
    rw (mem-retain id (decides l r a) (common l r), mem-common id l r) (ground arith)

-- Where the planner puts an id: by the action of both sides' versions, or by the side that has it.
pub record Placed (l r : List VersionTriple) (plan : ReconcilePlan) (id : String) : Type 0 where
  pub adopt_tombstone : mem id plan.adopt_tombstone ≡ decides l r ReconcileAction.adopt_tombstone id
  pub pull : mem id plan.pull ≡ decides l r ReconcileAction.pull id
  pub push : mem id plan.push ≡ decides l r ReconcileAction.push id
  pub skip : mem id plan.skip ≡ decides l r ReconcileAction.skip id
  pub create_local : mem id plan.create_local ≡ only_in r l id
  pub create_remote : mem id plan.create_remote ≡ only_in l r id

-- The planner never panics. In its plan an id that both sides have is in the bucket of the action
-- that their versions determine and in no other such bucket; an id that one side has is in the
-- bucket of the side that lacks it; the last entry of a repeated id counts.
pub make_plan_places :
    (l r : List VersionTriple)
    → (plan : ReconcilePlan) × (make_plan l r ≡ some plan) × ((id : String) → Placed l r plan id)
unfolding plan_of
make_plan_places l r = (
  plan_of l r,
  make_plan_lem l r,
  λ id. record {
    adopt_tombstone = retain-decides-common l r ReconcileAction.adopt_tombstone id;
    pull = retain-decides-common l r ReconcileAction.pull id;
    push = retain-decides-common l r ReconcileAction.push id;
    skip = retain-decides-common l r ReconcileAction.skip id;
    create_local = mem-only id r l;
    create_remote = mem-only id l r;
  },
)

common-IsSorted : (l r : List VersionTriple) → IsSorted (common l r)
unfolding common
common-IsSorted l r = sort_unstable-IsSorted _ (retain-IsNodup _ _ (index-IsNodup l))

only-IsSorted : (here there : List VersionTriple) → IsSorted (only here there)
unfolding only
only-IsSorted here there = sort_unstable-IsSorted _ (retain-IsNodup _ _ (index-IsNodup here))

module _ (l r l' r' : List VersionTriple) (same_local : (id : String) → lookup id l ≡ lookup id l')
    (same_remote : (id : String) → lookup id r ≡ lookup id r') where
  common_ext : common l r ≡ common l' r'
  common_ext =
      IsSorted-unique _ _ (common-IsSorted l r) (common-IsSorted l' r')
        (λ id. simp (mem-common, same_local, same_remote))

  decides_ext : (a : ReconcileAction) (id : String) → decides l r a id ≡ decides l' r' a id
  unfolding decides action_for
  decides_ext a id = ground (arith, same_local id, same_remote id)

  bucket_ext :
      (a : ReconcileAction)
      → retain (decides l r a) (common l r) ≡ retain (decides l' r' a) (common l' r')
  bucket_ext a = rw (fun_ext (decides_ext a), common_ext)

only_ext :
    (here there here' there' : List VersionTriple)
    → ((id : String) → lookup id here ≡ lookup id here')
    → ((id : String) → lookup id there ≡ lookup id there')
    → only here there ≡ only here' there'
unfolding only_in
only_ext here there here' there' h t =
    IsSorted-unique _ _ (only-IsSorted here there) (only-IsSorted here' there')
      (λ id. simp (mem-only, h, t))

-- The plan is deterministic: two pairs of lists that say the same of every id have the same plan,
-- in whatever order they list their rows, and whatever earlier rows of an id they hold.
pub make_plan_ext :
    (l r l' r' : List VersionTriple)
    → ((id : String) → lookup id l ≡ lookup id l')
    → ((id : String) → lookup id r ≡ lookup id r')
    → make_plan l r ≡ make_plan l' r'
unfolding plan_of
make_plan_ext l r l' r' h k =
    rw (make_plan_lem l r, make_plan_lem l' r')
      (cc (
        bucket_ext l r l' r' h k adopt_tombstone,
        bucket_ext l r l' r' h k pull,
        bucket_ext l r l' r' h k push,
        bucket_ext l r l' r' h k skip,
        only_ext r l r' l' k h,
        only_ext l r l' r' h k,
      ))
