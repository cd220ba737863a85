-- ===== src/Contract/Finalize.antt =====
-- `ContractOperation` and `finalize_queue_after_processing` of contract.rs. A `HashMap` collected
-- from an iterator is read by its last entry for a key; a `HashSet` is the list of its insertions.
pub mod Membership
pub mod Dedupe
use polykit_rust.Prelude.{
  String, ◌==◌, ◌≡◌, Bool, not, ◌&&◌, Option, none, some, List, [], ◌∷◌, ◌++◌, map, any, retain,
  if◌then◌else◌,
}
use polykit_rust.Prelude.Int.{ℤ, eqb_ℤ}

pub record ContractOperation : Type 0 where
  pub table : String
  pub entity_id : String
  pub queued_at_micros : ℤ

-- `(String, String)`, of `ContractOperation::key`
pub record Key : Type 0 where
  pub table : String
  pub entity_id : String

abbrev pub key : ContractOperation → Key
key op = record { table = op.table; entity_id = op.entity_id }

abbrev pub key_eq : Key → Key → Bool
key_eq a b = (a.table == b.table) && (a.entity_id == b.entity_id)

abbrev pub op_eq : ContractOperation → ContractOperation → Bool
op_eq a b = key_eq (key a) (key b) && eqb_ℤ a.queued_at_micros b.queued_at_micros

-- Membership by all three fields, and by key.
unfoldable pub holds : ContractOperation → List ContractOperation → Bool
unfolding any
holds op = any (λ e. op_eq e op)

unfoldable pub has_key : Key → List ContractOperation → Bool
unfolding any
has_key k = any (λ e. key_eq (key e) k)

-- `is_some_and(|q| q == t)`
abbrev pub queued_is : Option ℤ → ℤ → Bool
queued_is none t = Bool.false
queued_is (some q) t = eqb_ℤ q t

-- the snapshot's `HashMap` from key to timestamp
unfoldable pub last_queued_at : Key → List ContractOperation → Option ℤ
last_queued_at k [] = none
last_queued_at k (op ∷ ops) = elim (last_queued_at k ops) [
  | some q ↦ some q
  | none ↦ if key_eq (key op) k then some op.queued_at_micros else none
]

-- `filter`: what is no longer the operation that the snapshot saw
unfoldable pub unprocessed :
    List ContractOperation → List ContractOperation → List ContractOperation
unfolding retain last_queued_at
unprocessed current snapshot =
    retain (λ op. not (queued_is (last_queued_at (key op) snapshot) op.queued_at_micros)) current

-- `for operation in failed`, over the set of retained keys and the vector of retained operations
unfoldable pub re_add :
    List Key → List ContractOperation → List ContractOperation → List ContractOperation
unfolding any
re_add retained_keys retained [] = retained
re_add retained_keys retained (op ∷ failed) =
    let present = any (λ k. key_eq k (key op)) retained_keys in
    re_add (if present then retained_keys else key op ∷ retained_keys)
      (if present then retained else retained ++ op ∷ []) failed

unfoldable pub finalize_queue_after_processing :
    List ContractOperation
    → List ContractOperation
    → List ContractOperation
    → List ContractOperation
unfolding unprocessed re_add
finalize_queue_after_processing current snapshot failed =
    let retained = unprocessed current snapshot in re_add (map key retained) retained failed
