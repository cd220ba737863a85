-- ===== src/Contract/Finalize/Membership.antt =====
-- Which operations a finalized queue holds.
use polykit_rust.Prelude.{
  eq_iff, ◌≡◌, refl, true, false, not, ◌&&◌, ◌||◌, Option, none, some, List, [], ◌∷◌, ◌++◌, map,
  any, any-append, if◌then◌else◌, arith,
}
use polykit_rust.Prelude.Int.{ℤ, eqb_ℤ_iff}
use polykit_rust.Contract.Finalize.{
  ContractOperation, Key, key, key_eq, op_eq, holds, has_key, queued_is, last_queued_at,
  unprocessed, re_add, finalize_queue_after_processing,
}

pub key_eq_iff : (a b : Key) → (key_eq a b ≡ true) → a ≡ b
key_eq_iff a b h = ground (arith, eq_iff a.table b.table, eq_iff a.entity_id b.entity_id)

pub key_eq_refl : (a : Key) → key_eq a a ≡ true
key_eq_refl a = ground (arith, eq_iff a.table a.table, eq_iff a.entity_id a.entity_id)

pub key_eq_comm : (a b : Key) → key_eq a b ≡ key_eq b a
key_eq_comm a b = ground (
  arith,
  eq_iff a.table b.table,
  eq_iff a.entity_id b.entity_id,
  eq_iff b.table a.table,
  eq_iff b.entity_id a.entity_id,
)

-- the timestamp of the first entry with a key
unfoldable pub first_queued_at : Key → List ContractOperation → Option ℤ
first_queued_at k [] = none
first_queued_at k (op ∷ ops) =
    if key_eq (key op) k then some op.queued_at_micros else first_queued_at k ops

pub has_key_eq :
    (k : Key) (ops : List ContractOperation) → any (λ j. key_eq j k) (map key ops) ≡ has_key k ops
unfolding has_key
has_key_eq k [] = refl
has_key_eq k (op ∷ ops) = rw (has_key_eq k ops)

holds-unprocessed :
    (op : ContractOperation) (current snapshot : List ContractOperation)
    → holds op (unprocessed current snapshot)
      ≡ (holds op current && not (queued_is (last_queued_at (key op) snapshot) op.queued_at_micros))
unfolding holds unprocessed
holds-unprocessed op [] s = refl
holds-unprocessed op (e ∷ c) s = ground (
  arith,
  holds-unprocessed op c s,
  key_eq_iff (key e) (key op),
  eqb_ℤ_iff e.queued_at_micros op.queued_at_micros,
)

holds-re_add :
    (op : ContractOperation) (keys : List Key) (retained failed : List ContractOperation)
    → holds op (re_add keys retained failed) ≡ (
        holds op retained
        || (not (any (λ k. key_eq k (key op)) keys)
            && queued_is (first_queued_at (key op) failed) op.queued_at_micros))
unfolding holds re_add first_queued_at
holds-re_add op keys retained [] = ground arith
holds-re_add op keys retained (e ∷ failed) =
    let present = any (λ k. key_eq k (key e)) keys in
    ground (
      arith,
      holds-re_add op (if present then keys else key e ∷ keys)
          (if present then retained else retained ++ e ∷ []) failed,
      any-append (λ e. op_eq e op) retained (e ∷ []),
      key_eq_iff (key e) (key op),
    )

-- What a finalized queue holds: an operation of the current queue that is not the one which the
-- snapshot saw for its key, or the first failed operation of its key, where no operation of
-- that key is left from the current queue.
pub holds-finalize :
    (op : ContractOperation) (current snapshot failed : List ContractOperation)
    → holds op (finalize_queue_after_processing current snapshot failed) ≡ (
        (holds op current && not (queued_is (last_queued_at (key op) snapshot) op.queued_at_micros))
        || (not (has_key (key op) (unprocessed current snapshot))
            && queued_is (first_queued_at (key op) failed) op.queued_at_micros))
unfolding finalize_queue_after_processing
holds-finalize op c s f = rw (
  holds-re_add op (map key (unprocessed c s)) (unprocessed c s) f,
  holds-unprocessed op c s,
  has_key_eq (key op) (unprocessed c s),
)

-- An operation that was enqueued while the snapshot was replayed stays, whatever failed.
pub concurrent_enqueue_kept :
    (op : ContractOperation) (current snapshot failed : List ContractOperation)
    → holds op current ≡ true
    → queued_is (last_queued_at (key op) snapshot) op.queued_at_micros ≡ false
    → holds op (finalize_queue_after_processing current snapshot failed) ≡ true
concurrent_enqueue_kept op c s f h q = ground (arith, holds-finalize op c s f)
