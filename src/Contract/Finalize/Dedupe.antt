-- ===== src/Contract/Finalize/Dedupe.antt =====
-- Finalizing keeps at most one operation for a key.
use polykit_rust.Prelude.{
  ◌≡◌, refl, Bool, false, not, ◌||◌, List, [], ◌∷◌, ◌++◌, map, any, any-append, retain, arith,
  Bool-cases, inl, inr, sym, ◌∙◌,
}
use polykit_rust.Contract.Finalize.{
  ContractOperation, Key, key, key_eq, has_key, queued_is, last_queued_at, unprocessed, re_add,
  finalize_queue_after_processing,
}
use polykit_rust.Contract.Finalize.Membership.{has_key_eq, key_eq_comm}

-- No two entries have the same key.
abbrev pub IsDeduped : List ContractOperation → Type 0
IsDeduped [] = Unit
IsDeduped (op ∷ ops) = (has_key (key op) ops ≡ false) × IsDeduped ops

pub has_key-retain :
    (k : Key) (p : ContractOperation → Bool) (ops : List ContractOperation)
    → has_key k ops ≡ false
    → has_key k (retain p ops) ≡ false
unfolding has_key retain
has_key-retain k p [] h = refl
has_key-retain k p (e ∷ ops) h = ground (arith, has_key-retain k p ops)

retain-IsDeduped :
    (p : ContractOperation → Bool) (ops : List ContractOperation)
    → IsDeduped ops
    → IsDeduped (retain p ops)
unfolding retain
retain-IsDeduped p [] h = tt
retain-IsDeduped p (e ∷ ops) h =
    ground (arith, retain-IsDeduped p ops h.1, has_key-retain (key e) p ops h.0)

has_key-append :
    (k : Key) (xs ys : List ContractOperation)
    → has_key k (xs ++ ys) ≡ (has_key k xs || has_key k ys)
unfolding has_key
has_key-append k xs ys = any-append (λ e. key_eq (key e) k) xs ys

pub append-IsDeduped :
    (ops : List ContractOperation) (op : ContractOperation)
    → IsDeduped ops
    → has_key (key op) ops ≡ false
    → IsDeduped (ops ++ op ∷ [])
unfolding has_key
append-IsDeduped [] op h k = (refl, tt)
append-IsDeduped (e ∷ ops) op h k = (
  ground (arith, has_key-append (key e) ops (op ∷ []), key_eq_comm (key e) (key op)),
  append-IsDeduped ops op h.1 (ground arith),
)

any-key-append :
    (k : Key) (op : ContractOperation) (keys : List Key) (retained : List ContractOperation)
    → any (λ j. key_eq j k) keys ≡ has_key k retained
    → any (λ j. key_eq j k) (key op ∷ keys) ≡ has_key k (retained ++ op ∷ [])
unfolding has_key
any-key-append k op keys retained h = ground (arith, has_key-append k retained (op ∷ []))

re_add-IsDeduped :
    (retained failed : List ContractOperation)
    → IsDeduped retained
    → (keys : List Key) → ((k : Key) → any (λ j. key_eq j k) keys ≡ has_key k retained)
    → IsDeduped (re_add keys retained failed)
unfolding re_add
re_add-IsDeduped retained [] d keys h = d
re_add-IsDeduped retained (op ∷ failed) d keys h =
    elim (Bool-cases (any (λ k. key_eq k (key op)) keys)) [
      | inl present ↦ rw present (re_add-IsDeduped retained failed d keys h)
      | inr absent ↦ rw absent (
          re_add-IsDeduped (retained ++ op ∷ []) failed
            (append-IsDeduped retained op d (sym (h (key op)) ∙ absent)) (key op ∷ keys)
            (λ k. any-key-append k op keys retained (h k)))
    ]

-- Finalizing a queue with at most one operation for a key leaves such a queue, even when the list
-- of failed operations repeats a key.
pub finalize-IsDeduped :
    (current snapshot failed : List ContractOperation)
    → IsDeduped current
    → IsDeduped (finalize_queue_after_processing current snapshot failed)
unfolding finalize_queue_after_processing
finalize-IsDeduped c s f d =
    re_add-IsDeduped (unprocessed c s) f
      (retain-IsDeduped (λ op. not (queued_is (last_queued_at (key op) s) op.queued_at_micros)) c d)
      (map key (unprocessed c s)) (λ k. has_key_eq k (unprocessed c s))
