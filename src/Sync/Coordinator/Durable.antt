-- ===== src/Sync/Coordinator/Durable.antt =====
-- What is left of a write when it returns.
use polykit_rust.Prelude.{
  String, ◌≡◌, ◌⊎◌, refl, Bool, true, Option, some, [], ◌∷◌, ◌++◌, arith, Bool-cases, inl, inr,
}
use polykit_rust.Prelude.Result.{Result, ok, err, Result-cases}
use polykit_rust.Json.{Record, object, to_fields}
use polykit_rust.Errors.{PolyError}
use polykit_rust.Registry.{map_remote_to_local}
use polykit_rust.Contract.Finalize.Membership.{key_eq_refl}
use polykit_rust.OfflineQueue.{QueuedOperation, MemoryQueue, write, enqueue, depth}
use polykit_rust.OfflineQueue.Lookup.{key_of, find, find-enqueue}
use polykit_rust.Sync.Coordinator.{
  Env, World, OfflineQueue, Prepared, Dispatch, is_transient, is_ignored, prepare, dispatch_write,
  enqueue_failed, settle_failure, settle_write, persist_change_with_op, queued_write, push_write,
  upserted,
}

-- The in-memory queue, as the coordinator takes it.
abbrev pub memory : OfflineQueue MemoryQueue
memory = record { enqueue = λ op q. ok (enqueue op q); depth = λ q. ok (depth q) }

-- The reply is a success, or a rejection of a version that the server says it has already.
unfoldable pub accepts : Result PolyError (Unit {0}) → Bool
unfolding is_ignored
accepts (ok u) = true
accepts (err e) = is_ignored e

module _ {S Q : Type 0} (env : Env S Q) where
  settle_write-refused :
      (table : String) (p : Prepared) (result : Result PolyError (Unit {0})) (w : World S Q)
      (e : PolyError)
      → (settle_write env table p result w).1 ≡ err e
      → (settle_write env table p result w).0.queue ≡ w.queue
  unfolding settle_write settle_failure enqueue_failed
  settle_write-refused table p (ok u) w e h = refl
  settle_write-refused table p (err f) w e h =
      elim (Result-cases (env.offline.enqueue (queued_write env table p f) w.queue)) [
        | inl (q, took) ↦ ground (arith, took, h)
        | inr (g, full) ↦ ground (arith, full, h)
      ]

  abbrev pub local_of : Prepared → Record
  local_of p = map_remote_to_local p.entity p.payload

  -- the world after the mirror has a write
  abbrev pub mirrored : String → Prepared → S → World S Q → World S Q
  mirrored table p l w = record w { local = l; steps = w.steps ++ upserted table (local_of p) ∷ [] }

  -- How a write may end: refused before the mirror has it, or pushed after that.
  pub persist-cases :
      (table : String) (r : Record) (op : Option String) (w : World S Q)
      → ((e : PolyError) × (persist_change_with_op env table r op w ≡ (w, err e)))
        ⊎ ((p : Prepared) × (l : S) × (prepare env table r ≡ ok p)
            × (env.store.upsert_record table (local_of p) w.local ≡ ok l)
            × (persist_change_with_op env table r op w
                ≡ push_write env table op p (mirrored table p l w)))
  unfolding persist_change_with_op
  persist-cases table r op w = elim (Result-cases (prepare env table r)) [
    | inr (f, refused) ↦ inl (f, ground (arith, refused))
    | inl (p, ready) ↦ elim (Result-cases (env.store.upsert_record table (local_of p) w.local)) [
      | inr (f, failed) ↦ inl (f, ground (arith, ready, failed))
      | inl (l, stored) ↦ inr (p, l, ready, stored, ground (arith, ready, stored))
    ]
  ]

  settle_write-local :
      (table : String) (p : Prepared) (result : Result PolyError (Unit {0})) (w : World S Q)
      → (settle_write env table p result w).0.local ≡ w.local
  unfolding settle_write settle_failure enqueue_failed
  settle_write-local table p (ok u) w = refl
  settle_write-local table p (err f) w =
      elim (Result-cases (env.offline.enqueue (queued_write env table p f) w.queue)) [
        | inl (q, took) ↦ ground (arith, took)
        | inr (g, full) ↦ ground (arith, full)
      ]

  -- What is pushed does not change the mirror.
  pub push_write-local :
      (table : String) (op : Option String) (p : Prepared) (w : World S Q)
      → (push_write env table op p w).0.local ≡ w.local
  push_write-local table op p w =
      let d : Dispatch = dispatch_write env table op p w.echo in
      settle_write-local table p d.result (record w { echo = d.echo; steps = w.steps ++ d.steps })

  push_write-refused :
      (table : String) (op : Option String) (p : Prepared) (w : World S Q) (e : PolyError)
      → (push_write env table op p w).1 ≡ err e
      → (push_write env table op p w).0.queue ≡ w.queue
  push_write-refused table op p w e h =
      let d : Dispatch = dispatch_write env table op p w.echo in
      settle_write-refused table p d.result (record w { echo = d.echo; steps = w.steps ++ d.steps })
        e h

  -- A write that returns an error leaves the queue as it was: what the server refused is not
  -- replayed.
  pub persist_refused :
      (table : String) (r : Record) (op : Option String) (w : World S Q) (e : PolyError)
      → (persist_change_with_op env table r op w).1 ≡ err e
      → (persist_change_with_op env table r op w).0.queue ≡ w.queue
  persist_refused table r op w e h = elim (persist-cases table r op w) [
    | inl (f, refused) ↦ rw refused
    | inr (p, l, ready, stored, pushed) ↦
        rw pushed (push_write-refused table op p (mirrored table p l w) e (rw pushed at h))
  ]

module _ {S : Type 0} (env : Env S MemoryQueue) where
  settle_write-durable :
      (table : String) (p : Prepared) (result : Result PolyError (Unit {0}))
      (w : World S MemoryQueue)
      → env.offline ≡ memory
      → (settle_write env table p result w).1 ≡ ok tt
      → ((accepts result ≡ true) × ((settle_write env table p result w).0.queue ≡ w.queue))
        ⊎ ((queued : QueuedOperation) × (find
                (key_of queued)
                (settle_write env table p result w).0.queue
              ≡ some queued)
            × (key_of queued ≡ record { table = table; entity_id = p.entity_id })
            × (queued.kind ≡ write (object (to_fields p.payload))))
  unfolding settle_write settle_failure enqueue_failed accepts
  settle_write-durable table p (ok u) w m h = inl (refl, refl)
  settle_write-durable table p (err e) w m h = elim (Bool-cases (is_ignored e)) [
    | inl benign ↦ inl (benign, ground (arith, benign))
    | inr failed ↦ elim (Bool-cases (is_transient e)) [
      | inr final ↦ ground (arith, failed, final, h)
      | inl passing ↦
          let queued = queued_write env table p e in
          inr (
            queued,
            rw (m, failed, passing)
                (rw (find-enqueue (key_of queued) queued w.queue, key_eq_refl (key_of queued))),
            refl,
            refl,
          )
    ]
  ]

  push_write-durable :
      (table : String) (op : Option String) (p : Prepared) (w : World S MemoryQueue)
      → env.offline ≡ memory
      → (push_write env table op p w).1 ≡ ok tt
      → ((accepts (dispatch_write env table op p w.echo).result ≡ true)
          × ((push_write env table op p w).0.queue ≡ w.queue))
        ⊎ ((queued : QueuedOperation) × (find (key_of queued) (push_write env table op p w).0.queue
              ≡ some queued)
            × (key_of queued ≡ record { table = table; entity_id = p.entity_id })
            × (queued.kind ≡ write (object (to_fields p.payload))))
  push_write-durable table op p w m h =
      let d : Dispatch = dispatch_write env table op p w.echo in
      settle_write-durable table p d.result (record w { echo = d.echo; steps = w.steps ++ d.steps })
        m h

  -- No write is lost: a write over the in-memory queue that returns success passed the guards and
  -- is in the local mirror; and its request was accepted, or rejected as a version that the server
  -- has already, with the queue as it was, or the queue holds, under its table and id, an operation
  -- that writes its payload.
  pub persist_durable :
      (table : String) (r : Record) (op : Option String) (w : World S MemoryQueue)
      → env.offline ≡ memory
      → (persist_change_with_op env table r op w).1 ≡ ok tt
      → let w' = (persist_change_with_op env table r op w).0 in
        (p : Prepared) × (prepare env table r ≡ ok p)
        × (env.store.upsert_record table (map_remote_to_local p.entity p.payload) w.local
            ≡ ok w'.local)
        × (((accepts (dispatch_write env table op p w.echo).result ≡ true) × (w'.queue ≡ w.queue))
            ⊎ ((queued : QueuedOperation) × (find (key_of queued) w'.queue ≡ some queued)
                × (key_of queued ≡ record { table = table; entity_id = p.entity_id })
                × (queued.kind ≡ write (object (to_fields p.payload)))))
  persist_durable table r op w m h = elim (persist-cases env table r op w) [
    | inl (f, refused) ↦ ground (arith, refused, h)
    | inr (p, l, ready, stored, pushed) ↦ (
      p,
      ready,
      rw pushed (rw (push_write-local env table op p (mirrored env table p l w)) stored),
      rw pushed (push_write-durable table op p (mirrored env table p l w) m (rw pushed at h)),
    )
  ]
