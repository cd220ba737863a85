-- ===== src/Sync/Coordinator/Tombstone.antt =====
-- The order of what a delete does, and what is left of it.
use mathlib.Core.List.{append_assoc, append-nil}
use polykit_rust.Prelude.{
  String, ◌≡◌, ◌⊎◌, refl, ap, ◌∙◌, true, some, List, [], ◌∷◌, ◌++◌, arith, Bool-cases, Option-cases,
  inl, inr,
}
use polykit_rust.Prelude.Int.{ℤ}
use polykit_rust.Prelude.Result.{Result, ok, err, Result-cases}
use polykit_rust.Errors.{PolyError, no_session, registry, table_not_registered}
use polykit_rust.Json.{object, to_fields, string, int, bool}
use polykit_rust.Edge
use polykit_rust.Edge.{call_request, with_op}
use polykit_rust.Client.{Request}
use polykit_rust.Contract.Finalize.Membership.{key_eq_refl}
use polykit_rust.Registry.{EntityConfig, tombstone_updated_at_value}
use polykit_rust.Registry.Catalog.{config_for_table}
use polykit_rust.OfflineQueue.{QueuedOperation, MemoryQueue, tombstone}
use polykit_rust.OfflineQueue.Lookup.{key_of, find, find-enqueue}
use polykit_rust.Sync.Echo.{EchoTracker}
use polykit_rust.Sync.Push.{tombstone_request}
use polykit_rust.Auth.{SessionPayload}
use polykit_rust.Sync.Coordinator.{
  Step, marked_deleted, marked, sent, Env, World, Dispatch, is_transient, is_ignored,
  settle_failure, enqueue_failed,
}
use polykit_rust.Sync.Coordinator.Delete.{
  deleted_steps, dispatch_delete, queued_tombstone, settle_delete, push_delete, delete,
}
use polykit_rust.Sync.Coordinator.Order.{
  in_order, WritePath-cases, StepsSince, settle_failure-steps,
}
use polykit_rust.Sync.Coordinator.Durable.{memory, accepts}

module _ {S Q : Type 0} (env : Env S Q) where
  dispatch_delete-steps :
      (table id : String) (v : ℤ) (entity : EntityConfig) (session : SessionPayload)
      (echo : EchoTracker)
      → (r : Request) × ((dispatch_delete env table id v entity session echo).steps
          ≡ marked table id ∷ sent r ∷ [])
  unfolding dispatch_delete
  dispatch_delete-steps table id v entity session echo = elim (WritePath-cases entity.write_path) [
    | inl direct ↦ (
      tombstone_request env.config table id v (tombstone_updated_at_value env.clock entity)
          session.access_token,
      ground (arith, direct),
    )
    | inr (function, default_op, through) ↦ (
      call_request env.config
          (with_op "delete" (
            Edge.new function (
              object (
                to_fields (("id", string id) ∷ ("version", int v) ∷ ("deleted", bool true) ∷ [])))))
          env.generated session.access_token,
      ground (arith, through),
    )
  ]

  settle_delete-steps :
      (table id : String) (v : ℤ) (result : Result PolyError (Unit {0})) (w : World S Q)
      → StepsSince 3 w.steps (settle_delete env table id v result w).0.steps
  unfolding settle_delete in_order deleted_steps
  settle_delete-steps table id v (ok u) w = (deleted_steps table id, refl, ground arith)
  settle_delete-steps table id v (err e) w = elim (Bool-cases (is_ignored e)) [
    | inl benign ↦ ([], ground (arith, benign, append-nil w.steps), refl)
    | inr failed ↦
        let (s, is, order) =
          settle_failure-steps env table id e (queued_tombstone env table id v e) [] w 3 refl refl
            (λ t. refl) in
        (s, ground (arith, failed, is), order)
  ]

  push_delete-steps :
      (table id : String) (v : ℤ) (entity : EntityConfig) (session : SessionPayload) (w : World S Q)
      → StepsSince 1 w.steps (push_delete env table id v entity session w).0.steps
  unfolding in_order
  push_delete-steps table id v entity session w =
      let d : Dispatch = dispatch_delete env table id v entity session w.echo in
      let (r, did) = dispatch_delete-steps table id v entity session w.echo in
      let (s, is, order) =
        settle_delete-steps table id v d.result
          (record w { echo = d.echo; steps = w.steps ++ d.steps }) in
      (d.steps ++ s, is ∙ append_assoc w.steps d.steps s, ground (arith, did, order))

  -- the world after the mirror has a delete
  abbrev mirrored : String → String → ℤ → S → World S Q → World S Q
  mirrored table id v l w = record w {
    local = l;
    steps = w.steps ++ marked_deleted table id v ∷ [];
  }

  -- How a delete may end: refused before the mirror has it, or pushed after that.
  delete-cases :
      (table id : String) (v : ℤ) (w : World S Q)
      → ((e : PolyError) × (delete env table id v w ≡ (w, err e)))
        ⊎ ((entity : EntityConfig) × (session : SessionPayload) × (l : S) × (config_for_table table
                env.registry
              ≡ some entity)
            × (env.session ≡ some session)
            × (env.store.mark_deleted table id v w.local ≡ ok l)
            × (delete env table id v w
                ≡ push_delete env table id v entity session (mirrored table id v l w)))
  unfolding delete
  delete-cases table id v w = elim (Option-cases (config_for_table table env.registry)) [
    | inl unknown ↦ inl (registry (table_not_registered table), ground (arith, unknown))
    | inr (entity, known) ↦ elim (Option-cases env.session) [
      | inl nobody ↦ inl (no_session, ground (arith, known, nobody))
      | inr (session, here) ↦ elim (Result-cases (env.store.mark_deleted table id v w.local)) [
        | inr (e, failed) ↦ inl (e, ground (arith, known, here, failed))
        | inl (l, stored) ↦
            inr (entity, session, l, known, here, stored, ground (arith, known, here, stored))
      ]
    ]
  ]

  -- A delete does what it does in order, whatever fails: the mirror is marked before anything else,
  -- the echo is marked before the request is sent, an operation is enqueued only after a request
  -- was sent, and events are published only after the mirror was marked.
  pub delete-in_order :
      (table id : String) (v : ℤ) (w : World S Q)
      → (s : List Step) × ((delete env table id v w).0.steps ≡ w.steps ++ s) × (in_order 0 s ≡ true)
  unfolding in_order
  delete-in_order table id v w = elim (delete-cases table id v w) [
    | inl (e, refused) ↦ ([], ground (arith, refused, append-nil w.steps), refl)
    | inr (entity, session, l, known, here, stored, pushed) ↦
        let w' : World S Q = mirrored table id v l w in
        let (s, is, order) = push_delete-steps table id v entity session w' in
        (
          marked_deleted table id v ∷ s,
          ap (λ z. z.0.steps) pushed ∙ is ∙ append_assoc w.steps (marked_deleted table id v ∷ []) s,
          order,
        )
  ]

module _ {S : Type 0} (env : Env S MemoryQueue) where
  settle_delete-durable :
      (table id : String) (v : ℤ) (result : Result PolyError (Unit {0})) (w : World S MemoryQueue)
      → env.offline ≡ memory
      → (settle_delete env table id v result w).1 ≡ ok tt
      → ((queued : QueuedOperation) × (find
              (key_of queued)
              (settle_delete env table id v result w).0.queue
            ≡ some queued)
          × (key_of queued ≡ record { table = table; entity_id = id })
          × (queued.kind ≡ tombstone v))
        ⊎ ((accepts result ≡ true) × ((settle_delete env table id v result w).0.queue ≡ w.queue))
  unfolding settle_delete settle_failure enqueue_failed accepts
  settle_delete-durable table id v (ok u) w m h = inr (refl, refl)
  settle_delete-durable table id v (err e) w m h = elim (Bool-cases (is_ignored e)) [
    | inl benign ↦ inr (benign, ground (arith, benign))
    | inr failed ↦ elim (Bool-cases (is_transient e)) [
      | inr final ↦ ground (arith, failed, final, h)
      | inl passing ↦
          let queued = queued_tombstone env table id v e in
          inl (
            queued,
            rw (m, failed, passing)
                (rw (find-enqueue (key_of queued) queued w.queue, key_eq_refl (key_of queued))),
            refl,
            refl,
          )
    ]
  ]

  settle_delete-local :
      (table id : String) (v : ℤ) (result : Result PolyError (Unit {0})) (w : World S MemoryQueue)
      → (settle_delete env table id v result w).0.local ≡ w.local
  unfolding settle_delete settle_failure enqueue_failed
  settle_delete-local table id v result w = ground arith

  -- No delete is lost: over the in-memory queue, after a delete that returns success the table is
  -- registered, somebody is signed in, and the mirror has marked the row as deleted at the version;
  -- and the queue holds, under its table and id, a tombstone of that version, or the request that
  -- this entity and this session make was accepted, or its rejection was one that is ignored, and
  -- the queue is as it was.
  pub delete_durable :
      (table id : String) (v : ℤ) (w : World S MemoryQueue)
      → env.offline ≡ memory
      → (delete env table id v w).1 ≡ ok tt
      → let w' = (delete env table id v w).0 in
        (entity : EntityConfig) × (session : SessionPayload) × (config_for_table table env.registry
          ≡ some entity)
        × (env.session ≡ some session)
        × (env.store.mark_deleted table id v w.local ≡ ok w'.local)
        × (((queued : QueuedOperation) × (find (key_of queued) w'.queue ≡ some queued)
              × (key_of queued ≡ record { table = table; entity_id = id })
              × (queued.kind ≡ tombstone v))
            ⊎ ((accepts (dispatch_delete env table id v entity session w.echo).result ≡ true)
                × (w'.queue ≡ w.queue)))
  delete_durable table id v w m h = elim (delete-cases env table id v w) [
    | inl (e, refused) ↦ ground (arith, refused, h)
    | inr (entity, session, l, known, here, stored, pushed) ↦
        let w1 : World S MemoryQueue = mirrored env table id v l w in
        let d : Dispatch = dispatch_delete env table id v entity session w1.echo in
        let w2 : World S MemoryQueue = record w1 { echo = d.echo; steps = w1.steps ++ d.steps } in
        (
          entity,
          session,
          known,
          here,
          rw (pushed, settle_delete-local table id v d.result w2) stored,
          elim (settle_delete-durable table id v d.result w2 m (rw pushed at h)) [
            | inl queued ↦ inl (rw pushed queued)
            | inr (has, same) ↦ inr (has, rw pushed same)
          ],
        )
  ]
