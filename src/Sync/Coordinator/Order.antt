-- ===== src/Sync/Coordinator/Order.antt =====
-- The order of what a write does.
use mathlib.Core.List.{append_assoc, append-nil}
use polykit_rust.Prelude.{
  ℕ, String, ◌≡◌, refl, ◌∙◌, Bool, true, false, ◌&&◌, Option, none, List, [], ◌∷◌, ◌++◌, arith, leb,
  num_eq, Bool-cases, Option-cases, inl, inr, ◌⊎◌,
}
use polykit_rust.Prelude.Result.{Result, ok, err, Result-cases}
use polykit_rust.Json.{Record, object, to_fields}
use polykit_rust.Errors.{PolyError, push, PushError}
use polykit_rust.Registry.{WritePath, postgrest, edge, unwrap_or, map_remote_to_local}
use polykit_rust.OfflineQueue.{QueuedOperation}
use polykit_rust.Events.{offline_queue_changed, version_regression_detected}
use polykit_rust.Client.{ClientConfig, Send, Request}
use polykit_rust.Edge
use polykit_rust.Edge.{call_request, with_op}
use polykit_rust.Sync.Echo.{EchoTracker}
use polykit_rust.Sync.Push.{upsert, upsert_request}
use polykit_rust.Sync.Coordinator.{
  Step, upserted, marked_deleted, marked, sent, enqueued, published, Env, World, Prepared, Dispatch,
  is_transient, is_version_regression, is_ignored, str_at, kvs_events, kvs_steps, prepare,
  dispatch_write, enqueue_failed, settle_failure, settle_write, persist_change_with_op,
  queued_write, push_write,
}

-- The phases of a write: 0 nothing done, 1 in the mirror, 2 echo marked, 3 sent, 4 enqueued. Each
-- step is allowed in its phase alone, and an event is published only after the mirror was written.
unfoldable pub in_order : ℕ → List Step → Bool
in_order n [] = true
in_order n (upserted t r ∷ s) = num_eq n 0 && in_order 1 s
in_order n (marked_deleted t i v ∷ s) = num_eq n 0 && in_order 1 s
in_order n (marked t i ∷ s) = num_eq n 1 && in_order 2 s
in_order n (sent r ∷ s) = num_eq n 2 && in_order 3 s
in_order n (enqueued op ∷ s) = num_eq n 3 && in_order 4 s
in_order n (published e ∷ s) = leb 1 n && in_order n s

kvs_steps-in_order :
    (n : ℕ) (table : String) (r : Record)
    → leb 1 n ≡ true
    → in_order n (kvs_steps table r false) ≡ true
unfolding in_order kvs_events
kvs_steps-in_order n table r h = ground arith

pub WritePath-cases :
    (path : WritePath)
    → (path ≡ postgrest) ⊎ ((function default_op : String) × (path ≡ edge function default_op))
WritePath-cases postgrest = inl refl
WritePath-cases (edge f d) = inr (f, d, refl)

upsert-no_id :
    (config : ClientConfig) (send : Send) (now : ℕ) (table : String) (r : Record)
    (conflict_target token : String) (echo : EchoTracker)
    → str_at "id" r ≡ none
    → (upsert config send now table r conflict_target token echo).1
      ≡ err (push (PushError.permanent table "record missing 'id' field"))
unfolding upsert str_at
upsert-no_id config send now table r conflict_target token echo h = ground arith

-- What was done since is allowed from a phase on.
abbrev pub StepsSince : ℕ → List Step → List Step → Type 0
StepsSince n before after = (s : List Step) × (after ≡ before ++ s) × (in_order n s ≡ true)

module _ {S Q : Type 0} (env : Env S Q) where
  pub settle_failure-steps :
      (table id : String) (e : PolyError) (op : QueuedOperation) (more : List Step) (w : World S Q)
      (n : ℕ)
      → in_order 4 more ≡ true
      → leb 1 n ≡ true
      → (is_transient e ≡ true → n ≡ 3)
      → StepsSince n w.steps (settle_failure env table id e op more w).0.steps
  unfolding settle_failure enqueue_failed in_order
  settle_failure-steps table id e op more w n m l t = elim (Bool-cases (is_transient e)) [
    | inl passing ↦ elim (Result-cases (env.offline.enqueue op w.queue)) [
      | inr (f, full) ↦ ([], ground (arith, passing, full, append-nil w.steps), refl)
      | inl (q, took) ↦
          let depth : ℕ = elim (env.offline.depth q) [ ok k ↦ k | err f ↦ 0 ] in
          (
            enqueued op ∷ published (offline_queue_changed depth false) ∷ more,
            ground (arith, passing, took),
            ground (arith, t passing, m),
          )
    ]
    | inr final ↦ elim (Bool-cases (is_version_regression e)) [
      | inl older ↦ (
        published (version_regression_detected table id) ∷ [],
        ground (arith, final, older),
        ground (arith, l),
      )
      | inr other ↦ ([], ground (arith, final, other, append-nil w.steps), refl)
    ]
  ]

  settle_write-steps :
      (table : String) (p : Prepared) (result : Result PolyError (Unit {0})) (w : World S Q) (n : ℕ)
      → leb 1 n ≡ true
      → ((e : PolyError) → result ≡ err e → is_transient e ≡ true → n ≡ 3)
      → StepsSince n w.steps (settle_write env table p result w).0.steps
  unfolding settle_write
  settle_write-steps table p (ok u) w n l t =
      (kvs_steps table p.payload false, refl, kvs_steps-in_order n table p.payload l)
  settle_write-steps table p (err e) w n l t = elim (Bool-cases (is_ignored e)) [
    | inl benign ↦ (
      kvs_steps table p.payload false,
      ground (arith, benign),
      kvs_steps-in_order n table p.payload l,
    )
    | inr failed ↦
        let (s, is, order) =
          settle_failure-steps table p.entity_id e (queued_write env table p e)
            (kvs_steps table p.payload false) w n (kvs_steps-in_order 4 table p.payload refl) l
            (t e refl) in
        (s, ground (arith, failed, is), order)
  ]

  -- What a network attempt does is to mark and to send; or nothing, and then it does not fail for
  -- a passing reason.
  dispatch_write-steps :
      (table : String) (op : Option String) (p : Prepared) (echo : EchoTracker)
      → ((id : String) × (r : Request) × ((dispatch_write env table op p echo).steps
            ≡ marked table id ∷ sent r ∷ []))
        ⊎ (((dispatch_write env table op p echo).steps ≡ [])
            × ((e : PolyError)
                → (dispatch_write env table op p echo).result ≡ err e
                → is_transient e ≡ false))
  unfolding dispatch_write is_transient
  dispatch_write-steps table op p echo = elim (WritePath-cases p.entity.write_path) [
    | inr (function, default_op, through) ↦ inl (
      p.entity_id,
      call_request env.config
          (with_op (unwrap_or default_op op) (Edge.new function (object (to_fields p.payload))))
          env.generated p.session.access_token,
      ground (arith, through),
    )
    | inl direct ↦ elim (Option-cases (str_at "id" p.payload)) [
      | inr (id, has) ↦ inl (
        id,
        upsert_request env.config table p.payload p.entity.conflict_target p.session.access_token,
        ground (arith, direct, has),
      )
      | inl no_id ↦ inr (
        ground (arith, direct, no_id),
        λ e failed. ground (
          arith,
          direct,
          failed,
          upsert-no_id env.config env.send env.clock.instant table p.payload
              p.entity.conflict_target p.session.access_token echo no_id,
        ),
      )
    ]
  ]

  push_write-steps :
      (table : String) (op : Option String) (p : Prepared) (w : World S Q)
      → StepsSince 1 w.steps (push_write env table op p w).0.steps
  unfolding in_order
  push_write-steps table op p w =
      let d : Dispatch = dispatch_write env table op p w.echo in
      let w' : World S Q = record w { echo = d.echo; steps = w.steps ++ d.steps } in
      elim (dispatch_write-steps table op p w.echo) [
        | inl (id, r, did) ↦
            let (s, is, order) = settle_write-steps table p d.result w' 3 refl (λ e h t. refl) in
            (d.steps ++ s, is ∙ append_assoc w.steps d.steps s, ground (arith, did, order))
        | inr (did, final) ↦
            let (s, is, order) =
              settle_write-steps table p d.result w' 1 refl
                (λ e h t. ground (arith, final e h, t)) in
            (d.steps ++ s, is ∙ append_assoc w.steps d.steps s, ground (arith, did, order))
      ]

  -- A write does what it does in order, whatever fails: the mirror is written before anything
  -- else, the echo is marked before the request is sent, an operation is enqueued only after a
  -- request was sent, and events are published only after the mirror was written.
  pub persist_in_order :
      (table : String) (r : Record) (op : Option String) (w : World S Q)
      → (s : List Step) × ((persist_change_with_op env table r op w).0.steps ≡ w.steps ++ s)
        × (in_order 0 s ≡ true)
  unfolding persist_change_with_op in_order
  persist_in_order table r op w = elim (Result-cases (prepare env table r)) [
    | inr (e, refused) ↦ ([], ground (arith, refused, append-nil w.steps), refl)
    | inl (p, ready) ↦
        let local_record : Record = map_remote_to_local p.entity p.payload in
        elim (Result-cases (env.store.upsert_record table local_record w.local)) [
          | inr (e, failed) ↦ ([], ground (arith, ready, failed, append-nil w.steps), refl)
          | inl (l, stored) ↦
              let here = w.steps ++ upserted table local_record ∷ [] in
              let (s, is, order) =
                push_write-steps table op p (record w { local = l; steps = here }) in
              (
                upserted table local_record ∷ s,
                ground (
                  arith,
                  ready,
                  stored,
                  is,
                  append_assoc w.steps (upserted table local_record ∷ []) s,
                ),
                order,
              )
        ]
  ]
