-- ===== src/Auth/Told.antt =====
-- What the hook and the subscribers of the events know: the hook is how a host switches the local
-- mirror with the user, so that it must not lag behind the session.
use polykit_rust.Prelude.{
  ℕ, ◌≡◌, String, refl, Bool, true, Option, none, some, List, [], ◌∷◌, ◌++◌, arith, eq_iff,
  Option-cases, Bool-cases, inl, inr,
}
use polykit_rust.Prelude.Result.{Result, ok, err}
use polykit_rust.Errors.{PolyError}
use polykit_rust.Errors.Show.{to_string}
use polykit_rust.Events.{session_changed, SessionChangeKind}
use polykit_rust.Auth.{
  SessionPayload, SessionStore, Effect, hook_called, published, set_session, clear_session,
  current_user_id, matched, change_kind,
}
use polykit_rust.Auth.Refresh.{
  Now, claim_refresh, store_reply, note_reply, is_permanent_refresh_failure,
}
use polykit_rust.Auth.Stored.{set_session-matched}
use polykit_rust.Auth.Run.{
  Move, signs_in, signs_out, claims, advances, Stage, awaiting, stored, noted, System, nth, apply,
  advance, run, claimed,
}

-- The user that the hook was called with last, from `u` on.
unfoldable pub told : Option String → List Effect → Option String
told u [] = u
told u (hook_called v ∷ es) = told v es
told u (published e ∷ es) = told u es

-- The user of the last `SessionChanged`, from `u` on.
unfoldable pub announced : Option String → List Effect → Option String
announced u [] = u
announced u (hook_called v ∷ es) = announced u es
announced u (published (session_changed v change) ∷ es) = announced v es
announced u (published _ ∷ es) = announced u es

-- A hook is registered, and both know the current user.
pub record Informed (s : SessionStore) : Type 0 where
  pub registered : s.user_change_hook ≡ true
  pub hook : told none s.effects ≡ current_user_id s
  pub events : announced none s.effects ≡ current_user_id s

told-append : (u : Option String) (xs ys : List Effect) → told u (xs ++ ys) ≡ told (told u xs) ys
unfolding told
told-append u [] ys = refl
told-append u (hook_called v ∷ xs) ys = told-append v xs ys
told-append u (published e ∷ xs) ys = told-append u xs ys

announced-append :
    (u : Option String) (xs ys : List Effect)
    → announced u (xs ++ ys) ≡ announced (announced u xs) ys
unfolding announced
announced-append u [] ys = refl
announced-append u (hook_called v ∷ xs) ys = announced-append u xs ys
announced-append u (published (session_changed v change) ∷ xs) ys = announced-append v xs ys
announced-append u (published e ∷ xs) ys = announced-append u xs ys

clear_session-Informed : (s : SessionStore) → Informed s → Informed (clear_session s).0
unfolding clear_session told announced current_user_id
clear_session-Informed s h = elim (Option-cases s.session) [
  | inl nobody ↦ record {
    registered = ground (arith, nobody, h.registered);
    hook = ground (arith, nobody, h.hook);
    events = ground (arith, nobody, h.events);
  }
  | inr (p, is) ↦
      let called = s.effects ++ hook_called none ∷ [] in
      let cleared : Effect = published (session_changed none SessionChangeKind.cleared) in
      record {
        registered = ground (arith, is, h.registered);
        hook = ground (
          arith,
          is,
          h.registered,
          told-append none called (cleared ∷ []),
          told-append none s.effects (hook_called none ∷ []),
        );
        events = ground (arith, is, h.registered, announced-append none called (cleared ∷ []));
      }
]

set_session-Informed :
    (p : SessionPayload) (s : SessionStore) → Informed s → Informed (set_session p s).0
unfolding set_session change_kind told announced current_user_id
set_session-Informed p s h = elim (Bool-cases (matched s.session p)) [
  | inl same ↦ rw (set_session-matched p s same) h
  | inr new ↦
      let user : Option String = some p.user_id in
      let called = s.effects ++ hook_called user ∷ [] in
      let changed : Effect = published (session_changed user SessionChangeKind.user_changed) in
      let renewed : Effect =
        published (session_changed user SessionChangeKind.credentials_refreshed) in
      let told_called = told-append none s.effects (hook_called user ∷ []) in
      let told_changed = told-append none called (changed ∷ []) in
      let told_renewed = told-append none s.effects (renewed ∷ []) in
      let announced_changed = announced-append none called (changed ∷ []) in
      let announced_renewed = announced-append none s.effects (renewed ∷ []) in
      elim (Option-cases s.session) [
        | inl nobody ↦ record {
          registered = ground (arith, new, nobody, h.registered);
          hook = ground (arith, new, nobody, h.registered, told_changed, told_called);
          events = ground (arith, new, nobody, h.registered, announced_changed);
        }
        | inr (c, is) ↦ record {
          registered = ground (arith, new, is, h.registered);
          hook = ground (
            arith,
            new,
            is,
            h.registered,
            h.hook,
            told_changed,
            told_called,
            told_renewed,
            eq_iff c.user_id p.user_id,
          );
          events = ground (arith, new, is, h.registered, announced_changed, announced_renewed);
        }
      ]
]

store_reply-Informed :
    (outcome : Result PolyError SessionPayload) (s : SessionStore)
    → Informed s
    → Informed (store_reply outcome s).0
unfolding store_reply
store_reply-Informed (ok p) s h = set_session-Informed p s h
store_reply-Informed (err e) s h = elim (Bool-cases (is_permanent_refresh_failure (to_string e))) [
  | inl final ↦ rw final (clear_session-Informed s h)
  | inr passing ↦ rw passing h
]

note_reply-Informed :
    (now : Now) (reply : Result PolyError SessionPayload) (refreshed : Bool) (s : SessionStore)
    → Informed s
    → Informed (note_reply now reply refreshed s).0
unfolding note_reply current_user_id
note_reply-Informed now (ok p) refreshed s h = record {
  registered = h.registered;
  hook = h.hook;
  events = h.events;
}
note_reply-Informed now (err e) refreshed s h =
    elim (Bool-cases (is_permanent_refresh_failure (to_string e))) [
      | inl final ↦ rw final h
      | inr passing ↦
          rw passing (record { registered = h.registered; hook = h.hook; events = h.events })
    ]

advance-Informed :
    (n : ℕ) (now : Now) (outcome : Result PolyError SessionPayload) (stage : Stage) (sys : System)
    → Informed sys.store
    → Informed (advance n now outcome stage sys).store
unfolding advance current_user_id
advance-Informed n now outcome (awaiting p) sys h = store_reply-Informed outcome sys.store h
advance-Informed n now outcome (stored reply refreshed) sys h =
    note_reply-Informed now reply refreshed sys.store h
advance-Informed n now outcome noted sys h = record {
  registered = h.registered;
  hook = h.hook;
  events = h.events;
}

claimed-Informed :
    (force : Bool) (valid_for : ℕ) (now : Now) (out : List Stage) (s : SessionStore)
    → Informed s
    → Informed (claimed (claim_refresh force valid_for now s) out).store
unfolding claim_refresh current_user_id
claimed-Informed force valid_for now out s h = record {
  registered = ground (arith, h.registered);
  hook = ground (arith, h.hook);
  events = ground (arith, h.events);
}

-- The hook and the subscribers know the current user after any run of sign-ins, sign-outs and
-- refreshes, if a hook is registered and both know the current user before it.
pub run-Informed :
    (ms : List Move) (sys : System) → Informed sys.store → Informed (run ms sys).store
unfolding run apply
run-Informed [] sys h = h
run-Informed (signs_in p ∷ ms) sys h =
    run-Informed ms (apply (signs_in p) sys) (set_session-Informed p sys.store h)
run-Informed (signs_out ∷ ms) sys h =
    run-Informed ms (apply signs_out sys) (clear_session-Informed sys.store h)
run-Informed (claims force valid_for now ∷ ms) sys h =
    run-Informed ms (apply (claims force valid_for now) sys)
      (claimed-Informed force valid_for now sys.out sys.store h)
run-Informed (advances n now outcome ∷ ms) sys h =
    run-Informed ms (apply (advances n now outcome) sys) (elim (Option-cases (nth sys.out n)) [
      | inl nobody ↦ rw (apply, nobody) h
      | inr (stage, here) ↦ rw (apply, here) (advance-Informed n now outcome stage sys h)
    ])
