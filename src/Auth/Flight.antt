-- ===== src/Auth/Flight.antt =====
-- How many refreshes are out at a time, and what a late reply does.
use polykit_rust.Prelude.{
  ℕ, zero, suc, ◌≤◌, ◌≡◌, String, refl, Bool, true, false, Option, none, some, List, [], ◌∷◌, arith,
  length, length-append, eq_iff, Option-cases, Bool-cases, inl, inr,
}
use polykit_rust.Prelude.Result.{Result, ok, err}
use polykit_rust.Errors.{PolyError}
use polykit_rust.Errors.Show.{to_string}
use polykit_rust.Client.{Response}
use polykit_rust.Auth.{
  SessionPayload, SessionStore, set_session, current_user_id, matched, session_matches,
}
use polykit_rust.Auth.Refresh.{
  Now, RefreshSessionResponse, claim_refresh, store_reply, note_reply, perform_refresh,
  is_permanent_refresh_failure, needs_refresh, finish_refresh, refresh_payload,
}
use polykit_rust.Auth.Stored.{set_session-matched, set_session-stored}
use polykit_rust.Auth.Run.{
  Move, signs_in, signs_out, claims, advances, Stage, awaiting, stored, noted, System, nth,
  drop_nth, set_nth, apply, advance, run, claimed,
}

-- a sign-out, or the reply of a refresh that failed for good, which signs out
unfoldable pub clears : Move → Bool
unfolding is_permanent_refresh_failure to_string
clears signs_out = true
clears (advances n now (err e)) = is_permanent_refresh_failure (to_string e)
clears _ = false

-- Nothing clears the session.
abbrev pub StaysIn : List Move → Type 0
StaysIn [] = Unit
StaysIn (m ∷ ms) = (clears m ≡ false) × StaysIn ms

-- At most one refresh is out, and none unless the flight is taken.
record Single (sys : System) : Type 0 where
  at_most : length sys.out ≤ 1
  taken : sys.store.refresh_in_flight ≡ false → length sys.out ≡ 0

set_session-in_flight :
    (p : SessionPayload) (s : SessionStore)
    → (set_session p s).0.refresh_in_flight ≡ s.refresh_in_flight
set_session-in_flight p s = elim (Bool-cases (matched s.session p)) [
  | inl same ↦ rw (set_session-matched p s same) refl
  | inr new ↦ let (session, counter, flight, failure, hook) = set_session-stored p s new in flight
]

nth-drop_nth :
    (out : List Stage) (n : ℕ) (stage : Stage)
    → length out ≤ 1
    → nth out n ≡ some stage
    → length (drop_nth out n) ≡ 0
nth-drop_nth [] n stage h e = refl
nth-drop_nth (x ∷ []) zero stage h e = refl
nth-drop_nth (x ∷ []) (suc n) stage h e = ground (arith, e)
nth-drop_nth (x ∷ y ∷ xs) n stage h e = omega arith

length-set_nth : (out : List Stage) (n : ℕ) (y : Stage) → length (set_nth out n y) ≡ length out
length-set_nth [] n y = refl
length-set_nth (x ∷ xs) zero y = refl
length-set_nth (x ∷ xs) (suc n) y = ground (arith, length-set_nth xs n y)

store_reply-in_flight :
    (n : ℕ) (now : Now) (outcome : Result PolyError SessionPayload) (s : SessionStore)
    → clears (advances n now outcome) ≡ false
    → (store_reply outcome s).0.refresh_in_flight ≡ s.refresh_in_flight
unfolding store_reply clears
store_reply-in_flight n now (ok p) s stays = set_session-in_flight p s
store_reply-in_flight n now (err e) s stays = rw stays refl

note_reply-in_flight :
    (now : Now) (reply : Result PolyError SessionPayload) (refreshed : Bool) (s : SessionStore)
    → (note_reply now reply refreshed s).0.refresh_in_flight ≡ s.refresh_in_flight
unfolding note_reply
note_reply-in_flight now (ok p) refreshed s = refl
note_reply-in_flight now (err e) refreshed s = ground arith

advance-Single :
    (n : ℕ) (now : Now) (outcome : Result PolyError SessionPayload) (stage : Stage) (sys : System)
    → clears (advances n now outcome) ≡ false
    → nth sys.out n ≡ some stage
    → Single sys
    → Single (advance n now outcome stage sys)
unfolding advance
advance-Single n now outcome (awaiting p) sys stays here h =
    let (s, refreshed) = store_reply outcome sys.store in
    let same = length-set_nth sys.out n (stored outcome refreshed) in
    let flight = store_reply-in_flight n now outcome sys.store stays in
    record {
      at_most = rw same h.at_most;
      taken = λ free. rw same (h.taken (ground (arith, free, flight)));
    }
advance-Single n now outcome (stored reply refreshed) sys stays here h =
    let same = length-set_nth sys.out n noted in
    let flight = note_reply-in_flight now reply refreshed sys.store in
    record {
      at_most = rw same h.at_most;
      taken = λ free. rw same (h.taken (ground (arith, free, flight)));
    }
advance-Single n now outcome noted sys stays here h =
    let empty = nth-drop_nth sys.out n noted h.at_most here in
    record { at_most = rw empty (omega arith); taken = λ free. empty }

claimed-Single :
    (force : Bool) (valid_for : ℕ) (now : Now) (sys : System)
    → Single sys
    → Single (claimed (claim_refresh force valid_for now sys.store) sys.out)
unfolding claim_refresh
claimed-Single force valid_for now sys h = elim (Option-cases sys.store.session) [
  | inl nobody ↦ rw (claim_refresh, nobody) (record { at_most = h.at_most; taken = h.taken })
  | inr (p, is) ↦ elim (Bool-cases (needs_refresh force valid_for now p)) [
    | inr fresh ↦
        rw (claim_refresh, is) (rw fresh (record { at_most = h.at_most; taken = h.taken }))
    | inl needs ↦ elim (Bool-cases sys.store.refresh_in_flight) [
      | inl full ↦
          rw (claim_refresh, is)
            (rw (needs, full)
              (record { at_most = h.at_most; taken = λ impossible. ground (arith, impossible) }))
      | inr free ↦
          rw (claim_refresh, is)
            (rw (needs, free)
              (record {
                at_most = omega (arith, length-append {0} sys.out (awaiting p ∷ []), h.taken free);
                taken = λ impossible. ground (arith, impossible);
              }))
    ]
  ]
]

run-Single : (ms : List Move) (sys : System) → StaysIn ms → Single sys → Single (run ms sys)
unfolding run apply clears
run-Single [] sys stays h = h
run-Single (signs_in p ∷ ms) sys stays h = run-Single ms (apply (signs_in p) sys) stays.1 (record {
  at_most = h.at_most;
  taken = λ free. h.taken (ground (arith, set_session-in_flight p sys.store));
})
run-Single (signs_out ∷ ms) sys stays h = ground (arith, stays.0)
run-Single (claims force valid_for now ∷ ms) sys stays h =
    run-Single ms (apply (claims force valid_for now) sys) stays.1
      (claimed-Single force valid_for now sys h)
run-Single (advances n now outcome ∷ ms) sys stays h =
    run-Single ms (apply (advances n now outcome) sys) stays.1
      (elim (Option-cases (nth sys.out n)) [
        | inl nobody ↦ rw (apply, nobody) h
        | inr (stage, here) ↦
            rw (apply, here) (advance-Single n now outcome stage sys stays.0 here h)
      ])

-- From a store with no refresh begun, at most one refresh is between its claim and its end at any
-- time, as long as nobody signs out and no refresh fails for good: both free the flight of whoever
-- holds it.
pub single_flight :
    (ms : List Move) (s : SessionStore)
    → StaysIn ms
    → length (run ms (record { store = s; out = [] })).out ≤ 1
single_flight ms s stays =
    (run-Single ms (record { store = s; out = [] }) stays
      (record { at_most = omega arith; taken = λ free. refl })).at_most

matched-user_id :
    (p : SessionPayload) (o : Option SessionPayload)
    → matched o p ≡ true
    → elim o [ none ↦ none | some c ↦ some c.user_id ] ≡ some p.user_id
unfolding session_matches
matched-user_id p none h = ground (arith, h)
matched-user_id p (some c) h = ground (arith, h, eq_iff c.user_id p.user_id)

-- A refresh whose reply was accepted signs its user in, whatever happened to the session while it
-- was out: also after a sign-out, and in place of another user who signed in since.
pub late_reply_signs_in :
    (from_str : String → Result String RefreshSessionResponse) (now : Now)
    (session payload : SessionPayload) (reply : Result String Response) (s : SessionStore)
    → refresh_payload from_str now.unix_secs session reply ≡ ok payload
    → current_user_id
        (finish_refresh now (refresh_payload from_str now.unix_secs session reply) s).0
      ≡ some payload.user_id
unfolding finish_refresh perform_refresh current_user_id
late_reply_signs_in from_str now session payload reply s h =
    rw h (elim (Bool-cases (matched s.session payload)) [
      | inl same ↦ rw (set_session-matched payload s same) (matched-user_id payload s.session same)
      | inr new ↦
          let (session, counter, flight, failure, hook) = set_session-stored payload s new in
          rw session refl
    ])
