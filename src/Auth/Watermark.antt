-- ===== src/Auth/Watermark.antt =====
-- What the watermark of a session tells a task that captured it: `current_updated_at` and
-- `is_session_valid`.
use polykit_rust.Prelude.{
  ℕ, suc, ◌+◌, ◌^◌, ◌%◌, ◌≤◌, ◌<◌, ◌≡◌, refl, Bool, true, false, Option, none, some, List, [], ◌∷◌,
  length, arith, leb, Option-cases, Bool-cases, inl, inr,
}
use polykit_rust.Prelude.Result.{Result, ok, err}
use polykit_rust.Errors.{PolyError}
use polykit_rust.Auth.{
  SessionPayload, SessionStore, set_session, clear_session, current_updated_at, is_session_valid,
  matched,
}
use polykit_rust.Auth.Refresh.{Now, claim_refresh, store_reply, note_reply}
use polykit_rust.Auth.Refresh.{is_permanent_refresh_failure}
use polykit_rust.Errors.Show.{to_string}
use polykit_rust.Auth.Stored.{set_session-matched, set_session-stored, clear_session-fields}
use polykit_rust.Auth.Run.{
  Move, signs_in, signs_out, claims, advances, Stage, awaiting, stored, noted, System, nth, apply,
  advance, run, claimed,
}

-- Watermarks of a session lie from `w` on and below the counter.
abbrev Marked : ℕ → ℕ → Option SessionPayload → Type 0
Marked w counter none = Unit
Marked w counter (some p) = (w ≤ p.updated_at) × (p.updated_at < counter)

-- The counter hands out watermarks from `w` on and has not passed `most`.
record Sound (w most : ℕ) (s : SessionStore) : Type 0 where
  later : w ≤ s.update_counter
  bounded : s.update_counter ≤ most
  marked : Marked w s.update_counter s.session

-- Every watermark was handed out by the counter.
abbrev pub IsHandedOut : SessionStore → Type 0
IsHandedOut s = Marked 0 s.update_counter s.session

abbrev pub is_some {ℓ} : {A : Type ℓ} → Option A → Bool
is_some none = false
is_some (some a) = true

set_session-Sound :
    (w most : ℕ) (p : SessionPayload) (s : SessionStore)
    → most + 1 < 2 ^ 64
    → Sound w most s
    → Sound w (suc most) (set_session p s).0
set_session-Sound w most p s h sound = elim (Bool-cases (matched s.session p)) [
  | inl same ↦
      rw (set_session-matched p s same)
        (record { later = sound.later; bounded = omega arith; marked = sound.marked })
  | inr new ↦
      let (session, counter, flight, failure, hook) = set_session-stored p s new in
      let next : (s.update_counter + 1) % 2 ^ 64 ≡ suc s.update_counter = omega arith in
      record {
        later = rw (counter, next) (omega arith);
        bounded = rw (counter, next) (omega arith);
        marked = rw (counter, next, session) (sound.later, omega arith);
      }
]

clear_session-Sound :
    (w most : ℕ) (s : SessionStore) → Sound w most s → Sound w (suc most) (clear_session s).0
clear_session-Sound w most s sound =
    let (session, counter, flight, failure, hook) = clear_session-fields s in
    record {
      later = rw counter sound.later;
      bounded = rw counter (omega arith);
      marked = rw session tt;
    }

Sound-weaken : (w most : ℕ) (s : SessionStore) → Sound w most s → Sound w (suc most) s
Sound-weaken w most s sound = record {
  later = sound.later;
  bounded = omega arith;
  marked = sound.marked;
}

store_reply-Sound :
    (w most : ℕ) (outcome : Result PolyError SessionPayload) (s : SessionStore)
    → most + 1 < 2 ^ 64
    → Sound w most s
    → Sound w (suc most) (store_reply outcome s).0
unfolding store_reply
store_reply-Sound w most (ok p) s h sound = set_session-Sound w most p s h sound
store_reply-Sound w most (err e) s h sound =
    elim (Bool-cases (is_permanent_refresh_failure (to_string e))) [
      | inl final ↦ rw final (clear_session-Sound w most s sound)
      | inr passing ↦ rw passing (Sound-weaken w most s sound)
    ]

note_reply-Sound :
    (w most : ℕ) (now : Now) (reply : Result PolyError SessionPayload) (refreshed : Bool)
    (s : SessionStore)
    → Sound w most s
    → Sound w (suc most) (note_reply now reply refreshed s).0
unfolding note_reply
note_reply-Sound w most now (ok p) refreshed s sound = record {
  later = sound.later;
  bounded = omega arith;
  marked = sound.marked;
}
note_reply-Sound w most now (err e) refreshed s sound =
    elim (Bool-cases (is_permanent_refresh_failure (to_string e))) [
      | inl final ↦ rw final (Sound-weaken w most s sound)
      | inr passing ↦
          rw passing (record { later = sound.later; bounded = omega arith; marked = sound.marked })
    ]

advance-Sound :
    (w most n : ℕ) (now : Now) (outcome : Result PolyError SessionPayload) (stage : Stage)
    (sys : System)
    → most + 1 < 2 ^ 64
    → Sound w most sys.store
    → Sound w (suc most) (advance n now outcome stage sys).store
unfolding advance
advance-Sound w most n now outcome (awaiting p) sys h sound =
    store_reply-Sound w most outcome sys.store h sound
advance-Sound w most n now outcome (stored reply refreshed) sys h sound =
    note_reply-Sound w most now reply refreshed sys.store sound
advance-Sound w most n now outcome noted sys h sound = record {
  later = sound.later;
  bounded = omega arith;
  marked = sound.marked;
}

claimed-fields :
    (force : Bool) (valid_for : ℕ) (now : Now) (out : List Stage) (s : SessionStore)
    → let s' = (claimed (claim_refresh force valid_for now s) out).store in
      (s'.session ≡ s.session) × (s'.update_counter ≡ s.update_counter)
unfolding claim_refresh
claimed-fields force valid_for now out s = ground arith

claimed-Sound :
    (w most : ℕ) (force : Bool) (valid_for : ℕ) (now : Now) (out : List Stage) (s : SessionStore)
    → Sound w most s
    → Sound w (suc most) (claimed (claim_refresh force valid_for now s) out).store
claimed-Sound w most force valid_for now out s sound =
    let (session, counter) = claimed-fields force valid_for now out s in
    record {
      later = rw counter sound.later;
      bounded = rw counter (omega arith);
      marked = rw (session, counter) sound.marked;
    }

apply-Sound :
    (w most : ℕ) (m : Move) (sys : System)
    → most + 1 < 2 ^ 64
    → Sound w most sys.store
    → Sound w (suc most) (apply m sys).store
unfolding apply
apply-Sound w most (signs_in p) sys h sound = set_session-Sound w most p sys.store h sound
apply-Sound w most signs_out sys h sound = clear_session-Sound w most sys.store sound
apply-Sound w most (claims force valid_for now) sys h sound =
    claimed-Sound w most force valid_for now sys.out sys.store sound
apply-Sound w most (advances n now outcome) sys h sound = elim (Option-cases (nth sys.out n)) [
  | inl nobody ↦ rw (apply, nobody) (Sound-weaken w most sys.store sound)
  | inr (stage, here) ↦ rw (apply, here) (advance-Sound w most n now outcome stage sys h sound)
]

run-Sound :
    (w most : ℕ) (ms : List Move) (sys : System)
    → most + length ms < 2 ^ 64
    → Sound w most sys.store
    → Sound w (most + length ms) (run ms sys).store
unfolding run
run-Sound w most [] sys h sound = record {
  later = sound.later;
  bounded = omega arith;
  marked = sound.marked;
}
run-Sound w most (m ∷ ms) sys h sound =
    let after : Sound w (suc most + length ms) (run ms (apply m sys)).store =
      run-Sound w (suc most) ms (apply m sys) (omega arith)
        (apply-Sound w most m sys (omega arith) sound) in
    record { later = after.later; bounded = omega arith; marked = after.marked }

watermark-Marked :
    (counter : ℕ) (o : Option SessionPayload)
    → Marked 0 counter o
    → Marked (elim o [ none ↦ 0 | some p ↦ p.updated_at ]) counter o
watermark-Marked counter none h = tt
watermark-Marked counter (some p) h = (omega arith, h.1)

watermark_le :
    (counter : ℕ) (o : Option SessionPayload)
    → Marked 0 counter o
    → elim o [ none ↦ 0 | some p ↦ p.updated_at ] ≤ counter
watermark_le counter none h = omega arith
watermark_le counter (some p) h = omega arith

captured-Sound :
    (s : SessionStore) → IsHandedOut s → Sound (current_updated_at s) s.update_counter s
unfolding current_updated_at
captured-Sound s h = record {
  later = watermark_le s.update_counter s.session h;
  bounded = omega arith;
  marked = watermark-Marked s.update_counter s.session h;
}

leb-Marked :
    (w counter : ℕ) (o : Option SessionPayload)
    → Marked w counter o
    → elim o [ none ↦ false | some p ↦ leb w p.updated_at ] ≡ is_some o
leb-Marked w counter none h = refl
leb-Marked w counter (some p) h = ground (arith, h.0)

valid-Sound :
    (w most : ℕ) (s : SessionStore) → Sound w most s → is_session_valid w s ≡ is_some s.session
unfolding is_session_valid
valid-Sound w most s sound = leb-Marked w s.update_counter s.session sound.marked

-- While the 64-bit counter does not wrap, a task that captured the watermark of a store whose
-- watermarks come from its counter finds the session valid, after any run of sign-ins,
-- sign-outs and refreshes, exactly when somebody is signed in: an account switch is not noticed.
pub valid_iff_signed_in :
    (ms : List Move) (sys : System)
    → IsHandedOut sys.store
    → sys.store.update_counter + length ms < 2 ^ 64
    → is_session_valid (current_updated_at sys.store) (run ms sys).store
      ≡ is_some (run ms sys).store.session
valid_iff_signed_in ms sys handed fits =
    valid-Sound (current_updated_at sys.store) (sys.store.update_counter + length ms)
      (run ms sys).store
      (run-Sound (current_updated_at sys.store) sys.store.update_counter ms sys fits
        (captured-Sound sys.store handed))
