-- ===== src/Auth/Run.antt =====
-- Runs of the session store of crates/polybase/src/auth.rs: signing in and out, and refreshes whose
-- steps stand between other calls. The claim of a refresh stands for the whole of its start, since
-- the reads before it change nothing. After it a leader has three steps: it stores its reply, notes
-- it, and gives the flight back.
use polykit_rust.Prelude.{ℕ, zero, suc, Bool, Option, none, some, List, [], ◌∷◌, ◌++◌}
use polykit_rust.Prelude.Result.{Result}
use polykit_rust.Errors.{PolyError}
use polykit_rust.Auth.{SessionPayload, SessionStore, set_session, clear_session}
use polykit_rust.Auth.Refresh.{
  Now, Check, waits, returns, goes_on, claim_refresh, store_reply, note_reply, release_flight,
}

-- A leader's next step may come at any time; the result is its reply, if it has none yet.
pub data Move : Type 0 where
  signs_in : SessionPayload → Move
  signs_out : Move
  claims : Bool → ℕ → Now → Move
  advances : ℕ → Now → Result PolyError SessionPayload → Move

-- Where a leader stands between its claim and the end of its refresh.
pub data Stage : Type 0 where
  awaiting : SessionPayload → Stage
  stored : Result PolyError SessionPayload → Bool → Stage
  noted : Stage

-- The store, and the leaders whose refresh has not ended.
pub record System : Type 0 where
  pub store : SessionStore
  pub out : List Stage

abbrev pub nth {ℓ} : {A : Type ℓ} → List A → ℕ → Option A
nth [] n = none
nth (x ∷ xs) zero = some x
nth (x ∷ xs) (suc n) = nth xs n

abbrev pub drop_nth {ℓ} : {A : Type ℓ} → List A → ℕ → List A
drop_nth [] n = []
drop_nth (x ∷ xs) zero = xs
drop_nth (x ∷ xs) (suc n) = x ∷ drop_nth xs n

abbrev pub set_nth {ℓ} : {A : Type ℓ} → List A → ℕ → A → List A
set_nth [] n y = []
set_nth (x ∷ xs) zero y = y ∷ xs
set_nth (x ∷ xs) (suc n) y = x ∷ set_nth xs n y

abbrev pub claimed : SessionStore × Check → List Stage → System
claimed (s, goes_on p) out = record { store = s; out = out ++ awaiting p ∷ [] }
claimed (s, waits) out = record { store = s; out = out }
claimed (s, returns r) out = record { store = s; out = out }

-- The next step of the leader at a place, by its stage.
unfoldable pub advance : ℕ → Now → Result PolyError SessionPayload → Stage → System → System
unfolding store_reply note_reply
advance n now outcome (awaiting p) w =
    let (s, refreshed) = store_reply outcome w.store in
    record { store = s; out = set_nth w.out n (stored outcome refreshed) }
advance n now outcome (stored reply refreshed) w = record {
  store = (note_reply now reply refreshed w.store).0;
  out = set_nth w.out n noted;
}
advance n now outcome noted w = record { store = release_flight w.store; out = drop_nth w.out n }

unfoldable pub apply : Move → System → System
unfolding set_session clear_session claim_refresh advance
apply (signs_in p) w = record w { store = (set_session p w.store).0 }
apply signs_out w = record w { store = (clear_session w.store).0 }
apply (claims force min_valid_for now) w =
    claimed (claim_refresh force min_valid_for now w.store) w.out
apply (advances n now outcome) w = elim (nth w.out n) [
  | none ↦ w
  | some stage ↦ advance n now outcome stage w
]

unfoldable pub run : List Move → System → System
unfolding apply
run [] w = w
run (m ∷ ms) w = run ms (apply m w)
