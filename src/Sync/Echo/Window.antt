-- ===== src/Sync/Echo/Window.antt =====
-- For how long a pushed write is suppressed.
use polykit_rust.Prelude.{
  ℕ, ◌+◌, ◌-◌, ◌≤◌, ◌<◌, String, ◌==◌, eq_iff, eq_refl, ◌≡◌, refl, true, some, List, [], ◌∷◌,
  retain, arith, ltb, Bool-cases, All, ◌∙◌, inl, inr,
}
use polykit_rust.Prelude.Assoc
use polykit_rust.Prelude.Assoc.{Assoc, get-insert, get-remove}
use polykit_rust.Contract.Message.{echo_tracker_key}
use polykit_rust.Sync.Echo.{EchoTracker, mark_pushed, was_recently_pushed, vacuum}

-- The calls that a tracker gets while a session lasts.
pub data EchoCall : Type 0 where
  marks : String → String → EchoCall
  asks : String → String → EchoCall
  vacuums : EchoCall

unfoldable pub respond : ℕ → EchoCall → EchoTracker → EchoTracker
unfolding mark_pushed was_recently_pushed vacuum
respond now (marks t i) tracker = mark_pushed now t i tracker
respond now (asks t i) tracker = (was_recently_pushed now t i tracker).1
respond now vacuums tracker = vacuum now tracker

-- Calls, each with the reading of the clock that it is made at.
unfoldable pub respond_all : List (ℕ × EchoCall) → EchoTracker → EchoTracker
unfolding respond
respond_all [] tracker = tracker
respond_all ((now, c) ∷ cs) tracker = respond_all cs (respond now c tracker)

abbrev pub Within : ℕ → ℕ → List (ℕ × EchoCall) → Type 0
Within start stop cs = All (λ c. (start ≤ c.0) × (c.0 ≤ stop)) cs

-- The row was marked between two readings.
abbrev IsMarked : ℕ → ℕ → String → EchoTracker → Type 0
IsMarked start stop key tracker =
    (at : ℕ) × (Assoc.get key tracker.inner ≡ some at) × (start ≤ at) × (at ≤ stop)

get-retain :
    (key : String) (at now window : ℕ) (m : Assoc ℕ)
    → Assoc.get key m ≡ some at
    → ltb (now - at) window ≡ true
    → Assoc.get key (retain (λ e. ltb (now - e.1) window) m) ≡ some at
unfolding Assoc.get retain
get-retain key at now window [] g h = g
get-retain key at now window ((k, v) ∷ m) g h = ground (arith, get-retain key at now window m)

respond-window : (now : ℕ) (c : EchoCall) (e : EchoTracker) → (respond now c e).window ≡ e.window
unfolding respond
respond-window now c e = ground arith

respond-IsMarked :
    (start stop now : ℕ) (key : String) (c : EchoCall) (e : EchoTracker)
    → stop < start + e.window
    → start ≤ now
    → now ≤ stop
    → IsMarked start stop key e
    → IsMarked start stop key (respond now c e)
unfolding respond
respond-IsMarked start stop now key (marks t i) e w l u (at, g, p, q) =
    elim (Bool-cases (echo_tracker_key t i == key)) [
      | inl same ↦ (now, ground (arith, get-insert (echo_tracker_key t i) key now e.inner), l, u)
      | inr other ↦ (at, ground (arith, get-insert (echo_tracker_key t i) key now e.inner), p, q)
    ]
respond-IsMarked start stop now key (asks t i) e w l u (at, g, p, q) = (
  at,
  ground (arith, get-remove (echo_tracker_key t i) key e.inner, eq_iff (echo_tracker_key t i) key),
  p,
  q,
)
respond-IsMarked start stop now key vacuums e w l u (at, g, p, q) =
    (at, get-retain key at now e.window e.inner g (ground arith), p, q)

respond_all-IsMarked :
    (start stop : ℕ) (key : String) (cs : List (ℕ × EchoCall)) (e : EchoTracker)
    → stop < start + e.window
    → Within start stop cs
    → IsMarked start stop key e
    → IsMarked start stop key (respond_all cs e) × ((respond_all cs e).window ≡ e.window)
unfolding respond_all
respond_all-IsMarked start stop key [] e w h m = (m, refl)
respond_all-IsMarked start stop key ((now, c) ∷ cs) e w h m =
    let same = respond-window now c e in
    let (m', w') =
      respond_all-IsMarked start stop key cs (respond now c e) (rw same w) h.1
        (respond-IsMarked start stop now key c e w h.0.0 h.0.1 m) in
    (m', w' ∙ same)

-- A write that was marked is suppressed until the window has passed, whatever is marked, asked
-- and collected in between, if the clock reads no time before the mark and none after the question.
pub echo_suppressed :
    (t0 t1 : ℕ) (table id : String) (cs : List (ℕ × EchoCall)) (e : EchoTracker)
    → t0 ≤ t1
    → t1 < t0 + e.window
    → Within t0 t1 cs
    → (was_recently_pushed t1 table id (respond_all cs (mark_pushed t0 table id e))).0 ≡ true
unfolding was_recently_pushed mark_pushed
echo_suppressed t0 t1 table id cs e o w h =
    let key = echo_tracker_key table id in
    let marked : EchoTracker = mark_pushed t0 table id e in
    let ((at, g, p, q), same) =
      respond_all-IsMarked t0 t1 key cs marked w h
        (t0, ground (arith, get-insert key key t0 e.inner, eq_refl key), omega arith, o) in
    ground arith
