-- ===== src/Sync/Echo.antt =====
-- crates/polybase/src/sync/echo.rs: the writes that were pushed lately. An `Instant` and a
-- `Duration` are in milliseconds; `elapsed` is the difference to the clock's reading `now`, or zero.
pub mod Window
use polykit_rust.Prelude.{
  ℕ, ◌-◌, ◌*◌, String, Bool, true, false, Option, none, some, List, [], ◌∷◌, retain, ltb,
  if◌then◌else◌,
}
use polykit_rust.Prelude.Assoc
use polykit_rust.Prelude.Assoc.{Assoc}
use polykit_rust.Contract.Message.{echo_tracker_key}

abbrev pub echo_expiry_window_secs : ℕ
echo_expiry_window_secs = 5

pub record EchoTracker : Type 0 where
  pub inner : Assoc ℕ
  pub window : ℕ

abbrev pub with_window : ℕ → EchoTracker
with_window window = record { inner = []; window = window }

abbrev pub with_default_window : EchoTracker
with_default_window = with_window (echo_expiry_window_secs * 1000)

unfoldable pub mark_pushed : ℕ → String → String → EchoTracker → EchoTracker
unfolding Assoc.insert echo_tracker_key
mark_pushed now table entity_id tracker = record tracker {
  inner = Assoc.insert (echo_tracker_key table entity_id) now tracker.inner;
}

unfoldable pub was_recently_pushed : ℕ → String → String → EchoTracker → Bool × EchoTracker
unfolding Assoc.get Assoc.remove echo_tracker_key
was_recently_pushed now table entity_id tracker =
    let key = echo_tracker_key table entity_id in
    elim (Assoc.get key tracker.inner) [
      | none ↦ (false, tracker)
      | some when ↦
          if ltb (now - when) tracker.window
          then (true, tracker)
          else (false, record tracker { inner = Assoc.remove key tracker.inner })
    ]

unfoldable pub clear : EchoTracker → EchoTracker
clear tracker = record tracker { inner = [] }

unfoldable pub vacuum : ℕ → EchoTracker → EchoTracker
unfolding retain
vacuum now tracker = record tracker {
  inner = retain (λ e. ltb (now - e.1) tracker.window) tracker.inner;
}
