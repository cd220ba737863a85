-- ===== src/Sync/Remote/Echoes.antt =====
-- The echoes of a batch, and how the writer agrees with the pusher.
use polykit_rust.Prelude.{
  ℕ, ◌+◌, ◌≤◌, ◌<◌, String, ◌≡◌, refl, sym, Bool, true, false, none, some, List, [], ◌∷◌, ◌++◌,
  arith, ◌∙◌, All-append, Option-cases, inl, inr,
}
use polykit_rust.Prelude.Text.{codes, to_ascii_lowercase, contains}
use polykit_rust.Prelude.Result.{Result, ok, err, Result-cases}
use polykit_rust.Json.{Record, as_str}
use polykit_rust.Client.{ClientConfig, Response, Send, text_or_default}
use polykit_rust.Contract.Message.{is_same_version_mutation_message}
use polykit_rust.Sync.Echo.{EchoTracker, mark_pushed, was_recently_pushed}
use polykit_rust.Sync.Echo.Window.{EchoCall, marks, respond, respond_all, Within, echo_suppressed}
use polykit_rust.Sync.Push.{upsert, upsert_outcome, upsert_request}
use polykit_rust.Sync.Remote.{
  field_as, mark_row, mark_rows, upsert_record, upsert_records, upsert_record_outcome,
}

-- the marks of a batch, as calls of the tracker
abbrev row_marks : ℕ → String → List Record → List (ℕ × EchoCall)
row_marks now table [] = []
row_marks now table (row ∷ rows) = elim (field_as as_str "id" row) [
  | none ↦ row_marks now table rows
  | some id ↦ (now, marks table id) ∷ row_marks now table rows
]

mark_rows-respond_all :
    (now : ℕ) (table : String) (rows : List Record) (e : EchoTracker)
    → mark_rows now table rows e ≡ respond_all (row_marks now table rows) e
unfolding mark_rows mark_row respond_all respond
mark_rows-respond_all now table [] e = refl
mark_rows-respond_all now table (row ∷ rows) e = elim (Option-cases (field_as as_str "id" row)) [
  | inl no_id ↦ ground (arith, no_id, mark_rows-respond_all now table rows e)
  | inr (id, has) ↦
      ground (arith, has, mark_rows-respond_all now table rows (mark_pushed now table id e))
]

respond_all-append :
    (xs ys : List (ℕ × EchoCall)) (e : EchoTracker)
    → respond_all (xs ++ ys) e ≡ respond_all ys (respond_all xs e)
unfolding respond_all
respond_all-append [] ys e = refl
respond_all-append ((now, c) ∷ xs) ys e = respond_all-append xs ys (respond now c e)

row_marks-Within :
    (t0 t1 : ℕ) (table : String) (rows : List Record)
    → t0 ≤ t1
    → Within t0 t1 (row_marks t0 table rows)
row_marks-Within t0 t1 table [] h = tt
row_marks-Within t0 t1 table (row ∷ rows) h =
    let rest : Within t0 t1 (row_marks t0 table rows) = row_marks-Within t0 t1 table rows h in
    elim (Option-cases (field_as as_str "id" row)) [
      | inl no_id ↦ rw (row_marks, no_id) rest
      | inr (id, has) ↦ rw (row_marks, has) ((omega arith, h), rest)
    ]

mark_rows-append :
    (now : ℕ) (table : String) (xs ys : List Record) (e : EchoTracker)
    → mark_rows now table (xs ++ ys) e ≡ mark_rows now table ys (mark_rows now table xs e)
unfolding mark_rows
mark_rows-append now table [] ys e = refl
mark_rows-append now table (x ∷ xs) ys e = mark_rows-append now table xs ys (mark_row now table x e)

mark_rows-window :
    (now : ℕ) (table : String) (rows : List Record) (e : EchoTracker)
    → (mark_rows now table rows e).window ≡ e.window
unfolding mark_rows mark_row mark_pushed
mark_rows-window now table [] e = refl
mark_rows-window now table (row ∷ rows) e =
    ground (arith, mark_rows-window now table rows (mark_row now table row e))

mark_row-id :
    (now : ℕ) (table : String) (row : Record) (id : String) (e : EchoTracker)
    → field_as as_str "id" row ≡ some id
    → mark_row now table row e ≡ mark_pushed now table id e
unfolding mark_row
mark_row-id now table row id e has = ground (arith, has)

-- what a batch leaves in the tracker, from one of its rows on
batch-marks :
    (config : ClientConfig) (send : Send) (now : ℕ) (table : String) (before : List Record)
    (row : Record) (after : List Record) (id token : String) (e : EchoTracker)
    → field_as as_str "id" row ≡ some id
    → (upsert_records config send now table (before ++ row ∷ after) token e).0
      ≡ respond_all
          (row_marks now table after)
          (mark_pushed now table id (mark_rows now table before e))
unfolding upsert_records mark_rows
batch-marks config send now table [] row after id token e has =
    rw (mark_row-id now table row id e has)
      (mark_rows-respond_all now table after (mark_pushed now table id e))
batch-marks config send now table (first ∷ before) row after id token e has =
    let earlier : EchoTracker = mark_rows now table before (mark_row now table first e) in
    mark_rows-append now table before (row ∷ after) (mark_row now table first e)
    ∙ rw (mark_row-id now table row id earlier has)
        (mark_rows-respond_all now table after (mark_pushed now table id earlier))

-- Every row of a batch that has an id is taken for an echo until the window has passed, whatever
-- the tracker is asked in between, and whatever the server replies.
pub batch_suppressed :
    (config : ClientConfig) (send : Send) (t0 t1 : ℕ) (table : String) (before : List Record)
    (row : Record) (after : List Record) (id token : String) (cs : List (ℕ × EchoCall))
    (e : EchoTracker)
    → field_as as_str "id" row ≡ some id
    → t0 ≤ t1
    → t1 < t0 + e.window
    → Within t0 t1 cs
    → (was_recently_pushed t1 table id
        (respond_all cs (upsert_records config send t0 table (before ++ row ∷ after) token e).0)).0
      ≡ true
batch_suppressed config send t0 t1 table before row after id token cs e has o w h =
    let earlier : EchoTracker = mark_rows t0 table before e in
    let later : List (ℕ × EchoCall) = row_marks t0 table after in
    rw
      (
        batch-marks config send t0 table before row after id token e has,
        sym (respond_all-append later cs (mark_pushed t0 table id earlier)),
      )
      (echo_suppressed t0 t1 table id (later ++ cs) earlier o
        (rw (mark_rows-window t0 table before e) w)
        (All-append _ later cs (row_marks-Within t0 t1 table after o) h))

-- the body of a reply that holds the word
unfoldable pub says_ignored : Result String Response → Bool
unfolding contains to_ascii_lowercase
says_ignored (err e) = false
says_ignored (ok resp) =
    contains (to_ascii_lowercase (codes (text_or_default resp))) (codes "ignored")

-- For a row with an id, the writer does what the pusher does with the conflict target `id`, unless
-- the reply holds the word `ignored`: the same mark, the same request, the same result.
pub writer_agrees_with_pusher :
    (config : ClientConfig) (send : Send) (now : ℕ) (table : String) (row : Record)
    (id token : String) (e : EchoTracker)
    → field_as as_str "id" row ≡ some id
    → says_ignored (send (upsert_request config table row "id" token)) ≡ false
    → upsert_record config send now table row token e
      ≡ upsert config send now table row "id" token e
unfolding says_ignored upsert_record upsert mark_row upsert_record_outcome upsert_outcome
    is_same_version_mutation_message
writer_agrees_with_pusher config send now table row id token e has quiet =
    elim (Result-cases (send (upsert_request config table row "id" token))) [
      | inr (lost, failed) ↦ ground (arith, has, failed)
      | inl (resp, replied) ↦ ground (arith, has, replied, quiet)
    ]
