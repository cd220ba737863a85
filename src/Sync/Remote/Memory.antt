-- ===== src/Sync/Remote/Memory.antt =====
-- `MemoryWriter` and `MemoryReader` of crates/polybase/src/sync/remote.rs, and the comparison by
-- which the reader mirrors PostgREST. Floating-point numbers are a parameter.
use polykit_rust.Prelude.{
  String, ◌==◌, Bool, true, false, not, ◌&&◌, Option, none, some, List, [], ◌∷◌, ◌++◌, retain,
}
use polykit_rust.Prelude.Int.{ℤ, leb_ℤ}
use polykit_rust.Prelude.Order.{str_ltb}
use polykit_rust.Prelude.Parse.{parse_i64}
use polykit_rust.Prelude.Assoc
use polykit_rust.Prelude.Assoc.{Assoc}
use polykit_rust.Json.{Value, Record, as_str, as_i64}
use polykit_rust.Registry.{unwrap_or}
use polykit_rust.Sync.Remote.{RemoteFilter, field_as, collect_versions}

pub record MemoryWriter : Type 0 where
  pub upserts : List (String × List Record)
  pub updates : List (String × (String × Record))

abbrev pub writer_new : MemoryWriter
writer_new = record { upserts = []; updates = [] }

abbrev pub memory_upsert_record : String → Record → MemoryWriter → MemoryWriter
memory_upsert_record table row w = record w { upserts = w.upserts ++ (table, row ∷ []) ∷ [] }

abbrev pub memory_upsert_records : String → List Record → MemoryWriter → MemoryWriter
memory_upsert_records table rows w = record w { upserts = w.upserts ++ (table, rows) ∷ [] }

abbrev pub memory_update_fields : String → String → Record → MemoryWriter → MemoryWriter
memory_update_fields table id fields w = record w {
  updates = w.updates ++ (table, (id, fields)) ∷ [];
}

-- What is used of `f64`.
pub record Floats : Type 1 where
  pub F64 : Type 0
  pub as_f64 : Value → Option F64
  pub parse_f64 : String → Option F64
  pub ge : F64 → F64 → Bool

-- `or_else`
abbrev pub or_try {ℓ} : {A : Type ℓ} → Option A → Option A → Option A
or_try none o = o
or_try (some a) o = some a

abbrev pub parsed {ℓ} : {A : Type ℓ} → (String → Option A) → Value → Option A
parsed parse v = elim (as_str v) [ none ↦ none | some s ↦ parse s ]

unfoldable pub value_as_i64 : Value → Option ℤ
unfolding parse_i64
value_as_i64 v = or_try (as_i64 v) (parsed parse_i64 v)

-- the comparison of texts, where no numbers are compared
abbrev pub text_gte : Value → String → Bool
text_gte v predicate = elim (as_str v) [ none ↦ false | some s ↦ not (str_ltb s predicate) ]

module _ (f64 : Floats) where
  unfoldable pub value_as_f64 : Value → Option f64.F64
  value_as_f64 v = or_try (f64.as_f64 v) (parsed f64.parse_f64 v)

  abbrev pub float_gte : Value → String → Bool
  unfolding value_as_f64
  float_gte v predicate = elim (value_as_f64 v) [
    | none ↦ text_gte v predicate
    | some row_num ↦ elim (f64.parse_f64 predicate) [
      | none ↦ text_gte v predicate
      | some predicate_num ↦ f64.ge row_num predicate_num
    ]
  ]

  unfoldable pub row_value_gte : Option Value → String → Bool
  unfolding value_as_i64 value_as_f64 parse_i64
  row_value_gte none predicate = false
  row_value_gte (some v) predicate = elim (value_as_i64 v) [
    | none ↦ float_gte v predicate
    | some row_num ↦ elim (parse_i64 predicate) [
      | none ↦ float_gte v predicate
      | some predicate_num ↦ leb_ℤ predicate_num row_num
    ]
  ]

  abbrev pub text_at_is : String → String → Record → Bool
  unfolding Assoc.get
  text_at_is column text row = elim (field_as as_str column row) [
    | none ↦ false
    | some s ↦ s == text
  ]

  abbrev pub all_eq : List (String × String) → Record → Bool
  unfolding Assoc.get
  all_eq [] row = true
  all_eq ((column, value) ∷ es) row = text_at_is column value row && all_eq es row

  abbrev pub all_gte : List (String × String) → Record → Bool
  unfolding row_value_gte Assoc.get
  all_gte [] row = true
  all_gte ((column, value) ∷ es) row = row_value_gte (Assoc.get column row) value && all_gte es row

  abbrev pub in_scope : String → Option String → Record → Bool
  unfolding Assoc.get
  in_scope user_id_column none row = true
  in_scope user_id_column (some uid) row = text_at_is user_id_column uid row

  abbrev pub passes : Option RemoteFilter → Record → Bool
  unfolding row_value_gte Assoc.get
  passes none row = true
  passes (some extra) row = all_eq extra.eq row && all_gte extra.gte row

  -- the seeded rows by table
  abbrev pub seed : String → List Record → Assoc (List Record) → Assoc (List Record)
  unfolding Assoc.insert
  seed table rows reader = Assoc.insert table rows reader

  unfoldable pub memory_fetch_records :
      String → String → Option String → Option RemoteFilter → Assoc (List Record) → List Record
  unfolding retain row_value_gte Assoc.get
  memory_fetch_records table user_id_column user_id filter reader =
      retain (λ row. in_scope user_id_column user_id row && passes filter row)
        (unwrap_or [] (Assoc.get table reader))

  unfoldable pub memory_fetch_versions :
      String → String → Option String → Assoc (List Record) → Assoc (ℤ × Bool)
  unfolding retain collect_versions Assoc.get
  memory_fetch_versions table user_id_column user_id reader =
      collect_versions
        (retain (λ row. in_scope user_id_column user_id row)
          (unwrap_or [] (Assoc.get table reader)))
        []
