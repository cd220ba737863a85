-- ===== src/Registry/Schema/Reported.antt =====
-- What a comparison that reports nothing says of the snapshot.
use mathlib.Core.List
use polykit_rust.Prelude.{
  String, ◌==◌, ◌≡◌, refl, true, some, List, [], ◌∷◌, retain, arith, Option-cases, Bool-cases, inl,
  inr,
}
use polykit_rust.Prelude.Text.{codes_eq}
use polykit_rust.Prelude.Assoc
use polykit_rust.Prelude.Assoc.{Assoc}
use polykit_rust.Registry.{EntityConfig}
use polykit_rust.Registry.Catalog.{Registry, config_for_table}
use polykit_rust.Registry.Schema.{
  SchemaSnapshot, TableShape, SchemaLocation, normalize_type, column_issue, column_issues,
  table_issues, all_issues, values, column_map, expected_columns, concerns, validate_schema,
}

-- Every column that is expected is there, with a type of the same normal form.
unfoldable pub IsMatched : Assoc String → List (String × String) → Type 0
IsMatched actual [] = Unit
IsMatched actual (e ∷ es) =
    ((found : String) × (Assoc.get e.0 actual ≡ some found)
      × (codes_eq (normalize_type e.1) (normalize_type found) ≡ true))
    × IsMatched actual es

append-empty : (xs ys : List String) → List.◌++◌ xs ys ≡ [] → (xs ≡ []) × (ys ≡ [])
append-empty [] ys h = (refl, h)
append-empty (x ∷ xs) ys h = ground (arith, h)

column_issue-silent :
    (table : String) (actual : Assoc String) (e : String × String)
    → column_issue table actual e ≡ []
    → (found : String) × (Assoc.get e.0 actual ≡ some found)
      × (codes_eq (normalize_type e.1) (normalize_type found) ≡ true)
unfolding column_issue
column_issue-silent table actual e h = elim (Option-cases (Assoc.get e.0 actual)) [
  | inl missing ↦ ground (arith, h, missing)
  | inr (found, has) ↦ (found, has, ground (arith, h, has))
]

column_issues-silent :
    (table : String) (actual : Assoc String) (es : List (String × String))
    → column_issues table actual es ≡ []
    → IsMatched actual es
unfolding column_issues IsMatched
column_issues-silent table actual [] h = tt
column_issues-silent table actual (e ∷ es) h =
    let both = append-empty (column_issue table actual e) (column_issues table actual es) h in
    (column_issue-silent table actual e both.0, column_issues-silent table actual es both.1)

table_issues-silent :
    (location : SchemaLocation) (snapshot : SchemaSnapshot) (c : EntityConfig)
    → table_issues location snapshot c ≡ []
    → (shape : TableShape) × (Assoc.get c.table_name snapshot.tables ≡ some shape)
      × IsMatched (column_map shape) (expected_columns location c)
unfolding table_issues
table_issues-silent location snapshot c h =
    elim (Option-cases (Assoc.get c.table_name snapshot.tables)) [
      | inl missing ↦ ground (arith, h, missing)
      | inr (shape, has) ↦ (
        shape,
        has,
        column_issues-silent c.table_name (column_map shape) (expected_columns location c)
            (ground (arith, h, has)),
      )
    ]

-- what silence says of the first entry and of the others
first_silent :
    (location : SchemaLocation) (snapshot : SchemaSnapshot) (e : String × EntityConfig)
    (es : Assoc EntityConfig)
    → all_issues location snapshot (retain (concerns location) (values (e ∷ es))) ≡ []
    → (concerns location e.1 ≡ true → table_issues location snapshot e.1 ≡ [])
      × (all_issues location snapshot (retain (concerns location) (values es)) ≡ [])
unfolding all_issues retain
first_silent location snapshot e es h = elim (Bool-cases (concerns location e.1)) [
  | inl concerned ↦
      let both =
        append-empty (table_issues location snapshot e.1)
          (all_issues location snapshot (retain (concerns location) (values es)))
          (ground (arith, h, concerned)) in
      ((λ y. both.0), both.1)
  | inr apart ↦ ((λ y. ground (arith, y, apart)), ground (arith, h, apart))
]

entry_silent :
    (location : SchemaLocation) (snapshot : SchemaSnapshot) (by_table : Assoc EntityConfig)
    (table : String) (c : EntityConfig)
    → Assoc.get table by_table ≡ some c
    → concerns location c ≡ true
    → all_issues location snapshot (retain (concerns location) (values by_table)) ≡ []
    → table_issues location snapshot c ≡ []
unfolding Assoc.get
entry_silent location snapshot [] table c found concerned silent = ground (arith, found)
entry_silent location snapshot (e ∷ es) table c found concerned silent =
    let (of_first, of_others) = first_silent location snapshot e es silent in
    elim (Bool-cases (e.0 == table)) [
      | inl here ↦
          let same : e.1 ≡ c = ground (arith, found, here) in
          rw (← same) (of_first (rw (same) concerned))
      | inr later ↦
          entry_silent location snapshot es table c (ground (arith, found, later)) concerned
            of_others
    ]

-- A comparison with the registry that reports nothing has found every table that the registry
-- looks up and that the comparison concerns, with every column that is expected of it, each with a
-- type of the same normal form.
pub silence_means_agreement :
    (location : SchemaLocation) (snapshot : SchemaSnapshot) (inner : Registry) (table : String)
    (c : EntityConfig)
    → config_for_table table inner ≡ some c
    → concerns location c ≡ true
    → validate_schema location snapshot inner ≡ []
    → (shape : TableShape) × (Assoc.get c.table_name snapshot.tables ≡ some shape)
      × IsMatched (column_map shape) (expected_columns location c)
silence_means_agreement location snapshot inner table c found concerned silent =
    table_issues-silent location snapshot c
      (entry_silent location snapshot inner.by_table table c found concerned silent)
