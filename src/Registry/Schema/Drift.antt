-- ===== src/Registry/Schema/Drift.antt =====
-- When the comparison with the registry reports nothing.
use polykit_rust.Prelude.{
  ℕ, String, ◌==◌, ◌≡◌, refl, Bool, true, false, none, some, List, [], ◌∷◌, map, retain, arith,
  eq_iff, Option-cases, inl, inr, if◌then◌else◌,
}
use polykit_rust.Prelude.Text.{codes_eq}
use polykit_rust.Prelude.Assoc
use polykit_rust.Prelude.Assoc.{Assoc, get-insert}
use polykit_rust.Registry.{EntityConfig, is_synced}
use polykit_rust.Registry.Catalog.{Registry, new, register, register_all}
use polykit_rust.Registry.Schema.{
  SchemaSnapshot, collect, shape_pair, remote, remote_columns, remote_entry, normalize_type,
  column_issue, column_issues, table_issues, all_issues, values, validate_remote_schema_snapshot,
  build_remote_snapshot_from_registry,
}
use polykit_rust.Registry.Schema.Collected.{HasDistinct, IsWithin, collect-IsWithin}

codes_eq_self : (cs : List ℕ) → codes_eq cs cs ≡ true
codes_eq_self [] = refl
codes_eq_self (c ∷ cs) = ground (arith, codes_eq_self cs)

column_issues-IsWithin :
    (table : String) (actual : Assoc String) (es : List (String × String))
    → IsWithin actual es
    → column_issues table actual es ≡ []
unfolding column_issues column_issue IsWithin
column_issues-IsWithin table actual [] h = refl
column_issues-IsWithin table actual (e ∷ es) h = rw (
  h.0,
  codes_eq_self (normalize_type e.1),
  column_issues-IsWithin table actual es h.1,
  column_issue,
)

map-shape_pair :
    (es : List (String × String))
    → map shape_pair (map (λ c. record { name = c.0; data_type = c.1 }) es) ≡ es
map-shape_pair [] = refl
map-shape_pair (e ∷ es) = rw (map-shape_pair es)

table_issues-found :
    (snapshot : SchemaSnapshot) (c : EntityConfig)
    → HasDistinct (remote_columns c)
    → Assoc.get c.table_name snapshot.tables ≡ some (remote_entry c).1
    → table_issues remote snapshot c ≡ []
unfolding table_issues
table_issues-found snapshot c d h = rw (
  h,
  map-shape_pair (remote_columns c),
  column_issues-IsWithin c.table_name (collect (remote_columns c) []) (remote_columns c)
      (collect-IsWithin (remote_columns c) [] d),
  table_issues,
)

-- No column of the wire is named twice.
unfoldable pub HasDistinctColumns : List EntityConfig → Type 0
HasDistinctColumns [] = Unit
HasDistinctColumns (c ∷ cs) = HasDistinct (remote_columns c) × HasDistinctColumns cs

all_issues-IsWithin :
    (snapshot : SchemaSnapshot) (cs : List EntityConfig)
    → HasDistinctColumns cs
    → IsWithin snapshot.tables (map remote_entry cs)
    → all_issues remote snapshot cs ≡ []
unfolding all_issues HasDistinctColumns IsWithin
all_issues-IsWithin snapshot [] d h = refl
all_issues-IsWithin snapshot (c ∷ cs) d h =
    rw (table_issues-found snapshot c d.0 h.0, all_issues-IsWithin snapshot cs d.1 h.1)

-- Every table is listed once, under its name, and names no column of the wire twice.
IsTabled : Assoc EntityConfig → Type 0
IsTabled [] = Unit
IsTabled (e ∷ es) =
    (e.0 ≡ e.1.table_name)
    × HasDistinct (remote_columns e.1)
    × (Assoc.get e.0 es ≡ none)
    × IsTabled es

if_both {ℓ} :
    {A : Type ℓ} (P : A → Type 0) (b : Bool) (x y : A)
    → (b ≡ true → P x)
    → (b ≡ false → P y)
    → P (if b then x else y)
if_both P true x y on_true on_false = on_true refl
if_both P false x y on_true on_false = on_false refl

insert-IsTabled :
    (c : EntityConfig) (m : Assoc EntityConfig)
    → HasDistinct (remote_columns c)
    → IsTabled m
    → IsTabled (Assoc.insert c.table_name c m)
unfolding IsTabled Assoc.insert Assoc.get
insert-IsTabled c [] d h = (refl, d, refl, tt)
insert-IsTabled c (e ∷ es) d h =
    if_both IsTabled (e.0 == c.table_name) ((c.table_name, c) ∷ es)
      ((e.0, e.1) ∷ Assoc.insert c.table_name c es)
      (λ same. (refl, d, ground (arith, h, same, eq_iff e.0 c.table_name), h.3))
      (λ other. (
        h.0,
        h.1,
        ground (
          arith,
          h,
          other,
          eq_iff c.table_name e.0,
          eq_iff e.0 c.table_name,
          get-insert c.table_name e.0 c es,
        ),
        insert-IsTabled c es d h.3,
      ))

remote_entry-absent :
    (k : String) (m : Assoc EntityConfig)
    → IsTabled m
    → Assoc.get k m ≡ none
    → Assoc.get k (map remote_entry (retain is_synced (values m))) ≡ none
unfolding IsTabled Assoc.get retain
remote_entry-absent k [] h g = refl
remote_entry-absent k (e ∷ es) h g = ground (arith, h, g, remote_entry-absent k es)

IsTabled-HasDistinct :
    (m : Assoc EntityConfig)
    → IsTabled m
    → HasDistinct (map remote_entry (retain is_synced (values m)))
unfolding IsTabled HasDistinct retain
IsTabled-HasDistinct [] h = tt
IsTabled-HasDistinct (e ∷ es) h =
    if_both (λ cs. HasDistinct (map remote_entry cs)) (is_synced e.1)
      (e.1 ∷ retain is_synced (values es)) (retain is_synced (values es))
      (λ synced.
        (remote_entry-absent e.1.table_name es h.3 (rw (← h.0) h.2), IsTabled-HasDistinct es h.3))
      (λ other. IsTabled-HasDistinct es h.3)

IsTabled-HasDistinctColumns :
    (m : Assoc EntityConfig) → IsTabled m → HasDistinctColumns (retain is_synced (values m))
unfolding IsTabled HasDistinctColumns retain
IsTabled-HasDistinctColumns [] h = tt
IsTabled-HasDistinctColumns (e ∷ es) h =
    if_both HasDistinctColumns (is_synced e.1) (e.1 ∷ retain is_synced (values es))
      (retain is_synced (values es)) (λ synced. (h.1, IsTabled-HasDistinctColumns es h.3))
      (λ other. IsTabled-HasDistinctColumns es h.3)

register-IsTabled :
    (c : EntityConfig) (inner inner' : Registry)
    → HasDistinct (remote_columns c)
    → IsTabled inner.by_table
    → register c inner ≡ some inner'
    → IsTabled inner'.by_table
unfolding register
register-IsTabled c inner inner' d h r =
    let kept : Assoc.insert c.table_name c inner.by_table ≡ inner'.by_table =
      (elim (Option-cases c.entity_type_name) [
        | inl no_type ↦ ground (arith, r, no_type)
        | inr (t, has) ↦ ground (arith, r, has)
      ]) in
    rw (← kept) (insert-IsTabled c inner.by_table d h)

register_all-IsTabled :
    (cs : List EntityConfig) (inner inner' : Registry)
    → HasDistinctColumns cs
    → IsTabled inner.by_table
    → register_all cs inner ≡ some inner'
    → IsTabled inner'.by_table
unfolding register_all HasDistinctColumns
register_all-IsTabled [] inner inner' d h r =
    let same : inner.by_table ≡ inner'.by_table = ground (arith, r) in rw (← same) h
register_all-IsTabled (c ∷ cs) inner inner' d h r = elim (Option-cases (register c inner)) [
  | inl panics ↦ ground (arith, r, panics)
  | inr (next, registered) ↦
      register_all-IsTabled cs next inner' d.1 (register-IsTabled c inner next d.0 h registered)
        (ground (arith, r, registered))
]

-- Whatever entities were registered in turn, each without two columns of one name on the wire, the
-- remote snapshot that is built from the registry has no drift from it.
pub registry_without_drift :
    (cs : List EntityConfig) (inner : Registry)
    → HasDistinctColumns cs
    → register_all cs new ≡ some inner
    → validate_remote_schema_snapshot (build_remote_snapshot_from_registry inner) inner ≡ []
unfolding IsTabled
registry_without_drift cs inner d r =
    let tabled = register_all-IsTabled cs new inner d tt r in
    all_issues-IsWithin (build_remote_snapshot_from_registry inner)
      (retain is_synced (values inner.by_table)) (IsTabled-HasDistinctColumns inner.by_table tabled)
      (collect-IsWithin (map remote_entry (retain is_synced (values inner.by_table))) []
        (IsTabled-HasDistinct inner.by_table tabled))
