-- ===== src/Sync/Remote/Versions.antt =====
-- What a read of versions keeps of the rows.
use polykit_rust.Prelude.{
  String, ◌==◌, ◌≡◌, refl, Bool, Option, none, some, List, [], ◌∷◌, arith, if◌then◌else◌,
  Option-cases, inl, inr,
}
use polykit_rust.Prelude.Int.{ℤ}
use polykit_rust.Prelude.Assoc
use polykit_rust.Prelude.Assoc.{Assoc, get-insert}
use polykit_rust.Prelude.Result.{Result, ok}
use polykit_rust.Json.{Items, Record}
use polykit_rust.Client.{ClientConfig, Send}
use polykit_rust.Sync.Remote.{
  version_of, collect_versions, fetch_versions, read_outcome, read_request, user_scope, objects,
}

-- the version of a row, if it is the row of `id`
abbrev version_for : String → Record → Option (ℤ × Bool)
version_for id row = elim (version_of row) [
  | none ↦ none
  | some (j, v) ↦ if j == id then some v else none
]

-- The version in the last row of `id` that has one.
unfoldable pub last_version : String → List Record → Option (ℤ × Bool)
last_version id [] = none
last_version id (row ∷ rows) =
    let later = last_version id rows in elim later [ some v ↦ some v | none ↦ version_for id row ]

get-collect_versions :
    (id : String) (rows : List Record) (versions : Assoc (ℤ × Bool))
    → Assoc.get id (collect_versions rows versions)
      ≡ elim (last_version id rows) [ some v ↦ some v | none ↦ Assoc.get id versions ]
unfolding collect_versions last_version
get-collect_versions id [] versions = refl
get-collect_versions id (row ∷ rows) versions = elim (Option-cases (version_of row)) [
  | inl unusable ↦ ground (arith, unusable, get-collect_versions id rows versions)
  | inr ((j, v), usable) ↦ ground (
    arith,
    usable,
    get-collect_versions id rows (Assoc.insert j v versions),
    get-insert j id v versions,
  )
]

-- A read of versions that succeeds gives for each id the version and the flag of the last row that
-- has that id and an integer version, and nothing for an id that has no such row.
pub fetch_versions-last :
    (config : ClientConfig) (send : Send) (from_items : String → Result String Items)
    (table user_id_column : String) (user_id : Option String) (token id : String) (rows : Items)
    (versions : Assoc (ℤ × Bool))
    → read_outcome from_items table (
        send (
          read_request config table
            (("select", "id,version,deleted") ∷ user_scope user_id_column user_id)
            token))
      ≡ ok rows
    → fetch_versions config send from_items table user_id_column user_id token ≡ ok versions
    → Assoc.get id versions ≡ last_version id (objects rows)
unfolding fetch_versions
fetch_versions-last config send from_items table user_id_column user_id token id rows versions r h =
    ground (arith, r, h, get-collect_versions id (objects rows) [])
