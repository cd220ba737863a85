-- ===== src/Registry/Mapping.antt =====
-- Renaming a row to local columns and back.
use polykit_rust.Prelude.{
  String, ◌==◌, eq_iff, eq_refl, ◌≡◌, refl, true, false, Option, none, some, List, [], ◌∷◌, arith,
  Option-cases, inl, inr, if◌then◌else◌,
}
use polykit_rust.Prelude.Assoc
use polykit_rust.Prelude.Assoc.{get-insert}
use polykit_rust.Prelude.Sorting.{mem, IsNodup}
use polykit_rust.Json.{Value, Record}
use polykit_rust.Registry.{
  ColumnDef, EntityConfig, remote_to_local, local_to_remote, map_remote_to_local,
  map_local_to_remote, copy,
}

-- The local and the remote names of the columns that are synced.
unfoldable pub locals : List ColumnDef → List String
locals [] = []
locals (c ∷ cs) = elim c.remote_name [ none ↦ locals cs | some r ↦ c.local_name ∷ locals cs ]

unfoldable pub remotes : List ColumnDef → List String
remotes [] = []
remotes (c ∷ cs) = elim c.remote_name [ none ↦ remotes cs | some r ↦ r ∷ remotes cs ]

-- the local name of the column with a remote name
local_of : String → List ColumnDef → Option String
local_of rn [] = none
local_of rn (c ∷ cs) = elim c.remote_name [
  | none ↦ local_of rn cs
  | some r ↦ if r == rn then some c.local_name else local_of rn cs
]

or_else : Option Value → Option Value → Option Value
or_else (some v) w = some v
or_else none w = w

mem-remotes :
    (rn : String) (cs : List ColumnDef) → mem rn (remotes cs) ≡ false → local_of rn cs ≡ none
unfolding remotes mem local_of
mem-remotes rn [] h = refl
mem-remotes rn (c ∷ cs) h = ground (arith, mem-remotes rn cs)

mem-remotes-some :
    (rn : String) (cs : List ColumnDef) → local_of rn cs ≡ none → mem rn (remotes cs) ≡ false
unfolding remotes mem local_of
mem-remotes-some rn [] h = refl
mem-remotes-some rn (c ∷ cs) h = ground (arith, mem-remotes-some rn cs)

mem-locals :
    (rn ln : String) (cs : List ColumnDef) → local_of rn cs ≡ some ln → mem ln (locals cs) ≡ true
unfolding locals mem local_of
mem-locals rn ln [] h = cc
mem-locals rn ln (c ∷ cs) h = ground (arith, mem-locals rn ln cs, eq_refl ln)

get-copy :
    (k j : String) (o : Option Value) (m : Record)
    → Assoc.get j (copy k o m) ≡ (if k == j then or_else o (Assoc.get j m) else Assoc.get j m)
unfolding copy or_else
get-copy k j none m = ground arith
get-copy k j (some v) m = ground (arith, get-insert k j v m)

remote_to_local-absent :
    (k : String) (cs : List ColumnDef) (r l : Record)
    → mem k (locals cs) ≡ false
    → Assoc.get k (remote_to_local cs r l) ≡ Assoc.get k l
unfolding remote_to_local locals mem
remote_to_local-absent k [] r l h = refl
remote_to_local-absent k (c ∷ cs) r l h = elim (Option-cases c.remote_name) [
  | inl local_only ↦ ground (arith, local_only, remote_to_local-absent k cs r l)
  | inr (rn, synced) ↦
      let v = Assoc.get rn r in
      ground (
        arith,
        synced,
        remote_to_local-absent k cs r (copy c.local_name v l),
        get-copy c.local_name k v l,
      )
]

remote_to_local-present :
    (rn ln : String) (cs : List ColumnDef) (r l : Record)
    → IsNodup (locals cs)
    → local_of rn cs ≡ some ln
    → Assoc.get ln (remote_to_local cs r l) ≡ or_else (Assoc.get rn r) (Assoc.get ln l)
unfolding remote_to_local locals local_of
remote_to_local-present rn ln [] r l d h = cc
remote_to_local-present rn ln (c ∷ cs) r l d h = elim (Option-cases c.remote_name) [
  | inl local_only ↦ ground (arith, local_only, remote_to_local-present rn ln cs r l)
  | inr (name, synced) ↦
      let v = Assoc.get name r in
      let l' = copy c.local_name v l in
      ground (
        arith,
        synced,
        remote_to_local-present rn ln cs r l',
        remote_to_local-absent ln cs r l',
        get-copy c.local_name ln v l,
        mem-locals rn ln cs,
        eq_iff name rn,
        eq_iff c.local_name ln,
      )
]

local_to_remote-absent :
    (rn : String) (cs : List ColumnDef) (l r : Record)
    → local_of rn cs ≡ none
    → Assoc.get rn (local_to_remote cs l r) ≡ Assoc.get rn r
unfolding local_to_remote local_of
local_to_remote-absent rn [] l r h = refl
local_to_remote-absent rn (c ∷ cs) l r h = elim (Option-cases c.remote_name) [
  | inl local_only ↦ ground (arith, local_only, local_to_remote-absent rn cs l r)
  | inr (name, synced) ↦
      let v = Assoc.get c.local_name l in
      ground (arith, synced, local_to_remote-absent rn cs l (copy name v r), get-copy name rn v r)
]

local_to_remote-present :
    (rn ln : String) (cs : List ColumnDef) (l r : Record)
    → IsNodup (remotes cs)
    → local_of rn cs ≡ some ln
    → Assoc.get rn (local_to_remote cs l r) ≡ or_else (Assoc.get ln l) (Assoc.get rn r)
unfolding local_to_remote remotes local_of
local_to_remote-present rn ln [] l r d h = cc
local_to_remote-present rn ln (c ∷ cs) l r d h = elim (Option-cases c.remote_name) [
  | inl local_only ↦ ground (arith, local_only, local_to_remote-present rn ln cs l r)
  | inr (name, synced) ↦
      let v = Assoc.get c.local_name l in
      let r' = copy name v r in
      ground (
        arith,
        synced,
        local_to_remote-present rn ln cs l r',
        local_to_remote-absent rn cs l r',
        get-copy name rn v r,
        mem-remotes rn cs,
        eq_iff name rn,
      )
]

-- A row that is renamed to local columns and back keeps every synced column and loses all others,
-- if no two synced columns share their local name or their remote name.
pub mapping_round_trip :
    (config : EntityConfig) (remote : Record) (rn : String)
    → IsNodup (locals config.columns)
    → IsNodup (remotes config.columns)
    → Assoc.get rn (map_local_to_remote config (map_remote_to_local config remote))
      ≡ (if mem rn (remotes config.columns) then Assoc.get rn remote else none)
unfolding or_else Assoc.get
mapping_round_trip config remote rn dl dr =
    let cs = config.columns in
    let l = remote_to_local cs remote [] in
    elim (Option-cases (local_of rn cs)) [
      | inl absent ↦
          ground (arith, local_to_remote-absent rn cs l [] absent, mem-remotes-some rn cs)
      | inr (ln, found) ↦ ground (
        arith,
        local_to_remote-present rn ln cs l [] dr found,
        remote_to_local-present rn ln cs remote [] dl found,
        mem-remotes rn cs,
      )
    ]
