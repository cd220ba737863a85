-- ===== src/Tests/Contract.antt =====
-- The theorems on contract.rs at concrete versions, timestamps and operations.
use polykit_rust.Prelude.{◌≡◌, ◌↔◌, ◌⊎◌, true, false, List, [], ◌∷◌, arith, String}
use polykit_rust.Prelude.Int.{ℤ, pos, ◌≤ℤ◌, ◌<ℤ◌}
use polykit_rust.Contract.Version.{
  undelete_minimum_version, local_winner_merged_version, local_winner_merged_version_lem,
}
use polykit_rust.Contract.Reconcile.{
  skip, pull, push, adopt_tombstone, determine_reconcile_action, reconcile_decides,
}
use polykit_rust.Contract.Finalize.{ContractOperation}

-- A tombstone of an older version is pushed over a live row.
reconcile_decides_example :
    ((determine_reconcile_action (pos 3) true (pos 5) false ≡ skip)
      ↔ ((pos 3 ≡ pos 5) × (true ≡ false)))
    × ((determine_reconcile_action (pos 3) true (pos 5) false ≡ adopt_tombstone)
        ↔ ((true ≡ false) × (false ≡ true) × (pos 3 <ℤ undelete_minimum_version (pos 5))))
    × ((determine_reconcile_action (pos 3) true (pos 5) false ≡ pull)
        ↔ ((true ≡ false) × (pos 3 <ℤ pos 5)))
    × ((determine_reconcile_action (pos 3) true (pos 5) false ≡ push) ↔ (
        ((true ≡ false) × (false ≡ true) × (undelete_minimum_version (pos 5) ≤ℤ pos 3))
        ⊎ ((true ≡ true) × (false ≡ false))
        ⊎ ((true ≡ false) × (pos 5 <ℤ pos 3))))
reconcile_decides_example = reconcile_decides (pos 3) (pos 5) true false

local_winner_merged_version_lem_example :
    (pos 4 <ℤ local_winner_merged_version (pos 4) (pos 9))
    × (pos 9 <ℤ local_winner_merged_version (pos 4) (pos 9))
    × ((v : ℤ) → pos 4 <ℤ v → pos 9 <ℤ v → local_winner_merged_version (pos 4) (pos 9) ≤ℤ v)
local_winner_merged_version_lem_example =
    local_winner_merged_version_lem (pos 4) (pos 9) (omega arith) (omega arith) (omega arith)
      (omega arith)

abbrev op_at : String → ℤ → ContractOperation
op_at id t = record { table = "notes"; entity_id = id; queued_at_micros = t }

-- `b` was enqueued again while the snapshot was replayed, and `a` failed.
abbrev queued : List ContractOperation
queued = op_at "a" (pos 1) ∷ op_at "b" (pos 7) ∷ []

abbrev seen : List ContractOperation
seen = op_at "a" (pos 1) ∷ op_at "b" (pos 2) ∷ []

abbrev unsent : List ContractOperation
unsent = op_at "a" (pos 1) ∷ []
