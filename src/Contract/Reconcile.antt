-- ===== src/Contract/Reconcile.antt =====
-- `determine_reconcile_action` of contract.rs: what to do about one row that both sides have.
use polykit_rust.Prelude.{◌≡◌, ◌↔◌, ◌⊎◌, Bool, true, false, not, ◌&&◌, arith, if◌then◌else◌}
use polykit_rust.Prelude.Int.{ℤ, ◌≤ℤ◌, ◌<ℤ◌, leb_ℤ, ltb_ℤ}
use polykit_rust.Contract.Version.{undelete_minimum_version}

pub data ReconcileAction : Type 0 where
  adopt_tombstone pull push skip : ReconcileAction

unfoldable pub determine_reconcile_action : ℤ → Bool → ℤ → Bool → ReconcileAction
determine_reconcile_action local_version local_deleted remote_version remote_deleted =
    if remote_deleted && not local_deleted
    then (if leb_ℤ (undelete_minimum_version remote_version) local_version
        then push
        else adopt_tombstone)
    else if local_deleted && not remote_deleted
    then push
    else if ltb_ℤ local_version remote_version
    then pull
    else if ltb_ℤ remote_version local_version
    then push
    else skip

-- What is done about a row, by what its sides say. It is skipped exactly when both sides agree;
-- the tombstone is adopted exactly when only the remote side is deleted and the local version is
-- below the undelete threshold; the remote row is pulled exactly when both sides are deleted or
-- both live, and its version is higher; and the local row is pushed exactly when it is a live row at
-- or above the threshold over a tombstone, or a tombstone over a live row, of whatever version, or
-- has the higher version where both are deleted or both live.
pub reconcile_decides :
    (l r : ℤ) (dl dr : Bool)
    → let action = determine_reconcile_action l dl r dr in
      ((action ≡ skip) ↔ ((l ≡ r) × (dl ≡ dr)))
      × ((action ≡ adopt_tombstone)
          ↔ ((dl ≡ false) × (dr ≡ true) × (l <ℤ undelete_minimum_version r)))
      × ((action ≡ pull) ↔ ((dl ≡ dr) × (l <ℤ r)))
      × ((action ≡ push) ↔ (
          ((dl ≡ false) × (dr ≡ true) × (undelete_minimum_version r ≤ℤ l))
          ⊎ ((dl ≡ true) × (dr ≡ false))
          ⊎ ((dl ≡ dr) × (r <ℤ l))))
unfolding determine_reconcile_action
reconcile_decides l r dl dr = (ground arith, ground arith, ground arith, ground arith)
