-- ===== src/Persistence.antt =====
-- crates/polybase/src/persistence.rs: the store of the local mirror as an interface, and the
-- store that keeps nothing. A method that fails keeps the state.
use polykit_rust.Prelude.{String, Bool, Option, none, List, []}
use polykit_rust.Prelude.Int.{ℤ}
use polykit_rust.Prelude.Result.{Result, ok}
use polykit_rust.Json.{Record}
use polykit_rust.Errors.{PolyError}

pub record VersionRow : Type 0 where
  pub id : String
  pub version : ℤ
  pub deleted : Bool

-- the methods of a store, over a state
pub record LocalStore {ℓ} (S : Type ℓ) : Type ℓ where
  pub switch_user : String → S → Result PolyError S
  pub read_versions : String → List String → S → Result PolyError (List VersionRow)
  pub read_record : String → String → S → Result PolyError (Option Record)
  pub read_all_ids : String → S → Result PolyError (List String)
  pub upsert_record : String → Record → S → Result PolyError S
  pub mark_deleted : String → String → ℤ → S → Result PolyError S
  pub hard_delete : String → String → S → Result PolyError S

abbrev pub null_local_store {ℓ} : {S : Type ℓ} → LocalStore S
null_local_store = record {
  switch_user = λ user_id s. ok s;
  read_versions = λ table ids s. ok [];
  read_record = λ table id s. ok none;
  read_all_ids = λ table s. ok [];
  upsert_record = λ table r s. ok s;
  mark_deleted = λ table id version s. ok s;
  hard_delete = λ table id s. ok s;
}
