-- ===== src/Store.antt =====
-- sdks/typescript/src/store/store.ts and the records of types.ts that a store keeps.
--
-- A value that a store keeps as JSON (a context, an input) is of a type `V`. A field of a patch
-- that is `undefined` is `none`, and one that is `null` is `some none`.
pub mod Contract
pub mod Sqlite
pub mod Mongo
use dfsm.Prelude.{ℕ, String, Bool, Option, List}
use dfsm.Machine.StateValue.{StateValue, TransactionStatus}

pub record ActiveStep (V : Type 0) : Type 0 where
  pub event : String
  pub input : V
  pub started_at : ℕ

-- `TransactionRecord`
pub record Transaction (V : Type 0) : Type 0 where
  pub transaction_id : String
  pub machine_id : String
  pub machine_version : String
  pub actor_id : String
  pub state_value : StateValue
  pub context : V
  pub status : TransactionStatus
  pub active_step : Option (ActiveStep V)
  pub last_error : Option String
  pub version : ℕ
  pub lease_owner : Option String
  pub lease_expires_at : Option ℕ
  pub created_at : ℕ
  pub updated_at : ℕ

-- `CompensationEntryRecord` without `id`, and without `stepSeq` where it is appended
pub record Compensation (V : Type 0) : Type 0 where
  pub transition_key : String
  pub compensate_key : String
  pub from_state : StateValue
  pub input_snapshot : V
  pub context_before : V
  pub created_at : ℕ
  pub compensated_at : Option ℕ

pub record CompensationEntry (V : Type 0) : Type 0 where
  pub transaction_id : String
  pub step_seq : ℕ
  pub entry : Compensation V

-- `TransactionSnapshot`
pub record Snapshot (V : Type 0) : Type 0 where
  pub transaction : Transaction V
  pub compensation_stack : List (CompensationEntry V)

-- `TransactionUpdatePatch`
pub record Patch (V : Type 0) : Type 0 where
  pub state_value : Option StateValue
  pub context : Option V
  pub status : Option TransactionStatus
  pub active_step : Option (Option (ActiveStep V))
  pub last_error : Option (Option String)
  pub lease_owner : Option (Option String)
  pub lease_expires_at : Option (Option ℕ)
  pub updated_at : ℕ

-- `TransactionQueryFilter`
pub record QueryFilter : Type 0 where
  pub machine_id : Option String
  pub actor_id : Option String
  pub transaction_ids : Option (List String)
  pub statuses : Option (List TransactionStatus)
  pub stuck_before_timestamp : Option ℕ
  pub older_than_timestamp : Option ℕ
  pub state_equals : Option StateValue
  pub limit : Option ℕ
  pub offset : Option ℕ

-- `TransactionSummary`
pub record Summary (V : Type 0) : Type 0 where
  pub transaction_id : String
  pub machine_id : String
  pub actor_id : String
  pub state_value : StateValue
  pub status : TransactionStatus
  pub context : V
  pub is_stuck : Bool
  pub active_step : Option (ActiveStep V)
  pub compensation_depth : ℕ
  pub version : ℕ
  pub created_at : ℕ
  pub updated_at : ℕ
