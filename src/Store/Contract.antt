-- ===== src/Store/Contract.antt =====
-- sdks/typescript/src/store/store.ts: the interface `StateStore`, and what a runtime relies on.
--
-- A store keeps a state of a type `D`. `initialize`, `close` and `driverName` are left out: the
-- modelled runtime runs on a store that is open, and its reads, marks and deletions do not fail.
use dfsm.Prelude.{ℕ, suc, String, ◌≡◌, ◌≢◌, Bool, not, Option, none, some, List, [], eqb, filter}
use dfsm.Errors.{stale_transaction_version_error, raised, Result, ok, threw}
use dfsm.Store.{Transaction, Compensation, CompensationEntry, Snapshot, Patch, QueryFilter, Summary}

pub record StateStore (V D : Type 0) : Type 0 where
  pub create_transaction : Transaction V → D → Result (Unit {0}) × D
  pub get_transaction : String → D → Option (Snapshot V)
  pub update_transaction : String → ℕ → Patch V → List (Compensation V) → D → Result ℕ × D
  pub get_uncompensated_stack : String → D → List (CompensationEntry V)
  pub mark_compensation_executed : String → ℕ → ℕ → D → D
  pub count_transactions : Option QueryFilter → D → ℕ
  pub query_transactions : Option QueryFilter → ℕ → ℕ → D → Result (List (Summary V))
  pub delete_transactions : List String → D → ℕ × D

-- the row of a transaction
abbrev pub row_of : {V : Type 0} → Option (Snapshot V) → Option (Transaction V)
row_of none = none
row_of (some s) = some s.transaction

abbrev pub differs : {V : Type 0} → ℕ → CompensationEntry V → Bool
differs seq e = not (eqb e.step_seq seq)

-- the column of a patch: the value that it gives, or the old one
abbrev pub Column : {A : Type 0} → Option A → A → A → Type 0
Column none old new = new ≡ old
Column (some given) old new = new ≡ given

-- `u` is the row `t` with the columns of the patch and the version `v`.
pub record IsPatched {V : Type 0} (v : ℕ) (p : Patch V) (t u : Transaction V) : Type 0 where
  pub transaction_id : u.transaction_id ≡ t.transaction_id
  pub machine_id : u.machine_id ≡ t.machine_id
  pub machine_version : u.machine_version ≡ t.machine_version
  pub actor_id : u.actor_id ≡ t.actor_id
  pub state_value : Column p.state_value t.state_value u.state_value
  pub context : Column p.context t.context u.context
  pub status : Column p.status t.status u.status
  pub active_step : Column p.active_step t.active_step u.active_step
  pub last_error : Column p.last_error t.last_error u.last_error
  pub version : u.version ≡ v
  pub lease_owner : Column p.lease_owner t.lease_owner u.lease_owner
  pub lease_expires_at : Column p.lease_expires_at t.lease_expires_at u.lease_expires_at
  pub created_at : u.created_at ≡ t.created_at
  pub updated_at : u.updated_at ≡ p.updated_at

-- The promises of the interface, for the states that are valid: the store's operations lead from
-- one to another.
pub record Lawful {V D : Type 0} (s : StateStore V D) (IsValid : D → Type 0) : Type 0 where
  pub create_IsValid :
      (d : D) (t : Transaction V) → IsValid d → IsValid (s.create_transaction t d).1
  pub update_IsValid :
      (d : D) (id : String) (v : ℕ) (p : Patch V) (cs : List (Compensation V))
      → IsValid d
      → IsValid (s.update_transaction id v p cs d).1
  pub mark_IsValid :
      (d : D) (id : String) (seq at : ℕ)
      → IsValid d
      → IsValid (s.mark_compensation_executed id seq at d)
  pub delete_IsValid :
      (d : D) (ids : List String) → IsValid d → IsValid (s.delete_transactions ids d).1
  -- a row has the id under which it is found
  pub found_id :
      (d : D) (id : String) (t : Snapshot V)
      → s.get_transaction id d ≡ some t
      → t.transaction.transaction_id ≡ id
  -- a row is there after its creation, as it was given
  pub created :
      (d : D) (t : Transaction V)
      → IsValid d
      → row_of (s.get_transaction t.transaction_id d) ≡ none
      → ((s.create_transaction t d).0 ≡ ok tt)
        × (row_of (s.get_transaction t.transaction_id (s.create_transaction t d).1) ≡ some t)
  -- optimistic concurrency
  pub update_current :
      (d : D) (id : String) (v : ℕ) (p : Patch V) (cs : List (Compensation V)) (t : Transaction V)
      → IsValid d
      → row_of (s.get_transaction id d) ≡ some t
      → t.version ≡ v
      → (u : Transaction V) × ((s.update_transaction id v p cs d).0 ≡ ok (suc v))
        × (row_of (s.get_transaction id (s.update_transaction id v p cs d).1) ≡ some u)
        × IsPatched (suc v) p t u
  pub update_stale :
      (d : D) (id : String) (v : ℕ) (p : Patch V) (cs : List (Compensation V)) (t : Transaction V)
      → IsValid d
      → row_of (s.get_transaction id d) ≡ some t
      → t.version ≢ v
      → s.update_transaction id v p cs d
        ≡ (threw (raised (stale_transaction_version_error id v)), d)
  -- a compensation that is marked is pending no more, and the others stay, in their order
  pub pending_mark :
      (d : D) (id : String) (seq at : ℕ)
      → IsValid d
      → s.get_uncompensated_stack id (s.mark_compensation_executed id seq at d)
        ≡ filter (differs seq) (s.get_uncompensated_stack id d)
  pub mark_keeps_row :
      (d : D) (id j : String) (seq at : ℕ)
      → row_of (s.get_transaction j (s.mark_compensation_executed id seq at d))
        ≡ row_of (s.get_transaction j d)
  -- an update appends to the stack, and changes no entry that is there
  pub pending_update :
      (d : D) (id : String) (v : ℕ) (p : Patch V)
      → s.get_uncompensated_stack id (s.update_transaction id v p [] d).1
        ≡ s.get_uncompensated_stack id d
