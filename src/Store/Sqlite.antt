-- ===== src/Store/Sqlite.antt =====
-- sdks/typescript/src/store/sqlite-store.ts: the store on two SQL tables.
--
-- A table is the list of its rows in the order of insertion; each SQL statement of the source is a
-- function on the rows, with the schema's primary key and its cascade. `JSON.stringify` and
-- `JSON.parse` are inverse on the data kept, and `state_json = ?` compares the texts: `same_state`.
-- Rows with the same `updated_at` keep the order of insertion. The surrogate `id` is left out.
pub mod Rows
pub mod Columns
pub mod Versions
pub mod Stack
pub mod Queries
pub mod Deletion
pub mod Marks
pub mod Refines
use dfsm.Prelude.{
  ℕ, zero, suc, ◌+◌, String, max, Bool, true, false, not, ◌&&◌, ◌||◌, Option, none, some, List, [],
  ◌∷◌, ◌++◌, map, ◌==◌, eqb, leb, ltb, length, take, drop, filter, if◌then◌else◌,
}
use dfsm.Prelude.Dict.{includes}
use dfsm.Errors.{Thrown, error, stale_transaction_version_error, raised, Result, ok, threw}
use dfsm.Machine.StateValue.{
  StateValue, TransactionStatus, idle, in_flight, completed, compensating, compensated, failed,
}
use dfsm.Store.{Transaction, Compensation, CompensationEntry, Snapshot, Patch, QueryFilter, Summary}

-- the tables `dfsm_transactions` and `dfsm_compensation_stack`
pub record Db (V : Type 0) : Type 0 where
  pub transactions : List (Transaction V)
  pub stack : List (CompensationEntry V)

-- `col = ?` where the patch has the field
abbrev pub set_column {ℓ} : {A : Type ℓ} → Option A → A → A
set_column none old = old
set_column (some new) old = new

module _ {V : Type 0} where
  abbrev pub find_transaction : String → List (Transaction V) → Option (Transaction V)
  find_transaction id [] = none
  find_transaction id (t ∷ ts) = if t.transaction_id == id then some t else find_transaction id ts

  -- `INSERT INTO dfsm_transactions`, which the primary key refuses for an id that is there
  unfoldable pub create_transaction : Transaction V → Db V → Result (Unit {0}) × Db V
  create_transaction t db = elim (find_transaction t.transaction_id db.transactions) [
    | some other ↦
        (threw (raised (error "UNIQUE constraint failed: dfsm_transactions.transaction_id")), db)
    | none ↦ (ok tt, record db { transactions = db.transactions ++ t ∷ [] })
  ]

  -- `ORDER BY step_seq DESC`
  abbrev pub insert_desc :
      CompensationEntry V → List (CompensationEntry V) → List (CompensationEntry V)
  insert_desc e [] = e ∷ []
  insert_desc e (f ∷ fs) = if ltb e.step_seq f.step_seq then f ∷ insert_desc e fs else e ∷ f ∷ fs

  abbrev pub sort_desc : List (CompensationEntry V) → List (CompensationEntry V)
  sort_desc [] = []
  sort_desc (e ∷ es) = insert_desc e (sort_desc es)

  abbrev pub of_transaction : String → CompensationEntry V → Bool
  of_transaction id e = e.transaction_id == id

  unfoldable pub get_transaction : String → Db V → Option (Snapshot V)
  get_transaction id db = elim (find_transaction id db.transactions) [
    | none ↦ none
    | some t ↦ some (record {
      transaction = t;
      compensation_stack = sort_desc (filter (of_transaction id) db.stack);
    })
  ]

  -- the `SET` clauses
  abbrev pub patched : ℕ → Patch V → Transaction V → Transaction V
  patched next_version p t = record t {
    state_value = set_column p.state_value t.state_value;
    context = set_column p.context t.context;
    status = set_column p.status t.status;
    active_step = set_column p.active_step t.active_step;
    last_error = set_column p.last_error t.last_error;
    version = next_version;
    lease_owner = set_column p.lease_owner t.lease_owner;
    lease_expires_at = set_column p.lease_expires_at t.lease_expires_at;
    updated_at = p.updated_at;
  }

  -- `WHERE transaction_id = ? AND version = ?`
  abbrev pub is_current : String → ℕ → Transaction V → Bool
  is_current id expected t = t.transaction_id == id && eqb t.version expected

  pub update_rows : String → ℕ → Patch V → List (Transaction V) → List (Transaction V)
  update_rows id expected p [] = []
  update_rows id expected p (t ∷ ts) =
      (if is_current id expected t then patched (suc expected) p t else t)
      ∷ update_rows id expected p ts

  -- `COALESCE(MAX(step_seq), 0)`
  unfoldable pub max_seq : String → List (CompensationEntry V) → ℕ
  max_seq id [] = 0
  max_seq id (e ∷ es) =
      let others = max_seq id es in if of_transaction id e then max e.step_seq others else others

  -- the inserts, from `nextSeq` on
  unfoldable pub numbered : String → ℕ → List (Compensation V) → List (CompensationEntry V)
  numbered id next [] = []
  numbered id next (c ∷ cs) =
      record { transaction_id = id; step_seq = next; entry = c } ∷ numbered id (suc next) cs

  -- A throw rolls the transaction back.
  unfoldable pub update_transaction :
      String → ℕ → Patch V → List (Compensation V) → Db V → Result ℕ × Db V
  unfolding update_rows max_seq numbered
  update_transaction id expected p appended db =
      if eqb (length (filter (is_current id expected) db.transactions)) 1
      then (
        ok (suc expected),
        record {
          transactions = update_rows id expected p db.transactions;
          stack = db.stack ++ numbered id (suc (max_seq id db.stack)) appended;
        },
      )
      else (threw (raised (stale_transaction_version_error id expected)), db)

  abbrev pub is_uncompensated : CompensationEntry V → Bool
  is_uncompensated e = elim e.entry.compensated_at [ none ↦ true | some at ↦ false ]

  abbrev pub pending_of : String → CompensationEntry V → Bool
  pending_of id e = of_transaction id e && is_uncompensated e

  unfoldable pub get_uncompensated_stack : String → Db V → List (CompensationEntry V)
  get_uncompensated_stack id db = sort_desc (filter (pending_of id) db.stack)

  abbrev pub mark_row : String → ℕ → ℕ → CompensationEntry V → CompensationEntry V
  mark_row id seq at e =
      if of_transaction id e && eqb e.step_seq seq
      then record e { entry = record e.entry { compensated_at = some at } }
      else e

  abbrev pub mark_rows : String → ℕ → ℕ → List (CompensationEntry V) → List (CompensationEntry V)
  mark_rows id seq at [] = []
  mark_rows id seq at (e ∷ es) = mark_row id seq at e ∷ mark_rows id seq at es

  unfoldable pub mark_compensation_executed : String → ℕ → ℕ → Db V → Db V
  mark_compensation_executed id seq at db = record db { stack = mark_rows id seq at db.stack }

  -- `DELETE … WHERE transaction_id IN (…)`, with `ON DELETE CASCADE`; the number of rows deleted
  unfoldable pub delete_transactions : List String → Db V → ℕ × Db V
  delete_transactions ids db = (
    length (filter (λ (t : Transaction V). includes t.transaction_id ids) db.transactions),
    record {
      transactions =
          filter (λ (t : Transaction V). not (includes t.transaction_id ids)) db.transactions;
      stack = filter (λ (e : CompensationEntry V). not (includes e.transaction_id ids)) db.stack;
    },
  )
