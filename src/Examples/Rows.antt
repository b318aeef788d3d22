-- ===== src/Examples/Rows.antt =====
-- Updates of one row, by two writers (store/sqlite-store.ts).
use dfsm.Prelude.{ℕ, String, ◌≡◌, refl, none, some, [], ◌∷◌}
use dfsm.Errors.{stale_transaction_version_error, raised, threw}
use dfsm.Machine.StateValue.{leaf, TransactionStatus, idle, in_flight, completed}
use dfsm.Store.{Transaction, Compensation, CompensationEntry, Patch}
use dfsm.Store.Sqlite.{Db, update_transaction, max_seq, numbered, get_uncompensated_stack}
use dfsm.Store.Sqlite.Rows.{Keyed}
use dfsm.Store.Sqlite.Stack.{last_appended_first}
use dfsm.Store.Sqlite.Versions.{no_lost_update}

abbrev row : String → ℕ → Transaction ℕ
row id version = record {
  transaction_id = id;
  machine_id = "order";
  machine_version = "1";
  actor_id = "a";
  state_value = leaf "open";
  context = 4;
  status = idle;
  active_step = none;
  last_error = none;
  version = version;
  lease_owner = none;
  lease_expires_at = none;
  created_at = 10;
  updated_at = 10;
}

abbrev set_status : TransactionStatus → Patch ℕ
set_status status = record {
  state_value = none;
  context = none;
  status = some status;
  active_step = none;
  last_error = none;
  lease_owner = none;
  lease_expires_at = none;
  updated_at = 20;
}

abbrev tables : Db ℕ
tables = record { transactions = row "t1" 1 ∷ row "t2" 5 ∷ []; stack = [] }

tables-Keyed : Keyed tables.transactions
tables-Keyed = (refl, (refl, tt))

no_lost_update_example :
    update_transaction "t1" 1
      (set_status completed)
      []
      (update_transaction "t1" 1 (set_status in_flight) [] tables).1
    ≡ (
      threw (raised (stale_transaction_version_error "t1" 1)),
      (update_transaction "t1" 1 (set_status in_flight) [] tables).1,
    )
no_lost_update_example =
    no_lost_update "t1" 1 (set_status in_flight) (set_status completed) [] [] tables (row "t1" 1)
      tables-Keyed refl refl

abbrev undo : String → Compensation ℕ
undo key = record {
  transition_key = key;
  compensate_key = key;
  from_state = leaf "open";
  input_snapshot = 0;
  context_before = 0;
  created_at = 15;
  compensated_at = none;
}

abbrev undo_row : String → ℕ → CompensationEntry ℕ
undo_row key seq = record { transaction_id = "t1"; step_seq = seq; entry = undo key }

-- `t1` has one compensation to run.
abbrev charged : Db ℕ
charged = record tables { stack = undo_row "refund" 1 ∷ [] }

last_appended_first_example :
    get_uncompensated_stack "t1"
      (update_transaction "t1" 1
        (set_status completed)
        (undo "restock" ∷ undo "cancel" ∷ [])
        charged).1
    ≡ undo_row "cancel" 3 ∷ undo_row "restock" 2 ∷ undo_row "refund" 1 ∷ []
unfolding get_uncompensated_stack numbered max_seq
last_appended_first_example =
    last_appended_first "t1" 1 (set_status completed) (undo "restock" ∷ undo "cancel" ∷ []) charged
      (row "t1" 1) tables-Keyed refl refl (refl, (refl, tt))
