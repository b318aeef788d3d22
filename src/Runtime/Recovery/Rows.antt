-- ===== src/Runtime/Recovery/Rows.antt =====
-- The writes that `executeRecoverySweep` and `forceCleanUp` (runtime/actor.ts) have in common, and
-- the queries of an actor's own machine.
use dfsm.Prelude.{ℕ, String, Option, none, some, List, []}
use dfsm.Errors.{Exec}
use dfsm.Machine.StateValue.{leaf, TransactionStatus, idle, compensating, compensated, failed}
use dfsm.Store.{QueryFilter, Summary, Patch}
use dfsm.Runtime.{Actor}
use dfsm.Runtime.Monad.{pure, ◌>>=◌}
use dfsm.Runtime.World.{World, clock_now, update, touch}
use dfsm.Runtime.Compensation.{unwind_compensation_stack}

-- the patch that ends a transaction in the state `error`
abbrev ended : {V : Type 0} → TransactionStatus → String → Option V → ℕ → Patch V
ended status reason context at = record {
  state_value = some (leaf "error");
  context = context;
  status = some status;
  active_step = some none;
  last_error = some (some reason);
  lease_owner = some none;
  lease_expires_at = some none;
  updated_at = at;
}

module _ {V D S : Type 0} where
  -- `MARK_FAIL`
  unfoldable pub mark_failed : Actor V D S → String → Summary V → Exec (World D S) (Unit {0})
  mark_failed a reason item = do
    at ← clock_now a
    version ← update a item.transaction_id item.version (ended failed reason none at) []
    pure tt

  -- `COMPENSATE`
  unfoldable pub compensate_row : Actor V D S → String → Summary V → Exec (World D S) (Unit {0})
  compensate_row a reason item = do
    at ← clock_now a
    version ←
        update a item.transaction_id item.version (record (touch at) { status = some compensating })
          []
    unwound ← unwind_compensation_stack a item.transaction_id item.context (some reason)
    later ← clock_now a
    last ← update a item.transaction_id version (ended compensated reason (some unwound.0) later) []
    pure tt

  -- the end of a step's lease: the row's version after it
  unfoldable pub unlock : Actor V D S → String → ℕ → Exec (World D S) ℕ
  unlock a tx version = do
    at ← clock_now a
    update a tx version
        (record (touch at) {
          status = some idle;
          active_step = some none;
          lease_owner = some none;
          lease_expires_at = some none;
        })
        []

  -- `this.store.queryTransactions`
  unfoldable pub query : Actor V D S → QueryFilter → ℕ → ℕ → Exec (World D S) (List (Summary V))
  query a filter now threshold w =
      (a.store.query_transactions (some filter) now threshold w.rest.0, w)

  -- `this.store.deleteTransactions`
  unfoldable pub delete_rows : Actor V D S → List String → Exec (World D S) ℕ
  delete_rows a ids w =
      let (n, d) = a.store.delete_transactions ids w.rest.0 in
      pure n (record w { rest = (d, w.rest.1) })

  -- `{ machineId: this.machine.id, statuses }`
  abbrev pub statuses_of : Actor V D S → List TransactionStatus → QueryFilter
  statuses_of a statuses = record {
    machine_id = some a.machine.id;
    actor_id = none;
    transaction_ids = none;
    statuses = some statuses;
    stuck_before_timestamp = none;
    older_than_timestamp = none;
    state_equals = none;
    limit = none;
    offset = none;
  }
