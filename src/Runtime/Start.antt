-- ===== src/Runtime/Start.antt =====
-- `startTransaction` of sdks/typescript/src/runtime/actor.ts. A machine whose initial
-- state is not there is a type error, whose text is left out.
use dfsm.Prelude.{ℕ, String, false, Option, none, some, List}
use dfsm.Errors.{initial_context, error, raised, Exec}
use dfsm.Engine.Enter.{resolve_initial_state}
use dfsm.Engine.Status.{resolve_settled_transaction_status}
use dfsm.Machine.StateValue.{StateValue, TransactionStatus}
use dfsm.Store.{Transaction}
use dfsm.Validation.{enforce_validation}
use dfsm.Runtime.{Actor, on_start}
use dfsm.Runtime.Monad.{pure, raise, returning, ◌>>=◌, ◌>>◌}
use dfsm.Runtime.World.{World, stored, clock_now, emit, emit_settled_terminal_hooks}
use dfsm.Runtime.Effects.{invoke_effects}
use dfsm.Runtime.Step.{named}
use dfsm.Runtime.Entry.{ensure_ready}
use dfsm.Runtime.Lifecycle.{start_up, calls_of}

abbrev pub initial_or_throw :
    {D S : Type 0} → Option (StateValue × List String) → Exec (World D S) (StateValue × List String)
initial_or_throw none = raise (raised (error ""))
initial_or_throw (some i) = pure i

module _ {V D S : Type 0} where
  -- the row that is created, at a time
  abbrev pub initial_row :
      Actor V D S → String → StateValue → V → TransactionStatus → ℕ → Transaction V
  initial_row a tx state context status now = record {
    transaction_id = tx;
    machine_id = a.machine.id;
    machine_version = a.machine_version;
    actor_id = a.actor_id;
    state_value = state;
    context = context;
    status = status;
    active_step = none;
    last_error = none;
    version = 1;
    lease_owner = none;
    lease_expires_at = none;
    created_at = now;
    updated_at = now;
  }

  -- The hooks and the entry effects, once the row is there.
  unfoldable pub announce :
      Actor V D S
      → String
      → StateValue
      → TransactionStatus
      → V
      → List String
      → Exec (World D S) String
  announce a tx state status context entry = do
    emit a (on_start tx state status context)
    emit_settled_terminal_hooks a tx state status context none
    invoke_effects a (calls_of a) tx state context (named entry)
    pure tx

  -- `startTransaction`, with the id given or drawn at random
  unfoldable pub start_transaction : Actor V D S → V → String → Exec (World D S) String
  start_transaction a context tx = do
    ensure_ready a (start_up a)
    checked ← returning (enforce_validation (λ v. v) initial_context context a.context_validator)
    now ← clock_now a
    initial ← initial_or_throw (resolve_initial_state a.machine)
    let status = resolve_settled_transaction_status a.machine initial.0 false
    stored (a.store.create_transaction (initial_row a tx initial.0 checked status now))
    announce a tx initial.0 status checked initial.1
