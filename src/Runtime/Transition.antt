-- ===== src/Runtime/Transition.antt =====
-- `executeTransitionOnSnapshot` and, but for `initialize`, `transition` of
-- sdks/typescript/src/runtime/actor.ts.
pub mod Refused
use dfsm.Prelude.{
  ℕ, zero, suc, ◌+◌, ◌-◌, String, max, Bool, true, false, Option, none, some, List, [], ◌∷◌, ◌==◌,
  eqb, not, if◌then◌else◌,
}
use dfsm.Prelude.Dict.{Dict, get}
use dfsm.Errors.{
  input, invalid_transition_error, transaction_not_found_error, actor_stopped_by_recovery_error,
  raised, Result, ok, threw, Exec,
}
use dfsm.Engine.Match.{MatchedTransition, resolve_transitions_for_event}
use dfsm.Engine.Status.{resolve_settled_transaction_status, get_available_events}
use dfsm.Machine.StateValue.{
  StateValue, TransactionStatus, idle, in_flight, completed, compensating, compensated, failed,
}
use dfsm.Store.{ActiveStep, Transaction, Compensation, Snapshot, Patch}
use dfsm.Validation.{enforce_validation}
use dfsm.Runtime.{Actor, Binding, TransitionResult, before_transition, after_transition}
use dfsm.Runtime.Monad.{pure, raise, returning, gets, modify, ◌>>=◌, ◌>>◌}
use dfsm.Runtime.World.{
  World, clock_now, update, fetch, remove, revision, bump_revision, emit,
  emit_settled_terminal_hooks, touch,
}
use dfsm.Runtime.Effects.{Calls, chain_too_deep, invoke_single_effect, invoke_effects}
use dfsm.Runtime.Step.{Working, Request, StepEnd, next, settled, truthy, binding_of}
use dfsm.Runtime.Cascade.{run_matches, on_done_loop}

abbrev pub is_in_flight : TransactionStatus → Bool
is_in_flight in_flight = true
is_in_flight _ = false

abbrev pub start_working : {V : Type 0} → Transaction V → ℕ → Working V
start_working t version = record {
  state = t.state_value;
  context = t.context;
  version = version;
  value = none;
  effects = [];
  compensations = [];
}

-- The patch that ends a transition: the state, no step and no lease.
abbrev pub settled_patch :
    {V : Type 0} → Working V → TransactionStatus → Option String → ℕ → Patch V
settled_patch k status error at = record {
  state_value = some k.state;
  context = some k.context;
  status = some status;
  active_step = some none;
  last_error = some error;
  lease_owner = some none;
  lease_expires_at = some none;
  updated_at = at;
}

abbrev pub result_of :
    {V : Type 0}
    → String
    → StateValue
    → Working V
    → TransactionStatus
    → Option V
    → ℕ
    → Option String
    → TransitionResult V
result_of tx previous k status value count error = record {
  transaction_id = tx;
  previous_state = previous;
  current_state = k.state;
  status = status;
  value = value;
  context = k.context;
  compensated_steps = count;
  error = error;
}

-- the result where an effect's nested transition changed the row
abbrev pub latest_result :
    {V : Type 0} → TransitionResult V → Option (Snapshot V) → TransitionResult V
latest_result r none = r
latest_result r (some s) = record r {
  current_state = s.transaction.state_value;
  status = s.transaction.status;
  context = s.transaction.context;
  error = truthy s.transaction.last_error;
}

abbrev pub first_or : {V : Type 0} → (V → Bool) → V → List V → V
first_or is_nullish raw [] = raw
first_or is_nullish raw (v ∷ vs) = if is_nullish v then raw else v

abbrev pub zip : {A B : Type 0} → List A → List B → List (A × B)
zip [] bs = []
zip (a ∷ as_) [] = []
zip (a ∷ as_) (b ∷ bs) = (a, b) ∷ zip as_ bs

abbrev has_depth : String → Dict ℕ → Bool
has_depth tx depths = elim (get tx depths) [ none ↦ false | some d ↦ true ]

-- `if (!this.effectChainDepthByTx.has(id)) this.txTransitionRevision.delete(id)`
abbrev pub forget_revision : {D S : Type 0} → String → Exec (World D S) (Unit {0})
forget_revision tx = modify (λ w. record w {
  revisions = if has_depth tx w.depths then w.revisions else remove tx w.revisions;
})

abbrev pub request_for : {V : Type 0} → Transaction V → String → V → ℕ → Request V
request_for t event metadata at = record {
  transaction_id = t.transaction_id;
  event = event;
  metadata = metadata;
  started_at = at;
}

module _ {V D S : Type 0} where
  -- `binding.validateInput(rawInput)` for each match, before anything is written
  unfoldable pub validate_inputs :
      Actor V D S → V → List MatchedTransition → Exec (World D S) (List V)
  validate_inputs a raw [] = pure []
  validate_inputs a raw (m ∷ ms) = binding_of a m >>= λ b.
      returning (enforce_validation (λ v. v) input raw b.input_validator) >>= λ v.
      validate_inputs a raw ms >>= λ vs. pure (v ∷ vs)

  -- The lease of a step: the row's version after it.
  unfoldable pub mark_in_flight : Actor V D S → Transaction V → String → V → ℕ → Exec (World D S) ℕ
  mark_in_flight a t event raw at =
      if is_in_flight t.status
      then pure t.version
      else update a t.transaction_id t.version
          (record (touch at) {
            status = some in_flight;
            active_step = some (some (record { event = event; input = raw; started_at = at }));
            lease_owner = some (some a.actor_id);
            lease_expires_at = some (some (at + max 30000 a.recovery.stuck_threshold_ms));
          })
          []

  -- the hooks, the effects and the result after the row is written
  unfoldable pub finish_transition :
      Actor V D S
      → Calls V D S
      → Transaction V
      → Request V
      → V
      → Working V
      → TransactionStatus
      → Option V
      → ℕ
      → Option String
      → ℕ
      → Exec (World D S) (TransitionResult V)
  finish_transition a calls t r shown k status value count error at = do
    let tx = t.transaction_id
    bump_revision tx
    emit a (
        after_transition tx r.event shown t.state_value k.state status value k.context count
          (at - r.started_at) error)
    emit_settled_terminal_hooks a tx k.state status k.context error
    before ← revision tx
    invoke_effects a calls tx k.state k.context k.effects
    after ← revision tx
    forget_revision tx
    latest ← fetch a tx
    let own = result_of tx t.state_value k status value count error
    pure (if eqb after before then own else latest_result own latest)

  -- the end after the matches: the failure's row, or the cascade and the row of a success
  unfoldable pub conclude :
      Actor V D S
      → Calls V D S
      → Transaction V
      → Request V
      → V
      → StepEnd V
      → Exec (World D S) (TransitionResult V)
  conclude a calls t r shown (settled k status message count) = do
    at ← clock_now a
    version ← update a t.transaction_id k.version (settled_patch k status (some message) at) []
    finish_transition a calls t r shown k status none count (some message) at
  conclude a calls t r shown (next k) = do
    k' ← on_done_loop 20 a r k
    let status = resolve_settled_transaction_status a.machine k'.state false
    at ← clock_now a
    version ←
        update a t.transaction_id k'.version (settled_patch k' status none at) k'.compensations
    finish_transition a calls t r shown k' status k'.value 0 none at

  -- what follows the validation of the input
  abbrev pub run_validated :
      Actor V D S
      → Calls V D S
      → Transaction V
      → String
      → V
      → V
      → List MatchedTransition
      → List V
      → Exec (World D S) (TransitionResult V)
  run_validated a calls t event raw metadata matches inputs = do
    let shown = first_or a.is_nullish raw inputs
    emit a (before_transition t.transaction_id event shown t.state_value t.context)
    at ← clock_now a
    version ← mark_in_flight a t event raw at
    end ←
        run_matches a (request_for t event metadata at) (zip matches inputs)
          (start_working t version)
    conclude a calls t (request_for t event metadata at) shown end

  -- the part of `executeTransitionOnSnapshot` behind its first guard
  unfoldable pub execute_matches :
      Actor V D S
      → Calls V D S
      → Transaction V
      → String
      → V
      → V
      → List MatchedTransition
      → Exec (World D S) (TransitionResult V)
  execute_matches a calls t event raw metadata matches =
      validate_inputs a raw matches >>= run_validated a calls t event raw metadata matches

  -- its first guard: the event has a match
  abbrev pub handle_matches :
      Actor V D S
      → Calls V D S
      → Transaction V
      → String
      → V
      → V
      → List MatchedTransition
      → Exec (World D S) (TransitionResult V)
  handle_matches a calls t event raw metadata [] =
      raise (raised (invalid_transition_error event (get_available_events a.machine t.state_value)))
  handle_matches a calls t event raw metadata (m ∷ ms) =
      execute_matches a calls t event raw metadata (m ∷ ms)

  -- `executeTransitionOnSnapshot`
  unfoldable pub execute_transition_on_snapshot :
      Actor V D S
      → Calls V D S
      → Transaction V
      → String
      → V
      → V
      → Exec (World D S) (TransitionResult V)
  execute_transition_on_snapshot a calls t event raw metadata =
      handle_matches a calls t event raw metadata
        (resolve_transitions_for_event a.machine t.state_value event)
