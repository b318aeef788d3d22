-- ===== src/Runtime/Step.antt =====
-- The loop over the matches of an event in `executeTransitionOnSnapshot` of
-- sdks/typescript/src/runtime/actor.ts: one pipeline after another, until one fails.
--
-- `safeClone` of a value is the value itself. A missing binding is a type error, as in the source;
-- the text of a target that does not resolve is left out.
use dfsm.Prelude.{
  ℕ, String, Bool, true, false, Option, none, some, List, [], ◌∷◌, ◌++◌, map, ◌==◌, if◌then◌else◌,
}
use dfsm.Prelude.Dict.{get, put}
use dfsm.Prelude.Text.{dotted}
use dfsm.Errors.{error, Thrown, raised, ok, Exec}
use dfsm.Engine.Apply.{AppliedTransition, apply_target_transition}
use dfsm.Engine.Match.{MatchedTransition}
use dfsm.Engine.Status.{resolve_settled_transaction_status}
use dfsm.Machine.StateValue.{StateValue, TransactionStatus, compensating}
use dfsm.Policy.{NormalizedCircuitBreakerPolicy}
use dfsm.Policy.Breaker.{Breaker, new_breaker}
use dfsm.Policy.Breaker.Manager.{Breakers}
use dfsm.Policy.Pipeline.{TransitionOutput, PipelineExecutionOutcome, pipeline}
use dfsm.Store.{Compensation}
use dfsm.Runtime.{Actor, PipelineRequest, Binding}
use dfsm.Runtime.Monad.{pure, raise, ◌>>=◌}
use dfsm.Runtime.World.{World, clock_now, update, touch}
use dfsm.Runtime.Compensation.{unwind_compensation_stack}

-- `workingState` and the other variables of the loop
pub record Working (V : Type 0) : Type 0 where
  pub state : StateValue
  pub context : V
  pub version : ℕ
  pub value : Option V
  pub effects : List (String × Option V)
  pub compensations : List (Compensation V)

-- what the calls of the loop have in common
pub record Request (V : Type 0) : Type 0 where
  pub transaction_id : String
  pub event : String
  pub metadata : V
  pub started_at : ℕ

-- How a match ends: with what goes on to the next one, or settled after a failure, with the status,
-- the error's message and `compensatedStepsCount`.
pub data StepEnd (V : Type 0) : Type 0 where
  next : Working V → StepEnd V
  settled : Working V → TransactionStatus → String → ℕ → StepEnd V

-- `if (name)`
abbrev pub truthy : Option String → Option String
truthy none = none
truthy (some s) = if s == "" then none else some s

abbrev pub or_else : Option String → Option String → Option String
or_else none o = o
or_else (some s) o = some s

abbrev pub or_text : Option String → String → String
or_text none s = s
or_text (some t) s = t

abbrev pub or_value : {V : Type 0} → Option V → Option V → Option V
or_value none old = old
or_value (some v) old = some v

-- effects that the machine names, which have no payload
abbrev pub named : {V : Type 0} → List String → List (String × Option V)
named names = map (λ n. (n, none)) names

abbrev pub add_effects : {V : Type 0} → List (String × Option V) → Working V → Working V
add_effects es k = record k { effects = k.effects ++ es }

-- the breaker that `getOrCreate` gave to the binding
abbrev pub breaker_of : NormalizedCircuitBreakerPolicy → Breakers → Breaker
breaker_of policy m = elim (get policy.key m) [ none ↦ new_breaker policy | some b ↦ b ]

-- `if (name) pendingCompensations.push(…)`
abbrev push_compensation :
    {V : Type 0} → Option String → (String → Compensation V) → Working V → Working V
push_compensation none entry k = k
push_compensation (some key) entry k = record k {
  compensations = k.compensations ++ entry key ∷ [];
}

abbrev pub applied_or_throw :
    {D S : Type 0} → Option AppliedTransition → Exec (World D S) AppliedTransition
applied_or_throw none = raise (raised (error ""))
applied_or_throw (some t) = pure t

module _ {V D S : Type 0} where
  abbrev pub binding_or_throw : Option (Binding V D S) → Exec (World D S) (Binding V D S)
  binding_or_throw none =
      raise (raised (error "Cannot read properties of undefined (reading 'validateInput')"))
  binding_or_throw (some b) = pure b

  -- `this.compiledBindings.get(this.bindingKey(…))!`
  abbrev pub binding_of : Actor V D S → MatchedTransition → Exec (World D S) (Binding V D S)
  binding_of a m = binding_or_throw (a.bindings m.source_node.path m.edge.event)

  -- `applyTargetTransition` on the working state
  abbrev pub apply_target :
      Actor V D S → StateValue → String → String → Exec (World D S) AppliedTransition
  apply_target a state source target =
      applied_or_throw (apply_target_transition a.machine state source target)

  abbrev pub with_request :
      PipelineRequest V
      → Option (PipelineRequest V → ℕ → V → Exec (D × S) (Option (TransitionOutput V V) × V))
      → Option (ℕ → V → Exec (D × S) (Option (TransitionOutput V V) × V))
  with_request request none = none
  with_request request (some fn) = some (fn request)

  -- `pipeline.execute`, on the binding's breaker
  unfoldable pub run_pipeline :
      Actor V D S
      → Binding V D S
      → PipelineRequest V
      → V
      → Exec (World D S) (PipelineExecutionOutcome V V)
  run_pipeline a b request context w =
      let (outcome, (breaker, rest)) =
        pipeline (with_request request b.fn) a.context_validator b.policy (λ (r : D × S). a.now r.1)
          a.sleep a.random_fn context (breaker_of b.policy.circuit_breaker w.breakers, w.rest) in
      (
        ok outcome,
        record w { rest = rest; breakers = put b.policy.circuit_breaker.key breaker w.breakers },
      )

  -- the working state and the effects of a move to a target, if there is one
  abbrev pub moved :
      Actor V D S
      → String
      → Option String
      → List (String × Option V)
      → Working V
      → Exec (World D S) (Working V)
  moved a source none own k = pure (add_effects own k)
  moved a source (some target) own k = do
    t ← apply_target a k.state source target
    pure (
        add_effects (named t.exit_effects ++ (own ++ named t.entry_effects))
          (record k { state = t.next_state_value }))

  abbrev compensation_of :
      Actor V D S
      → Request V
      → MatchedTransition
      → Binding V D S
      → Working V
      → V
      → String
      → ℕ
      → Compensation V
  compensation_of a r m b before input key at = record {
    transition_key = or_text b.resolved_transition_name (dotted m.source_node.path r.event);
    compensate_key = key;
    from_state = before.state;
    input_snapshot = input;
    context_before = before.context;
    created_at = at;
    compensated_at = none;
  }

  -- the callback's branch of a success
  unfoldable pub settle_success :
      Actor V D S
      → Request V
      → MatchedTransition
      → Binding V D S
      → V
      → TransitionOutput V V
      → V
      → Working V
      → Exec (World D S) (Working V)
  settle_success a r m b input output next_context k = do
    k' ←
        moved a m.source_node.path (truthy (or_else output.target_state b.edge.target))
          (named b.edge.effects ++ output.effects) k
    at ← clock_now a
    pure (
        push_compensation (truthy b.resolved_compensate_name)
          (λ key. compensation_of a r m b k input key at)
          (record k' { context = next_context; value = or_value output.value k'.value }))

  -- what earlier matches of the broadcast left to compensate
  abbrev pub persist_those :
      Actor V D S → Request V → Working V → List (Compensation V) → Exec (World D S) (Working V)
  persist_those a r k [] = pure k
  persist_those a r k (c ∷ cs) = do
    at ← clock_now a
    version ← update a r.transaction_id k.version (touch at) (c ∷ cs)
    pure (record k { version = version; compensations = [] })

  abbrev pub persist_pending : Actor V D S → Request V → Working V → Exec (World D S) (Working V)
  persist_pending a r k = persist_those a r k k.compensations

  -- the working variables and the count after a compensation, if it is requested
  abbrev pub compensate_if :
      Bool → Actor V D S → Request V → String → Working V → Exec (World D S) (Working V × ℕ)
  compensate_if false a r message k = pure (k, 0)
  compensate_if true a r message k = do
    at ← clock_now a
    version ←
        update a r.transaction_id k.version
          (record (touch at) { status = some compensating; last_error = some (some message) }) []
    unwound ← unwind_compensation_stack a r.transaction_id k.context (some message)
    pure (record k { version = version; context = unwound.0 }, unwound.1)

  -- the callback's branch of a failure
  unfoldable pub settle_failure :
      Actor V D S
      → Request V
      → MatchedTransition
      → Thrown
      → Bool
      → String
      → Working V
      → Exec (World D S) (StepEnd V)
  settle_failure a r m e requested fallback k = do
    persisted ← persist_pending a r k
    let message = a.message e
    done_with ← compensate_if requested a r message persisted
    let k' = done_with.0
    t ← apply_target a k'.state m.source_node.path fallback
    let status = resolve_settled_transaction_status a.machine t.next_state_value requested
    pure (
        settled
          (record k' {
            state = t.next_state_value;
            effects = named t.exit_effects ++ named t.entry_effects;
          })
          status message done_with.1)
