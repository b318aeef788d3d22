-- ===== src/Runtime.antt =====
-- The data of sdks/typescript/src/runtime/actor.ts and of the parts of types.ts that it uses.
--
-- A JavaScript value (a context, an input, a payload) is of a type `V`. The store's state is of a
-- type `D`, and all else that user code, the clock and the logger may read and change of a type
-- `S`. A hook, a compensation or a transition's function is an action on both.
pub mod Monad
pub mod Qualify
pub mod Report
pub mod World
pub mod Registry
pub mod Bindings
pub mod Compensation
pub mod Effects
pub mod Step
pub mod Cascade
pub mod Transition
pub mod Entry
pub mod Steady
pub mod Agreement
pub mod Levels
pub mod Start
pub mod Recovery
pub mod CleanUp
pub mod Introspection
pub mod Lifecycle
use dfsm.Prelude.{ℕ, String, Bool, Option, List}
use dfsm.Prelude.Dict.{Dict}
use dfsm.Errors.{Thrown, Raised, Result, Exec}
use dfsm.Validation.{SchemaValidator}
use dfsm.Policy.{Ratio, NormalizedTransitionPolicy}
use dfsm.Policy.Breaker.{Breaker}
use dfsm.Policy.Pipeline.{TransitionOutput}
use dfsm.Machine.{Edge, MachineDefinition}
use dfsm.Machine.StateValue.{StateValue, TransactionStatus}
use dfsm.Store.Contract.{StateStore}

-- The events of `ActorLifecycleHooks`, without the ids of machine and actor, which are the actor's.
pub data HookEvent (V : Type 0) : Type 0 where
  -- `transactionId`, `initialState`, `status`, `context`
  on_start : String → StateValue → TransactionStatus → V → HookEvent V
  -- `transactionId`, `event`, `input`, `currentState`, `context`
  before_transition : String → String → V → StateValue → V → HookEvent V
  -- `transactionId`, `event`, `input`, `previousState`, `currentState`, `status`, `value`,
  -- `context`, `compensatedSteps`, `durationMs`, `error`
  after_transition :
      String
      → String
      → V
      → StateValue
      → StateValue
      → TransactionStatus
      → Option V
      → V
      → ℕ
      → ℕ
      → Option String
      → HookEvent V
  -- `transactionId`, `stepSeq`, `compensateHandler`, `fromState`, `inputSnapshot`,
  -- `updatedContext`, `reason`
  on_compensate : String → ℕ → String → StateValue → V → V → Option String → HookEvent V
  -- `transactionId`, `finalState`, `context`
  on_complete : String → StateValue → V → HookEvent V
  -- `transactionId`, `finalState`, `status`, `context`, `error`
  on_terminal : String → StateValue → TransactionStatus → V → Option String → HookEvent V

-- `TransitionExecutionResult`
pub record TransitionResult (V : Type 0) : Type 0 where
  pub transaction_id : String
  pub previous_state : StateValue
  pub current_state : StateValue
  pub status : TransactionStatus
  pub value : Option V
  pub context : V
  pub compensated_steps : ℕ
  pub error : Option String

-- `EffectRequest`, but for `actor` and `runEffect`
pub record EffectRequest (V : Type 0) : Type 0 where
  pub transaction_id : String
  pub state : StateValue
  pub context : V
  pub payload : Option V

-- What an effect's function does: it ends or throws, changes what is outside the actor, calls
-- `runEffect`, or calls `actor.transition` on its own transaction; a call's result, a throw
-- included, goes to what follows it.
pub data EffectCode (V D S : Type 0) : Type 0 where
  finish : EffectCode V D S
  fail : Raised → EffectCode V D S
  act : (D × S → D × S) → (D × S → EffectCode V D S) → EffectCode V D S
  run_effect : String → Option V → (Result (Unit {0}) → EffectCode V D S) → EffectCode V D S
  send : String → V → (Result (TransitionResult V) → EffectCode V D S) → EffectCode V D S

-- the argument of a compensation's function
pub record CompensateRequest (V : Type 0) : Type 0 where
  pub transaction_id : String
  pub step_seq : ℕ
  pub from_state : StateValue
  pub input_snapshot : V
  pub context_before : V
  pub current_context : V
  pub failure_error : Option String

-- the argument of a transition's pipeline, without its context
pub record PipelineRequest (V : Type 0) : Type 0 where
  pub transaction_id : String
  pub event : String
  pub current_state : StateValue
  pub input : V
  pub started_at : ℕ
  pub metadata : V

-- `CompiledTransitionBinding`, with the function that its pipeline decorates
pub record Binding (V D S : Type 0) : Type 0 where
  pub edge : Edge
  pub resolved_transition_name : Option String
  pub resolved_compensate_name : Option String
  pub policy : NormalizedTransitionPolicy
  pub fn : Option (PipelineRequest V → ℕ → V → Exec (D × S) (Option (TransitionOutput V V) × V))
  pub input_validator : Option (SchemaValidator V V)

pub data LogOutcome : Type 0 where
  success_outcome compensated_outcome fallback_outcome failed_outcome : LogOutcome

-- the argument of `recordTransition`, without the ids of machine and actor
pub record BenchmarkRecord : Type 0 where
  pub timestamp : ℕ
  pub transaction_id : String
  pub event : String
  pub transition_handler : Option String
  pub from_state : StateValue
  pub to_state : StateValue
  pub attempts : ℕ
  pub duration_ms : ℕ
  pub outcome : LogOutcome
  pub error : Option String

pub data OnRestartMode : Type 0 where
  stop mark_fail delete compensate continue : OnRestartMode

-- `InFlightRecoveryConfig`, normalized
pub record RecoveryConfig : Type 0 where
  pub enabled : Bool
  pub stuck_threshold_ms : ℕ
  pub default_action : OnRestartMode
  pub state_actions : Dict OnRestartMode
  pub halt_actor_on_stop : Bool

-- What an actor reads and never changes. The text of a thrown error, the JSON text of a state,
-- which values are `null` or `undefined`, and what the clock and the handlers do are arguments. The
-- subscribed hooks are constant.
pub record Actor (V D S : Type 0) : Type 0 where
  pub machine : MachineDefinition
  pub machine_version : String
  pub namespace : Option String
  pub strict : Bool
  pub actor_id : String
  pub store : StateStore V D
  pub now : S → ℕ
  pub sleep : ℕ → Breaker × (D × S) → Breaker × (D × S)
  pub random_fn : ℕ → Ratio
  pub message : Thrown → String
  pub state_json : StateValue → String
  pub undefined : V
  pub is_nullish : V → Bool
  pub no_metadata : V
  pub recovery_metadata : V
  pub context_validator : Option (SchemaValidator V V)
  pub bindings : String → String → Option (Binding V D S)
  pub resolve_compensate :
      String → Option (String × (CompensateRequest V → Exec (D × S) (Option V)))
  pub resolve_effect : String → Option (String × (EffectRequest V → EffectCode V D S))
  pub hooks : List (HookEvent V → Exec (D × S) (Unit {0}))
  pub record_transition : BenchmarkRecord → Exec (D × S) (Unit {0})
  pub log_recovery : String → StateValue → Exec (D × S) (Unit {0})
  pub recovery : RecoveryConfig
  pub max_effect_chain_depth : ℕ
