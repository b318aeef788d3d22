-- ===== src/Runtime/Bindings.antt =====
-- `compileMachineBindings` of sdks/typescript/src/runtime/actor.ts, which the actor's constructor
-- calls.
--
-- The registry and the event validators of the actor's configuration are arguments.
pub mod References
pub mod Distinct
pub mod Known
pub mod Notes
pub mod Missing
use dfsm.Prelude.{
  ℕ, String, Bool, Option, none, some, List, [], ◌∷◌, ◌++◌, ◌==◌, filter, not, if◌then◌else◌,
}
use dfsm.Prelude.Text.{append}
use dfsm.Prelude.Dict.{Dict, get, put, includes}
use dfsm.Errors.{unregistered_handler_error, raised, Result, ok, threw, Exec}
use dfsm.Validation.{SchemaValidator}
use dfsm.Policy.{PartialTransitionPolicy, NormalizedTransitionPolicy}
use dfsm.Policy.Merger.{normalize_transition_policy}
use dfsm.Policy.Breaker.{Breaker}
use dfsm.Policy.Breaker.Manager.{Breakers, get_or_create}
use dfsm.Policy.Pipeline.{TransitionOutput}
use dfsm.Machine.{NodeInfo, Edge, StateNode, States, state, no_states, child, MachineDefinition}
use dfsm.Machine.Finalize.{given}
use dfsm.Runtime.{HookEvent, PipelineRequest, Binding, EffectRequest, EffectCode, CompensateRequest}
use dfsm.Runtime.Registry.{TransitionEntry, Registry, resolve}
use dfsm.Runtime.Qualify.{qualify_handler_name}

-- What the compilation has written so far. The subscribed hooks of a slot are the functions of the
-- slot in their order.
pub record Compiled (V D S : Type 0) : Type 0 where
  pub missing : List String
  pub effect_names : List String
  pub hook_functions : Dict (List (HookEvent V → Exec (D × S) (Unit {0})))
  pub bindings : Dict (Binding V D S)
  pub breakers : Breakers

-- The machine's `registry`, `effects` and `hooks`, the slots in the order of `hookSlots`, and the
-- actor's `eventInputValidators`.
pub record Declared (V : Type 0) : Type 0 where
  pub namespace : Option String
  pub strict : Bool
  pub effects : List String
  pub hooks : Dict (List String)
  pub validators : Dict (SchemaValidator V V)

abbrev first_of {ℓ} : {A : Type ℓ} → Option A → Option A → Option A
first_of none second = second
first_of (some a) second = some a

abbrev name_of : {A : Type 0} → Option (String × A) → Option String
name_of none = none
name_of (some (name, a)) = some name

abbrev entry_of : {A : Type 0} → Option (String × A) → Option A
entry_of none = none
entry_of (some (name, a)) = some a

abbrev pub binding_key : String → String → String
binding_key path event = append path (append "::" event)

-- `[...new Set(names)]`
abbrev pub distinct : List String → List String
distinct [] = []
distinct (x ∷ xs) = x ∷ filter (λ y. not (y == x)) (distinct xs)

module _ {V D S : Type 0} (h : Registry V D S) (d : Declared V) where
  -- `if (!found && strict) missingHandlers.push(…)`
  abbrev pub note_missing : {A : Type 0} → String → Option A → Compiled V D S → Compiled V D S
  note_missing name (some found) c = c
  note_missing name none c =
      if d.strict
      then record c { missing = c.missing ++ qualify_handler_name name d.namespace ∷ [] }
      else c

  abbrev pub add_effect :
      Option (String × (EffectRequest V → EffectCode V D S)) → Compiled V D S → Compiled V D S
  add_effect none c = c
  add_effect (some (name, fn)) c =
      if includes name c.effect_names
      then c
      else record c { effect_names = c.effect_names ++ name ∷ [] }

  -- `verifyEffectList`
  unfoldable pub verify_effect_list : List String → Compiled V D S → Compiled V D S
  verify_effect_list [] c = c
  verify_effect_list (eff ∷ effs) c =
      let found = resolve h.effects eff d.namespace in
      verify_effect_list effs (add_effect found (note_missing eff found c))

  abbrev pub add_hook :
      String
      → Option (String × (HookEvent V → Exec (D × S) (Unit {0})))
      → Compiled V D S
      → Compiled V D S
  add_hook slot none c = c
  add_hook slot (some (name, fn)) c = record c {
    hook_functions =
        put slot (elim (get slot c.hook_functions) [ none ↦ fn ∷ [] | some fns ↦ fns ++ fn ∷ [] ])
          c.hook_functions;
  }

  unfoldable pub verify_hooks : String → List String → Compiled V D S → Compiled V D S
  verify_hooks slot [] c = c
  verify_hooks slot (ref ∷ refs) c =
      let found = resolve h.hooks ref d.namespace in
      verify_hooks slot refs (add_hook slot found (note_missing ref found c))

  unfoldable pub verify_slots : Dict (List String) → Compiled V D S → Compiled V D S
  verify_slots [] c = c
  verify_slots ((slot, refs) ∷ slots) c = verify_slots slots (verify_hooks slot refs c)

  -- `if (name) { found = resolve(name); … }`: what is found, and what is noted
  abbrev pub lookup_given : {A : Type 0} → Dict A → Option String → Option (String × A)
  lookup_given table none = none
  lookup_given table (some name) = resolve table name d.namespace

  abbrev pub note_given : {A : Type 0} → Dict A → Option String → Compiled V D S → Compiled V D S
  note_given table none c = c
  note_given table (some name) c = note_missing name (resolve table name d.namespace) c

  abbrev validator_given : Option String → Option (SchemaValidator V V)
  validator_given none = none
  validator_given (some name) = get name d.validators

  abbrev policy_of : Option (TransitionEntry V D S) → Option PartialTransitionPolicy
  policy_of none = none
  policy_of (some entry) = entry.policy

  abbrev validator_of : Option (TransitionEntry V D S) → Option (SchemaValidator V V)
  validator_of none = none
  validator_of (some entry) = entry.input_validator

  abbrev function_of :
      Option (TransitionEntry V D S)
      → Option (PipelineRequest V → ℕ → V → Exec (D × S) (Option (TransitionOutput V V) × V))
  function_of none = none
  function_of (some entry) = some entry.fn

  module _ (machine : MachineDefinition) where
    abbrev pub found_transition : Edge → Option (String × TransitionEntry V D S)
    found_transition edge = lookup_given h.transitions (given edge.transition)

    abbrev pub edge_policy : String → String → Edge → NormalizedTransitionPolicy
    edge_policy path event edge = normalize_transition_policy (record {
      default_breaker_key = append machine.id (append ":" (append path (append ":" event)));
      global_defaults = h.policy_defaults;
      machine_defaults = some machine.defaults;
      transition_policy = some edge.policy;
      decorator_policy = policy_of (entry_of (found_transition edge));
    })

    -- `rawCompensateName`, if it is not empty
    abbrev pub compensate_name : String → String → Edge → Option String
    compensate_name path event edge =
        given (first_of (edge_policy path event edge).compensate_handler edge.compensate)

    -- the last part of `compileEdge`: the breaker and the binding
    abbrev pub bind_edge : String → String → Edge → Compiled V D S → Compiled V D S
    bind_edge path event edge c =
        let policy = edge_policy path event edge in
        let entry = entry_of (found_transition edge) in
        record c {
          breakers = (get_or_create policy.circuit_breaker c.breakers).1;
          bindings =
              put (binding_key path event)
                (record {
                  edge = edge;
                  resolved_transition_name = name_of (found_transition edge);
                  resolved_compensate_name =
                      name_of (lookup_given h.compensations (compensate_name path event edge));
                  policy = policy;
                  fn = function_of entry;
                  input_validator =
                      first_of (get event d.validators)
                        (first_of (validator_given (given edge.transition)) (validator_of entry));
                })
                c.bindings;
        }

    -- `compileEdge`
    unfoldable pub compile_edge : String → String → Edge → Compiled V D S → Compiled V D S
    compile_edge path event edge c = bind_edge path event edge (
        verify_effect_list edge.effects (
          note_given h.compensations (compensate_name path event edge)
            (note_given h.transitions (given edge.transition) c)))

    unfoldable pub compile_edges : String → Dict Edge → Compiled V D S → Compiled V D S
    compile_edges path [] c = c
    compile_edges path ((event, edge) ∷ edges) c =
        compile_edges path edges (compile_edge path event edge c)

    abbrev pub compile_done : String → Option Edge → Compiled V D S → Compiled V D S
    compile_done path none c = c
    compile_done path (some edge) c = compile_edge path "$onDone" edge c

    -- `walkState` before the children
    unfoldable pub compile_node : NodeInfo → Compiled V D S → Compiled V D S
    compile_node i c =
        compile_done i.path i.on_done
          (compile_edges i.path i.on (verify_effect_list i.exit (verify_effect_list i.entry c)))

    unfoldable mutual
      pub walk_state : StateNode → Compiled V D S → Compiled V D S
      walk_state (state i cs) c = walk_states cs (compile_node i c)

      pub walk_states : States → Compiled V D S → Compiled V D S
      walk_states no_states c = c
      walk_states (child k n rest) c = walk_states rest (walk_state n c)

    -- everything but the final throw
    unfoldable pub compile_all : Breakers → Compiled V D S
    compile_all breakers = walk_states machine.states (
        verify_slots d.hooks (
          verify_effect_list d.effects (record {
            missing = [];
            effect_names = [];
            hook_functions = [];
            bindings = [];
            breakers = breakers;
          })))

    abbrev pub or_throw : List String → Compiled V D S → Result (Compiled V D S)
    or_throw [] c = ok c
    or_throw (m ∷ ms) c = threw (raised (unregistered_handler_error machine.id (distinct (m ∷ ms))))

    -- `compileMachineBindings`
    unfoldable pub compile_machine_bindings : Breakers → Result (Compiled V D S)
    compile_machine_bindings breakers = let c = compile_all breakers in or_throw c.missing c
