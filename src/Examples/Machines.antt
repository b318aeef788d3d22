-- ===== src/Examples/Machines.antt =====
-- A machine that is finalized (definition/ir.ts) and entered (engine/statechart.ts).
use dfsm.Prelude.{String, ◌≡◌, refl, true, false, Option, none, some, List, [], ◌∷◌, All}
use dfsm.Prelude.Dict.{Dict, get}
use dfsm.Prelude.Text.{join_dots}
use dfsm.Engine.Match.{MatchedTransition, resolve_transitions_for_event}
use dfsm.Engine.Match.Active.{ActiveIn}
use dfsm.Engine.Match.Roots.{matches_exact}
use dfsm.Policy.{PartialTransitionPolicy}
use dfsm.Machine.{
  StateNodeType, atomic, compound, final, Edge, NodeInfo, state, no_states, child, find_state,
  compound_machine, MachineDefinition, node_at, strip_prefix, resolve_target_state_path,
}
use dfsm.Machine.StateValue.{StateValue, leaf, single}
use dfsm.Machine.Paths.{resolve_absolute, resolve_sibling}
use dfsm.Machine.Finalize.{is_some, with_error_state, finalize_and_validate_machine}
use dfsm.Machine.Finalize.Sound.{RootShaped, Resolves, ValidatedAll, finalize_sound}
use dfsm.Engine.Enter.{resolve_initial_state}
use dfsm.Engine.Enter.Accepted.{accepted_starts}
use dfsm.Engine.Enter.Legal.{LegalValue, resolve_initial_state-LegalValue}

abbrev pub no_policy : PartialTransitionPolicy
no_policy = record {
  retry = none;
  circuit_breaker = none;
  on_fail = none;
  benchmark = none;
  compensate_handler = none;
}

abbrev to_state : String → String → Edge
to_state event target = record {
  event = event;
  target = some target;
  transition = none;
  compensate = none;
  effects = [];
  policy = no_policy;
}

abbrev node_info : String → String → StateNodeType → Option String → Dict Edge → NodeInfo
node_info key path type initial on = record {
  key = key;
  path = path;
  type = type;
  initial = initial;
  entry = ("enter " ∷ []);
  exit = [];
  on = on;
  on_done = none;
  is_implicit_error = false;
}

-- `cart` with `empty` and `full`, and `paid`
abbrev pub order : MachineDefinition
order = record {
  id = "order";
  type = compound_machine;
  initial = some "cart";
  defaults = no_policy;
  max_effect_chain_depth = none;
  states =
      child "cart"
        (state (node_info "cart" "cart" compound (some "empty") []) (
          child "empty"
            (state
              (node_info "empty" "cart.empty" atomic none (("add", to_state "add" "full") ∷ []))
              no_states)
            (child "full"
              (state
                (node_info "full" "cart.full" atomic none
                  (("pay", to_state "pay" "#order.paid") ∷ []))
                no_states)
              no_states)))
        (child "paid" (state (node_info "paid" "paid" final none []) no_states) no_states);
  has_custom_error_state = false;
}

finalize_sound_example :
    (with_error_state order ≡ with_error_state order)
    × (is_some (find_state "error" (with_error_state order).states) ≡ true)
    × RootShaped compound_machine (with_error_state order)
    × Resolves (with_error_state order) "" none
    × ValidatedAll (with_error_state order) (with_error_state order).states
unfolding finalize_and_validate_machine resolve_target_state_path
finalize_sound_example = finalize_sound order (with_error_state order) refl

resolve_initial_state-LegalValue_example :
    (v : StateValue) × (effects : List String) × (resolve_initial_state order ≡ some (v, effects))
    × LegalValue order v
resolve_initial_state-LegalValue_example = resolve_initial_state-LegalValue order (
  λ e. (_, refl),
  (
    refl,
    (λ e. (_, refl), (refl, (λ e. cc e, tt), (refl, (λ e. cc e, tt), tt))),
    (refl, (λ e. cc e, tt), tt),
  ),
)

initial_test :
    resolve_initial_state order ≡ some (single "cart" (leaf "empty"), "enter " ∷ "enter " ∷ [])
unfolding resolve_initial_state
initial_test = refl

matches_exact_example :
    All
      (λ (t : MatchedTransition).
        ActiveIn order (single "cart" (leaf "full")) t.source_node
        × (get "pay" t.source_node.on ≡ some t.edge))
      (resolve_transitions_for_event order (single "cart" (leaf "full")) "pay")
    × (resolve_transitions_for_event order (single "cart" (leaf "full")) "pay" ≡ []
        → (j : NodeInfo) → ActiveIn order (single "cart" (leaf "full")) j
        → get "pay" j.on ≡ none)
matches_exact_example = matches_exact order (single "cart" (leaf "full")) "pay"

accepted_starts_example :
    (v : StateValue) × (effects : List String) × (resolve_initial_state (with_error_state order)
      ≡ some (v, effects))
    × LegalValue (with_error_state order) v
unfolding finalize_and_validate_machine resolve_target_state_path
accepted_starts_example =
    accepted_starts order (with_error_state order) refl
      (refl, (refl, tt, (refl, tt, tt)), (refl, tt, (refl, tt, tt)))

resolve_absolute_example :
    resolve_target_state_path order "paid" "#order.cart.full" ≡ some "cart.full"
unfolding resolve_target_state_path join_dots strip_prefix node_at
resolve_absolute_example =
    resolve_absolute order "paid" ("cart" ∷ "full" ∷ []) ((refl, refl), ((refl, refl), tt))

resolve_sibling_example : resolve_target_state_path order "cart.empty" "full" ≡ some "cart.full"
unfolding resolve_target_state_path join_dots strip_prefix node_at
resolve_sibling_example =
    resolve_sibling order "cart" [] "empty" "full" ((refl, refl), tt) (refl, refl) (refl, refl) refl
