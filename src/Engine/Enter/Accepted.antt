-- ===== src/Engine/Enter/Accepted.antt =====
-- The start of a machine that `finalizeAndValidateMachineIR` (definition/ir.ts) has accepted.
use mathlib.Core.Path.{subst}
use dfsm.Prelude.{String, ◌≡◌, Option, none, some, List, arith}
use dfsm.Machine.{
  compound, NodeInfo, StateNode, state, States, no_states, child, info, find_state,
  compound_machine, MachineDefinition,
}
use dfsm.Machine.StateValue.{StateValue}
use dfsm.Machine.Finalize.{given, valid, finalize_and_validate_machine}
use dfsm.Machine.Finalize.Sound.{Shaped, RootShaped, Validated, ValidatedAll, finalize_sound}
use dfsm.Engine.Enter.{initial_key, resolve_initial_state}
use dfsm.Engine.Enter.Legal.{
  WellFormed, WellFormedAll, LegalValue, resolve_initial_state-LegalValue,
}

-- Every state has the key that it is kept under.
abbrev mutual
  pub OwnKey : StateNode → Type 0
  OwnKey (state i cs) = OwnKeys cs

  pub OwnKeys : States → Type 0
  OwnKeys no_states = Unit
  OwnKeys (child k n rest) = ((info n).key ≡ k) × OwnKey n × OwnKeys rest

given-initial_key : (o : Option String) (k : String) → given o ≡ some k → initial_key o ≡ k
given-initial_key none k h = cc h
given-initial_key (some s) k h = ground arith

initial_child_found :
    (i : NodeInfo) (cs : States)
    → Shaped i.type i cs
    → i.type ≡ compound
    → (n : StateNode) × (find_state (initial_key i.initial) cs ≡ some n)
initial_child_found i cs h e =
    let (k, g, n, f) = subst (λ t. Shaped t i cs) e h in (n, rw (given-initial_key i.initial k g) f)

initial_state_found :
    (m : MachineDefinition)
    → m.type ≡ compound_machine
    → RootShaped compound_machine m
    → (n : StateNode) × (find_state (initial_key m.initial) m.states ≡ some n)
initial_state_found m e (k, g, n, f) = (n, rw (given-initial_key m.initial k g) f)

mutual
  node-WellFormed :
      (m : MachineDefinition) (n : StateNode) → Validated m n → OwnKey n → WellFormed n
  node-WellFormed m (state i cs) h k = (initial_child_found i cs h.0, states-WellFormed m cs h.3 k)

  states-WellFormed :
      (m : MachineDefinition) (cs : States) → ValidatedAll m cs → OwnKeys cs → WellFormedAll cs
  states-WellFormed m no_states h k = tt
  states-WellFormed m (child l n rest) h k =
      (k.0, node-WellFormed m n h.0 k.1, states-WellFormed m rest h.1 k.2)

-- A machine that is accepted, with every state under its own key, can be started, and its initial
-- value is legal.
pub accepted_starts :
    (raw m : MachineDefinition)
    → finalize_and_validate_machine raw ≡ valid m
    → OwnKeys m.states
    → (v : StateValue) × (effects : List String) × (resolve_initial_state m ≡ some (v, effects))
      × LegalValue m v
accepted_starts raw m h keys =
    let (same, error_state, root, fallback, states) = finalize_sound raw m h in
    resolve_initial_state-LegalValue m (
      λ e. initial_state_found m e (subst (λ t. RootShaped t m) e root),
      states-WellFormed m m.states states keys,
    )
