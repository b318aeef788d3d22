-- ===== src/Runtime/Bindings/References.antt =====
-- The names that a machine uses, as `compileMachineBindings` (runtime/actor.ts) comes by them.
use dfsm.Prelude.{
  ◌||◌, String, Bool, true, false, not, Option, none, some, List, [], ◌∷◌, ◌++◌, map, filter,
  if◌then◌else◌,
}
use dfsm.Prelude.Dict.{get, Dict}
use dfsm.Machine.{NodeInfo, Edge, StateNode, States, state, no_states, child, MachineDefinition}
use dfsm.Machine.Finalize.{given}
use dfsm.Runtime.Qualify.{qualify_handler_name}
use dfsm.Runtime.Registry.{Registry}
use dfsm.Runtime.Bindings.{Declared, compensate_name}

-- a name that a machine uses, with the map that has to hold it
pub data Reference : Type 0 where
  effect_ref hook_ref transition_ref compensate_ref : String → Reference

abbrev pub reference_name : Reference → String
reference_name (effect_ref n) = n
reference_name (hook_ref n) = n
reference_name (transition_ref n) = n
reference_name (compensate_ref n) = n

abbrev pub is_there : {A : Type 0} → Option A → Bool
is_there none = false
is_there (some a) = true

abbrev pub optional : (String → Reference) → Option String → List Reference
optional f none = []
optional f (some n) = f n ∷ []

module _ {V D S : Type 0} (h : Registry V D S) (d : Declared V) where
  -- The map has the name, with the namespace or as it stands.
  abbrev pub is_known : {A : Type 0} → Dict A → String → Bool
  is_known table n =
      is_there (get (qualify_handler_name n d.namespace) table) || is_there (get n table)

  abbrev pub is_registered : Reference → Bool
  is_registered (effect_ref n) = is_known h.effects n
  is_registered (hook_ref n) = is_known h.hooks n
  is_registered (transition_ref n) = is_known h.transitions n
  is_registered (compensate_ref n) = is_known h.compensations n

  -- the qualified names of the references that no handler is registered for
  abbrev pub unregistered : List Reference → List String
  unregistered rs =
      map (λ r. qualify_handler_name (reference_name r) d.namespace)
        (filter (λ r. not (is_registered r)) rs)

  abbrev pub required : List Reference → List String
  required rs = if d.strict then unregistered rs else []

  abbrev pub slot_references : Dict (List String) → List Reference
  slot_references [] = []
  slot_references ((slot, refs) ∷ slots) = map hook_ref refs ++ slot_references slots

  module _ (machine : MachineDefinition) where
    abbrev pub edge_references : String → String → Edge → List Reference
    edge_references path event e =
        optional transition_ref (given e.transition)
        ++ (optional compensate_ref (compensate_name h d machine path event e)
            ++ map effect_ref e.effects)

    abbrev pub edges_references : String → Dict Edge → List Reference
    edges_references path [] = []
    edges_references path ((event, e) ∷ es) =
        edge_references path event e ++ edges_references path es

    abbrev pub done_references : String → Option Edge → List Reference
    done_references path none = []
    done_references path (some e) = edge_references path "$onDone" e

    abbrev pub node_references : NodeInfo → List Reference
    node_references i =
        map effect_ref i.entry
        ++ (map effect_ref i.exit
            ++ (edges_references i.path i.on ++ done_references i.path i.on_done))

    abbrev mutual
      pub state_references : StateNode → List Reference
      state_references (state i cs) = node_references i ++ states_references cs

      pub states_references : States → List Reference
      states_references no_states = []
      states_references (child k n rest) = state_references n ++ states_references rest

    -- every name that the machine uses, in the order of the walk
    abbrev pub references : List Reference
    references =
        map effect_ref d.effects ++ (slot_references d.hooks ++ states_references machine.states)
