-- ===== src/Engine/Enter.antt =====
-- `enterSubtree` and `resolveInitialState` of sdks/typescript/src/engine/statechart.ts.
pub mod Legal
pub mod Accepted
use dfsm.Prelude.{
  String, Bool, true, false, Option, none, some, List, [], ◌∷◌, ◌++◌, ◌==◌, if◌then◌else◌,
}
use dfsm.Machine.{
  atomic, compound, parallel, final, NodeInfo, StateNode, state, States, no_states, child, info,
  find_state, compound_machine, parallel_machine, MachineDefinition,
}
use dfsm.Machine.StateValue.{StateValue, leaf, node, Regions, no_regions, region, single}

-- `{ subValue, entryEffects }`
pub record Entered : Type 0 where
  pub sub_value : Option StateValue
  pub entry_effects : List String

-- `subValue === null ? key : { [key]: subValue }`
abbrev pub value_under : String → Option StateValue → StateValue
value_under key none = leaf key
value_under key (some v) = single key v

-- `subValue === null ? regionKey : subValue`
abbrev pub region_value : String → Option StateValue → StateValue
region_value key none = leaf key
region_value key (some v) = v

-- `states[initial!]` looks for the key "undefined" where there is no initial state
abbrev pub initial_key : Option String → String
initial_key none = "undefined"
initial_key (some k) = k

-- a compound state entered with its initial child, the child's key with it
abbrev enter_compound : NodeInfo → Option (String × Entered) → Entered
enter_compound i none = record { sub_value = none; entry_effects = i.entry }
enter_compound i (some (key, e)) = record {
  sub_value = some (value_under key e.sub_value);
  entry_effects = i.entry ++ e.entry_effects;
}

abbrev enter_parallel : NodeInfo → Regions × List String → Entered
enter_parallel i (rs, effects) = record {
  sub_value = some (node rs);
  entry_effects = i.entry ++ effects;
}

-- one region more in front
abbrev enter_region : String → Entered → Regions × List String → Regions × List String
enter_region key e (rs, effects) =
    (region key (region_value key e.sub_value) rs, e.entry_effects ++ effects)

unfoldable mutual
  pub enter_subtree : StateNode → Entered
  enter_subtree (state i cs) = elim i.type [
    | atomic ↦ record { sub_value = none; entry_effects = i.entry }
    | final ↦ record { sub_value = none; entry_effects = i.entry }
    | compound ↦ enter_compound i (enter_child (initial_key i.initial) cs)
    | parallel ↦ enter_parallel i (enter_regions cs)
  ]

  pub enter_child : String → States → Option (String × Entered)
  enter_child k no_states = none
  enter_child k (child j n rest) = elim (j == k) [
    | true ↦ some ((info n).key, enter_subtree n)
    | false ↦ enter_child k rest
  ]

  pub enter_regions : States → Regions × List String
  enter_regions no_states = (no_regions, [])
  enter_regions (child k n rest) = enter_region k (enter_subtree n) (enter_regions rest)

-- the regions of a parallel machine, but an implicit error state
unfoldable pub enter_root_regions : States → Regions × List String
enter_root_regions no_states = (no_regions, [])
enter_root_regions (child k n rest) =
    let others = enter_root_regions rest in
    if (info n).is_implicit_error then others else enter_region k (enter_subtree n) others

abbrev enter_root : Option StateNode → Option (StateValue × List String)
enter_root none = none
enter_root (some n) =
    let e = enter_subtree n in some (value_under (info n).key e.sub_value, e.entry_effects)

-- `none` is the type error on an initial state that is not there.
unfoldable pub resolve_initial_state : MachineDefinition → Option (StateValue × List String)
unfolding enter_subtree enter_root_regions
resolve_initial_state machine = elim machine.type [
  | parallel_machine ↦
      let (rs, effects) = enter_root_regions machine.states in some (node rs, effects)
  | compound_machine ↦ enter_root (find_state (initial_key machine.initial) machine.states)
]
