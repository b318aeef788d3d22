-- ===== src/Engine/Match/Active.antt =====
-- The states that are active in a value (types.ts, `StateValue`).
use dfsm.Prelude.{String, ◌≡◌, ◌⊎◌, Option, none, some}
use dfsm.Machine.{
  compound, parallel, NodeInfo, StateNode, state, States, no_states, child, find_state,
  MachineDefinition,
}
use dfsm.Machine.StateValue.{StateValue, leaf, node, Regions, no_regions, region, get_region}
use dfsm.Engine.Match.{region_map, normalized}

-- An entry of a value of regions.
abbrev pub Entry : String → StateValue → Regions → Type 0
Entry k v no_regions = ⊥
Entry k v (region j w rs) = ((k ≡ j) × (v ≡ w)) ⊎ Entry k v rs

-- A child and the key that it is kept under.
abbrev pub Child : String → StateNode → States → Type 0
Child k n no_states = ⊥
Child k n (child j m cs) = ((k ≡ j) × (n ≡ m)) ⊎ Child k n cs

-- The states that are active in a state with a value: itself, those of the children that the value
-- of a compound state names, and those of every region of a parallel state.
pub data Active : StateNode → Option StateValue → NodeInfo → Type 0 where
  itself : {i : NodeInfo} {cs : States} {v : Option StateValue} → Active (state i cs) v i
  in_leaf :
      {i : NodeInfo} {cs : States} {k : String} (n : StateNode) {j : NodeInfo}
      → i.type ≡ compound
      → find_state k cs ≡ some n
      → Active n none j
      → Active (state i cs) (some (leaf k)) j
  in_entry :
      {i : NodeInfo} {cs : States} {rs : Regions} (k : String) (w : StateValue) (n : StateNode)
      {j : NodeInfo}
      → i.type ≡ compound
      → Entry k w rs
      → find_state k cs ≡ some n
      → Active n (some w) j
      → Active (state i cs) (some (node rs)) j
  in_region :
      {i : NodeInfo} {cs : States} {v : Option StateValue} (k : String) (n : StateNode)
      {j : NodeInfo}
      → i.type ≡ parallel
      → Child k n cs
      → Active n (normalized n (get_region k (region_map v))) j
      → Active (state i cs) v j

-- The states that are active in a machine with a value.
pub data ActiveIn (m : MachineDefinition) : StateValue → NodeInfo → Type 0 where
  at_state :
      {k : String} (n : StateNode) {j : NodeInfo}
      → find_state k m.states ≡ some n
      → Active n none j
      → ActiveIn m (leaf k) j
  at_region :
      {rs : Regions} (k : String) (w : StateValue) (n : StateNode) {j : NodeInfo}
      → Entry k w rs
      → find_state k m.states ≡ some n
      → Active n (normalized n (some w)) j
      → ActiveIn m (node rs) j
