-- ===== src/Engine/Match.antt =====
-- `resolveTransitionsForEvent` of sdks/typescript/src/engine/statechart.ts.
--
-- `null` for a value of a state is `none`. The search in a compound state's active children is
-- given to the loop over them as a function.
pub mod Active
pub mod Exact
pub mod Below
pub mod Roots
use dfsm.Prelude.{String, true, false, Option, none, some, List, [], ◌∷◌, ◌++◌, ◌==◌, if◌then◌else◌}
use dfsm.Prelude.Dict.{get}
use dfsm.Machine.{
  atomic, compound, parallel, final, Edge, NodeInfo, StateNode, state, States, no_states, child,
  info, MachineDefinition,
}
use dfsm.Machine.StateValue.{StateValue, leaf, node, Regions, no_regions, region, get_region}
use dfsm.Engine.Leaves.{is_simple}

pub record MatchedTransition : Type 0 where
  pub source_node : NodeInfo
  pub edge : Edge

-- `node.on[event] ? [{ sourceNode: node, edge }] : []`
abbrev pub own_match : NodeInfo → Option Edge → List MatchedTransition
own_match i none = []
own_match i (some e) = record { source_node = i; edge = e } ∷ []

-- the matches found below, or the state's own
abbrev pub or_own : NodeInfo → String → List MatchedTransition → List MatchedTransition
or_own i event [] = own_match i (get event i.on)
or_own i event (m ∷ ms) = m ∷ ms

-- the result of a search in a child that may not be there
abbrev pub found_in : Option (List MatchedTransition) → List MatchedTransition
found_in none = []
found_in (some ms) = ms

-- the first child of an object's entries with a match
abbrev pub first_match :
    (String → Option StateValue → Option (List MatchedTransition))
    → Regions
    → List MatchedTransition
first_match search no_regions = []
first_match search (region key v rest) =
    let others = first_match search rest in
    elim (found_in (search key (some v))) [ [] ↦ others | m ∷ ms ↦ m ∷ ms ]

abbrev pub match_below :
    (String → Option StateValue → Option (List MatchedTransition))
    → Option StateValue
    → List MatchedTransition
match_below search none = []
match_below search (some (leaf key)) = found_in (search key none)
match_below search (some (node rs)) = first_match search rs

-- `subVal && typeof subVal === "object" ? subVal : {}`
abbrev pub region_map : Option StateValue → Regions
region_map (some (node rs)) = rs
region_map _ = no_regions

-- the value given to a child: `null` for a simple one
abbrev pub normalized : StateNode → Option StateValue → Option StateValue
normalized n v = if is_simple (info n).type then none else v

unfoldable mutual
  -- `searchInSubtree`
  pub search_in_subtree : String → StateNode → Option StateValue → List MatchedTransition
  search_in_subtree event (state i cs) v = elim i.type [
    | atomic ↦ own_match i (get event i.on)
    | final ↦ own_match i (get event i.on)
    | compound ↦ or_own i event (match_below (search_child event cs) v)
    | parallel ↦ or_own i event (search_regions event cs (region_map v))
  ]

  pub search_child : String → States → String → Option StateValue → Option (List MatchedTransition)
  search_child event no_states k v = none
  search_child event (child j n rest) k v = elim (j == k) [
    | true ↦ some (search_in_subtree event n v)
    | false ↦ search_child event rest k v
  ]

  pub search_regions : String → States → Regions → List MatchedTransition
  search_regions event no_states rs = []
  search_regions event (child k n rest) rs =
      search_in_subtree event n (normalized n (get_region k rs)) ++ search_regions event rest rs

-- one entry of the value at the root
abbrev pub search_root : String → States → String → StateValue → List MatchedTransition
search_root event no_states k v = []
search_root event (child j n rest) k v =
    if j == k then search_in_subtree event n (normalized n (some v)) else search_root event rest k v

abbrev pub search_roots : String → States → Regions → List MatchedTransition
search_roots event ss no_regions = []
search_roots event ss (region k v rest) = search_root event ss k v ++ search_roots event ss rest

unfoldable pub resolve_transitions_for_event :
    MachineDefinition → StateValue → String → List MatchedTransition
unfolding search_in_subtree
resolve_transitions_for_event m (leaf s) event = found_in (search_child event m.states s none)
resolve_transitions_for_event m (node rs) event = search_roots event m.states rs
