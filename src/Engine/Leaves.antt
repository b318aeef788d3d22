-- ===== src/Engine/Leaves.antt =====
-- `getActiveLeafPaths` and `collectBottomUpExitEffects` of
-- sdks/typescript/src/engine/statechart.ts.
use text.Mathlib.Text.{starts_with}
use dfsm.Prelude.{
  ℕ, zero, suc, String, Bool, true, false, ◌||◌, Option, none, some, List, [], ◌∷◌, ◌++◌, ◌==◌,
  length, take, if◌then◌else◌,
}
use dfsm.Prelude.Dict.{includes, add_to_set}
use dfsm.Prelude.Text.{append, dotted, split_dots, join_dots}
use dfsm.Machine.{
  StateNodeType, atomic, parallel, final, StateNode, info, MachineDefinition, get_node_by_path,
}
use dfsm.Machine.StateValue.{StateValue, leaf, node, Regions, no_regions, region}

abbrev pub is_parallel : StateNodeType → Bool
is_parallel parallel = true
is_parallel _ = false

-- a node with no states below: `atomic` or `final`
abbrev pub is_simple : StateNodeType → Bool
is_simple atomic = true
is_simple final = true
is_simple _ = false

abbrev pub is_final : StateNodeType → Bool
is_final final = true
is_final _ = false

-- a test on a node that may not be there
abbrev pub node_is : (StateNodeType → Bool) → Option StateNode → Bool
node_is p none = false
node_is p (some n) = p (info n).type

-- `parentPath ? `${parentPath}.${key}` : key`
abbrev path_under : String → String → String
path_under parent key = if parent == "" then key else dotted parent key

unfoldable mutual
  pub leaf_paths : MachineDefinition → StateValue → String → List String
  leaf_paths m (leaf s) parent = path_under parent s ∷ []
  leaf_paths m (node rs) parent = leaf_entries m rs parent

  -- the loop over `Object.entries(stateValue)`
  pub leaf_entries : MachineDefinition → Regions → String → List String
  leaf_entries m no_regions parent = []
  leaf_entries m (region key v rest) parent =
      leaf_child m v (path_under parent key) ++ leaf_entries m rest parent

  -- its body, for the value `v` at `path`
  pub leaf_child : MachineDefinition → StateValue → String → List String
  leaf_child m (leaf s) path = path_under path s ∷ []
  leaf_child m (node rs) path = elim (node_is is_parallel (get_node_by_path m path)) [
    | true ↦ leaf_regions m rs path
    | false ↦ leaf_entries m rs path
  ]

  -- the loop over the regions of a parallel state at `path`
  pub leaf_regions : MachineDefinition → Regions → String → List String
  leaf_regions m no_regions path = []
  leaf_regions m (region key v rest) path =
      leaf_region m v (dotted path key) ++ leaf_regions m rest path

  -- its body, for a region at `path`
  pub leaf_region : MachineDefinition → StateValue → String → List String
  leaf_region m (leaf s) path = elim (node_is is_simple (get_node_by_path m path)) [
    | true ↦ path ∷ []
    | false ↦ dotted path s ∷ []
  ]
  leaf_region m (node rs) path = elim (node_is is_simple (get_node_by_path m path)) [
    | true ↦ path ∷ []
    | false ↦ leaf_entries m rs path
  ]

unfoldable pub get_active_leaf_paths : MachineDefinition → StateValue → List String
unfolding leaf_paths
get_active_leaf_paths m v = leaf_paths m v ""

-- no prefix, the prefix itself, or a path below it
abbrev in_subtree : String → String → Bool
in_subtree prefix path = prefix == "" || (path == prefix || starts_with path (append prefix "."))

-- `segments.slice(0, len).join(".")` for `len` from `n` down to 1
abbrev pub paths_up : ℕ → List String → List String
paths_up zero parts = []
paths_up (suc n) parts = join_dots (take (suc n) parts) ∷ paths_up n parts

-- `visited` and `exitEffects`
pub record Exits : Type 0 where
  pub visited : List String
  pub effects : List String

abbrev exits_of : Option StateNode → List String
exits_of none = []
exits_of (some n) = (info n).exit

abbrev visit : MachineDefinition → String → Exits → Exits
visit m path x = if includes path x.visited then x else record {
  visited = add_to_set path x.visited;
  effects = x.effects ++ exits_of (get_node_by_path m path);
}

-- the inner loop, which ends at the first path outside the subtree
unfoldable exit_up : MachineDefinition → String → List String → Exits → Exits
exit_up m prefix [] x = x
exit_up m prefix (path ∷ paths) x = elim (in_subtree prefix path) [
  | true ↦ exit_up m prefix paths (visit m path x)
  | false ↦ x
]

unfoldable exit_leaves : MachineDefinition → String → List String → Exits → Exits
unfolding exit_up
exit_leaves m prefix [] x = x
exit_leaves m prefix (l ∷ ls) x = elim (in_subtree prefix l) [
  | true ↦
      let parts = split_dots l in
      exit_leaves m prefix ls (exit_up m prefix (paths_up (length parts) parts) x)
  | false ↦ exit_leaves m prefix ls x
]

unfoldable pub collect_bottom_up_exit_effects :
    MachineDefinition → StateValue → String → List String
unfolding exit_leaves get_active_leaf_paths
collect_bottom_up_exit_effects m v prefix =
    let none_yet : Exits = record { visited = []; effects = [] } in
    (exit_leaves m prefix (get_active_leaf_paths m v) none_yet).effects
