-- ===== src/Engine/Done.antt =====
-- `findPendingOnDone` and `isBranchFinalAt` of sdks/typescript/src/engine/statechart.ts.
use text.Mathlib.Text.{starts_with}
use dfsm.Prelude.{
  ℕ, zero, suc, ◌-◌, String, Bool, true, false, ◌&&◌, ◌||◌, Option, none, some, List, [], ◌∷◌, ◌==◌,
  ltb, length, take, filter, all, if◌then◌else◌,
}
use dfsm.Prelude.Dict.{add_to_set}
use dfsm.Prelude.Text.{append, dotted, split_dots, join_dots}
use dfsm.Machine.{
  atomic, compound, parallel, final, Edge, NodeInfo, StateNode, States, no_states, child, info,
  states_of, MachineDefinition, get_node_by_path,
}
use dfsm.Machine.StateValue.{StateValue}
use dfsm.Engine.Leaves.{is_final, node_is, get_active_leaf_paths}
use dfsm.Engine.Match.{MatchedTransition}

-- the containers of a leaf, for `i` from `n` down to 1
abbrev containers_of : ℕ → List String → List String → List String
containers_of zero parts set = set
containers_of (suc n) parts set =
    containers_of n parts (add_to_set (join_dots (take (suc n) parts)) set)

abbrev candidate_containers : List String → List String → List String
candidate_containers [] set = set
candidate_containers (l ∷ ls) set =
    let parts = split_dots l in candidate_containers ls (containers_of (length parts - 1) parts set)

abbrev depth : String → ℕ
depth path = length (split_dots path)

-- a stable sort, the deepest path first
abbrev insert_by_depth : String → List String → List String
insert_by_depth p [] = p ∷ []
insert_by_depth p (q ∷ qs) =
    if ltb (depth p) (depth q) then q ∷ insert_by_depth p qs else p ∷ q ∷ qs

abbrev sort_by_depth : List String → List String
sort_by_depth [] = []
sort_by_depth (p ∷ ps) = insert_by_depth p (sort_by_depth ps)

abbrev is_below : String → String → Bool
is_below path l = starts_with l (append path ".")

abbrev pub is_final_at : MachineDefinition → String → Bool
is_final_at m l = node_is is_final (get_node_by_path m l)

abbrev final_in_region : Option StateNode → String → String → StateNode → Bool
final_in_region none region_path leaf_path leaf_node = false
final_in_region (some r) region_path leaf_path leaf_node = elim (info r).type [
  | final ↦ true
  | compound ↦ leaf_path == dotted region_path (info leaf_node).key
  | atomic ↦ false
  | parallel ↦ false
]

abbrev final_node_at : MachineDefinition → String → String → Option StateNode → Bool
final_node_at m region_path leaf_path none = false
final_node_at m region_path leaf_path (some n) =
    is_final (info n).type
    && final_in_region (get_node_by_path m region_path) region_path leaf_path n

unfoldable is_branch_final_at : MachineDefinition → String → String → Bool
is_branch_final_at m region_path leaf_path =
    final_node_at m region_path leaf_path (get_node_by_path m leaf_path)

abbrev pub is_nonempty {ℓ} : {A : Type ℓ} → List A → Bool
is_nonempty [] = false
is_nonempty (x ∷ xs) = true

-- a region's active leaves, and whether they end it
abbrev region_done : MachineDefinition → List String → NodeInfo → Bool
region_done m leaves r =
    let region_leaves = filter (λ l. l == r.path || is_below r.path l) leaves in
    is_nonempty region_leaves && all (is_branch_final_at m r.path) region_leaves

abbrev all_regions_done : MachineDefinition → List String → States → Bool
all_regions_done m leaves no_states = true
all_regions_done m leaves (child k n rest) =
    region_done m leaves (info n) && all_regions_done m leaves rest

-- `childLeaves.length === 1` and that leaf is final
abbrev only_leaf_final : MachineDefinition → List String → Bool
only_leaf_final m (l ∷ []) = is_final_at m l
only_leaf_final m _ = false

abbrev container_done : MachineDefinition → List String → String → StateNode → Bool
container_done m leaves path n = elim (info n).type [
  | compound ↦ only_leaf_final m (filter (is_below path) leaves)
  | parallel ↦ all_regions_done m leaves (states_of n)
  | atomic ↦ false
  | final ↦ false
]

-- the body of the loop over the containers: the container's match, if it is done
abbrev pending_edge :
    MachineDefinition → List String → String → StateNode → Option Edge → Option MatchedTransition
pending_edge m leaves path n none = none
pending_edge m leaves path n (some e) =
    if container_done m leaves path n
    then some (record { source_node = info n; edge = e })
    else none

abbrev pending_at :
    MachineDefinition → List String → String → Option StateNode → Option MatchedTransition
pending_at m leaves path none = none
pending_at m leaves path (some n) = pending_edge m leaves path n (info n).on_done

abbrev first_pending : MachineDefinition → List String → List String → Option MatchedTransition
first_pending m leaves [] = none
first_pending m leaves (path ∷ paths) =
    let later = first_pending m leaves paths in
    elim (pending_at m leaves path (get_node_by_path m path)) [ none ↦ later | some t ↦ some t ]

unfoldable pub find_pending_on_done : MachineDefinition → StateValue → Option MatchedTransition
unfolding is_branch_final_at get_active_leaf_paths get_node_by_path
find_pending_on_done m v =
    let leaves = get_active_leaf_paths m v in
    first_pending m leaves (sort_by_depth (candidate_containers leaves []))
