-- ===== src/Engine/Status.antt =====
-- `resolveSettledTransactionStatus`, `getAvailableEvents` and `getTerminalStates` of
-- sdks/typescript/src/engine/statechart.ts.
use dfsm.Prelude.{
  ℕ, suc, String, Bool, true, false, not, ◌&&◌, ◌||◌, Option, none, some, List, [], ◌∷◌, ◌++◌, ◌==◌,
  eqb, length, all, if◌then◌else◌,
}
use dfsm.Prelude.Dict.{keys, add_to_set}
use dfsm.Prelude.Text.{segments}
use dfsm.Machine.{
  NodeInfo, StateNode, state, States, no_states, child, info, find_state, MachineDefinition,
  get_node_by_path,
}
use dfsm.Machine.StateValue.{
  StateValue, leaf, node, TransactionStatus, idle, completed, compensated, failed,
}
use dfsm.Engine.Leaves.{is_final, paths_up, get_active_leaf_paths}
use dfsm.Engine.Done.{is_final_at, is_nonempty}

abbrev is_error_value : StateValue → Bool
is_error_value (leaf s) = s == "error"
is_error_value (node rs) = false

abbrev is_present : Option StateNode → Bool
is_present none = false
is_present (some n) = true

unfoldable pub resolve_settled_transaction_status :
    MachineDefinition → StateValue → Bool → TransactionStatus
unfolding get_active_leaf_paths get_node_by_path
resolve_settled_transaction_status m v was_compensated =
    let leaves = get_active_leaf_paths m v in
    if was_compensated
    then compensated
    else if is_error_value v && is_present (find_state "error" m.states)
    then failed
    else if is_nonempty leaves && all (is_final_at m) leaves
    then completed
    else idle

abbrev add_all : List String → List String → List String
add_all [] set = set
add_all (x ∷ xs) set = add_all xs (add_to_set x set)

-- the events of a state that is there and not final
abbrev events_at : Option StateNode → List String
events_at none = []
events_at (some n) = if is_final (info n).type then [] else keys (info n).on

abbrev events_up : MachineDefinition → List String → List String → List String
events_up m [] set = set
events_up m (path ∷ paths) set =
    events_up m paths (add_all (events_at (get_node_by_path m path)) set)

abbrev events_of_leaves : MachineDefinition → List String → List String → List String
events_of_leaves m [] set = set
events_of_leaves m (l ∷ ls) set =
    let parts = segments l in
    events_of_leaves m ls (events_up m (paths_up (length parts) parts) set)

unfoldable pub get_available_events : MachineDefinition → StateValue → List String
unfolding get_active_leaf_paths get_node_by_path
get_available_events m v = events_of_leaves m (get_active_leaf_paths m v) []

pub data TerminalKind : Type 0 where
  final_kind error_kind : TerminalKind

pub record TerminalStateDescriptor : Type 0 where
  pub path : String
  pub key : String
  pub kind : TerminalKind
  pub is_top_level : Bool
  pub is_implicit_default_error : Bool
  pub is_recoverable_error : Bool
  pub recovery_events : List String

abbrev is_error_node : ℕ → NodeInfo → Bool
is_error_node level i = eqb level 0 && i.key == "error"

abbrev descriptor : ℕ → NodeInfo → TerminalStateDescriptor
descriptor level i = record {
  path = i.path;
  key = i.key;
  kind = if is_error_node level i then error_kind else final_kind;
  is_top_level = eqb level 0;
  is_implicit_default_error = i.is_implicit_error;
  is_recoverable_error =
      is_error_node level i && (not (is_final i.type) && is_nonempty (keys i.on));
  recovery_events = keys i.on;
}

abbrev own_descriptor : ℕ → NodeInfo → List TerminalStateDescriptor
own_descriptor level i =
    if is_final i.type || is_error_node level i then descriptor level i ∷ [] else []

unfoldable mutual
  -- `walk`
  pub terminal_states : ℕ → StateNode → List TerminalStateDescriptor
  terminal_states level (state i cs) = own_descriptor level i ++ terminal_children (suc level) cs

  pub terminal_children : ℕ → States → List TerminalStateDescriptor
  terminal_children level no_states = []
  terminal_children level (child k n rest) = terminal_states level n ++ terminal_children level rest

unfoldable pub get_terminal_states : MachineDefinition → List TerminalStateDescriptor
unfolding terminal_states
get_terminal_states m = terminal_children 0 m.states
