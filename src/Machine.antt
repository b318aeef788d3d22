-- ===== src/Machine.antt =====
-- sdks/typescript/src/definition/ir.ts: the normalized machine, and how a target names a state.
--
-- A JavaScript object from names to states or to values of states is a list in insertion order;
-- names that are array indices, which an engine enumerates first, and names of `Object.prototype`
-- are not treated apart. A dot path is a text and is split at its dots as in the source.
pub mod StateValue
pub mod Paths
pub mod Finalize
use Prim.Native.String
use Prim.Native.Char.{code}
use dfsm.Prelude.{
  ℕ, String, Bool, true, false, Option, none, some, List, [], ◌∷◌, ◌++◌, ◌==◌, eqb, if◌then◌else◌,
}
use dfsm.Prelude.Dict.{Dict}
use dfsm.Prelude.Text.{append, segments, split_dots, join_dots}
use dfsm.Policy.{PartialTransitionPolicy}

pub data StateNodeType : Type 0 where
  atomic compound parallel final : StateNodeType

-- `TransitionEdgeIR`
pub record Edge : Type 0 where
  pub event : String
  pub target : Option String
  pub transition : Option String
  pub compensate : Option String
  pub effects : List String
  pub policy : PartialTransitionPolicy

-- the fields of `StateNodeIR` but `states`
pub record NodeInfo : Type 0 where
  pub key : String
  pub path : String
  pub type : StateNodeType
  pub initial : Option String
  pub entry : List String
  pub exit : List String
  pub on : Dict Edge
  pub on_done : Option Edge
  pub is_implicit_error : Bool

-- `StateNodeIR` and its `states`
mutual
  pub data StateNode : Type 0 where
    state : NodeInfo → States → StateNode

  pub data States : Type 0 where
    no_states : States
    child : String → StateNode → States → States

abbrev pub info : StateNode → NodeInfo
info (state i cs) = i

abbrev pub states_of : StateNode → States
states_of (state i cs) = cs

-- `states[key]`
abbrev pub find_state : String → States → Option StateNode
find_state k no_states = none
find_state k (child j n rest) = if j == k then some n else find_state k rest

-- `Object.keys(states)`
abbrev state_keys : States → List String
state_keys no_states = []
state_keys (child k n rest) = k ∷ state_keys rest

pub data MachineType : Type 0 where
  compound_machine parallel_machine : MachineType

-- `MachineDefinition`, but for the fields that only the actor's constructor and reports read
pub record MachineDefinition : Type 0 where
  pub id : String
  pub type : MachineType
  pub initial : Option String
  pub defaults : PartialTransitionPolicy
  pub max_effect_chain_depth : Option ℕ
  pub states : States
  pub has_custom_error_state : Bool

-- the walk down a path's parts, of `getNodeByPath` and `lookupByDotPath`
unfoldable pub node_at : States → List String → Option StateNode
node_at ss [] = none
node_at ss (p ∷ []) = find_state p ss
node_at ss (p ∷ q ∷ ps) = elim (find_state p ss) [
  | none ↦ none
  | some n ↦ node_at (states_of n) (q ∷ ps)
]

unfoldable pub get_node_by_path : MachineDefinition → String → Option StateNode
unfolding node_at split_dots
get_node_by_path machine dot_path = node_at machine.states (segments dot_path)

-- `s.startsWith(p)` with what follows `p`
unfoldable pub strip_prefix : String → String → Option String
strip_prefix String.[] s = some s
strip_prefix (String.◌∷◌ c p) String.[] = none
strip_prefix (String.◌∷◌ c p) (String.◌∷◌ d s) =
    if eqb (code c) (code d) then strip_prefix p s else none

abbrev pub path_of : Option StateNode → Option String
path_of none = none
path_of (some n) = some (info n).path

-- `parts.slice(0, -1)`
abbrev pub but_last : List String → List String
but_last [] = []
but_last (p ∷ []) = []
but_last (p ∷ q ∷ ps) = p ∷ but_last (q ∷ ps)

-- the reference of a target behind `#`
abbrev absolute : MachineDefinition → String → Option String
absolute machine stripped = elim (strip_prefix (append machine.id ".") stripped) [
  | some rel ↦ path_of (get_node_by_path machine rel)
  | none ↦ path_of (get_node_by_path machine stripped)
]

-- a sibling of the source state
abbrev sibling : MachineDefinition → List String → String → Option StateNode
sibling machine [] target = none
sibling machine (p ∷ ps) target = get_node_by_path machine (join_dots ((p ∷ ps) ++ target ∷ []))

abbrev relative : MachineDefinition → String → String → Option String
relative machine source target =
    let source_segments = if source == "" then [] else split_dots source in
    elim (sibling machine (but_last source_segments) target) [
      | some n ↦ some (info n).path
      | none ↦ path_of (get_node_by_path machine target)
    ]

unfoldable pub resolve_target_state_path : MachineDefinition → String → String → Option String
unfolding get_node_by_path strip_prefix join_dots
resolve_target_state_path machine source target = elim (strip_prefix "#" target) [
  | some stripped ↦ absolute machine stripped
  | none ↦ relative machine source target
]
