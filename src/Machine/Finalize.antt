-- ===== src/Machine/Finalize.antt =====
-- `finalizeAndValidateMachineIR` of sdks/typescript/src/definition/ir.ts.
--
-- An issue is a value with the data that its text shows. The copies of hooks and effects are left
-- out: the raw machine has the fields of `MachineDefinition`.
pub mod Sound
use Prim.Native.String
use Prim.Native.Char.{Char, code}
use dfsm.Prelude.{
  ℕ, zero, suc, String, Bool, true, false, not, ◌&&◌, ◌||◌, Option, none, some, List, [], ◌∷◌, ◌++◌,
  ◌==◌, eqb, leb, if◌then◌else◌,
}
use dfsm.Prelude.Dict.{Dict}
use dfsm.Policy.{PartialTransitionPolicy, PartialOnFailPolicy}
use dfsm.Machine.{
  StateNodeType, atomic, compound, parallel, final, Edge, NodeInfo, StateNode, state, States,
  no_states, child, info, find_state, compound_machine, parallel_machine, MachineDefinition,
  resolve_target_state_path,
}

pub data Issue : Type 0 where
  invalid_id invalid_max_effect_chain_depth no_user_states root_without_initial : Issue
  root_initial_missing : String → Issue
  parallel_root_with_initial : Issue
  -- the source's path and the target
  unresolvable_target unresolvable_fallback : String → String → Issue
  unresolvable_default_fallback : String → Issue
  -- the state's path
  compound_without_states compound_without_initial compound_initial_missing : String → Issue
  parallel_without_states parallel_with_initial : String → Issue
  atomic_with_states atomic_with_initial : String → Issue
  final_with_states final_with_initial final_with_events : String → Issue

-- `[a-zA-Z0-9_-]`
abbrev is_id_char : ℕ → Bool
is_id_char c =
    (leb b'a' c && leb c b'z')
    || ((leb b'A' c && leb c b'Z') || ((leb b'0' c && leb c b'9') || (eqb c b'_' || eqb c b'-')))

abbrev all_id_chars : String → Bool
all_id_chars String.[] = true
all_id_chars (String.◌∷◌ c s) = is_id_char (code c) && all_id_chars s

abbrev pub is_valid_id : String → Bool
is_valid_id s = not (s == "") && all_id_chars s

-- one issue if the test fails
abbrev pub unless : Bool → Issue → List Issue
unless true i = []
unless false i = i ∷ []

-- a text that is there and not empty, as a condition reads it
abbrev pub given : Option String → Option String
given none = none
given (some s) = if s == "" then none else some s

abbrev pub is_some {ℓ} : {A : Type ℓ} → Option A → Bool
is_some none = false
is_some (some a) = true

abbrev pub is_given : Option String → Bool
is_given o = is_some (given o)

abbrev pub is_empty {ℓ} : {A : Type ℓ} → List A → Bool
is_empty [] = true
is_empty (x ∷ xs) = false

abbrev pub has_no_states : States → Bool
has_no_states no_states = true
has_no_states (child k n rest) = false

abbrev pub depth_issues : Option ℕ → List Issue
depth_issues none = []
depth_issues (some d) = unless (leb 1 d) invalid_max_effect_chain_depth

-- the target of an `onFail` policy
abbrev pub fallback_of : PartialTransitionPolicy → Option String
fallback_of p = elim p.on_fail [ none ↦ none | some f ↦ given f.target ]

-- the test `!resolved`, which an empty path does not pass either
abbrev resolves : MachineDefinition → String → String → Bool
resolves m source target = is_given (resolve_target_state_path m source target)

abbrev pub target_issues : MachineDefinition → String → Option String → List Issue
target_issues m source none = []
target_issues m source (some t) = unless (resolves m source t) (unresolvable_target source t)

abbrev pub fallback_issues : MachineDefinition → String → Option String → List Issue
fallback_issues m source none = []
fallback_issues m source (some t) = unless (resolves m source t) (unresolvable_fallback source t)

-- `validateEdge`
abbrev pub edge_issues : MachineDefinition → String → Edge → List Issue
edge_issues m source e =
    target_issues m source (given e.target) ++ fallback_issues m source (fallback_of e.policy)

abbrev pub edges_issues : MachineDefinition → String → Dict Edge → List Issue
edges_issues m source [] = []
edges_issues m source ((event, e) ∷ es) = edge_issues m source e ++ edges_issues m source es

abbrev pub on_done_issues : MachineDefinition → String → Option Edge → List Issue
on_done_issues m source none = []
on_done_issues m source (some e) = edge_issues m source e

abbrev pub compound_initial_issues : String → States → Option String → List Issue
compound_initial_issues path cs none = compound_without_initial path ∷ []
compound_initial_issues path cs (some k) =
    unless (is_some (find_state k cs)) (compound_initial_missing path)

-- the `if` ladder over the type of a node
abbrev pub type_issues : StateNodeType → NodeInfo → States → List Issue
type_issues compound i cs =
    unless (not (has_no_states cs)) (compound_without_states i.path)
    ++ compound_initial_issues i.path cs (given i.initial)
type_issues parallel i cs =
    unless (not (has_no_states cs)) (parallel_without_states i.path)
    ++ unless (not (is_given i.initial)) (parallel_with_initial i.path)
type_issues atomic i cs =
    unless (has_no_states cs) (atomic_with_states i.path)
    ++ unless (not (is_given i.initial)) (atomic_with_initial i.path)
type_issues final i cs =
    unless (has_no_states cs) (final_with_states i.path)
    ++ (unless (not (is_given i.initial)) (final_with_initial i.path)
        ++ unless (is_empty i.on) (final_with_events i.path))

unfoldable mutual
  -- `validateNode`
  pub node_issues : MachineDefinition → StateNode → List Issue
  node_issues m (state i cs) =
      type_issues i.type i cs
      ++ (edges_issues m i.path i.on ++ (on_done_issues m i.path i.on_done ++ states_issues m cs))

  pub states_issues : MachineDefinition → States → List Issue
  states_issues m no_states = []
  states_issues m (child k n rest) = node_issues m n ++ states_issues m rest

abbrev pub root_initial_issues : States → Option String → List Issue
root_initial_issues ss none = root_without_initial ∷ []
root_initial_issues ss (some k) = unless (is_some (find_state k ss)) (root_initial_missing k)

abbrev pub root_issues : MachineDefinition → List Issue
root_issues m = elim m.type [
  | compound_machine ↦ root_initial_issues m.states (given m.initial)
  | parallel_machine ↦ unless (not (is_given m.initial)) parallel_root_with_initial
]

abbrev pub default_issues : MachineDefinition → Option String → List Issue
default_issues m none = []
default_issues m (some t) = unless (resolves m "" t) (unresolvable_default_fallback t)

-- the implicit `error` state
abbrev pub implicit_error : StateNode
implicit_error =
    state
      (record {
        key = "error";
        path = "error";
        type = final;
        initial = none;
        entry = [];
        exit = [];
        on = [];
        on_done = none;
        is_implicit_error = true;
      })
      no_states

-- `statesCopy.error = …` at the end
abbrev pub append_state : String → StateNode → States → States
append_state k n no_states = child k n no_states
append_state k n (child j m rest) = child j m (append_state k n rest)

abbrev pub with_error_state : MachineDefinition → MachineDefinition
with_error_state raw =
    if is_some (find_state "error" raw.states)
    then record raw { has_custom_error_state = true }
    else record raw {
      states = append_state "error" implicit_error raw.states;
      has_custom_error_state = false;
    }

unfoldable pub machine_issues : MachineDefinition → MachineDefinition → List Issue
unfolding node_issues
machine_issues raw m =
    unless (is_valid_id raw.id) invalid_id
    ++ (depth_issues raw.max_effect_chain_depth
        ++ (unless (not (has_no_states raw.states)) no_user_states
            ++ (root_issues m
                ++ (default_issues m (fallback_of m.defaults) ++ states_issues m m.states))))

-- `MachineValidationError` carries the issues.
pub data Finalized : Type 0 where
  valid : MachineDefinition → Finalized
  invalid : List Issue → Finalized

abbrev pub report : List Issue → MachineDefinition → Finalized
report [] m = valid m
report (i ∷ is) m = invalid (i ∷ is)

unfoldable pub finalize_and_validate_machine : MachineDefinition → Finalized
unfolding machine_issues
finalize_and_validate_machine raw = let m = with_error_state raw in report (machine_issues raw m) m
