-- ===== src/Engine/Apply.antt =====
-- `applyTargetTransition`, `extractSubStateObject` and `replaceAtLca` of
-- sdks/typescript/src/engine/statechart.ts.
--
-- `none` is a throw: a target that does not resolve, or a state on its path that is not there.
use dfsm.Prelude.{
  ℕ, zero, suc, ◌+◌, ◌-◌, String, Bool, true, min, Option, none, some, List, [], ◌∷◌, ◌++◌, ◌==◌,
  length, get_elem?, take, ltb, if◌then◌else◌,
}
use dfsm.Prelude.Text.{segments, join_dots}
use dfsm.Machine.{
  StateNode, info, parallel_machine, compound_machine, MachineDefinition, get_node_by_path,
  resolve_target_state_path,
}
use dfsm.Machine.StateValue.{
  StateValue, leaf, node, Regions, no_regions, region, single, get_region, put_region,
}
use dfsm.Engine.Enter.{value_under, enter_subtree}
use dfsm.Engine.Leaves.{is_parallel, node_is, collect_bottom_up_exit_effects}

infixl 5 ◌>>=◌
abbrev ◌>>=◌ {ℓ κ} : {A : Type ℓ} {B : Type κ} → Option A → (A → Option B) → Option B
none >>= f = none
some a >>= f = f a

-- how far two paths agree, within the first `n` segments
abbrev common_len : ℕ → List String → List String → ℕ
common_len zero src tgt = 0
common_len (suc n) [] tgt = 0
common_len (suc n) (a ∷ src) [] = 0
common_len (suc n) (a ∷ src) (b ∷ tgt) =
    let more = common_len n src tgt in if a == b then suc more else 0

-- `typeof v === "object" ? v : {}`
abbrev object_of : Option StateValue → Regions
object_of (some (node rs)) = rs
object_of _ = no_regions

abbrev region_at : String → StateValue → Option StateValue
region_at k (leaf s) = none
region_at k (node rs) = get_region k rs

-- the walk of `extractSubStateObject`
unfoldable sub_object : List String → StateValue → Regions
sub_object [] v = object_of (some v)
sub_object (p ∷ ps) v = elim (region_at p v) [ none ↦ no_regions | some w ↦ sub_object ps w ]

unfoldable extract_sub_state_object : StateValue → String → Regions
unfolding sub_object
extract_sub_state_object v path = sub_object (segments path) v

-- `typeof branch === "object" && key in branch ? branch[key] : branch`
abbrev branch_region : String → StateValue → StateValue
branch_region key branch = elim (region_at key branch) [ none ↦ branch | some v ↦ v ]

-- one ancestor around the branch that is built: `i` is its place in the target's path
abbrev wrap : MachineDefinition → StateValue → List String → ℕ → StateValue → Option StateValue
wrap m current tgt i branch = do
  key ← get_elem? tgt i
  ancestor ← get_node_by_path m (join_dots (take (suc i) tgt))
  if is_parallel (info ancestor).type
      then (do
        region_key ← get_elem? tgt (suc i)
        let existing = extract_sub_state_object current (join_dots (take (suc i) tgt))
        some (single key (node (put_region region_key (branch_region region_key branch) existing))))
      else some (single key branch)

-- the loop from the target's parent down to `common`; `n` ancestors are left
unfoldable build :
    MachineDefinition → StateValue → List String → ℕ → ℕ → StateValue → Option StateValue
build m current tgt common zero branch = some branch
build m current tgt common (suc n) branch =
    wrap m current tgt (common + n) branch >>= build m current tgt common n

abbrev entries_of : Option StateNode → List String
entries_of none = []
entries_of (some n) = (info n).entry

-- the entry effects of the `n` ancestors from place `i` on
abbrev ancestor_entries : MachineDefinition → List String → ℕ → ℕ → List String
ancestor_entries m tgt zero i = []
ancestor_entries m tgt (suc n) i =
    entries_of (get_node_by_path m (join_dots (take (suc i) tgt)))
    ++ ancestor_entries m tgt n (suc i)

-- `current` with `key` set, or an object with `key` alone where `current` is none
abbrev with_key : String → StateValue → StateValue → StateValue
with_key key v (leaf s) = single key v
with_key key v (node rs) = node (put_region key v rs)

-- the last step of `replaceAtLca`, for a parallel state and a replacement with a first entry
abbrev replace_in_parallel : String → Regions → StateValue → StateValue
replace_in_parallel key rs (node (region rk rv rest)) =
    node (put_region key (node (put_region rk rv (object_of (get_region key rs)))) rs)
replace_in_parallel key rs replacement = node (put_region key replacement rs)

abbrev replace_last : Bool → String → StateValue → StateValue → StateValue
replace_last true key (node rs) replacement = replace_in_parallel key rs replacement
replace_last _ key current replacement = with_key key replacement current

-- `current[key]`, or the empty text
abbrev child_current : String → StateValue → StateValue
child_current key current = elim (region_at key current) [ none ↦ leaf "" | some v ↦ v ]

-- `above` holds the segments before the key
unfoldable replace_at_lca :
    MachineDefinition → List String → List String → StateValue → StateValue → StateValue
replace_at_lca m above [] current replacement = replacement
replace_at_lca m above (key ∷ []) current replacement =
    replace_last (node_is is_parallel (get_node_by_path m (join_dots (above ++ key ∷ [])))) key
      current replacement
replace_at_lca m above (key ∷ k ∷ ks) current replacement =
    with_key key
      (replace_at_lca m (above ++ key ∷ []) (k ∷ ks) (child_current key current) replacement)
      current

pub record AppliedTransition : Type 0 where
  pub target_path : String
  pub next_state_value : StateValue
  pub exit_effects : List String
  pub entry_effects : List String

-- the next value where no state contains both source and target
abbrev replace_root : MachineDefinition → StateValue → List String → StateValue → StateValue
replace_root m (node rs) (top ∷ tgt) branch = elim m.type [
  | parallel_machine ↦ node (put_region top (branch_region top branch) rs)
  | compound_machine ↦ branch
]
replace_root m current tgt branch = branch

abbrev next_value :
    MachineDefinition → StateValue → List String → List String → StateValue → StateValue
next_value m current tgt [] branch = replace_root m current tgt branch
next_value m current tgt (k ∷ lca) branch = replace_at_lca m [] (k ∷ lca) current branch

unfoldable pub apply_target_transition :
    MachineDefinition → StateValue → String → String → Option AppliedTransition
unfolding extract_sub_state_object resolve_target_state_path build replace_at_lca
    collect_bottom_up_exit_effects enter_subtree
apply_target_transition m current source target_ref = do
  target_path ← resolve_target_state_path m source target_ref
  let src = segments source
  let tgt = segments target_path
  let common = common_len (min (length src) (length tgt) - 1) src tgt
  let exiting = if ltb common (length src) then join_dots (take (suc common) src) else source
  target ← get_node_by_path m target_path
  let entered = enter_subtree target
  let above = length tgt - 1 - common
  branch ← build m current tgt common above (value_under (info target).key entered.sub_value)
  some (record {
    target_path = target_path;
    next_state_value = next_value m current tgt (take common tgt) branch;
    exit_effects = collect_bottom_up_exit_effects m current exiting;
    entry_effects = ancestor_entries m tgt above common ++ entered.entry_effects;
  })
