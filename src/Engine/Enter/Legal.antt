-- ===== src/Engine/Enter/Legal.antt =====
-- What `enterSubtree` and `resolveInitialState` (engine/statechart.ts) make of a well-formed
-- machine.
use mathlib.Core.Path.{subst}
use mathlib.Core.Option.{some-injective}
use dfsm.Prelude.{
  String, ◌≡◌, ◌⊎◌, refl, ap, ◌∙◌, true, false, Option, none, some, List, ◌==◌, eq_iff, Bool-cases,
  inl, inr, arith,
}
use dfsm.Machine.{
  StateNodeType, atomic, compound, parallel, final, NodeInfo, StateNode, state, States, no_states,
  child, info, find_state, compound_machine, parallel_machine, MachineDefinition, MachineType,
}
use dfsm.Machine.StateValue.{StateValue, node, Regions, no_regions, region}
use dfsm.Engine.Enter.{
  Entered, value_under, region_value, initial_key, enter_subtree, enter_child, enter_regions,
  enter_root_regions, resolve_initial_state,
}

-- A compound state's initial child is there, and every child has the key that it is kept under.
abbrev mutual
  pub WellFormed : StateNode → Type 0
  WellFormed (state i cs) =
      (i.type ≡ compound → (n : StateNode) × (find_state (initial_key i.initial) cs ≡ some n))
      × WellFormedAll cs

  pub WellFormedAll : States → Type 0
  WellFormedAll no_states = Unit
  WellFormedAll (child k n rest) = ((info n).key ≡ k) × WellFormed n × WellFormedAll rest

-- The values that a state can have while it is active: none for a simple state, one child with its
-- value for a compound state, and every region with its value, in order, for a parallel state.
mutual
  pub data Legal : StateNode → Option StateValue → Type 0 where
    simple :
        {i : NodeInfo} {cs : States}
        → (i.type ≡ atomic) ⊎ (i.type ≡ final)
        → Legal (state i cs) none
    in_child :
        {i : NodeInfo} {cs : States} (k : String) (n : StateNode) (w : Option StateValue)
        {v : Option StateValue}
        → i.type ≡ compound
        → find_state k cs ≡ some n
        → Legal n w
        → v ≡ some (value_under k w)
        → Legal (state i cs) v
    in_regions :
        {i : NodeInfo} {cs : States} {rs : Regions}
        → i.type ≡ parallel
        → LegalRegions cs rs
        → Legal (state i cs) (some (node rs))

  pub data LegalRegions : States → Regions → Type 0 where
    no_more : LegalRegions no_states no_regions
    one_more :
        {k : String} {n : StateNode} {rest : States} (w : Option StateValue) {v : StateValue}
        {rs : Regions}
        → Legal n w
        → v ≡ region_value k w
        → LegalRegions rest rs
        → LegalRegions (child k n rest) (region k v rs)

-- A child that is found has its key and is entered legally.
abbrev FoundLegal : States → Type 0
FoundLegal cs =
    (k : String) (n : StateNode)
    → find_state k cs ≡ some n
    → ((info n).key ≡ k) × Legal n (enter_subtree n).sub_value

enter_child-find_state :
    (k : String) (cs : States) (n : StateNode)
    → find_state k cs ≡ some n
    → enter_child k cs ≡ some ((info n).key, enter_subtree n)
unfolding enter_subtree
enter_child-find_state k no_states n h = cc
enter_child-find_state k (child j m rest) n h = elim (Bool-cases (j == k)) [
  | inl same ↦
      rw (same, enter_child)
        (ap (λ (x : StateNode). some ((info x).key, enter_subtree x))
          (some-injective m n (rw same at h)))
  | inr other ↦ rw (other, enter_child) (enter_child-find_state k rest n (rw other at h))
]

compound_value :
    (i : NodeInfo) (cs : States) (key : String) (x : Entered)
    → i.type ≡ compound
    → enter_child (initial_key i.initial) cs ≡ some (key, x)
    → (enter_subtree (state i cs)).sub_value ≡ some (value_under key x.sub_value)
unfolding enter_subtree
compound_value i cs key x e p = ground arith

-- A state of each type, from what is known of the states below.
enter_by_type :
    (i : NodeInfo) (cs : States) (t : StateNodeType)
    → i.type ≡ t
    → (i.type ≡ compound → (n : StateNode) × (find_state (initial_key i.initial) cs ≡ some n))
    → FoundLegal cs
    → LegalRegions cs (enter_regions cs).0
    → Legal (state i cs) (enter_subtree (state i cs)).sub_value
enter_by_type i cs atomic e h found regions =
    unfold enter_subtree in rw (e, enter_subtree) (simple (inl refl))
enter_by_type i cs final e h found regions =
    unfold enter_subtree in rw (e, enter_subtree) (simple (inr refl))
enter_by_type i cs parallel e h found regions =
    unfold enter_subtree in rw (e, enter_subtree) (in_regions refl regions)
enter_by_type i cs compound e h found regions =
    let (n, p) = h e in
    let (same, legal) = found (initial_key i.initial) n p in
    in_child (initial_key i.initial) n (enter_subtree n).sub_value e p legal (
      compound_value i cs (info n).key (enter_subtree n) e
        (enter_child-find_state (initial_key i.initial) cs n p)
      ∙ ap (λ k. some (value_under k (enter_subtree n).sub_value)) same)

found-Legal :
    (k : String) (m : StateNode) (rest : States)
    → (info m).key ≡ k
    → Legal m (enter_subtree m).sub_value
    → FoundLegal rest
    → FoundLegal (child k m rest)
found-Legal k m rest key legal others j n h = elim (Bool-cases (k == j)) [
  | inl same ↦
      subst (λ x. ((info x).key ≡ j) × Legal x (enter_subtree x).sub_value)
        (some-injective m n (rw same at h)) (key ∙ (eq_iff k j).0 same, legal)
  | inr other ↦ others j n (rw other at h)
]

mutual
  unfolding enter_subtree

  enter-Legal : (n : StateNode) → WellFormed n → Legal n (enter_subtree n).sub_value
  enter-Legal (state i cs) h =
      enter_by_type i cs i.type refl h.0 (children-Legal cs h.1) (regions-Legal cs h.1)

  children-Legal : (cs : States) → WellFormedAll cs → FoundLegal cs
  children-Legal no_states h = λ k n p. cc
  children-Legal (child k n rest) h =
      found-Legal k n rest h.0 (enter-Legal n h.1) (children-Legal rest h.2)

  regions-Legal : (cs : States) → WellFormedAll cs → LegalRegions cs (enter_regions cs).0
  regions-Legal no_states h = no_more
  regions-Legal (child k n rest) h =
      one_more (enter_subtree n).sub_value (enter-Legal n h.1) refl (regions-Legal rest h.2)

-- The values of a machine that is active: a legal value of a top-level state, or, for a parallel
-- machine, of every top-level state but an implicit error state.
pub data LegalRoots : States → Regions → Type 0 where
  no_roots : LegalRoots no_states no_regions
  implicit :
      {k : String} {n : StateNode} {rest : States} {rs : Regions}
      → (info n).is_implicit_error ≡ true
      → LegalRoots rest rs
      → LegalRoots (child k n rest) rs
  root :
      {k : String} {n : StateNode} {rest : States} (w : Option StateValue) {v : StateValue}
      {rs : Regions}
      → (info n).is_implicit_error ≡ false
      → Legal n w
      → v ≡ region_value k w
      → LegalRoots rest rs
      → LegalRoots (child k n rest) (region k v rs)

pub data LegalValue (m : MachineDefinition) : StateValue → Type 0 where
  at_state :
      (k : String) (n : StateNode) (w : Option StateValue) {v : StateValue}
      → m.type ≡ compound_machine
      → find_state k m.states ≡ some n
      → Legal n w
      → v ≡ value_under k w
      → LegalValue m v
  at_regions :
      (rs : Regions) {v : StateValue}
      → m.type ≡ parallel_machine
      → LegalRoots m.states rs
      → v ≡ node rs
      → LegalValue m v

abbrev pub WellFormedMachine : MachineDefinition → Type 0
WellFormedMachine m =
    (m.type ≡ compound_machine
      → (n : StateNode) × (find_state (initial_key m.initial) m.states ≡ some n))
    × WellFormedAll m.states

roots-Legal : (cs : States) → WellFormedAll cs → LegalRoots cs (enter_root_regions cs).0
unfolding enter_root_regions
roots-Legal no_states h = no_roots
roots-Legal (child k n rest) h = elim (Bool-cases (info n).is_implicit_error) [
  | inl hidden ↦ rw hidden (implicit hidden (roots-Legal rest h.2))
  | inr shown ↦
      rw shown
        (root (enter_subtree n).sub_value shown (enter-Legal n h.1) refl (roots-Legal rest h.2))
]

-- A well-formed machine always has an initial value, and that value is legal: one active child in
-- every active compound state, and every region active in every active parallel state.
pub resolve_initial_state-LegalValue :
    (m : MachineDefinition)
    → WellFormedMachine m
    → (v : StateValue) × (effects : List String) × (resolve_initial_state m ≡ some (v, effects))
      × LegalValue m v
unfolding resolve_initial_state
resolve_initial_state-LegalValue m h = go m.type refl
  where
    go :
        (t : MachineType)
        → m.type ≡ t
        → (v : StateValue) × (effects : List String) × (resolve_initial_state m ≡ some (v, effects))
          × LegalValue m v
    go compound_machine e =
        let (n, p) = h.0 e in
        let k : String = initial_key m.initial in
        let (same, legal) = children-Legal m.states h.1 k n p in
        let w : Option StateValue = (enter_subtree n).sub_value in
        (
          value_under (info n).key w,
          (enter_subtree n).entry_effects,
          ground (arith, p),
          at_state k n w e p legal (ap (λ j. value_under j w) same),
        )
    go parallel_machine e = (
      node (enter_root_regions m.states).0,
      (enter_root_regions m.states).1,
      ground arith,
      at_regions (enter_root_regions m.states).0 e (roots-Legal m.states h.1) refl,
    )
