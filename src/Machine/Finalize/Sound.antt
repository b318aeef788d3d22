-- ===== src/Machine/Finalize/Sound.antt =====
-- What a machine that `finalizeAndValidateMachineIR` (definition/ir.ts) accepts is.
use mathlib.Core.Path.{subst}
use dfsm.Prelude.{
  String, ◌≡◌, ◌≢◌, refl, sym, eq_iff, Bool-cases, inl, inr, Bool, true, false, not, Option, none,
  some, List, [], ◌∷◌, ◌++◌, arith, All,
}
use dfsm.Prelude.Dict.{Dict}
use dfsm.Machine.{
  StateNodeType, atomic, compound, parallel, final, Edge, NodeInfo, StateNode, state, States,
  no_states, child, find_state, compound_machine, parallel_machine, MachineType, MachineDefinition,
  resolve_target_state_path,
}
use dfsm.Machine.Finalize.{
  Issue, invalid_id, no_user_states, is_valid_id, depth_issues, append_state, implicit_error,
  unless, has_no_states, is_empty, compound_initial_issues, root_initial_issues, default_issues,
  given, is_given, is_some, fallback_of, target_issues, fallback_issues, edge_issues, edges_issues,
  on_done_issues, type_issues, node_issues, states_issues, root_issues, with_error_state,
  machine_issues, valid, report, finalize_and_validate_machine,
}

-- A reference that is given resolves to the path of a state.
abbrev pub Resolves : MachineDefinition → String → Option String → Type 0
Resolves m source none = Unit
Resolves m source (some t) = (path : String) × (resolve_target_state_path m source t ≡ some path)

abbrev ResolvesEdge : MachineDefinition → String → Edge → Type 0
ResolvesEdge m source e =
    Resolves m source (given e.target) × Resolves m source (fallback_of e.policy)

abbrev ResolvesDone : MachineDefinition → String → Option Edge → Type 0
ResolvesDone m source none = Unit
ResolvesDone m source (some e) = ResolvesEdge m source e

-- The shape that the type of a state asks for.
abbrev pub Shaped : StateNodeType → NodeInfo → States → Type 0
Shaped compound i cs =
    (k : String) × (given i.initial ≡ some k) × (n : StateNode) × (find_state k cs ≡ some n)
Shaped parallel i cs = (cs ≢ no_states) × (given i.initial ≡ none)
Shaped atomic i cs = (cs ≡ no_states) × (given i.initial ≡ none)
Shaped final i cs = (cs ≡ no_states) × (given i.initial ≡ none) × (i.on ≡ [])

abbrev mutual
  pub Validated : MachineDefinition → StateNode → Type 0
  Validated m (state i cs) =
      Shaped i.type i cs
      × All (λ (x : String × Edge). ResolvesEdge m i.path x.1) i.on
      × ResolvesDone m i.path i.on_done
      × ValidatedAll m cs

  pub ValidatedAll : MachineDefinition → States → Type 0
  ValidatedAll m no_states = Unit
  ValidatedAll m (child k n rest) = Validated m n × ValidatedAll m rest

append-eq-nil {ℓ} : {A : Type ℓ} (xs ys : List A) → xs ++ ys ≡ [] → (xs ≡ []) × (ys ≡ [])
append-eq-nil [] ys h = (refl, h)
append-eq-nil (x ∷ xs) ys h = cc

unless-eq-nil : (b : Bool) (i : Issue) → unless b i ≡ [] → b ≡ true
unless-eq-nil true i h = refl
unless-eq-nil false i h = cc

some_of_is_some {ℓ} : {A : Type ℓ} (o : Option A) → is_some o ≡ true → (a : A) × (o ≡ some a)
some_of_is_some none h = cc
some_of_is_some (some a) h = (a, refl)

path_of : (o : Option String) → is_given o ≡ true → (path : String) × (o ≡ some path)
path_of none h = cc
path_of (some path) h = (path, refl)

target-Resolves :
    (m : MachineDefinition) (source : String) (t : Option String)
    → target_issues m source t ≡ []
    → Resolves m source t
target-Resolves m source none h = tt
target-Resolves m source (some t) h =
    path_of (resolve_target_state_path m source t) (unless-eq-nil _ _ h)

fallback-Resolves :
    (m : MachineDefinition) (source : String) (t : Option String)
    → fallback_issues m source t ≡ []
    → Resolves m source t
fallback-Resolves m source none h = tt
fallback-Resolves m source (some t) h =
    path_of (resolve_target_state_path m source t) (unless-eq-nil _ _ h)

default-Resolves :
    (m : MachineDefinition) (t : Option String) → default_issues m t ≡ [] → Resolves m "" t
default-Resolves m none h = tt
default-Resolves m (some t) h = path_of (resolve_target_state_path m "" t) (unless-eq-nil _ _ h)

edge-Resolves :
    (m : MachineDefinition) (source : String) (e : Edge)
    → edge_issues m source e ≡ []
    → ResolvesEdge m source e
edge-Resolves m source e h =
    let (p, q) = append-eq-nil (target_issues m source (given e.target)) _ h in
    (
      target-Resolves m source (given e.target) p,
      fallback-Resolves m source (fallback_of e.policy) q,
    )

edges-Resolves :
    (m : MachineDefinition) (source : String) (es : Dict Edge)
    → edges_issues m source es ≡ []
    → All (λ (x : String × Edge). ResolvesEdge m source x.1) es
edges-Resolves m source [] h = tt
edges-Resolves m source ((event, e) ∷ es) h =
    let (p, q) = append-eq-nil (edge_issues m source e) _ h in
    (edge-Resolves m source e p, edges-Resolves m source es q)

done-Resolves :
    (m : MachineDefinition) (source : String) (o : Option Edge)
    → on_done_issues m source o ≡ []
    → ResolvesDone m source o
done-Resolves m source none h = tt
done-Resolves m source (some e) h = edge-Resolves m source e h

no_states_of : (cs : States) → has_no_states cs ≡ true → cs ≡ no_states
no_states_of no_states h = refl
no_states_of (child k n rest) h = cc

some_states_of : (cs : States) → not (has_no_states cs) ≡ true → cs ≢ no_states
some_states_of no_states h e = cc
some_states_of (child k n rest) h e = cc

nil_of {ℓ} : {A : Type ℓ} (xs : List A) → is_empty xs ≡ true → xs ≡ []
nil_of [] h = refl
nil_of (x ∷ xs) h = cc

none_given : (o : Option String) → not (is_some o) ≡ true → o ≡ none
none_given none h = refl
none_given (some s) h = cc

initial_found :
    (i : NodeInfo) (cs : States) (o : Option String)
    → given i.initial ≡ o
    → compound_initial_issues i.path cs o ≡ []
    → Shaped compound i cs
initial_found i cs none e h = cc
initial_found i cs (some k) e h =
    let (n, p) = some_of_is_some (find_state k cs) (unless-eq-nil _ _ h) in (k, e, n, p)

type-Shaped :
    (t : StateNodeType) (i : NodeInfo) (cs : States) → type_issues t i cs ≡ [] → Shaped t i cs
type-Shaped compound i cs h = initial_found i cs (given i.initial) refl (append-eq-nil _ _ h).1
type-Shaped parallel i cs h =
    let (p, q) = append-eq-nil _ _ h in
    (some_states_of cs (unless-eq-nil _ _ p), none_given (given i.initial) (unless-eq-nil _ _ q))
type-Shaped atomic i cs h =
    let (p, q) = append-eq-nil _ _ h in
    (no_states_of cs (unless-eq-nil _ _ p), none_given (given i.initial) (unless-eq-nil _ _ q))
type-Shaped final i cs h =
    let (p, q) = append-eq-nil _ _ h in
    let (r, s) = append-eq-nil _ _ q in
    (
      no_states_of cs (unless-eq-nil _ _ p),
      none_given (given i.initial) (unless-eq-nil _ _ r),
      nil_of i.on (unless-eq-nil _ _ s),
    )

mutual
  unfolding node_issues

  node-Validated : (m : MachineDefinition) (n : StateNode) → node_issues m n ≡ [] → Validated m n
  node-Validated m (state i cs) h =
      let (p, q) = append-eq-nil (type_issues i.type i cs) _ h in
      let (r, s) = append-eq-nil (edges_issues m i.path i.on) _ q in
      let (t, u) = append-eq-nil (on_done_issues m i.path i.on_done) _ s in
      (
        type-Shaped i.type i cs p,
        edges-Resolves m i.path i.on r,
        done-Resolves m i.path i.on_done t,
        states-Validated m cs u,
      )

  states-Validated :
      (m : MachineDefinition) (cs : States) → states_issues m cs ≡ [] → ValidatedAll m cs
  states-Validated m no_states h = tt
  states-Validated m (child k n rest) h =
      let (p, q) = append-eq-nil (node_issues m n) _ h in
      (node-Validated m n p, states-Validated m rest q)

-- What holds of the root of an accepted machine.
abbrev pub RootShaped : MachineType → MachineDefinition → Type 0
RootShaped compound_machine m =
    (k : String) × (given m.initial ≡ some k) × (n : StateNode) × (find_state k m.states ≡ some n)
RootShaped parallel_machine m = given m.initial ≡ none

root-Shaped :
    (t : MachineType) (m : MachineDefinition) → m.type ≡ t → root_issues m ≡ [] → RootShaped t m
root-Shaped compound_machine m e h = root_found (given m.initial) refl (rw (e, root_issues) at h)
  where
    root_found :
        (o : Option String)
        → given m.initial ≡ o
        → root_initial_issues m.states o ≡ []
        → RootShaped compound_machine m
    root_found none p q = cc
    root_found (some k) p q =
        let (n, r) = some_of_is_some (find_state k m.states) (unless-eq-nil _ _ q) in (k, p, n, r)
root-Shaped parallel_machine m e h =
    none_given (given m.initial) (unless-eq-nil _ _ (rw (e, root_issues) at h))

report-eq-valid :
    (is : List Issue) (m m' : MachineDefinition) → report is m' ≡ valid m → (is ≡ []) × (m ≡ m')
report-eq-valid [] m m' h = (refl, ground arith)
report-eq-valid (i ∷ is) m m' h = cc

machine-Validated :
    (raw m : MachineDefinition)
    → machine_issues raw m ≡ []
    → RootShaped m.type m × Resolves m "" (fallback_of m.defaults) × ValidatedAll m m.states
unfolding machine_issues
machine-Validated raw m h =
    let (a, h₁) = append-eq-nil (unless (is_valid_id raw.id) invalid_id) _ h in
    let (b, h₂) = append-eq-nil (depth_issues raw.max_effect_chain_depth) _ h₁ in
    let (c, h₃) = append-eq-nil (unless (not (has_no_states raw.states)) no_user_states) _ h₂ in
    let (d, h₄) = append-eq-nil (root_issues m) _ h₃ in
    let (e, h₅) = append-eq-nil (default_issues m (fallback_of m.defaults)) _ h₄ in
    (
      root-Shaped m.type m refl d,
      default-Resolves m (fallback_of m.defaults) e,
      states-Validated m m.states h₅,
    )

find_state-append_state :
    (k : String) (n : StateNode) (cs : States) → is_some (find_state k (append_state k n cs)) ≡ true
find_state-append_state k n no_states = ground (arith, eq_iff k k)
find_state-append_state k n (child j m rest) = ground (arith, find_state-append_state k n rest)

has_error_state :
    (raw : MachineDefinition) → is_some (find_state "error" (with_error_state raw).states) ≡ true
has_error_state raw = elim (Bool-cases (is_some (find_state "error" raw.states))) [
  | inl own ↦ rw own own
  | inr without ↦ rw without (find_state-append_state "error" implicit_error raw.states)
]

-- A machine that is accepted is the raw machine, with an implicit error state where it has none of
-- its own, so that there is an error state; the root's initial state exists; every state has the
-- shape of its type, at any depth; and every target, and every fallback target of a state or of the
-- machine's defaults, resolves to the path of a state.
pub finalize_sound :
    (raw m : MachineDefinition)
    → finalize_and_validate_machine raw ≡ valid m
    → (m ≡ with_error_state raw)
      × (is_some (find_state "error" m.states) ≡ true)
      × RootShaped m.type m
      × Resolves m "" (fallback_of m.defaults)
      × ValidatedAll m m.states
unfolding finalize_and_validate_machine
finalize_sound raw m h =
    let r = with_error_state raw in
    let (none_found, same) = report-eq-valid (machine_issues raw r) m r h in
    let (root, fallback, states) =
      machine-Validated raw m (subst (λ x. machine_issues raw x ≡ []) (sym same) none_found) in
    let e : is_some (find_state "error" m.states) ≡ true = rw same (has_error_state raw) in
    (same, e, root, fallback, states)
