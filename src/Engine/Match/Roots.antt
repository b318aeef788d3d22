-- ===== src/Engine/Match/Roots.antt =====
-- What `resolveTransitionsForEvent` (engine/statechart.ts) finds in a machine.
use dfsm.Prelude.{
  String, ◌≡◌, refl, inl, inr, Bool-cases, Option-cases, ap, sym, ◌∙◌, none, some, [], ◌==◌, All,
}
use mathlib.Core.Path.{subst}
use mathlib.Core.Option.{some-injective}
use dfsm.Prelude.Dict.{get}
use dfsm.Machine.{NodeInfo, StateNode, States, no_states, child, find_state, MachineDefinition}
use dfsm.Machine.StateValue.{StateValue, leaf, node, Regions, no_regions, region}
use dfsm.Engine.Match.{
  MatchedTransition, normalized, search_in_subtree, search_root, search_roots,
  resolve_transitions_for_event,
}
use dfsm.Engine.Match.Active.{Active, ActiveIn, at_state, at_region}
use dfsm.Engine.Match.Exact.{
  AtEntry, AtEntry-split, Exact, Exact-append, Exact-same, InChild, InRoot,
}
use dfsm.Engine.Match.Below.{child-Exact, children-Exact, subtree-Exact}

find_state-search_root :
    (event : String) (k : String) (w : StateValue) (ss : States) (n : StateNode)
    → find_state k ss ≡ some n
    → search_root event ss k w ≡ search_in_subtree event n (normalized n (some w))
find_state-search_root event k w no_states n h = cc
find_state-search_root event k w (child l m rest) n h = elim (Bool-cases (l == k)) [
  | inl same ↦ rw same (
      ap (λ x. search_in_subtree event x (normalized x (some w)))
        (some-injective m n (rw same at h)))
  | inr other ↦ rw other (find_state-search_root event k w rest n (rw other at h))
]

absent-search_root :
    (event : String) (k : String) (w : StateValue) (ss : States)
    → find_state k ss ≡ none
    → search_root event ss k w ≡ []
absent-search_root event k w no_states h = refl
absent-search_root event k w (child l m rest) h = elim (Bool-cases (l == k)) [
  | inl same ↦ let e : some m ≡ none = rw same at h in cc
  | inr other ↦ rw other (absent-search_root event k w rest (rw other at h))
]

same_root :
    (ss : States) (k : String) (w : StateValue) (n : StateNode)
    → find_state k ss ≡ some n
    → (j : NodeInfo) → InRoot ss k w j
    → Active n (normalized n (some w)) j
same_root ss k w n found j p =
    subst (λ x. Active x (normalized x (some w)) j) (some-injective p.0 n (sym p.1 ∙ found)) p.2

root-Exact :
    (event : String) (ss : States) (k : String) (w : StateValue)
    → Exact event (InRoot ss k w) (search_root event ss k w)
root-Exact event ss k w = elim (Option-cases (find_state k ss)) [
  | inl absent ↦ rw (absent-search_root event k w ss absent) (record {
    matched = tt;
    none_left = λ e j p. let q : none ≡ some p.0 = rw absent at p.1 in cc q;
  })
  | inr (n, found) ↦ rw (find_state-search_root event k w ss n found) (
      Exact-same _ (λ j a. (n, found, a)) (same_root ss k w n found)
        (subtree-Exact event n (normalized n (some w))))
]

roots-Exact :
    (event : String) (ss : States) (rs : Regions)
    → Exact event (AtEntry (InRoot ss) rs) (search_roots event ss rs)
roots-Exact event ss no_regions = record { matched = tt; none_left = λ e j p. absurd p.2 }
roots-Exact event ss (region k w rest) =
    Exact-append (search_root event ss k w) (search_roots event ss rest)
      (λ j p. (k, w, inl (refl, refl), p)) (λ j q. (q.0, q.1, inr q.2, q.3))
      (AtEntry-split (InRoot ss) k w rest) (root-Exact event ss k w) (roots-Exact event ss rest)

at_leaf-split :
    (m : MachineDefinition) (k : String) (j : NodeInfo)
    → ActiveIn m (leaf k) j
    → InChild m.states k none j
at_leaf-split m k j (at_state n f a) = (n, f, a)

at_node-split :
    (m : MachineDefinition) (rs : Regions) (j : NodeInfo)
    → ActiveIn m (node rs) j
    → AtEntry (InRoot m.states) rs j
at_node-split m rs j (at_region k w n en f a) = (k, w, en, (n, f, a))

value_in-Exact :
    (m : MachineDefinition) (v : StateValue) (event : String)
    → Exact event (ActiveIn m v) (resolve_transitions_for_event m v event)
unfolding resolve_transitions_for_event
value_in-Exact m (leaf k) event =
    Exact-same _ (λ j p. at_state p.0 p.1 p.2) (at_leaf-split m k)
      (child-Exact event m.states (children-Exact event m.states) k none)
value_in-Exact m (node rs) event =
    Exact-same _ (λ j p. at_region p.0 p.1 p.3.0 p.2 p.3.1 p.3.2) (at_node-split m rs)
      (roots-Exact event m.states rs)

-- The matches for an event are of active states, each with that state's own edge for the event; and
-- there is no match only if no active state, at any depth and in any region, has an edge for it.
pub matches_exact :
    (m : MachineDefinition) (v : StateValue) (event : String)
    → All
        (λ (t : MatchedTransition).
          ActiveIn m v t.source_node × (get event t.source_node.on ≡ some t.edge))
        (resolve_transitions_for_event m v event)
      × (resolve_transitions_for_event m v event ≡ []
          → (j : NodeInfo) → ActiveIn m v j
          → get event j.on ≡ none)
matches_exact m v event = let h = value_in-Exact m v event in (h.matched, h.none_left)
