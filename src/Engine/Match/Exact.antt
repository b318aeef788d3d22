-- ===== src/Engine/Match/Exact.antt =====
-- Lists of matches that are exact for a set of states, and how the searches of
-- engine/statechart.ts put them together.
use dfsm.Prelude.{
  String, ◌≡◌, refl, ◌⊎◌, inl, inr, Option, none, some, List, [], ◌∷◌, ◌++◌, All, All-append,
}
use mathlib.Core.Path.{subst}
use dfsm.Prelude.Dict.{get}
use dfsm.Machine.{Edge, NodeInfo, StateNode, States, child, find_state}
use dfsm.Machine.StateValue.{StateValue, leaf, node, Regions, region, get_region}
use dfsm.Engine.Match.{MatchedTransition, own_match, or_own, normalized}
use dfsm.Engine.Match.Active.{Entry, Child, Active}

-- The children named by the value of a compound state, and the regions of a parallel one.
abbrev pub InChild : States → String → Option StateValue → NodeInfo → Type 0
InChild cs k v j = (n : StateNode) × (find_state k cs ≡ some n) × Active n v j

abbrev pub AtEntry : (String → StateValue → NodeInfo → Type 0) → Regions → NodeInfo → Type 0
AtEntry Q rs j = (k : String) × (w : StateValue) × Entry k w rs × Q k w j

abbrev pub InEntry : States → String → StateValue → NodeInfo → Type 0
InEntry cs k w j = InChild cs k (some w) j

abbrev pub InValue : States → Option StateValue → NodeInfo → Type 0
InValue cs none j = ⊥
InValue cs (some (leaf k)) j = InChild cs k none j
InValue cs (some (node rs)) j = AtEntry (InEntry cs) rs j

abbrev pub InRegions : States → Regions → NodeInfo → Type 0
InRegions cs rs j =
    (k : String) × (n : StateNode) × Child k n cs × Active n (normalized n (get_region k rs)) j

abbrev pub InRoot : States → String → StateValue → NodeInfo → Type 0
InRoot cs k w j = (n : StateNode) × (find_state k cs ≡ some n) × Active n (normalized n (some w)) j

pub AtEntry-split :
    (Q : String → StateValue → NodeInfo → Type 0) (k : String) (w : StateValue) (rest : Regions)
    (j : NodeInfo)
    → AtEntry Q (region k w rest) j
    → Q k w j ⊎ AtEntry Q rest j
AtEntry-split Q k w rest j (x, y, inl (p, q), h) =
    inl (subst (λ u. Q k u j) q (subst (λ u. Q u y j) p h))
AtEntry-split Q k w rest j (x, y, inr e, h) = inr (x, y, e, h)

pub InRegions-split :
    (k : String) (n : StateNode) (rest : States) (rs : Regions) (j : NodeInfo)
    → InRegions (child k n rest) rs j
    → Active n (normalized n (get_region k rs)) j ⊎ InRegions rest rs j
InRegions-split k n rest rs j (x, m, inl (p, q), h) = inl (
    subst (λ u. Active u (normalized u (get_region k rs)) j) q
      (subst (λ u. Active m (normalized m (get_region u rs)) j) p h))
InRegions-split k n rest rs j (x, m, inr e, h) = inr (x, m, e, h)

-- Matches that are right for the states of which `P` holds: each is of such a state and is its own
-- edge for the event, and there is none only if no such state has an edge for it.
pub record Exact (event : String) (P : NodeInfo → Type 0) (ms : List MatchedTransition)
    : Type 0 where
  pub matched :
      All
        (λ (m : MatchedTransition). P m.source_node × (get event m.source_node.on ≡ some m.edge))
        ms
  pub none_left : ms ≡ [] → (j : NodeInfo) → P j → get event j.on ≡ none

widen :
    (event : String) {P R : NodeInfo → Type 0} (ms : List MatchedTransition)
    → ((j : NodeInfo) → P j → R j)
    → All
        (λ (m : MatchedTransition). P m.source_node × (get event m.source_node.on ≡ some m.edge))
        ms
    → All
        (λ (m : MatchedTransition). R m.source_node × (get event m.source_node.on ≡ some m.edge))
        ms
widen event [] f h = tt
widen event (m ∷ ms) f h = ((f m.source_node h.0.0, h.0.1), widen event ms f h.1)

pub or_own-eq :
    (event : String) (i : NodeInfo) (ms : List MatchedTransition)
    → or_own i event ms ≡ (elim ms [ [] ↦ own_match i (get event i.on) | m ∷ r ↦ m ∷ r ])
or_own-eq event i [] = refl
or_own-eq event i (m ∷ ms) = refl

module _ {event : String} where
  pub Exact-same :
      {P R : NodeInfo → Type 0} (ms : List MatchedTransition)
      → ((j : NodeInfo) → P j → R j)
      → ((j : NodeInfo) → R j → P j)
      → Exact event P ms
      → Exact event R ms
  Exact-same ms f g h = record {
    matched = widen event ms f h.matched;
    none_left = λ e j r. h.none_left e j (g j r);
  }

  pub Exact-or_else :
      {P Q R : NodeInfo → Type 0} (xs ys : List MatchedTransition)
      → ((j : NodeInfo) → P j → R j)
      → ((j : NodeInfo) → Q j → R j)
      → ((j : NodeInfo) → R j → P j ⊎ Q j)
      → Exact event P xs
      → Exact event Q ys
      → Exact event R (elim xs [ [] ↦ ys | m ∷ ms ↦ m ∷ ms ])
  Exact-or_else [] ys f g split hx hy = record {
    matched = widen event ys g hy.matched;
    none_left =
        λ e j r. elim (split j r) [ inl p ↦ hx.none_left refl j p | inr q ↦ hy.none_left e j q ];
  }
  Exact-or_else (m ∷ ms) ys f g split hx hy = record {
    matched = widen event (m ∷ ms) f hx.matched;
    none_left = λ e j r. cc e;
  }

  pub Exact-append :
      {P Q R : NodeInfo → Type 0} (xs ys : List MatchedTransition)
      → ((j : NodeInfo) → P j → R j)
      → ((j : NodeInfo) → Q j → R j)
      → ((j : NodeInfo) → R j → P j ⊎ Q j)
      → Exact event P xs
      → Exact event Q ys
      → Exact event R (xs ++ ys)
  Exact-append xs ys f g split hx hy = record {
    matched = All-append _ xs ys (widen event xs f hx.matched) (widen event ys g hy.matched);
    none_left = λ e j r. elim (split j r) [
      | inl p ↦ hx.none_left (left_nil xs ys e) j p
      | inr q ↦ hy.none_left (right_nil xs ys e) j q
    ];
  }
    where
      left_nil : (ps qs : List MatchedTransition) → ps ++ qs ≡ [] → ps ≡ []
      left_nil [] qs e = refl
      left_nil (a ∷ ps) qs e = cc e

      right_nil : (ps qs : List MatchedTransition) → ps ++ qs ≡ [] → qs ≡ []
      right_nil [] qs e = e
      right_nil (a ∷ ps) qs e = cc e

  pub own-Exact :
      (i : NodeInfo) (o : Option Edge)
      → get event i.on ≡ o
      → Exact event (λ j. j ≡ i) (own_match i o)
  own-Exact i none h = record { matched = tt; none_left = λ e j p. rw p h }
  own-Exact i (some a) h = record { matched = ((refl, h), tt); none_left = λ e j p. cc e }
