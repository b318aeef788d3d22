-- ===== src/Engine/Match/Below.antt =====
-- The search below one state, `searchInSubtree` (engine/statechart.ts), is exact.
use dfsm.Prelude.{
  String, ◌≡◌, refl, ◌⊎◌, inl, inr, Bool-cases, Option-cases, ap, sym, ◌∙◌, Option, none, some, [],
  ◌==◌, arith,
}
use mathlib.Core.Path.{subst}
use mathlib.Core.Option.{some-injective}
use dfsm.Prelude.Dict.{get}
use dfsm.Machine.{
  StateNodeType, atomic, compound, parallel, final, NodeInfo, StateNode, state, States, no_states,
  child, find_state,
}
use dfsm.Machine.StateValue.{StateValue, leaf, node, Regions, no_regions, region, get_region}
use dfsm.Engine.Match.{
  own_match, or_own, found_in, first_match, match_below, region_map, normalized, search_in_subtree,
  search_child, search_regions,
}
use dfsm.Engine.Match.Active.{Active, itself, in_leaf, in_entry, in_region}
use dfsm.Engine.Match.Exact.{
  AtEntry, AtEntry-split, Exact, Exact-append, Exact-or_else, Exact-same, InChild, InEntry,
  InRegions, InRegions-split, InValue, or_own-eq, own-Exact,
}

find_state-search_child :
    (event : String) (k : String) (v : Option StateValue) (cs : States) (n : StateNode)
    → find_state k cs ≡ some n
    → found_in (search_child event cs k v) ≡ search_in_subtree event n v
unfolding search_in_subtree
find_state-search_child event k v no_states n h = cc
find_state-search_child event k v (child l m rest) n h = elim (Bool-cases (l == k)) [
  | inl same ↦
      rw (same, search_child)
        (ap (λ x. search_in_subtree event x v) (some-injective m n (rw same at h)))
  | inr other ↦ rw (other, search_child) (find_state-search_child event k v rest n (rw other at h))
]

absent-search_child :
    (event : String) (k : String) (v : Option StateValue) (cs : States)
    → find_state k cs ≡ none
    → found_in (search_child event cs k v) ≡ []
unfolding search_in_subtree
absent-search_child event k v no_states h = refl
absent-search_child event k v (child l m rest) h = elim (Bool-cases (l == k)) [
  | inl same ↦ let e : some m ≡ none = rw same at h in cc
  | inr other ↦ rw (other, search_child) (absent-search_child event k v rest (rw other at h))
]

-- The search is exact in every child that is found.
abbrev FoundExact : String → States → Type 0
FoundExact event cs =
    (k : String) (n : StateNode)
    → find_state k cs ≡ some n
    → (v : Option StateValue) → Exact event (Active n v) (search_in_subtree event n v)

module _ (event : String) (cs : States) (below : FoundExact event cs) where
  pub same_child :
      (k : String) (v : Option StateValue) (n : StateNode)
      → find_state k cs ≡ some n
      → (j : NodeInfo) → InChild cs k v j
      → Active n v j
  same_child k v n found j p =
      subst (λ x. Active x v j) (some-injective p.0 n (sym p.1 ∙ found)) p.2

  pub child-Exact :
      (k : String) (v : Option StateValue)
      → Exact event (InChild cs k v) (found_in (search_child event cs k v))
  child-Exact k v = elim (Option-cases (find_state k cs)) [
    | inl absent ↦ rw (absent-search_child event k v cs absent) (record {
      matched = tt;
      none_left = λ e j p. let q : none ≡ some p.0 = rw absent at p.1 in cc q;
    })
    | inr (n, found) ↦ rw (find_state-search_child event k v cs n found) (
        Exact-same _ (λ j a. (n, found, a)) (λ j p. same_child k v n found j p) (below k n found v))
  ]

  pub entries-Exact :
      (rs : Regions)
      → Exact event (AtEntry (InEntry cs) rs) (first_match (search_child event cs) rs)
  entries-Exact no_regions = record { matched = tt; none_left = λ e j p. absurd p.2 }
  entries-Exact (region k w rest) =
      Exact-or_else (found_in (search_child event cs k (some w)))
        (first_match (search_child event cs) rest) (λ j p. (k, w, inl (refl, refl), p))
        (λ j q. (q.0, q.1, inr q.2, q.3)) (AtEntry-split (InEntry cs) k w rest)
        (child-Exact k (some w)) (entries-Exact rest)

  pub value-Exact :
      (v : Option StateValue) → Exact event (InValue cs v) (match_below (search_child event cs) v)
  value-Exact none = record { matched = tt; none_left = λ e j p. absurd p }
  value-Exact (some (leaf k)) = child-Exact k none
  value-Exact (some (node rs)) = entries-Exact rs

found-Exact :
    (event : String) (l : String) (m : StateNode) (rest : States)
    → ((v : Option StateValue) → Exact event (Active m v) (search_in_subtree event m v))
    → FoundExact event rest
    → FoundExact event (child l m rest)
found-Exact event l m rest here below k n h v = elim (Bool-cases (l == k)) [
  | inl same ↦
      subst (λ x. Exact event (Active x v) (search_in_subtree event x v))
        (some-injective m n (rw same at h)) (here v)
  | inr other ↦ below k n (rw other at h) v
]

search_simple :
    (event : String) (i : NodeInfo) (cs : States) (v : Option StateValue)
    → (i.type ≡ atomic) ⊎ (i.type ≡ final)
    → search_in_subtree event (state i cs) v ≡ own_match i (get event i.on)
unfolding search_in_subtree
search_simple event i cs v (inl e) = ground (arith, e)
search_simple event i cs v (inr e) = ground (arith, e)

search_compound :
    (event : String) (i : NodeInfo) (cs : States) (v : Option StateValue)
    → i.type ≡ compound
    → search_in_subtree event (state i cs) v
      ≡ or_own i event (match_below (search_child event cs) v)
unfolding search_in_subtree
search_compound event i cs v e = ground (arith, e)

search_parallel :
    (event : String) (i : NodeInfo) (cs : States) (v : Option StateValue)
    → i.type ≡ parallel
    → search_in_subtree event (state i cs) v
      ≡ or_own i event (search_regions event cs (region_map v))
unfolding search_in_subtree
search_parallel event i cs v e = ground (arith, e)

simple_alone :
    (i : NodeInfo) (cs : States) (v : Option StateValue) (j : NodeInfo)
    → (i.type ≡ atomic) ⊎ (i.type ≡ final)
    → Active (state i cs) v j
    → j ≡ i
simple_alone i cs v j e itself = refl
simple_alone i cs v j (inl e) (in_leaf n p f a) = cc
simple_alone i cs v j (inl e) (in_entry k w n p en f a) = cc
simple_alone i cs v j (inl e) (in_region k n p c a) = cc
simple_alone i cs v j (inr e) (in_leaf n p f a) = cc
simple_alone i cs v j (inr e) (in_entry k w n p en f a) = cc
simple_alone i cs v j (inr e) (in_region k n p c a) = cc

compound_split :
    (i : NodeInfo) (cs : States) (v : Option StateValue) (j : NodeInfo)
    → i.type ≡ compound
    → Active (state i cs) v j
    → InValue cs v j ⊎ (j ≡ i)
compound_split i cs v j e itself = inr refl
compound_split i cs v j e (in_leaf n p f a) = inl (n, f, a)
compound_split i cs v j e (in_entry k w n p en f a) = inl (k, w, en, (n, f, a))
compound_split i cs v j e (in_region k n p c a) = cc

parallel_split :
    (i : NodeInfo) (cs : States) (v : Option StateValue) (j : NodeInfo)
    → i.type ≡ parallel
    → Active (state i cs) v j
    → InRegions cs (region_map v) j ⊎ (j ≡ i)
parallel_split i cs v j e itself = inr refl
parallel_split i cs v j e (in_leaf n p f a) = cc
parallel_split i cs v j e (in_entry k w n p en f a) = cc
parallel_split i cs v j e (in_region k n p c a) = inl (k, n, c, a)

in_value :
    (i : NodeInfo) (cs : States) (v : Option StateValue) (j : NodeInfo)
    → i.type ≡ compound
    → InValue cs v j
    → Active (state i cs) v j
in_value i cs none j e p = absurd p
in_value i cs (some (leaf k)) j e (n, f, a) = in_leaf n e f a
in_value i cs (some (node rs)) j e (k, w, en, (n, f, a)) = in_entry k w n e en f a

own_Active :
    (i : NodeInfo) (cs : States) (v : Option StateValue) (j : NodeInfo)
    → j ≡ i
    → Active (state i cs) v j
own_Active i cs v j p = subst (λ k. Active (state i cs) v k) (sym p) itself

simple_Exact :
    (event : String) (i : NodeInfo) (cs : States) (v : Option StateValue)
    → (i.type ≡ atomic) ⊎ (i.type ≡ final)
    → Exact event (Active (state i cs) v) (search_in_subtree event (state i cs) v)
simple_Exact event i cs v e =
    subst (Exact event (Active (state i cs) v)) (sym (search_simple event i cs v e)) (
      Exact-same _ (λ j p. own_Active i cs v j p) (λ j. simple_alone i cs v j e)
        (own-Exact i (get event i.on) refl))

by_type :
    (event : String) (i : NodeInfo) (cs : States) (v : Option StateValue) (t : StateNodeType)
    → i.type ≡ t
    → FoundExact event cs
    → Exact event (InRegions cs (region_map v)) (search_regions event cs (region_map v))
    → Exact event (Active (state i cs) v) (search_in_subtree event (state i cs) v)
by_type event i cs v atomic e below regions = simple_Exact event i cs v (inl e)
by_type event i cs v final e below regions = simple_Exact event i cs v (inr e)
by_type event i cs v compound e below regions =
    subst (Exact event (Active (state i cs) v))
      (sym (search_compound event i cs v e ∙ or_own-eq event i _))
      (Exact-or_else _ _ (λ j. in_value i cs v j e) (λ j p. own_Active i cs v j p)
        (λ j. compound_split i cs v j e) (value-Exact event cs below v)
        (own-Exact i (get event i.on) refl))
by_type event i cs v parallel e below regions =
    subst (Exact event (Active (state i cs) v))
      (sym (search_parallel event i cs v e ∙ or_own-eq event i _))
      (Exact-or_else _ _ (λ j p. in_region p.0 p.1 e p.2 p.3) (λ j p. own_Active i cs v j p)
        (λ j. parallel_split i cs v j e) regions (own-Exact i (get event i.on) refl))

mutual
  unfolding search_in_subtree

  pub subtree-Exact :
      (event : String) (n : StateNode) (v : Option StateValue)
      → Exact event (Active n v) (search_in_subtree event n v)
  subtree-Exact event (state i cs) v =
      by_type event i cs v i.type refl (children-Exact event cs)
        (regions-Exact event cs (region_map v))

  pub children-Exact : (event : String) (cs : States) → FoundExact event cs
  children-Exact event no_states = λ k n h v. cc h
  children-Exact event (child l m rest) =
      found-Exact event l m rest (subtree-Exact event m) (children-Exact event rest)

  pub regions-Exact :
      (event : String) (cs : States) (rs : Regions)
      → Exact event (InRegions cs rs) (search_regions event cs rs)
  regions-Exact event no_states rs = record { matched = tt; none_left = λ e j p. absurd p.2 }
  regions-Exact event (child k n rest) rs =
      Exact-append (search_in_subtree event n (normalized n (get_region k rs)))
        (search_regions event rest rs) (λ j p. (k, n, inl (refl, refl), p))
        (λ j q. (q.0, q.1, inr q.2, q.3)) (InRegions-split k n rest rs)
        (subtree-Exact event n (normalized n (get_region k rs))) (regions-Exact event rest rs)
