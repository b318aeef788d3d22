-- ===== src/Machine/Paths.antt =====
-- What the targets of `resolveTargetStatePath` and the paths of `getNodeByPath` name
-- (definition/ir.ts, engine/statechart.ts).
use Prim.Native.Char.{Char, code}
use text.Mathlib.TextLemmas.{nil-append, cons-append}
use dfsm.Prelude.{
  String, ◌≡◌, refl, ap, true, false, Option, none, some, List, [], ◌∷◌, ◌++◌, ◌==◌, All,
  All-append, eqb_iff, Bool-cases, inl, inr, eq_iff,
}
use dfsm.Prelude.Text.{append, join_dots}
use dfsm.Prelude.Text.RoundTrip.{IsName, split-join, segments-join}
use dfsm.Machine.{
  StateNode, info, MachineDefinition, node_at, get_node_by_path, strip_prefix, path_of, but_last,
  relative, absolute, resolve_target_state_path,
}

get_node_by_path-join :
    (m : MachineDefinition) (ps : List String)
    → All IsName ps
    → get_node_by_path m (join_dots ps) ≡ node_at m.states ps
unfolding get_node_by_path
get_node_by_path-join m ps h = ap (node_at m.states) (segments-join ps h)

get_node_by_path-name :
    (m : MachineDefinition) (t : String)
    → IsName t
    → get_node_by_path m t ≡ node_at m.states (t ∷ [])
unfolding join_dots
get_node_by_path-name m t h = get_node_by_path-join m (t ∷ []) (h, tt)

strip_prefix-append : (p s : String) → strip_prefix p (append p s) ≡ some s
unfolding strip_prefix
strip_prefix-append String.[] s = rw nil-append
strip_prefix-append (String.◌∷◌ c p) s =
    rw (cons-append, (eqb_iff (code c) (code c)).1 refl) (strip_prefix-append p s)

-- A target `#id.a.b`, from any source, names the state that is found by going from the root to `a`
-- and on to `b`, if no name on the way has a dot or is empty.
pub resolve_absolute :
    (m : MachineDefinition) (source : String) (ps : List String)
    → All IsName ps
    → resolve_target_state_path m source (append "#" (append (append m.id ".") (join_dots ps)))
      ≡ path_of (node_at m.states ps)
unfolding resolve_target_state_path
resolve_absolute m source ps h =
    rw
      (strip_prefix-append "#" (append (append m.id ".") (join_dots ps)), resolve_target_state_path)
      (rw (strip_prefix-append (append m.id ".") (join_dots ps), absolute)
        (ap path_of (get_node_by_path-join m ps h)))

but_last-append : (ps : List String) (s : String) → but_last (ps ++ s ∷ []) ≡ ps
but_last-append [] s = refl
but_last-append (p ∷ []) s = refl
but_last-append (p ∷ q ∷ ps) s = ap (λ r. p ∷ r) (but_last-append (q ∷ ps) s)

cons-nonempty : (c : Char) (s : String) → (String.◌∷◌ c s == "") ≡ false
cons-nonempty c s = elim (Bool-cases (String.◌∷◌ c s == "")) [
  | inl e ↦ let q : String.◌∷◌ c s ≡ "" = (eq_iff (String.◌∷◌ c s) "").0 e in cc q
  | inr e ↦ e
]

join-nonempty : (p : String) (ps : List String) → IsName p → (join_dots (p ∷ ps) == "") ≡ false
unfolding join_dots
join-nonempty p [] h = h.1
join-nonempty String.[] (q ∷ ps) h = let e : true ≡ false = h.1 in cc e
join-nonempty (String.◌∷◌ c p) (q ∷ ps) h = rw cons-append (cons-nonempty c _)

same_fallback :
    (o a b : Option StateNode)
    → a ≡ b
    → (elim o [ some n ↦ some (info n).path | none ↦ path_of a ])
      ≡ (elim o [ some n ↦ some (info n).path | none ↦ path_of b ])
same_fallback none a b e = ap path_of e
same_fallback (some n) a b e = refl

-- A target that is one name and does not begin with `#`, from the state at a path of two or more
-- names, names that state's sibling if there is one, and else the state of that name at the root. A
-- name is not empty and has no dot.
pub resolve_sibling :
    (m : MachineDefinition) (p : String) (ps : List String) (s t : String)
    → All IsName (p ∷ ps)
    → IsName s
    → IsName t
    → strip_prefix "#" t ≡ none
    → resolve_target_state_path m (join_dots ((p ∷ ps) ++ s ∷ [])) t
      ≡ (elim (node_at m.states ((p ∷ ps) ++ t ∷ [])) [
        | some n ↦ some (info n).path
        | none ↦ path_of (node_at m.states (t ∷ []))
      ])
unfolding resolve_target_state_path
resolve_sibling m p ps s t names name target plain =
    rw (plain, resolve_target_state_path)
      (rw (join-nonempty p (ps ++ s ∷ []) names.0, relative)
        (rw
          (
            split-join p (ps ++ s ∷ []) (All-append IsName (p ∷ ps) (s ∷ []) names (name, tt)),
            but_last-append (p ∷ ps) s,
          )
          (rw
            (segments-join (p ∷ (ps ++ t ∷ []))
              (All-append IsName (p ∷ ps) (t ∷ []) names (target, tt)))
            (same_fallback (node_at m.states (p ∷ (ps ++ t ∷ []))) (get_node_by_path m t)
              (node_at m.states (t ∷ [])) (get_node_by_path-name m t target)))))
