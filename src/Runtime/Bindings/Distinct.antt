-- ===== src/Runtime/Bindings/Distinct.antt =====
-- `[...new Set(names)]`: the same names, each once.
use dfsm.Prelude.{
  String, false, not, ◌==◌, eq_iff, ◌≡◌, refl, arith, List, [], ◌∷◌, filter, if_both, if◌then◌else◌,
}
use dfsm.Prelude.Dict.{includes}
use dfsm.Runtime.Bindings.{distinct}

-- No name stands in the list a second time.
abbrev pub NoRepeats : List String → Type 0
NoRepeats [] = Unit
NoRepeats (x ∷ xs) = (includes x xs ≡ false) × NoRepeats xs

includes-filter :
    (k x : String) (ys : List String)
    → includes k (filter (λ y. not (y == x)) ys) ≡ (if k == x then false else includes k ys)
includes-filter k x [] = ground arith
includes-filter k x (y ∷ ys) =
    ground (arith, includes-filter k x ys, eq_iff y x, eq_iff y k, eq_iff k x)

pub includes-distinct : (k : String) (xs : List String) → includes k (distinct xs) ≡ includes k xs
includes-distinct k [] = refl
includes-distinct k (x ∷ xs) =
    ground
      (arith, includes-filter k x (distinct xs), includes-distinct k xs, eq_iff x k, eq_iff k x)

filter-NoRepeats :
    (x : String) (ys : List String) → NoRepeats ys → NoRepeats (filter (λ y. not (y == x)) ys)
filter-NoRepeats x [] h = tt
filter-NoRepeats x (y ∷ ys) h =
    let rest = filter-NoRepeats x ys h.1 in
    let absent : includes y (filter (λ z. not (z == x)) ys) ≡ false =
      ground (arith, includes-filter y x ys, h.0) in
    if_both NoRepeats (not (y == x)) (absent, rest) rest

pub distinct-NoRepeats : (xs : List String) → NoRepeats (distinct xs)
distinct-NoRepeats [] = tt
distinct-NoRepeats (x ∷ xs) = (
  ground (arith, includes-filter x x (distinct xs), eq_iff x x),
  filter-NoRepeats x (distinct xs) (distinct-NoRepeats xs),
)
