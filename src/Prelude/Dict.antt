-- ===== src/Prelude/Dict.antt =====
-- JavaScript objects used as maps (`Record<string, V>`, `Map<string, V>`): an association list in
-- insertion order, where a write to a present key keeps its place.
use mathlib.Core.Path.{◌≡◌, refl}
use mathlib.Core.Option.{Option, none, some}
use mathlib.Core.List.{List, [], ◌∷◌}
use mathlib.Core.Bool.{Bool, true, false}
use Prim.Native.String.{String}
use native.Mathlib.Omega.{arith}
use text.Mathlib.Text.{◌==◌}
use text.Mathlib.TextEquality.{eq_iff}
use dfsm.Prelude.Tests.{if◌then◌else◌}

abbrev pub Dict {ℓ} : Type ℓ → Type ℓ
Dict V = List (String × V)

module _ {ℓ} {V : Type ℓ} where
  -- `o[k]`, `m.get(k)`
  abbrev pub get : String → Dict V → Option V
  get k [] = none
  get k ((j, v) ∷ m) = if j == k then some v else get k m

  -- `o[k] = v`, `{ ...o, [k]: v }`, `m.set(k, v)`
  abbrev pub put : String → V → Dict V → Dict V
  put k v [] = (k, v) ∷ []
  put k v ((j, w) ∷ m) = if j == k then (j, v) ∷ m else (j, w) ∷ put k v m

  -- `Object.keys(o)`
  abbrev pub keys : Dict V → List String
  keys [] = []
  keys ((k, v) ∷ m) = k ∷ keys m

  pub get-put :
      (k j : String) (v : V) (m : Dict V) → get j (put k v m) ≡ (if k == j then some v else get j m)
  get-put k j v [] = refl
  get-put k j v ((i, w) ∷ m) = ground (arith, eq_iff k j, eq_iff i k, eq_iff i j, get-put k j v m)

-- `xs.includes(x)`, `s.has(x)`
abbrev pub includes : String → List String → Bool
includes k [] = false
includes k (x ∷ xs) = if x == k then true else includes k xs

-- `s.add(x)` on a `Set` of strings, which keeps the order of first insertion
abbrev pub add_to_set : String → List String → List String
add_to_set k [] = k ∷ []
add_to_set k (x ∷ xs) = if x == k then x ∷ xs else x ∷ add_to_set k xs
