-- ===== src/Prelude/Text.antt =====
-- Texts, and the dot paths that name states: `s.split(".")`, `parts.join(".")`, `${a}.${b}`.
pub mod RoundTrip
use Prim.Native.Char.{Char, code}
use Prim.Native.String
use Prim.Native.String.{String}
use mathlib.Core.Path.{◌≡◌, refl}
use mathlib.Core.Bool.{Bool, not}
use mathlib.Core.List.{List, [], ◌∷◌}
use text.Mathlib.Text.{◌==◌}
use dfsm.Prelude.Tests.{eqb, if◌then◌else◌}
use dfsm.Prelude.Lists.{filter}

abbrev pub append : String → String → String
append a b = String.◌++◌ a b

-- `${a}.${b}`
abbrev pub dotted : String → String → String
dotted a b = append a (String.◌∷◌ dot b)
  where
    dot : Char
    dot = "."

abbrev pub is_dot : Char → Bool
is_dot c = eqb (code c) b'.'

-- a character more at the front of the first piece
abbrev pub grow : Char → List String → List String
grow c [] = String.◌∷◌ c String.[] ∷ []
grow c (p ∷ ps) = String.◌∷◌ c p ∷ ps

-- `s.split(".")`
unfoldable pub split_dots : String → List String
split_dots String.[] = String.[] ∷ []
split_dots (String.◌∷◌ c s) =
    let rest = split_dots s in if is_dot c then String.[] ∷ rest else grow c rest

-- `parts.join(".")`
unfoldable pub join_dots : List String → String
join_dots [] = String.[]
join_dots (p ∷ []) = p
join_dots (p ∷ q ∷ ps) = dotted p (join_dots (q ∷ ps))

-- `s.split(".").filter(Boolean)`
abbrev pub segments : String → List String
segments s = filter (λ p. not (p == "")) (split_dots s)

split_test : split_dots "a.bc..d" ≡ "a" ∷ "bc" ∷ "" ∷ "d" ∷ []
unfolding split_dots
split_test = refl

join_test : join_dots ("a" ∷ "bc" ∷ []) ≡ "a.bc"
unfolding join_dots
join_test = refl
