-- ===== src/Prelude/Text/RoundTrip.antt =====
-- Splitting a path at its dots undoes joining its parts.
use Prim.Native.String.{String}
use mathlib.Core.Path.{◌≡◌, refl, ap, ◌∙◌}
use mathlib.Core.Bool.{Bool, true, false, not}
use mathlib.Core.Logic.{inl, inr}
use mathlib.Core.List.{List, [], ◌∷◌}
use text.Mathlib.TextLemmas.{nil-append, cons-append}
use text.Mathlib.Text.{◌==◌}
use dfsm.Prelude.Tests.{if◌then◌else◌, Bool-cases}
use dfsm.Prelude.Lists.{filter, All}
use dfsm.Prelude.Text.{dotted, is_dot, split_dots, join_dots, segments}

-- A text that may be a part of a path: it has no dot and is not empty.
abbrev pub has_dot : String → Bool
has_dot String.[] = false
has_dot (String.◌∷◌ c s) = if is_dot c then true else has_dot s

abbrev pub IsName : String → Type 0
IsName p = (has_dot p ≡ false) × ((p == "") ≡ false)

split-dotted : (a b : String) → has_dot a ≡ false → split_dots (dotted a b) ≡ a ∷ split_dots b
unfolding split_dots
split-dotted String.[] b h = rw nil-append
split-dotted (String.◌∷◌ c a) b h = elim (Bool-cases (is_dot c)) [
  | inl dot ↦ (let e : true ≡ false = rw dot at h in cc e)
  | inr plain ↦ rw (cons-append, plain, split-dotted a b (rw plain at h))
]

split-name : (a : String) → has_dot a ≡ false → split_dots a ≡ a ∷ []
unfolding split_dots
split-name String.[] h = refl
split-name (String.◌∷◌ c a) h = elim (Bool-cases (is_dot c)) [
  | inl dot ↦ (let e : true ≡ false = rw dot at h in cc e)
  | inr plain ↦ rw (plain, split-name a (rw plain at h))
]

pub split-join :
    (p : String) (ps : List String) → All IsName (p ∷ ps) → split_dots (join_dots (p ∷ ps)) ≡ p ∷ ps
unfolding join_dots
split-join p [] h = split-name p h.0.0
split-join p (q ∷ ps) h =
    split-dotted p (join_dots (q ∷ ps)) h.0.0 ∙ ap (λ r. p ∷ r) (split-join q ps h.1)

filter-names : (ps : List String) → All IsName ps → filter (λ p. not (p == "")) ps ≡ ps
filter-names [] h = refl
filter-names (p ∷ ps) h = rw h.0.1 (ap (λ r. p ∷ r) (filter-names ps h.1))

pub segments-join : (ps : List String) → All IsName ps → segments (join_dots ps) ≡ ps
unfolding split_dots join_dots
segments-join [] h = refl
segments-join (p ∷ ps) h = rw (split-join p ps h) (filter-names (p ∷ ps) h)
