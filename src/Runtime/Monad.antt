-- ===== src/Runtime/Monad.antt =====
-- Asynchronous calls that may throw, as actions: what was written before a throw stays.
pub mod Returns
pub mod Keeps
use dfsm.Prelude.{Bool, List, [], ◌∷◌}
use dfsm.Errors.{Raised, Result, ok, threw, Exec}

module _ {S A : Type 0} where
  abbrev pub pure : A → Exec S A
  pure a s = (ok a, s)

  abbrev pub raise : Raised → Exec S A
  raise e s = (threw e, s)

  abbrev pub returning : Result A → Exec S A
  returning r s = (r, s)

  abbrev pub gets : (S → A) → Exec S A
  gets f s = (ok (f s), s)

  -- `try … catch`, with the result of the call for what follows
  abbrev pub attempt : Exec S A → Exec S (Result A)
  attempt m s = let (r, s') = m s in (ok r, s')

abbrev pub modify : {S : Type 0} → (S → S) → Exec S (Unit {0})
modify f s = (ok tt, f s)

infixl 5 ◌>>=◌ ◌>>◌
abbrev pub ◌>>=◌ : {S A B : Type 0} → Exec S A → (A → Exec S B) → Exec S B
◌>>=◌ m f s = let (r, s') = m s in elim r [ ok a ↦ f a s' | threw e ↦ (threw e, s') ]

abbrev pub ◌>>◌ : {S B : Type 0} → Exec S (Unit {0}) → Exec S B → Exec S B
m >> k = m >>= λ _. k

-- `for (const x of xs) await f(x)`
unfoldable pub for_each : {S A : Type 0} → (A → Exec S (Unit {0})) → List A → Exec S (Unit {0})
for_each f [] = pure tt
for_each f (x ∷ xs) = f x >> for_each f xs

-- what a bind does after its first call
abbrev pub after_call : {S A B : Type 0} → (A → Exec S B) → Result A × S → Result B × S
after_call f r = elim r.0 [ ok v ↦ f v r.1 | threw e ↦ (threw e, r.1) ]
