-- ===== src/Runtime/Monad/Keeps.antt =====
-- Invariants of actions, one rule for each way to build an action.
use dfsm.Prelude.{◌≡◌, refl, ap, ◌∙◌, Bool, true, false, List, [], ◌∷◌, if◌then◌else◌}
use dfsm.Errors.{Raised, Result, ok, threw, Exec}
use dfsm.Runtime.Monad.{after_call, pure, raise, returning, gets, attempt, ◌>>=◌, for_each}

-- `m` keeps `P`, whether it returns or throws
pub record Keeps {S A : Type 0} (P : S → Type 0) (m : Exec S A) : Type 0 where
  pub at : (s : S) → P s → P (m s).1

module _ {S A : Type 0} {P : S → Type 0} where
  pub Keeps-pure : (v : A) → Keeps P (pure v)
  Keeps-pure v = record { at = λ s h. h }

  pub Keeps-raise : (e : Raised) → Keeps P (raise {A = A} e)
  Keeps-raise e = record { at = λ s h. h }

  pub Keeps-returning : (r : Result A) → Keeps P (returning r)
  Keeps-returning r = record { at = λ s h. h }

  pub Keeps-gets : (f : S → A) → Keeps P (gets f)
  Keeps-gets f = record { at = λ s h. h }

  pub Keeps-if : (b : Bool) (m n : Exec S A) → Keeps P m → Keeps P n → Keeps P (if b then m else n)
  Keeps-if true m n h k = h
  Keeps-if false m n h k = k

  pub Keeps-attempt : (m : Exec S A) → Keeps P m → Keeps P (attempt m)
  Keeps-attempt m h = record { at = h.at }

module _ {S A B : Type 0} {P : S → Type 0} where
  pub Keeps-bind :
      (m : Exec S A) (f : A → Exec S B) → Keeps P m → ((v : A) → Keeps P (f v)) → Keeps P (m >>= f)
  Keeps-bind m f h k = record { at = λ s p. after (m s).0 (m s).1 (h.at s p) }
    where
      after : (r : Result A) (s : S) → P s → P (after_call f (r, s)).1
      after (ok v) s p = (k v).at s p
      after (threw e) s p = p

pub Keeps-for_each :
    {S A : Type 0} {P : S → Type 0} (f : A → Exec S (Unit {0})) (xs : List A)
    → ((x : A) → Keeps P (f x))
    → Keeps P (for_each f xs)
unfolding for_each
Keeps-for_each f [] h = Keeps-pure tt
Keeps-for_each f (x ∷ xs) h = Keeps-bind (f x) _ (h x) λ _. Keeps-for_each f xs h

pub ruleset keeps_rules =
    (Keeps-pure, Keeps-raise, Keeps-returning, Keeps-gets, Keeps-if, Keeps-bind)

-- From states with `P`, both actions do the same, and keep `P`.
pub record Agree {S A : Type 0} (P : S → Type 0) (m n : Exec S A) : Type 0 where
  pub at : (s : S) → P s → (m s ≡ n s) × P (m s).1

pub Agree-keeps : {S A : Type 0} {P : S → Type 0} (m : Exec S A) → Keeps P m → Agree P m m
Agree-keeps m h = record { at = λ s p. (refl, h.at s p) }

pub Agree-if :
    {S A : Type 0} {P : S → Type 0} (b : Bool) (m m' n n' : Exec S A)
    → (b ≡ true → Agree P m m')
    → (b ≡ false → Agree P n n')
    → Agree P (if b then m else n) (if b then m' else n')
Agree-if true m m' n n' h k = h refl
Agree-if false m m' n n' h k = k refl

module _ {S A B : Type 0} {P : S → Type 0} where
  pub Agree-bind :
      (m n : Exec S A) (f g : A → Exec S B)
      → Agree P m n
      → ((v : A) → Agree P (f v) (g v))
      → Agree P (m >>= f) (n >>= g)
  Agree-bind m n f g h k = record {
    at = λ s p.
        let (e, q) = h.at s p in
        let (d, t) = after (m s).0 (m s).1 q in (d ∙ ap (after_call g) e, t);
  }
    where
      after :
          (r : Result A) (s : S)
          → P s
          → (after_call f (r, s) ≡ after_call g (r, s)) × P (after_call f (r, s)).1
      after (ok v) s p = (k v).at s p
      after (threw e) s p = (refl, p)

pub Agree-for_each :
    {S A : Type 0} {P : S → Type 0} (f g : A → Exec S (Unit {0})) (xs : List A)
    → ((x : A) → Agree P (f x) (g x))
    → Agree P (for_each f xs) (for_each g xs)
unfolding for_each
Agree-for_each f g [] h = Agree-keeps (pure tt) (Keeps-pure tt)
Agree-for_each f g (x ∷ xs) h =
    Agree-bind (f x) (g x) (λ _. for_each f xs) (λ _. for_each g xs) (h x)
      λ _. Agree-for_each f g xs h

pub Keeps-self : {S A : Type 0} {P : S → Type 0} {m : Exec S A} → Agree P m m → Keeps P m
Keeps-self h = record { at = λ s p. (h.at s p).1 }
