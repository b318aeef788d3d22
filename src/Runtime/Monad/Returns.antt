-- ===== src/Runtime/Monad/Returns.antt =====
-- Actions that never throw.
use dfsm.Prelude.{◌≡◌, refl, ap, ◌∙◌, Bool, true, false, if◌then◌else◌}
use dfsm.Errors.{ok, Exec}
use dfsm.Runtime.Monad.{after_call, pure, attempt, ◌>>=◌}

-- `m` returns from every state.
pub record Returns {S A : Type 0} (m : Exec S A) : Type 0 where
  pub at : (s : S) → (v : A) × (s' : S) × (m s ≡ (ok v, s'))

module _ {S A : Type 0} where
  pub Returns-pure : (v : A) → Returns {S = S} (pure v)
  Returns-pure v = record { at = λ s. (v, s, refl) }

  pub Returns-attempt : (m : Exec S A) → Returns (attempt m)
  Returns-attempt m = record { at = λ s. ((m s).0, (m s).1, refl) }

  pub Returns-if :
      (b : Bool) (m n : Exec S A) → Returns m → Returns n → Returns (if b then m else n)
  Returns-if true m n h k = h
  Returns-if false m n h k = k

module _ {S A B : Type 0} where
  pub Returns-bind :
      (m : Exec S A) (f : A → Exec S B) → Returns m → ((v : A) → Returns (f v)) → Returns (m >>= f)
  Returns-bind m f h k = record {
    at = λ s.
        let (v, s', e) = h.at s in let (u, t, g) = (k v).at s' in (u, t, ap (after_call f) e ∙ g);
  }
