-- ===== src/Runtime/Levels/Others.antt =====
-- Effects of any transaction and the depth counter of one (runtime/actor.ts).
use dfsm.Prelude.{
  ℕ, zero, suc, ◌+◌, ◌-◌, String, ◌≡◌, refl, ◌∙◌, sym, true, false, Option, none, some, List, [],
  ◌∷◌, ◌==◌, eq_iff, ltb, arith, Bool-cases, inl, inr,
}
use mathlib.Core.Path.{subst}
use dfsm.Prelude.Dict.{Dict, get, put, get-put}
use dfsm.Errors.{Exec}
use dfsm.Machine.StateValue.{StateValue}
use dfsm.Store.{Transaction, Snapshot}
use dfsm.Runtime.{Actor, EffectRequest, EffectCode}
use dfsm.Runtime.Monad.{raise, ◌>>=◌}
use dfsm.Runtime.Monad.Keeps.{
  Keeps, Keeps-raise, Keeps-self, Keeps-if, Keeps-bind, Keeps-for_each, Agree-keeps, keeps_rules,
}
use dfsm.Runtime.World.{World, get_or, remove}
use dfsm.Runtime.Effects.{
  Calls, interpret, chain_too_deep, release, effective, call_effect, guarded, invoke_found,
  invoke_single_effect, invoke_effects,
}
use dfsm.Runtime.Transition.{execute_transition_on_snapshot}
use dfsm.Runtime.Entry.{transition_with, calls_to}
use dfsm.Runtime.Agreement.{transition-Agree, execute-Agree}
use dfsm.Runtime.Levels.{
  AtDepth, Steady-AtDepth, ready_again, get_or-put, release_lem, interpret-Agree,
}

get-remove_other : (tx t : String) (m : Dict ℕ) → (t == tx) ≡ false → get tx (remove t m) ≡ get tx m
get-remove_other tx t [] h = refl
get-remove_other tx t ((j, v) ∷ m) h =
    ground (arith, eq_iff j t, eq_iff j tx, eq_iff t tx, get-remove_other tx t m h)

next_is : (d n : ℕ) → n ≡ d → n + 1 ≡ suc d
next_is d n h = omega (arith, h)

get_or-put_other :
    (tx t : String) (d : ℕ) (m : Dict ℕ)
    → (t == tx) ≡ false
    → get_or 0 tx (put t d m) ≡ get_or 0 tx m
get_or-put_other tx t d m h = ground (arith, get-put t tx d m)

release_other :
    (tx t : String) (m : Dict ℕ) → (t == tx) ≡ false → get_or 0 tx (release t m) ≡ get_or 0 tx m
release_other tx t m h =
    ground (arith, get-remove_other tx t m h, get-put t tx (get_or 1 t m - 1) m)

module _ {V D S : Type 0} (a : Actor V D S) (tx : String)
    (ids : (id : String) (d : D) (s : Snapshot V)
      → a.store.get_transaction id d ≡ some s
      → s.transaction.transaction_id ≡ id) where
  -- Ways back into the actor leave the counter of `tx` as it was, whatever it was.
  pub record Balanced (c : Calls V D S) : Type 0 where
    pub single :
        (d : ℕ) (t : String) (v : StateValue) (x : V) (name : String) (payload : Option V)
        (baseline : ℕ)
        → Keeps (AtDepth tx d) (c.single_effect t v x name payload baseline)
    pub again :
        (d : ℕ) (t event : String) (raw : V) → Keeps (AtDepth tx d) (c.send_transition t event raw)

  module _ (c : Calls V D S) (balanced : Balanced c) where
    code-Keeps :
        (d : ℕ) (t : String) (v : StateValue) (x : V) (baseline : ℕ) (code : EffectCode V D S)
        → Keeps (AtDepth tx d) (
            interpret
              (λ name sub. c.single_effect t v x name sub baseline)
              (c.send_transition t)
              code)
    code-Keeps d t v x baseline code = Keeps-self (
        interpret-Agree (λ name sub. c.single_effect t v x name sub baseline)
          (λ name sub. c.single_effect t v x name sub baseline) (c.send_transition t)
          (c.send_transition t)
          (λ name sub. Agree-keeps _ (balanced.single d t v x name sub baseline))
          (λ event raw. Agree-keeps _ (balanced.again d t event raw)) (λ w r p. p) code)

    call_effect-Keeps :
        (d : ℕ) (t : String) (fn : EffectRequest V → EffectCode V D S) (payload : Option V)
        (baseline depth : ℕ) (given : StateValue × V)
        → ((t == tx) ≡ true → depth ≡ suc d)
        → Keeps (AtDepth tx d) (call_effect c t fn payload baseline depth given)
    unfolding call_effect
    call_effect-Keeps d t fn payload baseline depth (v, x) h = record {
      at = λ w p.
          let w1 : World D S = record w { depths = put t depth w.depths } in
          let code =
            fn (record { transaction_id = t; state = v; context = x; payload = payload }) in
          elim (Bool-cases (t == tx)) [
            | inl same ↦
                (let e : t ≡ tx = (eq_iff t tx).0 same in
                  let entered =
                    subst (λ u. get_or 0 u (put t depth w.depths) ≡ depth) e
                      (get_or-put 0 t depth w.depths) in
                  let r =
                    interpret (λ name sub. c.single_effect t v x name sub baseline)
                      (c.send_transition t) code w1 in
                  let q = (code-Keeps (suc d) t v x baseline code).at w1 (entered ∙ h same, p.1) in
                  let back = subst (λ u. get_or 0 u r.1.depths ≡ suc d) (sym e) q.0 in
                  (
                    subst (λ u. get_or 0 u (release t r.1.depths) ≡ d) e
                        (release_lem t d r.1.depths back),
                    q.1,
                  ))
            | inr other ↦
                (let q =
                    (code-Keeps d t v x baseline code).at w1
                      (get_or-put_other tx t depth w.depths other ∙ p.0, p.1) in
                  (release_other tx t _ other ∙ q.0, q.1))
          ];
    }

    effective-Keeps :
        (d : ℕ) (t : String) (baseline : ℕ) (v : StateValue) (x : V)
        → Keeps (AtDepth tx d) (effective a t baseline v x)
    effective-Keeps d t baseline v x = search keeps_rules

    guarded-Keeps :
        (d : ℕ) (t : String) (v : StateValue) (x : V) (fn : EffectRequest V → EffectCode V D S)
        (payload : Option V) (baseline depth : ℕ)
        → ((t == tx) ≡ true → depth ≡ suc d)
        → Keeps (AtDepth tx d) (guarded a c t v x fn payload baseline depth)
    guarded-Keeps d t v x fn payload baseline depth h =
        Keeps-if (ltb a.max_effect_chain_depth depth) (raise chain_too_deep)
          (effective a t baseline v x >>= call_effect c t fn payload baseline depth)
          (Keeps-raise chain_too_deep)
          (Keeps-bind (effective a t baseline v x) (call_effect c t fn payload baseline depth)
            (effective-Keeps d t baseline v x)
            λ given. call_effect-Keeps d t fn payload baseline depth given h)

    found-Keeps :
        (d : ℕ) (t : String) (v : StateValue) (x : V) (name : String) (payload : Option V)
        (baseline : ℕ) (o : Option (String × (EffectRequest V → EffectCode V D S)))
        → Keeps (AtDepth tx d) (invoke_found a c t v x name payload baseline o)
    found-Keeps d t v x name payload baseline none = search keeps_rules
    found-Keeps d t v x name payload baseline (some (resolved, fn)) = record {
      at = λ w p.
          let counted : (t == tx) ≡ true → get_or 0 t w.depths + 1 ≡ suc d = λ same.
            next_is d (get_or 0 t w.depths)
              (subst (λ u. get_or 0 u w.depths ≡ d) (sym ((eq_iff t tx).0 same)) p.0) in
          (guarded-Keeps d t v x fn payload baseline (get_or 0 t w.depths + 1) counted).at w p;
    }

    pub single-Keeps :
        (d : ℕ) (t : String) (v : StateValue) (x : V) (name : String) (payload : Option V)
        (baseline : ℕ)
        → Keeps (AtDepth tx d) (invoke_single_effect a c t v x name payload baseline)
    unfolding invoke_single_effect
    single-Keeps d t v x name payload baseline =
        found-Keeps d t v x name payload baseline (a.resolve_effect name)

    pub effects-Keeps :
        (d : ℕ) (t : String) (v : StateValue) (x : V) (effects : List (String × Option V))
        → Keeps (AtDepth tx d) (invoke_effects a c t v x effects)
    unfolding invoke_effects
    effects-Keeps d t v x effects = search (keeps_rules, Keeps-for_each, single-Keeps)

    pub execute-Keeps :
        (d : ℕ) (t : Transaction V) (event : String) (raw metadata : V)
        → Keeps (AtDepth tx d) (execute_transition_on_snapshot a c t event raw metadata)
    execute-Keeps d t event raw metadata = Keeps-self (
        execute-Agree a (Steady-AtDepth a tx d) (λ u. record { at = λ w h. h })
          (λ u. record { at = λ w h. h }) c c t.transaction_id (ids t.transaction_id)
          (λ v x name payload baseline.
            Agree-keeps _ (single-Keeps d t.transaction_id v x name payload baseline))
          (ready_again a tx d c.start_up c.start_up) t refl event raw metadata)

    pub with-Keeps :
        (d : ℕ) (t event : String) (raw metadata : V)
        → Keeps (AtDepth tx d) (transition_with a c t event raw metadata)
    with-Keeps d t event raw metadata = Keeps-self (
        transition-Agree a (Steady-AtDepth a tx d) (λ u. record { at = λ w h. h })
          (λ u. record { at = λ w h. h }) c c t (ids t)
          (λ v x name payload baseline. Agree-keeps _ (single-Keeps d t v x name payload baseline))
          (ready_again a tx d c.start_up c.start_up) event raw metadata)

  pub calls-Balanced : (start : Exec (World D S) (Unit {0})) (n : ℕ) → Balanced (calls_to a start n)
  unfolding calls_to
  calls-Balanced start zero = record {
    single = λ d t v x name payload baseline. Keeps-raise chain_too_deep;
    again = λ d t event raw. Keeps-raise chain_too_deep;
  }
  calls-Balanced start (suc n) =
      let below = calls_to a start n in
      record {
        single = single-Keeps below (calls-Balanced start n);
        again =
            λ d t event raw. with-Keeps below (calls-Balanced start n) d t event raw a.no_metadata;
      }
