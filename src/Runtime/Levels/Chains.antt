-- ===== src/Runtime/Levels/Chains.antt =====
-- Chains of effects with different numbers of levels left (runtime/actor.ts).
use dfsm.Prelude.{
  ℕ, zero, suc, ◌+◌, ◌≤◌, String, ◌≡◌, sym, ap, false, Option, none, some, ltb, arith,
}
use mathlib.Core.Path.{subst}
use dfsm.Prelude.Dict.{put}
use dfsm.Machine.StateValue.{StateValue}
use dfsm.Store.{Snapshot}
use dfsm.Runtime.{Actor, EffectRequest, EffectCode}
use dfsm.Runtime.Monad.{raise, ◌>>=◌}
use dfsm.Runtime.Monad.Keeps.{
  Keeps, Keeps-raise, Agree, Agree-keeps, Agree-if, Agree-bind, keeps_rules,
}
use dfsm.Runtime.World.{World, get_or}
use dfsm.Runtime.Effects.{
  Calls, interpret, chain_too_deep, release, effective, call_effect, not_found, guarded,
  invoke_found, invoke_single_effect,
}
use dfsm.Errors.{Exec}
use dfsm.Runtime.Entry.{transition_with, calls_to}
use dfsm.Runtime.Agreement.{transition-Agree}
use dfsm.Runtime.Levels.{
  ready_again, AtDepth, get_or-put, release_lem, interpret-Agree, Steady-AtDepth,
}

not_deeper : (m n : ℕ) → ltb m n ≡ false → n ≤ m
not_deeper m n h = ground arith

next_is : (d n : ℕ) → n ≡ d → n + 1 ≡ suc d
next_is d n h = omega (arith, h)

module _ {V D S : Type 0} (a : Actor V D S) (tx : String)
    (ids : (id : String) (d : D) (s : Snapshot V)
      → a.store.get_transaction id d ≡ some s
      → s.transaction.transaction_id ≡ id) where
  pub transition-AtDepth :
      (d : ℕ) (c c' : Calls V D S)
      → ((v : StateValue) (x : V) (name : String) (payload : Option V) (baseline : ℕ)
          → Agree
              (AtDepth tx d)
              (invoke_single_effect a c tx v x name payload baseline)
              (invoke_single_effect a c' tx v x name payload baseline))
      → (event : String) (raw metadata : V)
      → Agree
          (AtDepth tx d)
          (transition_with a c tx event raw metadata)
          (transition_with a c' tx event raw metadata)
  transition-AtDepth d c c' same =
      transition-Agree a (Steady-AtDepth a tx d) (λ t. record { at = λ w h. h })
        (λ t. record { at = λ w h. h }) c c' tx (ids tx) same
        (ready_again a tx d c.start_up c'.start_up)

  -- Two ways back into the actor agree on `tx` at a depth.
  record CallsAgree (d : ℕ) (c c' : Calls V D S) : Type 0 where
    single :
        (v : StateValue) (x : V) (name : String) (payload : Option V) (baseline : ℕ)
        → Agree
            (AtDepth tx d)
            (c.single_effect tx v x name payload baseline)
            (c'.single_effect tx v x name payload baseline)
    again :
        (event : String) (raw : V)
        → Agree (AtDepth tx d) (c.send_transition tx event raw) (c'.send_transition tx event raw)

  call_effect-Agree :
      (d : ℕ) (c c' : Calls V D S) (fn : EffectRequest V → EffectCode V D S) (payload : Option V)
      (baseline : ℕ) (given : StateValue × V)
      → CallsAgree (suc d) c c'
      → Agree
          (AtDepth tx d)
          (call_effect c tx fn payload baseline (suc d) given)
          (call_effect c' tx fn payload baseline (suc d) given)
  unfolding call_effect
  call_effect-Agree d c c' fn payload baseline (v, x) h = record {
    at = λ w p.
        let w1 : World D S = record w { depths = put tx (suc d) w.depths } in
        let code = fn (record { transaction_id = tx; state = v; context = x; payload = payload }) in
        let (e, q) =
          (interpret-Agree (λ name sub. c.single_effect tx v x name sub baseline)
              (λ name sub. c'.single_effect tx v x name sub baseline) (c.send_transition tx)
              (c'.send_transition tx) (λ name sub. h.single v x name sub baseline) h.again
              (λ w r p. p) code).at
            w1 (get_or-put 0 tx (suc d) w.depths, p.1) in
        (
          ap (λ r. (r.0, record r.1 { depths = release tx r.1.depths })) e,
          (
            release_lem tx d
                (interpret (λ name sub. c.single_effect tx v x name sub baseline)
                  (c.send_transition tx) code w1).1.depths
                q.0,
            q.1,
          ),
        );
  }

  effective-AtDepth :
      (d baseline : ℕ) (v : StateValue) (x : V) → Keeps (AtDepth tx d) (effective a tx baseline v x)
  effective-AtDepth d baseline v x = search keeps_rules

  guarded-Agree :
      (d : ℕ) (c c' : Calls V D S) (v : StateValue) (x : V)
      (fn : EffectRequest V → EffectCode V D S) (payload : Option V) (baseline : ℕ)
      → (suc d ≤ a.max_effect_chain_depth → CallsAgree (suc d) c c')
      → Agree
          (AtDepth tx d)
          (guarded a c tx v x fn payload baseline (suc d))
          (guarded a c' tx v x fn payload baseline (suc d))
  guarded-Agree d c c' v x fn payload baseline h =
      Agree-if (ltb a.max_effect_chain_depth (suc d)) (raise chain_too_deep) (raise chain_too_deep)
        (effective a tx baseline v x >>= call_effect c tx fn payload baseline (suc d))
        (effective a tx baseline v x >>= call_effect c' tx fn payload baseline (suc d))
        (λ _. Agree-keeps (raise chain_too_deep) (Keeps-raise chain_too_deep))
        λ allowed.
          Agree-bind (effective a tx baseline v x) (effective a tx baseline v x)
            (call_effect c tx fn payload baseline (suc d))
            (call_effect c' tx fn payload baseline (suc d))
            (Agree-keeps (effective a tx baseline v x) (effective-AtDepth d baseline v x))
            λ given.
              call_effect-Agree d c c' fn payload baseline given
                (h (not_deeper a.max_effect_chain_depth (suc d) allowed))

  found-Agree :
      (d : ℕ) (c c' : Calls V D S) (v : StateValue) (x : V) (name : String) (payload : Option V)
      (baseline : ℕ) (o : Option (String × (EffectRequest V → EffectCode V D S)))
      → (suc d ≤ a.max_effect_chain_depth → CallsAgree (suc d) c c')
      → Agree
          (AtDepth tx d)
          (invoke_found a c tx v x name payload baseline o)
          (invoke_found a c' tx v x name payload baseline o)
  found-Agree d c c' v x name payload baseline none h =
      Agree-keeps (not_found a name) (search keeps_rules)
  found-Agree d c c' v x name payload baseline (some (resolved, fn)) h = record {
    at = λ w p.
        subst
          (λ n.
            (guarded a c tx v x fn payload baseline n w
              ≡ guarded a c' tx v x fn payload baseline n w)
            × AtDepth tx d (guarded a c tx v x fn payload baseline n w).1)
          (sym (next_is d (get_or 0 tx w.depths) p.0))
          ((guarded-Agree d c c' v x fn payload baseline h).at w p);
  }

  -- At depth `d`, as many levels as are left up to the limit are enough.
  pub levels-Agree :
      (start : Exec (World D S) (Unit {0})) (left d m n : ℕ)
      → a.max_effect_chain_depth ≤ d + left
      → left ≤ m
      → left ≤ n
      → (v : StateValue) (x : V) (name : String) (payload : Option V) (baseline : ℕ)
      → Agree
          (AtDepth tx d)
          (invoke_single_effect a (calls_to a start m) tx v x name payload baseline)
          (invoke_single_effect a (calls_to a start n) tx v x name payload baseline)
  unfolding invoke_single_effect calls_to
  levels-Agree start zero d m n bound hm hn v x name payload baseline =
      found-Agree d (calls_to a start m) (calls_to a start n) v x name payload baseline
        (a.resolve_effect name) λ h. absurd (omega (arith, h, bound))
  levels-Agree start (suc left) d zero n bound hm hn v x name payload baseline =
      absurd (omega (arith, hm))
  levels-Agree start (suc left) d (suc m) zero bound hm hn v x name payload baseline =
      absurd (omega (arith, hn))
  levels-Agree start (suc left) d (suc m) (suc n) bound hm hn v x name payload baseline =
      let deeper =
        levels-Agree start left (suc d) m n (omega (arith, bound)) (omega (arith, hm))
          (omega (arith, hn)) in
      found-Agree d (calls_to a start (suc m)) (calls_to a start (suc n)) v x name payload baseline
        (a.resolve_effect name)
        λ _. record {
          single = deeper;
          again = λ event raw.
              transition-AtDepth (suc d) (calls_to a start m) (calls_to a start n) deeper event raw
                a.no_metadata;
        }
