-- ===== src/Runtime/Levels.antt =====
-- The depth of a chain of effects (runtime/actor.ts): its counter, and the guard that bounds it.
pub mod Chains
pub mod Enough
pub mod Others
pub mod Sweep
use dfsm.Prelude.{
  ℕ, zero, suc, ◌+◌, ◌-◌, ◌≤◌, String, ◌≡◌, refl, sym, ap, ◌∙◌, Bool, true, false, Option, none,
  some, List, [], ◌∷◌, ◌==◌, eq_iff, eqb, eqb_iff, ltb, arith, Bool-cases, inl, inr, if◌then◌else◌,
}
use dfsm.Prelude.Dict.{Dict, get, put, get-put}
use dfsm.Errors.{actor_stopped_by_recovery_error, raised, Result, ok, threw, Exec}
use dfsm.Machine.StateValue.{StateValue}
use dfsm.Runtime.{
  Actor, HookEvent, EffectRequest, EffectCode, finish, fail, act, run_effect, send,
  TransitionResult,
}
use dfsm.Runtime.Monad.{pure, raise, gets, ◌>>◌, ◌>>=◌, for_each}
use dfsm.Runtime.Monad.Keeps.{
  Keeps, Keeps-pure, Keeps-raise, Keeps-gets, Keeps-bind, Keeps-for_each, Agree, Agree-keeps,
  Agree-if, Agree-bind, keeps_rules,
}
use dfsm.Runtime.World.{World, get_or, remove, outside, update, bump_revision, emit}
use dfsm.Runtime.Compensation.{call_handler, Handler, request_of}
use dfsm.Runtime.Effects.{
  Calls, interpret, chain_too_deep, release, call_effect, invoke_single_effect, effective,
}
use dfsm.Runtime.Steady.{Steady}
use dfsm.Runtime.Agreement.{transition-Agree}
use dfsm.Runtime.Step.{run_pipeline}
use dfsm.Runtime.Transition.{forget_revision}
use dfsm.Runtime.Entry.{ensure_ready, transition_with, calls_to}
use dfsm.Store.{CompensationEntry}

-- The counter of a transaction stands at `d`, and the actor is initialized.
abbrev pub AtDepth : {D S : Type 0} → String → ℕ → World D S → Type 0
AtDepth tx d w = (get_or 0 tx w.depths ≡ d) × (w.initialized ≡ true)

get-remove : (tx : String) (m : Dict ℕ) → get tx (remove tx m) ≡ none
get-remove tx [] = refl
get-remove tx ((j, v) ∷ m) = ground (arith, get-remove tx m)

pub get_or-put : (n : ℕ) (tx : String) (d : ℕ) (m : Dict ℕ) → get_or n tx (put tx d m) ≡ d
get_or-put n tx d m = ground (arith, get-put tx tx d m, eq_iff tx tx)

module _ {V D S : Type 0} (a : Actor V D S) (tx : String) (d : ℕ) where
  outside-AtDepth :
      {A : Type 0} (m : Exec (D × S) A) → Keeps {S = World D S} (AtDepth tx d) (outside m)
  outside-AtDepth m = record { at = λ w h. h }

  handler-AtDepth :
      (o : Handler V D S) (t : String) (e : CompensationEntry V) (c : V) (failure : Option String)
      → Keeps {S = World D S} (AtDepth tx d) (call_handler o t e c failure)
  handler-AtDepth none t e c failure = Keeps-pure c
  handler-AtDepth (some (name, fn)) t e c failure =
      Keeps-bind (outside (fn (request_of t e c failure))) _ (outside-AtDepth _) λ u. Keeps-pure _

  emit-AtDepth : (e : HookEvent V) → Keeps (AtDepth tx d) (emit a e)
  unfolding emit
  emit-AtDepth e =
      Keeps-for_each (λ hook. outside (hook e)) a.hooks λ hook. outside-AtDepth (hook e)

  pub Steady-AtDepth : Steady (AtDepth tx d) a
  unfolding run_pipeline update
  Steady-AtDepth = record {
    pipelines = λ path event b found r c. record { at = λ w h. h };
    hooks = emit-AtDepth;
    recorder = λ r. outside-AtDepth (a.record_transition r);
    compensation = λ key t e c failure. handler-AtDepth (a.resolve_compensate key) t e c failure;
    updates = λ t v p cs. record { at = λ w h. h };
    marks = λ t seq at. record { at = λ w h. h };
  }

module _ {V D S : Type 0} (a : Actor V D S) (tx : String) (d : ℕ) where
  not_halted : Exec (World D S) (Unit {0})
  not_halted = gets (λ (w : World D S). w.stopped_by_recovery) >>= λ stopped.
      if stopped then raise (raised (actor_stopped_by_recovery_error a.actor_id [])) else pure tt

  readied :
      (start start' : Exec (World D S) (Unit {0})) (b : Bool)
      → b ≡ true
      → Agree
          (AtDepth tx d)
          ((if b then pure tt else start) >> not_halted)
          ((if b then pure tt else start') >> not_halted)
  unfolding not_halted
  readied start start' true e = Agree-keeps (pure tt >> not_halted) (search keeps_rules)
  readied start start' false e = cc e

  -- An actor that is initialized is ready if it is not stopped.
  pub ready_again :
      (start start' : Exec (World D S) (Unit {0}))
      → Agree (AtDepth tx d) (ensure_ready a start) (ensure_ready a start')
  unfolding not_halted
  ready_again start start' = record { at = λ w p. (readied start start' w.initialized p.1).at w p }

pub release_lem :
    (tx : String) (d : ℕ) (m : Dict ℕ) → get_or 0 tx m ≡ suc d → get_or 0 tx (release tx m) ≡ d
release_lem tx zero m h = ground (arith, h, get-remove tx m)
release_lem tx (suc d) m h = ground (arith, h, get-put tx tx (suc d) m, eq_iff tx tx)

module _ {V D S : Type 0} {P : World D S → Type 0}
    (run run' : String → Option V → Exec (World D S) (Unit {0}))
    (again again' : String → V → Exec (World D S) (TransitionResult V))
    (runs : (name : String) (payload : Option V) → Agree P (run name payload) (run' name payload))
    (agains : (event : String) (raw : V) → Agree P (again event raw) (again' event raw))
    (moves : (w : World D S) (r : D × S) → P w → P (record w { rest = r })) where
  pub interpret-Agree :
      (code : EffectCode V D S) → Agree P (interpret run again code) (interpret run' again' code)
  unfolding interpret
  interpret-Agree finish = record { at = λ w p. (refl, p) }
  interpret-Agree (fail e) = record { at = λ w p. (refl, p) }
  interpret-Agree (act f next) = record {
    at = λ w p.
        (interpret-Agree (next (f w.rest))).at (record w { rest = f w.rest })
          (moves w (f w.rest) p);
  }
  interpret-Agree (run_effect name payload next) = record {
    at = λ w p.
        let (e, q) = (runs name payload).at w p in
        let (d, t) = (interpret-Agree (next (run name payload w).0)).at (run name payload w).1 q in
        (d ∙ ap (λ r. interpret run' again' (next r.0) r.1) e, t);
  }
  interpret-Agree (send event raw next) = record {
    at = λ w p.
        let (e, q) = (agains event raw).at w p in
        let (d, t) = (interpret-Agree (next (again event raw w).0)).at (again event raw w).1 q in
        (d ∙ ap (λ r. interpret run' again' (next r.0) r.1) e, t);
  }
