-- ===== src/Runtime/Agreement.antt =====
-- A transition with two ways of calling effects that agree (runtime/actor.ts).
use dfsm.Prelude.{ℕ, ◌≡◌, refl, String, Option, none, some, List, [], ◌∷◌, ◌==◌}
use dfsm.Errors.{transaction_not_found_error, raised}
use dfsm.Engine.Match.{MatchedTransition, resolve_transitions_for_event}
use dfsm.Machine.StateValue.{StateValue, TransactionStatus}
use dfsm.Store.{Transaction, Snapshot}
use dfsm.Runtime.{Actor}
use dfsm.Runtime.Monad.{raise}
use dfsm.Runtime.Monad.Keeps.{
  Keeps, Keeps-raise, Agree, Agree-keeps, Agree-if, Agree-bind, Agree-for_each, keeps_rules,
}
use dfsm.Runtime.World.{World, bump_revision}
use dfsm.Runtime.Effects.{Calls, invoke_single_effect, invoke_effects}
use dfsm.Runtime.Step.{Working, Request, StepEnd, next, settled}
use dfsm.Runtime.Steady.{
  Steady, validate_inputs-Keeps, mark_in_flight-Keeps, run_matches-Keeps, on_done_loop-Keeps,
  terminal_hooks-Keeps,
}
use dfsm.Runtime.Transition.{
  forget_revision, finish_transition, conclude, execute_matches, handle_matches,
  execute_transition_on_snapshot,
}
use dfsm.Runtime.Entry.{on_own_transaction, transition_with, ensure_ready}

module _ {V D S : Type 0} {P : World D S → Type 0} (a : Actor V D S) (steady : Steady P a)
    (bumps : (t : String) → Keeps P (bump_revision t))
    (forgets : (t : String) → Keeps P (forget_revision t)) (c c' : Calls V D S) (tx : String)
    (ids : (d : D) (s : Snapshot V)
      → a.store.get_transaction tx d ≡ some s
      → s.transaction.transaction_id ≡ tx)
    (same : (v : StateValue) (x : V) (name : String) (payload : Option V) (baseline : ℕ)
      → Agree P
          (invoke_single_effect a c tx v x name payload baseline)
          (invoke_single_effect a c' tx v x name payload baseline))
    (ready : Agree P (ensure_ready a c.start_up) (ensure_ready a c'.start_up)) where
  effects-Agree :
      (u : String) (v : StateValue) (x : V) (effects : List (String × Option V))
      → u ≡ tx
      → Agree P (invoke_effects a c u v x effects) (invoke_effects a c' u v x effects)
  unfolding invoke_effects
  effects-Agree u v x effects h =
      rw h (search (keeps_rules, Agree-keeps, Agree-bind, Agree-for_each, same))

  finish-Agree :
      (t : Transaction V) (h : t.transaction_id ≡ tx) (r : Request V) (shown : V) (k : Working V)
      (status : TransactionStatus) (value : Option V) (count : ℕ) (error : Option String) (at : ℕ)
      → Agree P
          (finish_transition a c t r shown k status value count error at)
          (finish_transition a c' t r shown k status value count error at)
  unfolding finish_transition
  finish-Agree t h r shown k status value count error at =
      search
        (
          keeps_rules, Agree-keeps, Agree-bind, bumps, steady.hooks, terminal_hooks-Keeps,
          effects-Agree, forgets,
        )
        depth 20

  conclude-Agree :
      (t : Transaction V) (h : t.transaction_id ≡ tx) (r : Request V) (shown : V) (end : StepEnd V)
      → Agree P (conclude a c t r shown end) (conclude a c' t r shown end)
  unfolding conclude
  conclude-Agree t h r shown (settled k status message count) =
      search (keeps_rules, Agree-keeps, Agree-bind, steady.updates, finish-Agree) depth 12
  conclude-Agree t h r shown (next k) =
      search
        (keeps_rules, Agree-keeps, Agree-bind, on_done_loop-Keeps, steady.updates, finish-Agree)
        depth 12

  matches-Agree :
      (t : Transaction V) (h : t.transaction_id ≡ tx) (event : String) (raw metadata : V)
      (ms : List MatchedTransition)
      → Agree P
          (execute_matches a c t event raw metadata ms)
          (execute_matches a c' t event raw metadata ms)
  unfolding execute_matches
  matches-Agree t h event raw metadata ms =
      search
        (
          keeps_rules, Agree-keeps, Agree-bind, validate_inputs-Keeps, steady.hooks,
          mark_in_flight-Keeps, run_matches-Keeps, conclude-Agree,
        )
        depth 20

  handle-Agree :
      (t : Transaction V) (h : t.transaction_id ≡ tx) (event : String) (raw metadata : V)
      (ms : List MatchedTransition)
      → Agree P
          (handle_matches a c t event raw metadata ms)
          (handle_matches a c' t event raw metadata ms)
  handle-Agree t h event raw metadata [] = Agree-keeps _ (Keeps-raise _)
  handle-Agree t h event raw metadata (m ∷ ms) = matches-Agree t h event raw metadata (m ∷ ms)

  pub execute-Agree :
      (t : Transaction V) (h : t.transaction_id ≡ tx) (event : String) (raw metadata : V)
      → Agree P
          (execute_transition_on_snapshot a c t event raw metadata)
          (execute_transition_on_snapshot a c' t event raw metadata)
  unfolding execute_transition_on_snapshot
  execute-Agree t h event raw metadata =
      handle-Agree t h event raw metadata
        (resolve_transitions_for_event a.machine t.state_value event)

  own-Agree :
      (event : String) (raw metadata : V) (o : Option (Snapshot V))
      → ((s : Snapshot V) → o ≡ some s → s.transaction.transaction_id ≡ tx)
      → Agree P
          (on_own_transaction a c tx event raw metadata o)
          (on_own_transaction a c' tx event raw metadata o)
  own-Agree event raw metadata none h = Agree-keeps _ (Keeps-raise _)
  own-Agree event raw metadata (some s) h =
      Agree-if (s.transaction.machine_id == a.machine.id) _ _ _ _
        (λ _. execute-Agree s.transaction (h s refl) event raw metadata)
        λ _. Agree-keeps (raise (raised (transaction_not_found_error tx))) (Keeps-raise _)

  pub transition-Agree :
      (event : String) (raw metadata : V)
      → Agree P
          (transition_with a c tx event raw metadata)
          (transition_with a c' tx event raw metadata)
  unfolding transition_with
  transition-Agree event raw metadata =
      Agree-bind (ensure_ready a c.start_up) (ensure_ready a c'.start_up) _ _ ready λ _. record {
        at = λ w p.
            (own-Agree event raw metadata (a.store.get_transaction tx w.rest.0)
                (λ s e. ids w.rest.0 s e)).at
              w p;
      }
