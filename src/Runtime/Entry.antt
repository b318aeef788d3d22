-- ===== src/Runtime/Entry.antt =====
-- `transition` and `ensureReady` of runtime/actor.ts, and what effects call of their actor.
use dfsm.Prelude.{ℕ, zero, suc, String, Option, none, some, [], ◌==◌, if◌then◌else◌}
use dfsm.Errors.{transaction_not_found_error, actor_stopped_by_recovery_error, raised, Exec}
use dfsm.Store.{Snapshot}
use dfsm.Runtime.{Actor, TransitionResult}
use dfsm.Runtime.Monad.{pure, raise, gets, ◌>>=◌, ◌>>◌}
use dfsm.Runtime.World.{World, fetch}
use dfsm.Runtime.Effects.{Calls, chain_too_deep, invoke_single_effect}
use dfsm.Runtime.Transition.{execute_transition_on_snapshot}

module _ {V D S : Type 0} where
  -- `ensureReady`, with what `initialize` does
  abbrev pub ensure_ready : Actor V D S → Exec (World D S) (Unit {0}) → Exec (World D S) (Unit {0})
  ensure_ready a start_up = do
    initialized ← gets (λ (w : World D S). w.initialized)
    if initialized then pure tt else start_up
    stopped ← gets (λ (w : World D S). w.stopped_by_recovery)
    if stopped then raise (raised (actor_stopped_by_recovery_error a.actor_id [])) else pure tt

  abbrev pub on_own_transaction :
      Actor V D S
      → Calls V D S
      → String
      → String
      → V
      → V
      → Option (Snapshot V)
      → Exec (World D S) (TransitionResult V)
  on_own_transaction a calls tx event raw metadata none =
      raise (raised (transaction_not_found_error tx))
  on_own_transaction a calls tx event raw metadata (some s) =
      if s.transaction.machine_id == a.machine.id
      then execute_transition_on_snapshot a calls s.transaction event raw metadata
      else raise (raised (transaction_not_found_error tx))

  -- `transition`, with what its effects call
  unfoldable pub transition_with :
      Actor V D S → Calls V D S → String → String → V → V → Exec (World D S) (TransitionResult V)
  transition_with a calls tx event raw metadata = do
    ensure_ready a calls.start_up
    snapshot ← fetch a tx
    on_own_transaction a calls tx event raw metadata snapshot

  -- What effects call, with so many more levels of effects in a chain. The guard of
  -- `invokeSingleEffect` throws before they run out.
  unfoldable pub calls_to : Actor V D S → Exec (World D S) (Unit {0}) → ℕ → Calls V D S
  calls_to a start_up zero = record {
    single_effect = λ tx state context name payload baseline. raise chain_too_deep;
    send_transition = λ tx event raw. raise chain_too_deep;
    start_up = start_up;
  }
  calls_to a start_up (suc levels) =
      let below = calls_to a start_up levels in
      record {
        single_effect = invoke_single_effect a below;
        send_transition = λ tx event raw. transition_with a below tx event raw a.no_metadata;
        start_up = start_up;
      }

  -- what the effects of an outermost call may use: as many levels as the guard lets a chain have
  abbrev pub all_calls : Actor V D S → Exec (World D S) (Unit {0}) → Calls V D S
  all_calls a start_up = calls_to a start_up a.max_effect_chain_depth
