-- ===== src/Runtime/Lifecycle.antt =====
-- The life of an actor in sdks/typescript/src/runtime/actor.ts: `initialize`, `transition`, the
-- scheduler and `close`.
--
-- The timer of `setInterval` is there or not. The store's own `initialize` is left out.
use dfsm.Prelude.{ℕ, String, ◌+◌, max, true, false, Option, none, some, if◌then◌else◌}
use dfsm.Errors.{Exec}
use dfsm.Runtime.{Actor, TransitionResult}
use dfsm.Runtime.Monad.{pure, gets, modify, ◌>>=◌, ◌>>◌}
use dfsm.Runtime.Report.{SweepReport, SchedulerConfig}
use dfsm.Runtime.World.{World}
use dfsm.Runtime.Effects.{Calls}
use dfsm.Runtime.Entry.{transition_with, all_calls}
use dfsm.Runtime.Recovery.{sweep_with}

-- the wait between two sweeps
abbrev interval : SchedulerConfig → ℕ
interval c = max 25 c.sweep_interval_ms

module _ {D S : Type 0} where
  unfoldable pub stop_scheduler : World D S → World D S
  stop_scheduler w = record w {
    scheduler = record w.scheduler { is_running = false; next_run_at = none };
  }

  -- `close`, without the callback that the registry gives
  unfoldable pub close : World D S → World D S
  close = stop_scheduler

module _ {V D S : Type 0} where
  unfoldable pub start_scheduler : Actor V D S → World D S → World D S
  start_scheduler a w = if w.scheduler.is_running then w else record w {
    scheduler = record w.scheduler {
      config = record w.scheduler.config { enabled = true };
      is_running = true;
      next_run_at = some (a.now w.rest.1 + interval w.scheduler.config);
    };
  }

  -- `updateSchedulerConfig`, given the configuration with the patch
  unfoldable pub update_scheduler_config : Actor V D S → SchedulerConfig → World D S → World D S
  update_scheduler_config a config w =
      let stopped = if w.scheduler.is_running then stop_scheduler w else w in
      let w' = record stopped { scheduler = record stopped.scheduler { config = config } } in
      if config.enabled then start_scheduler a w' else w'

  -- the sweep of `initialize`, if recovery is enabled
  abbrev pub first_sweep : Calls V D S → Actor V D S → Exec (World D S) (Option SweepReport)
  first_sweep calls a =
      if a.recovery.enabled
      then (sweep_with calls a a.recovery.stuck_threshold_ms >>= λ r. pure (some r))
      else pure none

  -- A throw of the first sweep leaves the actor initialized and the scheduler off.
  unfoldable pub initialize_with : Calls V D S → Actor V D S → Exec (World D S) (Option SweepReport)
  initialize_with calls a w =
      if w.initialized
      then pure w.scheduler.last_sweep_report w
      else (do
        modify (λ (v : World D S). record v { initialized = true })
        report ← first_sweep calls a
        modify (λ (v : World D S). if v.scheduler.config.enabled then start_scheduler a v else v)
        pure report)
          w

  -- `initialize`: its sweep runs on an actor that is initialized, so that the effects of the sweep
  -- initialize nothing.
  unfoldable pub initialize : Actor V D S → Exec (World D S) (Option SweepReport)
  initialize a = initialize_with (all_calls a (pure tt)) a

  abbrev pub start_up : Actor V D S → Exec (World D S) (Unit {0})
  start_up a = do report ← initialize a; pure tt

  -- what the effects of an actor's methods call
  abbrev pub calls_of : Actor V D S → Calls V D S
  calls_of a = all_calls a (start_up a)

  unfoldable pub execute_recovery_sweep : Actor V D S → ℕ → Exec (World D S) SweepReport
  execute_recovery_sweep a = sweep_with (calls_of a) a

  unfoldable pub trigger_sweep_now : Actor V D S → Exec (World D S) SweepReport
  trigger_sweep_now a = do
    config ← gets (λ (w : World D S). w.scheduler.config)
    execute_recovery_sweep a config.stuck_threshold_ms

  unfoldable pub transition :
      Actor V D S → String → String → V → V → Exec (World D S) (TransitionResult V)
  transition a = transition_with a (calls_of a)
