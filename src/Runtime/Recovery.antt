-- ===== src/Runtime/Recovery.antt =====
-- `resolveRecoveryModeForState` and `executeRecoverySweep` of sdks/typescript/src/runtime/actor.ts.
pub mod Rows
pub mod Isolated
use dfsm.Prelude.{
  ℕ, suc, ◌+◌, ◌-◌, String, Bool, true, false, ◌&&◌, Option, none, some, List, [], ◌∷◌, ◌++◌, map,
  ◌==◌, ltb, length, if◌then◌else◌,
}
use dfsm.Prelude.Dict.{get}
use dfsm.Errors.{actor_stopped_by_recovery_error, Raised, raised, Result, ok, threw, Exec}
use dfsm.Machine.StateValue.{
  StateValue, leaf, node, no_regions, region, TransactionStatus, idle, in_flight, completed,
  compensating, compensated, failed,
}
use dfsm.Store.{ActiveStep, Transaction, Snapshot, QueryFilter, Summary}
use dfsm.Runtime.{Actor, OnRestartMode, stop, mark_fail, delete, compensate, continue}
use dfsm.Runtime.Monad.{pure, raise, gets, attempt, modify, ◌>>=◌, ◌>>◌}
use dfsm.Runtime.Report.{
  SweepReport, empty_sweep_report, took, recovered_count, SchedulerConfig, Scheduler,
}
use dfsm.Runtime.World.{World, outside, clock_now, update, fetch, touch}
use dfsm.Runtime.Effects.{Calls}
use dfsm.Runtime.Transition.{execute_transition_on_snapshot}
use dfsm.Runtime.Recovery.Rows.{
  mark_failed, compensate_row, unlock, query, delete_rows, statuses_of,
}

abbrev top_key : StateValue → String
top_key (leaf s) = s
top_key (node no_regions) = ""
top_key (node (region k v rest)) = k

abbrev mode_or : OnRestartMode → Option OnRestartMode → OnRestartMode
mode_or m none = m
mode_or m (some n) = n

-- `typeof stateValue === "string" ? stateValue : JSON.stringify(stateValue)`
abbrev serialized : (StateValue → String) → StateValue → String
serialized json (leaf s) = s
serialized json (node rs) = json (node rs)

abbrev is_stop : OnRestartMode → Bool
is_stop stop = true
is_stop _ = false

-- the counters after a sweep
abbrev pub count_sweep : ℕ → SweepReport → Scheduler → Scheduler
count_sweep now r s = record s {
  last_run_at = some now;
  total_sweeps = suc s.total_sweeps;
  total_recovered_count = s.total_recovered_count + recovered_count r;
  total_retention_cleaned_count = s.total_retention_cleaned_count + r.retention_deleted;
  last_sweep_report = some r;
}

module _ {V D S : Type 0} where
  unfoldable pub resolve_recovery_mode_for_state : Actor V D S → StateValue → OnRestartMode
  resolve_recovery_mode_for_state a v =
      let actions = a.recovery.state_actions in
      let by_text = mode_or a.recovery.default_action (get (serialized a.state_json v) actions) in
      if top_key v == "" then by_text else mode_or by_text (get (top_key v) actions)

  -- the replay of an interrupted step, or the end of the lease
  unfoldable pub resume :
      Calls V D S
      → Actor V D S
      → Transaction V
      → Option (ActiveStep V)
      → Exec (World D S) (Unit {0})
  resume calls a t none = do
    at ← clock_now a
    version ←
        update a t.transaction_id t.version
          (record (touch at) {
            status = some idle;
            lease_owner = some none;
            lease_expires_at = some none;
          })
          []
    pure tt
  resume calls a t (some step) = do
    version ← unlock a t.transaction_id t.version
    result ←
        execute_transition_on_snapshot a calls (record t { status = idle; version = version })
          step.event step.input a.recovery_metadata
    pure tt

  abbrev pub resume_found : Calls V D S → Actor V D S → Option (Snapshot V) → Exec (World D S) Bool
  resume_found calls a none = pure false
  resume_found calls a (some s) =
      resume calls a s.transaction s.transaction.active_step >> pure true

  -- The case of a mode, and whether it notes the id as treated.
  unfoldable pub take_action :
      Calls V D S → Actor V D S → OnRestartMode → Summary V → Exec (World D S) Bool
  take_action calls a stop item =
      outside (a.log_recovery item.transaction_id item.state_value) >> pure true
  take_action calls a delete item = do n ← delete_rows a (item.transaction_id ∷ []); pure true
  take_action calls a mark_fail item =
      mark_failed a "Marked FAILED by Actor stuck-transaction recovery" item >> pure true
  take_action calls a compensate item =
      compensate_row a "Compensated by Actor stuck-transaction recovery" item >> pure true
  take_action calls a continue item = fetch a item.transaction_id >>= resume_found calls a

  -- the report after the `try` block: `STOP` notes the id before it logs
  abbrev pub noted : Actor V D S → OnRestartMode → String → Result Bool → SweepReport → SweepReport
  noted a mode id (ok did) r = if did then took mode id r else r
  noted a mode id (threw e) r =
      let before = if is_stop mode then took mode id r else r in
      record before { errors = before.errors ++ (id, a.message e.cause) ∷ [] }

  -- the report on a stuck transaction, after its action
  abbrev pub treated :
      Actor V D S → OnRestartMode → Summary V → SweepReport → Result Bool → SweepReport
  treated a mode item report result =
      noted a mode item.transaction_id result
        (record report { stuck_detected = suc report.stuck_detected })

  -- the body of the loop
  unfoldable pub recover_item :
      Calls V D S → Actor V D S → Summary V → SweepReport → Exec (World D S) SweepReport
  recover_item calls a item report =
      let mode = resolve_recovery_mode_for_state a item.state_value in
      if item.is_stuck
      then (attempt (take_action calls a mode item) >>= λ result.
          pure (treated a mode item report result))
      else pure report

  unfoldable pub recover_items :
      Calls V D S → Actor V D S → List (Summary V) → SweepReport → Exec (World D S) SweepReport
  recover_items calls a [] report = pure report
  recover_items calls a (item ∷ items) report =
      recover_item calls a item report >>= λ r. recover_items calls a items r

  abbrev pub in_flight_filter : Actor V D S → SchedulerConfig → QueryFilter
  in_flight_filter a config = record (statuses_of a (in_flight ∷ compensating ∷ [])) {
    limit = some config.batch_size;
  }

  abbrev pub expired_filter : Actor V D S → SchedulerConfig → ℕ → QueryFilter
  expired_filter a config cutoff = record (statuses_of a (completed ∷ failed ∷ compensated ∷ [])) {
    older_than_timestamp = some cutoff;
    limit = some config.batch_size;
  }

  abbrev pub delete_expired :
      Actor V D S → List (Summary V) → SweepReport → Exec (World D S) SweepReport
  delete_expired a [] report = pure report
  delete_expired a (i ∷ is) report = do
    n ← delete_rows a (map (λ (s : Summary V). s.transaction_id) (i ∷ is))
    pure (record report { retention_deleted = n })

  -- the clean-up with a retention time; a cutoff before time 0 has no rows
  abbrev pub clean_with :
      Actor V D S → SchedulerConfig → ℕ → ℕ → SweepReport → Option ℕ → Exec (World D S) SweepReport
  clean_with a config now threshold report none = pure report
  clean_with a config now threshold report (some retention) =
      if ltb now retention
      then pure report
      else (query a (expired_filter a config (now - retention)) now threshold >>= λ expired.
          delete_expired a expired report)

  unfoldable pub clean_retention :
      Actor V D S → SchedulerConfig → ℕ → ℕ → SweepReport → Exec (World D S) SweepReport
  clean_retention a config now threshold report =
      clean_with a config now threshold report config.retention_ms

  -- what follows a stopped transaction: the report, or a halt if the configuration asks for it
  abbrev pub halt_if : Bool → Actor V D S → SweepReport → List String → Exec (World D S) SweepReport
  halt_if false a report ids = pure report
  halt_if true a report ids = do
    modify (λ (w : World D S). record w { stopped_by_recovery = true })
    raise (raised (actor_stopped_by_recovery_error a.actor_id ids))

  abbrev pub report_or_halt : Actor V D S → SweepReport → List String → Exec (World D S) SweepReport
  report_or_halt a report [] = pure report
  report_or_halt a report (id ∷ ids) = halt_if a.recovery.halt_actor_on_stop a report (id ∷ ids)

  -- the counters and the end
  unfoldable pub end_sweep : Actor V D S → ℕ → SweepReport → Exec (World D S) SweepReport
  end_sweep a now report = do
    modify (λ (w : World D S). record w { scheduler = count_sweep now report w.scheduler })
    report_or_halt a report report.stopped

  -- the sweep behind the treatment of stuck transactions, and behind its first query
  abbrev pub sweep_rest : Actor V D S → ℕ → ℕ → SweepReport → Exec (World D S) SweepReport
  sweep_rest a threshold now report = gets (λ (w : World D S). w.scheduler.config) >>= λ config.
      clean_retention a config now threshold report >>= end_sweep a now

  abbrev pub sweep_found :
      Calls V D S → Actor V D S → ℕ → ℕ → List (Summary V) → Exec (World D S) SweepReport
  sweep_found calls a threshold now items =
      recover_items calls a items (empty_sweep_report now (length items))
      >>= sweep_rest a threshold now

  -- `executeRecoverySweep`, with what the effects of resumed transitions call
  unfoldable pub sweep_with : Calls V D S → Actor V D S → ℕ → Exec (World D S) SweepReport
  sweep_with calls a threshold = do
    now ← clock_now a
    config ← gets (λ (w : World D S). w.scheduler.config)
    query a (in_flight_filter a config) now threshold >>= sweep_found calls a threshold now
