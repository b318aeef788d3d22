-- ===== src/Runtime/Introspection.antt =====
-- Queries on an actor's transactions, of sdks/typescript/src/runtime/actor.ts.
pub mod Counts
use dfsm.Prelude.{
  ℕ, ◌+◌, ◌-◌, String, max, Bool, true, false, Option, none, some, List, [], ◌∷◌, ◌==◌, ltb,
  if◌then◌else◌,
}
use dfsm.Errors.{Result, ok, threw, Exec}
use dfsm.Machine.StateValue.{
  StateValue, TransactionStatus, idle, in_flight, completed, compensating, compensated, failed,
}
use dfsm.Store.{Snapshot, QueryFilter, Summary}
use dfsm.Runtime.{Actor}
use dfsm.Runtime.Monad.{pure, gets, modify, ◌>>=◌, ◌>>◌}
use dfsm.Runtime.Report.{SweepReport, SchedulerConfig, Scheduler}
use dfsm.Runtime.World.{World, clock_now, fetch}
use dfsm.Runtime.Recovery.Rows.{query, statuses_of}
use dfsm.Runtime.CleanUp.{cutoff, age_of, before_start}

abbrev pub non_terminal_statuses : List TransactionStatus
non_terminal_statuses = idle ∷ in_flight ∷ compensating ∷ []

-- `StatusBreakdown`, with `byStatus` spread out
pub record StatusBreakdown : Type 0 where
  pub non_terminal_count : ℕ
  pub terminal_count : ℕ
  pub idle_count : ℕ
  pub in_flight_count : ℕ
  pub compensating_count : ℕ
  pub completed_count : ℕ
  pub compensated_count : ℕ
  pub failed_count : ℕ

abbrev running_statuses : Bool → List TransactionStatus
running_statuses true = in_flight ∷ compensating ∷ []
running_statuses false = in_flight ∷ []

module _ {V D S : Type 0} where
  abbrev count : Actor V D S → QueryFilter → World D S → ℕ
  count a f w = a.store.count_transactions (some f) w.rest.0

  unfoldable pub get_active_count : Actor V D S → Option StateValue → World D S → ℕ
  get_active_count a state w =
      count a (record (statuses_of a non_terminal_statuses) { state_equals = state }) w

  unfoldable pub get_status_breakdown : Actor V D S → World D S → StatusBreakdown
  get_status_breakdown a w =
      let of_status = λ (s : TransactionStatus). count a (statuses_of a (s ∷ [])) w in
      record {
        non_terminal_count = of_status idle + of_status in_flight + of_status compensating;
        terminal_count = of_status completed + of_status compensated + of_status failed;
        idle_count = of_status idle;
        in_flight_count = of_status in_flight;
        compensating_count = of_status compensating;
        completed_count = of_status completed;
        compensated_count = of_status compensated;
        failed_count = of_status failed;
      }

  -- No row is stuck where the threshold lies before time 0.
  unfoldable pub get_in_flight_count : Actor V D S → Bool → Option StateValue → Bool → World D S → ℕ
  get_in_flight_count a stuck_only state include_compensating w =
      let now = a.now w.rest.1 in
      let age = age_of stuck_only a.recovery.stuck_threshold_ms in
      if before_start now age
      then 0
      else count a
          (record (statuses_of a (running_statuses include_compensating)) {
            stuck_before_timestamp = cutoff now age;
            state_equals = state;
          })
          w

  -- `listTransactions`, `listActiveTransactions` and `listInFlightTransactions`
  abbrev list_with :
      Actor V D S → QueryFilter → Option ℕ → Option ℕ → Exec (World D S) (List (Summary V))
  list_with a f limit offset = do
    now ← clock_now a
    query a (record f { limit = limit; offset = offset }) now a.recovery.stuck_threshold_ms

  unfoldable pub list_transactions :
      Actor V D S
      → Option (List TransactionStatus)
      → Option ℕ
      → Option ℕ
      → Exec (World D S) (List (Summary V))
  list_transactions a statuses = list_with a (record (statuses_of a []) { statuses = statuses })

  unfoldable pub list_active_transactions :
      Actor V D S → Option ℕ → Option ℕ → Exec (World D S) (List (Summary V))
  list_active_transactions a = list_with a (statuses_of a non_terminal_statuses)

  unfoldable pub list_in_flight_transactions :
      Actor V D S → Bool → Option ℕ → Option ℕ → Exec (World D S) (List (Summary V))
  list_in_flight_transactions a stuck_only limit offset = do
    now ← clock_now a
    let age = age_of stuck_only a.recovery.stuck_threshold_ms
    rows ←
        list_with a
          (record (statuses_of a (running_statuses true)) {
            stuck_before_timestamp = cutoff now age;
          })
          limit offset
    pure (if before_start now age then [] else rows)

  abbrev own_snapshot : Actor V D S → Option (Snapshot V) → Option (Snapshot V)
  own_snapshot a none = none
  own_snapshot a (some s) = if s.transaction.machine_id == a.machine.id then some s else none

  unfoldable pub get_own_transaction : Actor V D S → String → World D S → Option (Snapshot V)
  get_own_transaction a tx w = own_snapshot a (a.store.get_transaction tx w.rest.0)
