-- ===== src/Runtime/Report.antt =====
-- The reports of sdks/typescript/src/types.ts on recovery and clean-up, and the scheduler's fields
-- of runtime/actor.ts.
use dfsm.Prelude.{ℕ, ◌+◌, String, Bool, Option, List, [], ◌∷◌, ◌++◌, length}
use dfsm.Runtime.{OnRestartMode, stop, mark_fail, delete, compensate, continue}

-- `RecoverySweepReport`, with `actionsTaken` spread out; an error is an id with a message
pub record SweepReport : Type 0 where
  pub swept_at : ℕ
  pub scanned_in_flight : ℕ
  pub stuck_detected : ℕ
  pub stopped : List String
  pub marked_fail : List String
  pub deleted : List String
  pub compensated : List String
  pub continued : List String
  pub retention_deleted : ℕ
  pub errors : List (String × String)

abbrev pub empty_sweep_report : ℕ → ℕ → SweepReport
empty_sweep_report now scanned = record {
  swept_at = now;
  scanned_in_flight = scanned;
  stuck_detected = 0;
  stopped = [];
  marked_fail = [];
  deleted = [];
  compensated = [];
  continued = [];
  retention_deleted = 0;
  errors = [];
}

-- `report.actionsTaken[mode].push(id)`
abbrev pub took : OnRestartMode → String → SweepReport → SweepReport
took stop id r = record r { stopped = r.stopped ++ id ∷ [] }
took mark_fail id r = record r { marked_fail = r.marked_fail ++ id ∷ [] }
took delete id r = record r { deleted = r.deleted ++ id ∷ [] }
took compensate id r = record r { compensated = r.compensated ++ id ∷ [] }
took continue id r = record r { continued = r.continued ++ id ∷ [] }

-- what a sweep adds to `totalRecoveredCount`
abbrev pub recovered_count : SweepReport → ℕ
recovered_count r =
    length r.deleted + length r.marked_fail + length r.compensated + length r.continued

-- `ActorSchedulerConfig`
pub record SchedulerConfig : Type 0 where
  pub enabled : Bool
  pub sweep_interval_ms : ℕ
  pub stuck_threshold_ms : ℕ
  pub retention_ms : Option ℕ
  pub batch_size : ℕ

-- `schedulerConfig` and what `getSchedulerStatus` reports; the timer is there or not.
pub record Scheduler : Type 0 where
  pub config : SchedulerConfig
  pub is_running : Bool
  pub last_run_at : Option ℕ
  pub next_run_at : Option ℕ
  pub total_sweeps : ℕ
  pub total_recovered_count : ℕ
  pub total_retention_cleaned_count : ℕ
  pub last_sweep_report : Option SweepReport

pub data CleanUpAction : Type 0 where
  clean_delete clean_mark_fail clean_compensate force_unlock : CleanUpAction

-- `CleanUpReport`
pub record CleanUpReport : Type 0 where
  pub scanned : ℕ
  pub matched : ℕ
  pub deleted : List String
  pub marked_failed : List String
  pub compensated : List String
  pub unlocked : List String
  pub dry_run : Bool
  pub errors : List (String × String)
