-- ===== src/Runtime/CleanUp.antt =====
-- `forceCleanUp` and `forceCleanUpTransaction` of sdks/typescript/src/runtime/actor.ts.
pub mod Selected
pub mod DryRun
use dfsm.Prelude.{
  ℕ, ◌-◌, String, Bool, true, false, ◌&&◌, Option, none, some, List, [], ◌∷◌, ◌++◌, map, ltb,
  length, if◌then◌else◌,
}
use dfsm.Errors.{Result, ok, threw, Exec}
use dfsm.Machine.StateValue.{
  TransactionStatus, idle, in_flight, completed, compensating, compensated, failed,
}
use dfsm.Store.{QueryFilter, Summary}
use dfsm.Runtime.{Actor}
use dfsm.Runtime.Monad.{pure, attempt, ◌>>=◌, ◌>>◌}
use dfsm.Runtime.Report.{
  CleanUpAction, clean_delete, clean_mark_fail, clean_compensate, force_unlock, CleanUpReport,
}
use dfsm.Runtime.World.{World, clock_now}
use dfsm.Runtime.Recovery.Rows.{
  mark_failed, compensate_row, unlock, query, delete_rows, statuses_of,
}

-- `ForceCleanUpOptions` without `machineId`
pub record CleanUpOptions : Type 0 where
  pub actor_id : Option String
  pub transaction_ids : Option (List String)
  pub statuses : Option (List TransactionStatus)
  pub include_in_flight : Option Bool
  pub stuck_only : Option Bool
  pub stuck_threshold_ms : Option ℕ
  pub older_than_ms : Option ℕ
  pub action : Option CleanUpAction
  pub dry_run : Option Bool

-- `x ?? y`
abbrev pub or_default : {A : Type 0} → A → Option A → A
or_default d none = d
or_default d (some a) = a

abbrev pub default_statuses : Bool → List TransactionStatus
default_statuses true = idle ∷ in_flight ∷ compensating ∷ completed ∷ failed ∷ compensated ∷ []
default_statuses false = completed ∷ failed ∷ compensated ∷ []

-- a limit of age, if it is asked for
abbrev pub age_of : Bool → ℕ → Option ℕ
age_of true ms = some ms
age_of false ms = none

-- whether a limit of age lies before time 0, so that no row is that old
abbrev pub before_start : ℕ → Option ℕ → Bool
before_start now none = false
before_start now (some ms) = ltb now ms

abbrev pub cutoff : ℕ → Option ℕ → Option ℕ
cutoff now none = none
cutoff now (some ms) = some (now - ms)

abbrev pub empty_clean_up_report : ℕ → Bool → CleanUpReport
empty_clean_up_report found dry_run = record {
  scanned = found;
  matched = found;
  deleted = [];
  marked_failed = [];
  compensated = [];
  unlocked = [];
  dry_run = dry_run;
  errors = [];
}

-- the push after an action
abbrev cleaned : CleanUpAction → String → CleanUpReport → CleanUpReport
cleaned clean_mark_fail id r = record r { marked_failed = r.marked_failed ++ id ∷ [] }
cleaned force_unlock id r = record r { unlocked = r.unlocked ++ id ∷ [] }
cleaned clean_compensate id r = record r { compensated = r.compensated ++ id ∷ [] }
cleaned clean_delete id r = r

module _ {V D S : Type 0} where
  abbrev pub threshold_of : Actor V D S → CleanUpOptions → ℕ
  threshold_of a o = or_default a.recovery.stuck_threshold_ms o.stuck_threshold_ms

  abbrev pub candidate_filter : Actor V D S → CleanUpOptions → ℕ → QueryFilter
  candidate_filter a o now =
      record (statuses_of a
        (or_default (default_statuses (or_default false o.include_in_flight)) o.statuses)) {
          actor_id = o.actor_id;
          transaction_ids = o.transaction_ids;
          stuck_before_timestamp =
              cutoff now (age_of (or_default false o.stuck_only) (threshold_of a o));
          older_than_timestamp = cutoff now o.older_than_ms;
        }

  -- The transactions to treat: none, where a limit of age lies before time 0.
  unfoldable pub candidates : Actor V D S → CleanUpOptions → ℕ → Exec (World D S) (List (Summary V))
  candidates a o now =
      if before_start now (age_of (or_default false o.stuck_only) (threshold_of a o))
      then pure []
      else if before_start now o.older_than_ms
      then pure []
      else query a (candidate_filter a o now) now (threshold_of a o)

  abbrev pub take_clean_up : Actor V D S → CleanUpAction → Summary V → Exec (World D S) (Unit {0})
  take_clean_up a clean_mark_fail item =
      mark_failed a "Marked FAILED via administrative forceCleanUp" item
  take_clean_up a force_unlock item =
      unlock a item.transaction_id item.version >>= λ version. pure tt
  take_clean_up a clean_compensate item =
      compensate_row a "Compensated via administrative forceCleanUp" item
  take_clean_up a clean_delete item = pure tt

  abbrev pub noted :
      Actor V D S → CleanUpAction → String → Result (Unit {0}) → CleanUpReport → CleanUpReport
  noted a action id (ok done) r = cleaned action id r
  noted a action id (threw e) r = record r { errors = r.errors ++ (id, a.message e.cause) ∷ [] }

  -- the loop over the candidates
  unfoldable pub clean_items :
      Actor V D S
      → CleanUpAction
      → List (Summary V)
      → CleanUpReport
      → Exec (World D S) CleanUpReport
  clean_items a action [] report = pure report
  clean_items a action (item ∷ items) report = attempt (take_clean_up a action item) >>= λ result.
      clean_items a action items (noted a action item.transaction_id result report)

  -- what follows the query
  unfoldable pub clean_found :
      Actor V D S → CleanUpAction → Bool → List (Summary V) → Exec (World D S) CleanUpReport
  clean_found a action dry_run [] = pure (empty_clean_up_report 0 dry_run)
  clean_found a action dry_run (item ∷ items) =
      let found = item ∷ items in
      let report = empty_clean_up_report (length found) dry_run in
      if dry_run then pure report else elim action [
        | clean_delete ↦
            (let ids = map (λ (s : Summary V). s.transaction_id) found in
              delete_rows a ids >>= λ n. pure (record report { deleted = ids }))
        | other ↦ clean_items a other found report
      ]

  unfoldable pub force_clean_up : Actor V D S → CleanUpOptions → Exec (World D S) CleanUpReport
  force_clean_up a o = do
    now ← clock_now a
    found ← candidates a o now
    clean_found a (or_default clean_delete o.action) (or_default false o.dry_run) found

  unfoldable pub force_clean_up_transaction :
      Actor V D S → String → CleanUpAction → Exec (World D S) CleanUpReport
  force_clean_up_transaction a tx action = force_clean_up a (record {
    actor_id = none;
    transaction_ids = some (tx ∷ []);
    statuses = none;
    include_in_flight = some true;
    stuck_only = none;
    stuck_threshold_ms = none;
    older_than_ms = none;
    action = some action;
    dry_run = none;
  })
