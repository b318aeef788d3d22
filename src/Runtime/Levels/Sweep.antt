-- ===== src/Runtime/Levels/Sweep.antt =====
-- Recovery and the depth counter of a transaction (runtime/actor.ts).
use dfsm.Prelude.{ℕ, String, ◌≡◌, Bool, true, false, Option, none, some, List, [], ◌∷◌}
use dfsm.Errors.{Exec}
use dfsm.Store.{ActiveStep, Transaction, Snapshot, QueryFilter, Summary}
use dfsm.Runtime.{Actor, OnRestartMode, stop, mark_fail, delete, compensate, continue}
use dfsm.Runtime.Monad.{pure}
use dfsm.Runtime.Monad.Keeps.{Keeps, Keeps-pure, Keeps-bind, Keeps-attempt, keeps_rules}
use dfsm.Runtime.Report.{SweepReport, SchedulerConfig}
use dfsm.Runtime.World.{World, outside}
use dfsm.Runtime.Effects.{Calls}
use dfsm.Runtime.Steady.{Steady, unwind-Keeps}
use dfsm.Runtime.Recovery.{
  resume, resume_found, take_action, recover_item, recover_items, delete_expired, clean_with,
  clean_retention, halt_if, report_or_halt, end_sweep, sweep_with,
}
use dfsm.Runtime.Recovery.Rows.{mark_failed, compensate_row, unlock, query, delete_rows}
use dfsm.Runtime.Lifecycle.{first_sweep}
use dfsm.Runtime.Levels.{AtDepth, Steady-AtDepth}
use dfsm.Runtime.Levels.Others.{Balanced, execute-Keeps}

module _ {V D S : Type 0} (a : Actor V D S) (tx : String)
    (ids : (id : String) (d : D) (s : Snapshot V)
      → a.store.get_transaction id d ≡ some s
      → s.transaction.transaction_id ≡ id)
    (calls : Calls V D S) (balanced : Balanced a tx ids calls) (d : ℕ) where
  abbrev Sound : {A : Type 0} → Exec (World D S) A → Type 0
  Sound m = Keeps (AtDepth tx d) m

  steady : Steady (AtDepth tx d) a
  steady = Steady-AtDepth a tx d

  mark_failed-Keeps : (reason : String) (i : Summary V) → Sound (mark_failed a reason i)
  unfolding mark_failed
  mark_failed-Keeps reason i = search (keeps_rules, steady.updates)

  compensate_row-Keeps : (reason : String) (i : Summary V) → Sound (compensate_row a reason i)
  unfolding compensate_row
  compensate_row-Keeps reason i =
      search (keeps_rules, steady.updates, unwind-Keeps a steady) depth 12

  unlock-Keeps : (tx : String) (v : ℕ) → Sound (unlock a tx v)
  unfolding unlock
  unlock-Keeps tx v = search (keeps_rules, steady.updates)

  query-Keeps : (f : QueryFilter) (now threshold : ℕ) → Sound (query a f now threshold)
  unfolding query
  query-Keeps f now threshold = record { at = λ w q. q }

  delete-Keeps : (ids : List String) → Sound (delete_rows a ids)
  unfolding delete_rows
  delete-Keeps ids = record { at = λ w q. q }

  resume-Keeps : (t : Transaction V) (o : Option (ActiveStep V)) → Sound (resume calls a t o)
  unfolding resume
  resume-Keeps t none = search (keeps_rules, steady.updates)
  resume-Keeps t (some step) =
      search (keeps_rules, unlock-Keeps, execute-Keeps a tx ids calls balanced d)

  resume_found-Keeps : (o : Option (Snapshot V)) → Sound (resume_found calls a o)
  resume_found-Keeps none = Keeps-pure false
  resume_found-Keeps (some s) = search (keeps_rules, resume-Keeps)

  action-Keeps : (mode : OnRestartMode) (i : Summary V) → Sound (take_action calls a mode i)
  unfolding take_action
  action-Keeps stop i =
      Keeps-bind (outside (a.log_recovery i.transaction_id i.state_value)) (λ _. pure true)
        (record { at = λ w q. q }) λ _. Keeps-pure true
  action-Keeps delete i = search (keeps_rules, delete-Keeps)
  action-Keeps mark_fail i = search (keeps_rules, mark_failed-Keeps)
  action-Keeps compensate i = search (keeps_rules, compensate_row-Keeps)
  action-Keeps continue i = search (keeps_rules, resume_found-Keeps)

  recover_item-Keeps : (i : Summary V) (r : SweepReport) → Sound (recover_item calls a i r)
  unfolding recover_item
  recover_item-Keeps i r = search (keeps_rules, Keeps-attempt, action-Keeps)

  recover_items-Keeps :
      (is : List (Summary V)) (r : SweepReport) → Sound (recover_items calls a is r)
  unfolding recover_items
  recover_items-Keeps [] r = Keeps-pure r
  recover_items-Keeps (i ∷ is) r = search (keeps_rules, recover_item-Keeps, recover_items-Keeps is)

  expired-Keeps : (is : List (Summary V)) (r : SweepReport) → Sound (delete_expired a is r)
  expired-Keeps [] r = Keeps-pure r
  expired-Keeps (i ∷ is) r = search (keeps_rules, delete-Keeps)

  clean-Keeps :
      (c : SchedulerConfig) (now threshold : ℕ) (r : SweepReport) (o : Option ℕ)
      → Sound (clean_with a c now threshold r o)
  clean-Keeps c now threshold r none = Keeps-pure r
  clean-Keeps c now threshold r (some ms) = search (keeps_rules, query-Keeps, expired-Keeps)

  halt_if-Keeps : (b : Bool) (r : SweepReport) (ids : List String) → Sound (halt_if b a r ids)
  halt_if-Keeps false r ids = Keeps-pure r
  halt_if-Keeps true r ids = record { at = λ w q. q }

  halt-Keeps : (r : SweepReport) (ids : List String) → Sound (report_or_halt a r ids)
  halt-Keeps r [] = Keeps-pure r
  halt-Keeps r (id ∷ ids) = halt_if-Keeps a.recovery.halt_actor_on_stop r (id ∷ ids)

  end-Keeps : (now : ℕ) (r : SweepReport) → Sound (end_sweep a now r)
  unfolding end_sweep
  end-Keeps now r = record {
    at = λ w q. (halt-Keeps r r.stopped).at (record w { scheduler = _ }) q;
  }

  pub sweep-Keeps : (threshold : ℕ) → Sound (sweep_with calls a threshold)
  unfolding sweep_with clean_retention
  sweep-Keeps threshold =
      search (keeps_rules, query-Keeps, recover_items-Keeps, clean-Keeps, end-Keeps) depth 16

  pub first-Keeps : Sound (first_sweep calls a)
  first-Keeps = search (keeps_rules, sweep-Keeps)
