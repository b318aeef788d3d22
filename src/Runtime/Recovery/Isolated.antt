-- ===== src/Runtime/Recovery/Isolated.antt =====
-- Failures of single transactions in `executeRecoverySweep` (runtime/actor.ts) stay in its report.
use dfsm.Prelude.{
  ℕ, String, ◌≡◌, ◌≢◌, refl, sym, ap, ◌∙◌, ◌⊎◌, inl, inr, Bool, true, false, Option, none, some,
  List, [], ◌∷◌, ltb, ◌-◌, length,
}
use mathlib.Core.Path.{subst}
use dfsm.Errors.{actor_stopped_by_recovery_error, raised, Result, ok, threw, Exec}
use dfsm.Store.{QueryFilter, Summary}
use dfsm.Store.Contract.{StateStore}
use dfsm.Runtime.{Actor}
use dfsm.Runtime.Monad.{after_call, pure, attempt, ◌>>=◌}
use dfsm.Runtime.Monad.Returns.{Returns, Returns-pure, Returns-attempt, Returns-if, Returns-bind}
use dfsm.Runtime.Report.{SweepReport, empty_sweep_report, SchedulerConfig}
use dfsm.Runtime.World.{World}
use dfsm.Runtime.Effects.{Calls}
use dfsm.Runtime.Lifecycle.{execute_recovery_sweep, calls_of}
use dfsm.Runtime.Recovery.{
  take_action, treated, halt_if, resolve_recovery_mode_for_state, recover_item, recover_items,
  delete_expired, expired_filter, clean_with, clean_retention, report_or_halt, count_sweep,
  in_flight_filter, sweep_rest, sweep_found, end_sweep, sweep_with,
}
use dfsm.Runtime.Recovery.Rows.{query, delete_rows}

-- Queries without an offset succeed.
abbrev pub Answers : {V D : Type 0} → StateStore V D → Type 0
Answers {V} {D} s =
    (f : QueryFilter) (now threshold : ℕ) (d : D)
    → f.offset ≡ none
    → (rows : List (Summary V)) × (s.query_transactions (some f) now threshold d ≡ ok rows)

-- How a sweep ends: with its report, which is kept, and where it halts the actor, with the error
-- for the transactions in the report that met the `STOP` policy, and the actor stopped.
pub data SweepEnd {V D S : Type 0} (a : Actor V D S) : Result SweepReport × World D S → Type 0 where
  reported :
      (report : SweepReport) (w : World D S)
      → w.scheduler.last_sweep_report ≡ some report
      → (report.stopped ≡ []) ⊎ (a.recovery.halt_actor_on_stop ≡ false)
      → SweepEnd a (ok report, w)
  halted :
      (report : SweepReport) (w : World D S)
      → w.scheduler.last_sweep_report ≡ some report
      → report.stopped ≢ []
      → a.recovery.halt_actor_on_stop ≡ true
      → w.stopped_by_recovery ≡ true
      → SweepEnd a (threw (raised (actor_stopped_by_recovery_error a.actor_id report.stopped)), w)

module _ {V D S : Type 0} (a : Actor V D S) (calls : Calls V D S) where
  recover_item-Returns :
      (item : Summary V) (r : SweepReport) → Returns (recover_item calls a item r)
  unfolding recover_item
  recover_item-Returns item r =
      let mode = resolve_recovery_mode_for_state a item.state_value in
      Returns-if item.is_stuck _ (pure r)
        (Returns-bind (attempt (take_action calls a mode item))
          (λ result. pure (treated a mode item r result))
          (Returns-attempt (take_action calls a mode item))
          λ result. Returns-pure (treated a mode item r result))
        (Returns-pure r)

  recover_items-Returns :
      (items : List (Summary V)) (r : SweepReport) → Returns (recover_items calls a items r)
  unfolding recover_items
  recover_items-Returns [] r = Returns-pure r
  recover_items-Returns (i ∷ is) r =
      Returns-bind (recover_item calls a i r) (λ r'. recover_items calls a is r')
        (recover_item-Returns i r) λ r'. recover_items-Returns is r'

  record Ends (m : Exec (World D S) SweepReport) : Type 0 where
    at : (w : World D S) → SweepEnd a (m w)

  Ends-bind :
      {A : Type 0} (m : Exec (World D S) A) (f : A → Exec (World D S) SweepReport)
      → Returns m
      → ((v : A) → Ends (f v))
      → Ends (m >>= f)
  Ends-bind m f h k = record {
    at = λ w.
        let (v, w', e) = h.at w in subst (λ r. SweepEnd a (after_call f r)) (sym e) ((k v).at w');
  }

  module _ (answers : Answers a.store) where
    query-Returns :
        (f : QueryFilter) (now threshold : ℕ)
        → f.offset ≡ none
        → Returns (query {D = D} {S = S} a f now threshold)
    unfolding query
    query-Returns f now threshold h = record {
      at = λ w. let (rows, e) = answers f now threshold w.rest.0 h in (rows, w, ap (λ r. (r, w)) e);
    }

    delete_expired-Returns :
        (items : List (Summary V)) (r : SweepReport) → Returns (delete_expired a items r)
    unfolding delete_rows
    delete_expired-Returns [] r = Returns-pure r
    delete_expired-Returns (i ∷ is) r = record { at = λ w. (_, _, refl) }

    clean-Returns :
        (c : SchedulerConfig) (now threshold : ℕ) (r : SweepReport) (o : Option ℕ)
        → Returns (clean_with a c now threshold r o)
    clean-Returns c now threshold r none = Returns-pure r
    clean-Returns c now threshold r (some ms) =
        Returns-if (ltb now ms) (pure r) _ (Returns-pure r) (
          Returns-bind (query a (expired_filter a c (now - ms)) now threshold) _
            (query-Returns (expired_filter a c (now - ms)) now threshold refl)
            λ rows. delete_expired-Returns rows r)

    halt_if-SweepEnd :
        (b : Bool) (r : SweepReport) (ids : List String) (w : World D S)
        → a.recovery.halt_actor_on_stop ≡ b
        → r.stopped ≡ ids
        → ids ≢ []
        → w.scheduler.last_sweep_report ≡ some r
        → SweepEnd a (halt_if b a r ids w)
    halt_if-SweepEnd false r ids w h e n kept = reported r w kept (inr h)
    halt_if-SweepEnd true r ids w h e n kept =
        rw (← e)
          (halted r (record w { stopped_by_recovery = true }) kept (λ p. n (sym e ∙ p)) h refl)

    report_or_halt-SweepEnd :
        (r : SweepReport) (ids : List String) (w : World D S)
        → r.stopped ≡ ids
        → w.scheduler.last_sweep_report ≡ some r
        → SweepEnd a (report_or_halt a r ids w)
    report_or_halt-SweepEnd r [] w e kept = reported r w kept (inl e)
    report_or_halt-SweepEnd r (id ∷ ids) w e kept =
        halt_if-SweepEnd a.recovery.halt_actor_on_stop r (id ∷ ids) w refl e (λ p. cc p) kept

    end_sweep-SweepEnd :
        (now : ℕ) (r : SweepReport) (w : World D S) → SweepEnd a (end_sweep a now r w)
    unfolding end_sweep
    end_sweep-SweepEnd now r w =
        report_or_halt-SweepEnd r r.stopped (record w { scheduler = count_sweep now r w.scheduler })
          refl refl

    sweep-SweepEnd : (threshold : ℕ) (w : World D S) → SweepEnd a (sweep_with calls a threshold w)
    unfolding sweep_with clean_retention
    sweep-SweepEnd threshold w =
        let now = a.now w.rest.1 in
        (Ends-bind (query a (in_flight_filter a w.scheduler.config) now threshold)
            (sweep_found calls a threshold now)
            (query-Returns (in_flight_filter a w.scheduler.config) now threshold refl)
            λ items.
              Ends-bind (recover_items calls a items (empty_sweep_report now (length items)))
                (sweep_rest a threshold now)
                (recover_items-Returns items (empty_sweep_report now (length items)))
                λ r. record {
                  at = λ w'.
                      (Ends-bind (clean_retention a w'.scheduler.config now threshold r)
                          (end_sweep a now)
                          (clean-Returns w'.scheduler.config now threshold r
                            w'.scheduler.config.retention_ms)
                          λ r'. record { at = end_sweep-SweepEnd now r' }).at
                        w';
                }).at
          w

module _ {V D S : Type 0} (a : Actor V D S) (answers : Answers a.store) where
  -- Where queries without an offset succeed, whatever hooks, compensations, effects, the log and
  -- updates of single transactions throw, a sweep ends with a report or with the halt that the
  -- configuration asks for.
  pub sweep_isolates :
      (threshold : ℕ) (w : World D S) → SweepEnd a (execute_recovery_sweep a threshold w)
  unfolding execute_recovery_sweep
  sweep_isolates = sweep-SweepEnd a (calls_of a) answers
