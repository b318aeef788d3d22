-- ===== src/Runtime/Levels/Enough.antt =====
-- The levels of effects that `transition` provides are as many as its guard lets a chain have
-- (runtime/actor.ts).
use dfsm.Prelude.{
  ℕ, zero, suc, ◌≤◌, String, ◌≡◌, refl, ap, ◌∙◌, sym, Bool, true, false, Option, [], some, arith,
  Bool-cases, inl, inr, if_both, if◌then◌else◌,
}
use dfsm.Errors.{actor_stopped_by_recovery_error, raised, Result, ok, threw, Exec}
use dfsm.Store.{Snapshot}
use dfsm.Runtime.{Actor, TransitionResult}
use dfsm.Runtime.Monad.{after_call, pure, raise, gets, modify, ◌>>=◌}
use dfsm.Runtime.Monad.Keeps.{Keeps, Keeps-pure, Keeps-bind, Agree}
use dfsm.Runtime.Report.{SweepReport}
use dfsm.Runtime.World.{World, get_or, fetch}
use dfsm.Runtime.Effects.{Calls}
use dfsm.Runtime.Entry.{on_own_transaction, transition_with, calls_to, all_calls}
use dfsm.Runtime.Lifecycle.{
  start_scheduler, first_sweep, initialize_with, initialize, start_up, calls_of, transition,
}
use dfsm.Runtime.Levels.{AtDepth}
use dfsm.Runtime.Levels.Chains.{transition-AtDepth, levels-Agree}
use dfsm.Runtime.Levels.Others.{Balanced, calls-Balanced}
use dfsm.Runtime.Levels.Sweep.{first-Keeps}

if_cases :
    {A : Type 0} (P : A → Type 0) (b : Bool) (x y : A)
    → (b ≡ true → P x)
    → (b ≡ false → P y)
    → P (if b then x else y)
if_cases P true x y h k = h refl
if_cases P false x y h k = k refl

ended-tt :
    {A W : Type 0} (P : W → Type 0) (r : Result A × W)
    → P r.1
    → P (after_call (λ (v : A). pure {A = Unit {0}} tt) r).1
ended-tt P (ok v, w) h = h
ended-tt P (threw e, w) h = h

module _ {V D S : Type 0} (a : Actor V D S) (tx : String)
    (ids : (id : String) (d : D) (s : Snapshot V)
      → a.store.get_transaction id d ≡ some s
      → s.transaction.transaction_id ≡ id) where
  scheduler-Keeps :
      (d : ℕ)
      → Keeps (AtDepth tx d) (
          modify (λ (v : World D S). if v.scheduler.config.enabled then start_scheduler a v else v))
  unfolding start_scheduler
  scheduler-Keeps d = record {
    at = λ w p.
        if_both (AtDepth tx d) w.scheduler.config.enabled
          (if_both (AtDepth tx d) w.scheduler.is_running p p) p;
  }

  -- `initialize` leaves the counter as it was, and the actor initialized.
  initialize-AtDepth :
      (d : ℕ) (calls : Calls V D S)
      → Balanced a tx ids calls
      → (w : World D S) → get_or 0 tx w.depths ≡ d
      → AtDepth tx d (initialize_with calls a w).1
  unfolding initialize_with
  initialize-AtDepth d calls balanced w h =
      if_cases (λ (r : Result (Option SweepReport) × World D S). AtDepth tx d r.1) w.initialized _ _
        (λ before. (h, before))
        λ not_yet.
          (Keeps-bind (first_sweep calls a) _ (first-Keeps a tx ids calls balanced d)
              λ report. Keeps-bind _ _ (scheduler-Keeps d) (λ _. Keeps-pure report)).at
            (record w { initialized = true }) (h, refl)

  start_up-AtDepth :
      (d : ℕ) (w : World D S) → get_or 0 tx w.depths ≡ d → AtDepth tx d (start_up a w).1
  unfolding initialize
  start_up-AtDepth d w h =
      let calls = all_calls a (pure tt) in
      ended-tt (AtDepth tx d) (initialize_with calls a w) (
        initialize-AtDepth d calls (calls-Balanced a tx ids (pure tt) a.max_effect_chain_depth) w h)

  start_of : (start : Exec (World D S) (Unit {0})) (n : ℕ) → (calls_to a start n).start_up ≡ start
  unfolding calls_to
  start_of start zero = refl
  start_of start (suc n) = refl

  -- what follows the start of an actor
  abbrev own :
      Calls V D S
      → String
      → V
      → V
      → Result (Unit {0}) × World D S
      → Result (TransitionResult V) × World D S
  own c event raw metadata r =
      after_call (λ _. fetch a tx >>= on_own_transaction a c tx event raw metadata)
        (after_call
          (λ _. gets (λ (v : World D S). v.stopped_by_recovery) >>= λ stopped.
            if stopped
            then raise (raised (actor_stopped_by_recovery_error a.actor_id []))
            else pure tt)
          r)

  same_at :
      (d : ℕ) (event : String) (raw metadata : V) (levels : ℕ)
      → a.max_effect_chain_depth ≤ levels
      → Agree
          (AtDepth tx d)
          (transition_with a (calls_of a) tx event raw metadata)
          (transition_with a (calls_to a (start_up a) levels) tx event raw metadata)
  same_at d event raw metadata levels h =
      let limit = a.max_effect_chain_depth in
      let start = start_up a in
      transition-AtDepth a tx ids d (calls_to a start limit) (calls_to a start levels)
        (levels-Agree a tx ids start limit d limit levels (omega arith) (omega arith) h) event raw
        metadata

  -- A transition of an actor that is not initialized is one that follows `initialize`.
  started :
      (c : Calls V D S) (event : String) (raw metadata : V) (w : World D S)
      (r : Result (Unit {0}) × World D S)
      → w.initialized ≡ false
      → c.start_up w ≡ r
      → r.1.initialized ≡ true
      → transition_with a c tx event raw metadata w
        ≡ after_call (λ _. transition_with a c tx event raw metadata) r
  unfolding transition_with
  started c event raw metadata w (ok u, w') h e k =
      ap (λ b. own c event raw metadata ((if b then pure tt else c.start_up) w)) h
      ∙ ap (own c event raw metadata) e
      ∙ sym (ap (λ b. own c event raw metadata ((if b then pure tt else c.start_up) w')) k)
  started c event raw metadata w (threw x, w') h e k =
      ap (λ b. own c event raw metadata ((if b then pure tt else c.start_up) w)) h
      ∙ ap (own c event raw metadata) e

  follows :
      (d : ℕ) (event : String) (raw metadata : V) (levels : ℕ)
      → a.max_effect_chain_depth ≤ levels
      → (r : Result (Unit {0}) × World D S) → AtDepth tx d r.1
      → (after_call (λ _. transition_with a (calls_of a) tx event raw metadata) r
          ≡ after_call
              (λ _. transition_with a (calls_to a (start_up a) levels) tx event raw metadata)
              r)
        × (get_or 0 tx
              (after_call (λ _. transition_with a (calls_of a) tx event raw metadata) r).1.depths
            ≡ d)
  follows d event raw metadata levels h (ok u, w) q =
      let (e, p) = (same_at d event raw metadata levels h).at w q in (e, p.0)
  follows d event raw metadata levels h (threw x, w) q = (refl, q.0)

  -- In a store whose rows have the ids under which they are found, a transition does the same with
  -- any larger number of levels of effects as with the configured limit on the depth of a chain:
  -- the guard ends each chain before the levels do, also through transitions that effects send on
  -- the same transaction. The transaction's depth counter is afterwards as it was before, whether
  -- the transition returns or throws, and also if it first initializes the actor, with the sweep of
  -- recovery.
  pub levels_enough :
      (event : String) (raw metadata : V) (levels : ℕ) (w : World D S)
      → a.max_effect_chain_depth ≤ levels
      → (transition a tx event raw metadata w
          ≡ transition_with a (calls_to a (start_up a) levels) tx event raw metadata w)
        × (get_or 0 tx (transition a tx event raw metadata w).1.depths ≡ get_or 0 tx w.depths)
  unfolding transition
  levels_enough event raw metadata levels w h = elim (Bool-cases w.initialized) [
    | inl before ↦
        (let (e, p) =
            (same_at (get_or 0 tx w.depths) event raw metadata levels h).at w (refl, before) in
          (e, p.0))
    | inr not_yet ↦
        (let d = get_or 0 tx w.depths in
          let start = start_up a in
          let q = start_up-AtDepth d w refl in
          let (e, p) = follows d event raw metadata levels h (start w) q in
          let first =
            started (calls_to a start a.max_effect_chain_depth) event raw metadata w (start w)
              not_yet (ap (λ m. m w) (start_of start a.max_effect_chain_depth)) q.1 in
          let second =
            started (calls_to a start levels) event raw metadata w (start w) not_yet
              (ap (λ m. m w) (start_of start levels)) q.1 in
          (first ∙ e ∙ sym second, ap (λ r. get_or 0 tx r.1.depths) first ∙ p))
  ]
