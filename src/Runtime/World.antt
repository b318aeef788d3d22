-- ===== src/Runtime/World.antt =====
-- The state of an actor (runtime/actor.ts), and the actions that every method is made of.
use dfsm.Prelude.{
  ℕ, ◌+◌, String, Bool, true, false, Option, none, some, List, [], ◌∷◌, ◌==◌, if◌then◌else◌,
}
use dfsm.Prelude.Dict.{Dict, get, put}
use dfsm.Errors.{Result, Exec}
use dfsm.Machine.StateValue.{StateValue, TransactionStatus, completed, is_terminal_status}
use dfsm.Policy.Breaker.Manager.{Breakers}
use dfsm.Store.{Compensation, Snapshot, Patch}
use dfsm.Runtime.{Actor, HookEvent, on_complete, on_terminal}
use dfsm.Runtime.Report.{Scheduler}
use dfsm.Runtime.Monad.{pure, gets, modify, ◌>>◌, for_each}

-- `store` and all else outside, and the actor's fields that its methods change
pub record World (D S : Type 0) : Type 0 where
  pub rest : D × S
  pub breakers : Breakers
  -- `txTransitionRevision`, `effectChainDepthByTx`
  pub revisions : Dict ℕ
  pub depths : Dict ℕ
  pub initialized : Bool
  pub stopped_by_recovery : Bool
  pub scheduler : Scheduler

-- `m.get(k) ?? n`
abbrev pub get_or : ℕ → String → Dict ℕ → ℕ
get_or n k m = elim (get k m) [ none ↦ n | some v ↦ v ]

-- `m.delete(k)`
abbrev pub remove : String → Dict ℕ → Dict ℕ
remove k [] = []
remove k ((j, v) ∷ m) = if j == k then remove k m else (j, v) ∷ remove k m

module _ {D S : Type 0} where
  -- an action of user code
  abbrev pub outside : {A : Type 0} → Exec (D × S) A → Exec (World D S) A
  outside f w = let (r, rest) = f w.rest in (r, record w { rest = rest })

  -- a call of the store
  abbrev pub stored : {A : Type 0} → (D → Result A × D) → Exec (World D S) A
  stored f w = let (r, d) = f w.rest.0 in (r, record w { rest = (d, w.rest.1) })

  -- `getTransitionRevision`, `bumpTransitionRevision`
  abbrev pub revision : String → Exec (World D S) ℕ
  revision tx = gets (λ (w : World D S). get_or 0 tx w.revisions)

  abbrev pub bump_revision : String → Exec (World D S) (Unit {0})
  bump_revision tx =
      modify (λ (w : World D S). record w {
        revisions = put tx (get_or 0 tx w.revisions + 1) w.revisions;
      })

abbrev is_completed : TransactionStatus → Bool
is_completed completed = true
is_completed _ = false

module _ {V D S : Type 0} where
  abbrev pub clock_now : Actor V D S → Exec (World D S) ℕ
  clock_now a = gets (λ (w : World D S). a.now w.rest.1)

  -- `this.store.updateTransaction`
  unfoldable pub update :
      Actor V D S → String → ℕ → Patch V → List (Compensation V) → Exec (World D S) ℕ
  update a tx version p cs = stored (a.store.update_transaction tx version p cs)

  -- `this.store.getTransaction`
  abbrev pub fetch : Actor V D S → String → Exec (World D S) (Option (Snapshot V))
  fetch a tx = gets (λ (w : World D S). a.store.get_transaction tx w.rest.0)

  -- `emitOnStart`, `emitBeforeTransition`, `emitAfterTransition` and `emitOnCompensate`: the hooks
  -- in the order of subscription; one without the event's slot does nothing
  unfoldable pub emit : Actor V D S → HookEvent V → Exec (World D S) (Unit {0})
  emit a event = for_each (λ hook. outside (hook event)) a.hooks

  -- `emitSettledTerminalHooks`
  unfoldable pub emit_settled_terminal_hooks :
      Actor V D S
      → String
      → StateValue
      → TransactionStatus
      → V
      → Option String
      → Exec (World D S) (Unit {0})
  emit_settled_terminal_hooks a tx final status context error =
      if is_terminal_status status
      then (do
        if is_completed status then emit a (on_complete tx final context) else pure tt
        emit a (on_terminal tx final status context error))
      else pure tt

-- A patch that sets no column but `updated_at`.
abbrev pub touch : {V : Type 0} → ℕ → Patch V
touch at = record {
  state_value = none;
  context = none;
  status = none;
  active_step = none;
  last_error = none;
  lease_owner = none;
  lease_expires_at = none;
  updated_at = at;
}
