-- ===== src/Runtime/Compensation.antt =====
-- `unwindCompensationStack` of sdks/typescript/src/runtime/actor.ts.
pub mod Unwound
use dfsm.Prelude.{ℕ, suc, String, Option, none, some, List, [], ◌∷◌}
use dfsm.Errors.{Result, ok, threw, Exec}
use dfsm.Store.{CompensationEntry}
use dfsm.Runtime.{Actor, CompensateRequest, on_compensate}
use dfsm.Runtime.Monad.{pure, gets, modify, ◌>>=◌, ◌>>◌}
use dfsm.Runtime.World.{World, outside, clock_now, emit}

-- what `resolveCompensate` finds
abbrev pub Handler : Type 0 → Type 0 → Type 0 → Type 0
Handler V D S = Option (String × (CompensateRequest V → Exec (D × S) (Option V)))

abbrev pub name_of : {V D S : Type 0} → Handler V D S → String → String
name_of none key = key
name_of (some (name, fn)) key = name

abbrev pub request_of :
    {V : Type 0} → String → CompensationEntry V → V → Option String → CompensateRequest V
request_of tx e context failure = record {
  transaction_id = tx;
  step_seq = e.step_seq;
  from_state = e.entry.from_state;
  input_snapshot = e.entry.input_snapshot;
  context_before = e.entry.context_before;
  current_context = context;
  failure_error = failure;
}

abbrev pub or_context : {V : Type 0} → V → Option V → V
or_context context none = context
or_context context (some updated) = updated

module _ {V D S : Type 0} where
  -- the call of the handler, if there is one: the context after it
  abbrev pub call_handler :
      Handler V D S → String → CompensationEntry V → V → Option String → Exec (World D S) V
  call_handler none tx e context failure = pure context
  call_handler (some (name, fn)) tx e context failure = do
    updated ← outside (fn (request_of tx e context failure))
    pure (or_context context updated)

  abbrev pub mark : Actor V D S → String → ℕ → ℕ → Exec (World D S) (Unit {0})
  mark a tx seq at = modify (λ (w : World D S). record w {
    rest = (a.store.mark_compensation_executed tx seq at w.rest.0, w.rest.1);
  })

  -- what follows the handler's call, with the context that it gave
  unfoldable pub note_executed :
      Actor V D S → String → Option String → CompensationEntry V → V → Exec (World D S) V
  note_executed a tx failure e updated = do
    at ← clock_now a
    mark a tx e.step_seq at
    emit a (
        on_compensate tx e.step_seq
          (name_of (a.resolve_compensate e.entry.compensate_key) e.entry.compensate_key)
          e.entry.from_state e.entry.input_snapshot updated failure)
    pure updated

  -- the body of the loop
  unfoldable pub unwind_entry :
      Actor V D S → String → Option String → CompensationEntry V → V → Exec (World D S) V
  unwind_entry a tx failure e context =
      call_handler (a.resolve_compensate e.entry.compensate_key) tx e context failure
      >>= note_executed a tx failure e

  -- the loop, with the context and the count so far
  unfoldable pub unwind_entries :
      Actor V D S
      → String
      → Option String
      → List (CompensationEntry V)
      → V
      → ℕ
      → Exec (World D S) (V × ℕ)
  unwind_entries a tx failure [] context count = pure (context, count)
  unwind_entries a tx failure (e ∷ es) context count =
      unwind_entry a tx failure e context >>= λ updated.
      unwind_entries a tx failure es updated (suc count)

  -- `updatedContext` and `compensatedCount`
  unfoldable pub unwind_compensation_stack :
      Actor V D S → String → V → Option String → Exec (World D S) (V × ℕ)
  unwind_compensation_stack a tx context failure = do
    stack ← gets (λ (w : World D S). a.store.get_uncompensated_stack tx w.rest.0)
    unwind_entries a tx failure stack context 0
