-- ===== src/Runtime/Steady.antt =====
-- What every step of a transition keeps, from what its smallest steps keep (runtime/actor.ts).
use dfsm.Prelude.{
  ◌≡◌, refl, ℕ, zero, suc, String, Bool, true, false, Option, none, some, List, [], ◌∷◌,
}
use dfsm.Validation.{enforce_validation}
use dfsm.Errors.{ValidationTarget, Thrown, Exec}
use dfsm.Engine.Apply.{AppliedTransition}
use dfsm.Engine.Done.{find_pending_on_done}
use dfsm.Engine.Match.{MatchedTransition}
use dfsm.Machine.StateValue.{StateValue, TransactionStatus}
use dfsm.Policy.Pipeline.{TransitionOutput, PipelineExecutionOutcome, done, failed}
use dfsm.Store.{Transaction, Compensation, CompensationEntry, Patch}
use dfsm.Runtime.{Actor, PipelineRequest, Binding, BenchmarkRecord, HookEvent}
use dfsm.Runtime.Monad.{returning, ◌>>=◌}
use dfsm.Runtime.Monad.Keeps.{
  Keeps, Keeps-pure, Keeps-raise, Keeps-returning, Keeps-bind, keeps_rules,
}
use dfsm.Runtime.World.{World, outside, update, emit, emit_settled_terminal_hooks}
use dfsm.Runtime.Compensation.{
  call_handler, mark, note_executed, unwind_entry, unwind_entries, unwind_compensation_stack,
}
use dfsm.Runtime.Step.{
  Working, Request, StepEnd, next, settled, truthy, binding_of, binding_or_throw, applied_or_throw,
  run_pipeline, moved, settle_success, settle_failure, persist_those, compensate_if,
}
use dfsm.Runtime.Cascade.{
  settle_outcome, execute_with_telemetry, go_on, run_matches, done_named, done_function, done_round,
  next_round, done_pending, on_done_loop,
}
use dfsm.Runtime.Transition.{validate_inputs, mark_in_flight}

module _ {V D S : Type 0} where
  -- The smallest steps of a transition keep `P`.
  pub record Steady (P : World D S → Type 0) (a : Actor V D S) : Type 0 where
    pub pipelines :
        (path event : String) (b : Binding V D S)
        → a.bindings path event ≡ some b
        → (r : PipelineRequest V) (c : V) → Keeps P (run_pipeline a b r c)
    pub hooks : (e : HookEvent V) → Keeps P (emit a e)
    pub recorder : (r : BenchmarkRecord) → Keeps P (outside (a.record_transition r))
    pub compensation :
        (key tx : String) (e : CompensationEntry V) (c : V) (failure : Option String)
        → Keeps P (call_handler (a.resolve_compensate key) tx e c failure)
    pub updates :
        (tx : String) (v : ℕ) (p : Patch V) (cs : List (Compensation V))
        → Keeps P (update a tx v p cs)
    pub marks : (tx : String) (seq at : ℕ) → Keeps P (mark a tx seq at)

module _ {V D S : Type 0} {P : World D S → Type 0} (a : Actor V D S) (steady : Steady P a) where
  note_executed-Keeps :
      (tx : String) (failure : Option String) (e : CompensationEntry V) (c : V)
      → Keeps P (note_executed a tx failure e c)
  unfolding note_executed
  note_executed-Keeps tx failure e c = search (keeps_rules, steady.marks, steady.hooks)

  unwind_entries-Keeps :
      (tx : String) (failure : Option String) (es : List (CompensationEntry V)) (c : V) (n : ℕ)
      → Keeps P (unwind_entries a tx failure es c n)
  unfolding unwind_entries unwind_entry
  unwind_entries-Keeps tx failure [] c n = Keeps-pure (c, n)
  unwind_entries-Keeps tx failure (e ∷ es) c n =
      search
        (keeps_rules, steady.compensation, note_executed-Keeps, unwind_entries-Keeps tx failure es)

  pub unwind-Keeps :
      (tx : String) (c : V) (failure : Option String)
      → Keeps P (unwind_compensation_stack a tx c failure)
  unfolding unwind_compensation_stack
  unwind-Keeps tx c failure = search (keeps_rules, unwind_entries-Keeps)

  binding-Keeps : (o : Option (Binding V D S)) → Keeps P (binding_or_throw o)
  binding-Keeps none = Keeps-raise _
  binding-Keeps (some b) = Keeps-pure b

  found-Keeps :
      {B : Type 0} (o : Option (Binding V D S)) (f : Binding V D S → Exec (World D S) B)
      → ((b : Binding V D S) → o ≡ some b → Keeps P (f b))
      → Keeps P (binding_or_throw o >>= f)
  found-Keeps none f h = record { at = λ w p. p }
  found-Keeps (some b) f h = h b refl

  applied-Keeps : (o : Option AppliedTransition) → Keeps P (applied_or_throw o)
  applied-Keeps none = Keeps-raise _
  applied-Keeps (some t) = Keeps-pure t

  moved-Keeps :
      (source : String) (o : Option String) (own : List (String × Option V)) (k : Working V)
      → Keeps P (moved a source o own k)
  moved-Keeps source none own k = Keeps-pure _
  moved-Keeps source (some target) own k = search (keeps_rules, applied-Keeps)

  settle_success-Keeps :
      (r : Request V) (m : MatchedTransition) (b : Binding V D S) (input : V)
      (output : TransitionOutput V V) (c : V) (k : Working V)
      → Keeps P (settle_success a r m b input output c k)
  unfolding settle_success
  settle_success-Keeps r m b input output c k = search (keeps_rules, moved-Keeps)

  persist-Keeps :
      (r : Request V) (k : Working V) (cs : List (Compensation V))
      → Keeps P (persist_those a r k cs)
  persist-Keeps r k [] = Keeps-pure k
  persist-Keeps r k (c ∷ cs) = search (keeps_rules, steady.updates)

  compensate_if-Keeps :
      (b : Bool) (r : Request V) (message : String) (k : Working V)
      → Keeps P (compensate_if b a r message k)
  compensate_if-Keeps false r message k = Keeps-pure _
  compensate_if-Keeps true r message k = search (keeps_rules, steady.updates, unwind-Keeps)

  settle_failure-Keeps :
      (r : Request V) (m : MatchedTransition) (e : Thrown) (b : Bool) (target : String)
      (k : Working V)
      → Keeps P (settle_failure a r m e b target k)
  unfolding settle_failure
  settle_failure-Keeps r m e b target k =
      search (keeps_rules, persist-Keeps, compensate_if-Keeps, applied-Keeps)

  settle-Keeps :
      (r : Request V) (m : MatchedTransition) (b : Binding V D S) (input : V) (k : Working V)
      (o : PipelineExecutionOutcome V V)
      → Keeps P (settle_outcome a r m b input k o)
  settle-Keeps r m b input k (done output c n) = search (keeps_rules, settle_success-Keeps)
  settle-Keeps r m b input k (failed e requested target n) =
      settle_failure-Keeps r m e requested target k

  telemetry-Keeps :
      (path event : String) (b : Binding V D S)
      → a.bindings path event ≡ some b
      → (r : Request V) (m : MatchedTransition) (input : V) (k : Working V)
      → Keeps P (execute_with_telemetry a r m b input k)
  unfolding execute_with_telemetry
  telemetry-Keeps path event b found r m input k =
      search (keeps_rules, steady.pipelines path event b found, settle-Keeps, steady.recorder) depth
        9

  go_on-Keeps :
      (again : Working V → Exec (World D S) (StepEnd V)) (end : StepEnd V)
      → ((k : Working V) → Keeps P (again k))
      → Keeps P (go_on again end)
  go_on-Keeps again (next k) h = h k
  go_on-Keeps again (settled k status message count) h = Keeps-pure _

  pub run_matches-Keeps :
      (r : Request V) (ms : List (MatchedTransition × V)) (k : Working V)
      → Keeps P (run_matches a r ms k)
  unfolding run_matches
  run_matches-Keeps r [] k = Keeps-pure (next k)
  run_matches-Keeps r ((m, input) ∷ ms) k =
      found-Keeps (a.bindings m.source_node.path m.edge.event) _ λ b found.
        Keeps-bind (execute_with_telemetry a r m b input k) (go_on (run_matches a r ms))
          (telemetry-Keeps m.source_node.path m.edge.event b found r m input k)
          λ end. go_on-Keeps (run_matches a r ms) end (run_matches-Keeps r ms)

  done_function-Keeps :
      (path event : String) (o : Option (Binding V D S))
      → a.bindings path event ≡ o
      → (r : Request V) (k : Working V) → Keeps P (done_function a r o k)
  done_function-Keeps path event none found r k = Keeps-pure k
  done_function-Keeps path event (some b) found r k = named_or (truthy b.resolved_transition_name)
    where
      named_or : (o : Option String) → Keeps P (done_named a r b k o)
      named_or none = Keeps-pure k
      named_or (some name) = search (keeps_rules, steady.pipelines path event b found)

  done_round-Keeps :
      (r : Request V) (m : MatchedTransition) (k : Working V) → Keeps P (done_round a r m k)
  unfolding done_round
  done_round-Keeps r m k = search (
    keeps_rules,
    done_function-Keeps m.source_node.path "$onDone" (a.bindings m.source_node.path "$onDone") refl,
    moved-Keeps,
  )

  next_round-Keeps :
      (again : Working V → Exec (World D S) (Working V)) (end : Working V × Bool)
      → ((k : Working V) → Keeps P (again k))
      → Keeps P (next_round again end)
  next_round-Keeps again (k, true) h = h k
  next_round-Keeps again (k, false) h = Keeps-pure k

  pending-Keeps :
      (again : Working V → Exec (World D S) (Working V)) (r : Request V) (k : Working V)
      (o : Option MatchedTransition)
      → ((k : Working V) → Keeps P (again k))
      → Keeps P (done_pending again a r k o)
  pending-Keeps again r k none h = Keeps-pure k
  pending-Keeps again r k (some m) h =
      Keeps-bind (done_round a r m k) (next_round again) (done_round-Keeps r m k)
        λ end. next_round-Keeps again end h

  pub on_done_loop-Keeps : (n : ℕ) (r : Request V) (k : Working V) → Keeps P (on_done_loop n a r k)
  unfolding on_done_loop
  on_done_loop-Keeps zero r k = Keeps-pure k
  on_done_loop-Keeps (suc n) r k =
      pending-Keeps (on_done_loop n a r) r k (find_pending_on_done a.machine k.state)
        (on_done_loop-Keeps n r)

  pub validate_inputs-Keeps :
      (raw : V) (ms : List MatchedTransition) → Keeps P (validate_inputs a raw ms)
  unfolding validate_inputs
  validate_inputs-Keeps raw [] = Keeps-pure []
  validate_inputs-Keeps raw (m ∷ ms) =
      Keeps-bind (binding_of a m) _ (binding-Keeps (a.bindings m.source_node.path m.edge.event))
        λ b.
          Keeps-bind
            (returning (enforce_validation (λ v. v) ValidationTarget.input raw b.input_validator)) _
            (Keeps-returning
              (enforce_validation (λ v. v) ValidationTarget.input raw b.input_validator))
            λ v.
              Keeps-bind (validate_inputs a raw ms) _ (validate_inputs-Keeps raw ms)
                λ vs. Keeps-pure (v ∷ vs)

  pub mark_in_flight-Keeps :
      (t : Transaction V) (event : String) (raw : V) (at : ℕ)
      → Keeps P (mark_in_flight a t event raw at)
  unfolding mark_in_flight
  mark_in_flight-Keeps t event raw at = search (keeps_rules, steady.updates)

  pub terminal_hooks-Keeps :
      (tx : String) (v : StateValue) (status : TransactionStatus) (c : V) (error : Option String)
      → Keeps P (emit_settled_terminal_hooks a tx v status c error)
  unfolding emit_settled_terminal_hooks
  terminal_hooks-Keeps tx v status c error = search (keeps_rules, steady.hooks)
