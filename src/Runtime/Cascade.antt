-- ===== src/Runtime/Cascade.antt =====
-- The matches of an event one after another, with their telemetry, and the cascade of `onDone`, of
-- `executeTransitionOnSnapshot` in sdks/typescript/src/runtime/actor.ts, and
-- `BenchmarkDecorator.executeWithTelemetry` of policy/pipeline.ts.
use dfsm.Prelude.{
  ℕ, zero, suc, ◌-◌, String, Bool, true, false, Option, none, some, List, [], ◌∷◌, ◌==◌,
  if◌then◌else◌,
}
use dfsm.Errors.{Thrown, Exec}
use dfsm.Engine.Done.{find_pending_on_done}
use dfsm.Engine.Match.{MatchedTransition}
use dfsm.Machine.StateValue.{StateValue, leaf, node}
use dfsm.Policy.Pipeline.{PipelineExecutionOutcome, done, failed, attempts_of}
use dfsm.Runtime.{
  Actor, PipelineRequest, Binding, LogOutcome, success_outcome, compensated_outcome,
  fallback_outcome, failed_outcome,
}
use dfsm.Runtime.Monad.{pure, ◌>>=◌, ◌>>◌}
use dfsm.Runtime.World.{World, outside, clock_now}
use dfsm.Runtime.Step.{
  Working, Request, StepEnd, next, settled, truthy, named, add_effects, binding_of, run_pipeline,
  moved, settle_success, settle_failure,
}

abbrev is_error_leaf : StateValue → Bool
is_error_leaf (leaf s) = s == "error"
is_error_leaf (node rs) = false

-- `logOutcome`
abbrev log_outcome : {V : Type 0} → PipelineExecutionOutcome V V → Bool → StateValue → LogOutcome
log_outcome (done output c n) compensated final = success_outcome
log_outcome (failed e requested target n) compensated final =
    if compensated
    then compensated_outcome
    else if is_error_leaf final
    then failed_outcome
    else fallback_outcome

abbrev working_of : {V : Type 0} → StepEnd V → Working V
working_of (next k) = k
working_of (settled k status message count) = k

abbrev error_of : {V : Type 0} → (Thrown → String) → PipelineExecutionOutcome V V → Option String
error_of message (done output c n) = none
error_of message (failed e requested target n) = some (message e)

abbrev requested_of : {V : Type 0} → PipelineExecutionOutcome V V → Bool
requested_of (done output c n) = false
requested_of (failed e requested target n) = requested

abbrev pipeline_request : {V : Type 0} → Request V → String → StateValue → V → ℕ → PipelineRequest V
pipeline_request r event state input at = record {
  transaction_id = r.transaction_id;
  event = event;
  current_state = state;
  input = input;
  started_at = at;
  metadata = r.metadata;
}

abbrev with_output : {V : Type 0} → Working V → PipelineExecutionOutcome V V → Working V
with_output k (done output c n) = add_effects output.effects (record k { context = c })
with_output k (failed e requested target n) = k

module _ {V D S : Type 0} where
  -- the callback `resolveFinalStateAndCompensate`
  abbrev pub settle_outcome :
      Actor V D S
      → Request V
      → MatchedTransition
      → Binding V D S
      → V
      → Working V
      → PipelineExecutionOutcome V V
      → Exec (World D S) (StepEnd V)
  settle_outcome a r m b input k (done output c n) =
      settle_success a r m b input output c k >>= λ k'. pure (next k')
  settle_outcome a r m b input k (failed e requested target n) =
      settle_failure a r m e requested target k

  -- `executeWithTelemetry`
  unfoldable pub execute_with_telemetry :
      Actor V D S
      → Request V
      → MatchedTransition
      → Binding V D S
      → V
      → Working V
      → Exec (World D S) (StepEnd V)
  execute_with_telemetry a r m b input k = do
    t0 ← clock_now a
    outcome ← run_pipeline a b (pipeline_request r r.event k.state input r.started_at) k.context
    end ← settle_outcome a r m b input k outcome
    t1 ← clock_now a
    if b.policy.benchmark.enabled
        then outside (
            a.record_transition (record {
              timestamp = t1;
              transaction_id = r.transaction_id;
              event = r.event;
              transition_handler = b.resolved_transition_name;
              from_state = k.state;
              to_state = (working_of end).state;
              attempts = attempts_of outcome;
              duration_ms = t1 - t0;
              outcome = log_outcome outcome (requested_of outcome) (working_of end).state;
              error = error_of a.message outcome;
            }))
        else pure tt
    pure end

  -- a failure ends the loop
  abbrev pub go_on :
      (Working V → Exec (World D S) (StepEnd V)) → StepEnd V → Exec (World D S) (StepEnd V)
  go_on again (next k) = again k
  go_on again (settled k status message count) = pure (settled k status message count)

  -- The matches with their validated inputs.
  unfoldable pub run_matches :
      Actor V D S
      → Request V
      → List (MatchedTransition × V)
      → Working V
      → Exec (World D S) (StepEnd V)
  run_matches a r [] k = pure (next k)
  run_matches a r ((m, input) ∷ ms) k =
      binding_of a m >>= λ b. execute_with_telemetry a r m b input k >>= go_on (run_matches a r ms)

  abbrev pub run_done_pipeline :
      Actor V D S → Request V → Binding V D S → Working V → Exec (World D S) (Working V)
  run_done_pipeline a r b k = do
    at ← clock_now a
    outcome ← run_pipeline a b (pipeline_request r "$onDone" k.state a.undefined at) k.context
    pure (with_output k outcome)

  -- the transition's function of an `onDone`, if it has one; a failure changes nothing
  abbrev pub done_named :
      Actor V D S
      → Request V
      → Binding V D S
      → Working V
      → Option String
      → Exec (World D S) (Working V)
  done_named a r b k none = pure k
  done_named a r b k (some name) = run_done_pipeline a r b k

  abbrev pub done_function :
      Actor V D S → Request V → Option (Binding V D S) → Working V → Exec (World D S) (Working V)
  done_function a r none k = pure k
  done_function a r (some b) k = done_named a r b k (truthy b.resolved_transition_name)

  -- one round: the working state, and whether the loop goes on
  unfoldable pub done_round :
      Actor V D S → Request V → MatchedTransition → Working V → Exec (World D S) (Working V × Bool)
  done_round a r m k = do
    k' ← done_function a r (a.bindings m.source_node.path "$onDone") k
    let target = truthy m.edge.target
    k'' ← moved a m.source_node.path target (named m.edge.effects) k'
    pure (k'', elim target [ none ↦ false | some t ↦ true ])

  abbrev pub next_round :
      (Working V → Exec (World D S) (Working V)) → Working V × Bool → Exec (World D S) (Working V)
  next_round again (k, true) = again k
  next_round again (k, false) = pure k

  abbrev pub done_pending :
      (Working V → Exec (World D S) (Working V))
      → Actor V D S
      → Request V
      → Working V
      → Option MatchedTransition
      → Exec (World D S) (Working V)
  done_pending again a r k none = pure k
  done_pending again a r k (some m) = done_round a r m k >>= next_round again

  -- at most so many rounds
  unfoldable pub on_done_loop :
      ℕ → Actor V D S → Request V → Working V → Exec (World D S) (Working V)
  on_done_loop zero a r k = pure k
  on_done_loop (suc rounds) a r k =
      done_pending (on_done_loop rounds a r) a r k (find_pending_on_done a.machine k.state)
