-- ===== src/Policy/Pipeline.antt =====
-- sdks/typescript/src/policy/pipeline.ts: the decorators around a transition's function.
--
-- A state of the running program is `Breaker × S`: the breaker of the transition, and the rest. The
-- context is a value of `C`, so `structuredClone` of it is the value itself; what a function makes
-- of its clone before it throws is lost, as in the source. The transition's function gets the
-- number of the attempt and the context, and returns its output, if that is an object, and the
-- context as the function left it. Inputs and the other fields of the request are constant in a
-- run: they are part of the function.
pub mod Outcomes
use dfsm.Prelude.{ℕ, String, Bool, true, false, Option, none, some, List, [], ◌==◌, if◌then◌else◌}
use dfsm.Errors.{Thrown, error, primitive, context, is_object, Raised, Result, ok, threw, Exec}
use dfsm.Policy.{Ratio, NormalizedTransitionPolicy}
use dfsm.Policy.Retry.{run_with_retry_policy}
use dfsm.Policy.Breaker.{Breaker, execute}
use dfsm.Validation.{SchemaValidator, enforce_validation}

-- `TransitionOutput`; an effect is its handler's name with a payload
pub record TransitionOutput (C O : Type 0) : Type 0 where
  pub context : Option C
  pub target_state : Option String
  pub value : Option O
  pub effects : List (String × Option O)

abbrev pub empty_output : {C O : Type 0} → TransitionOutput C O
empty_output = record { context = none; target_state = none; value = none; effects = [] }

pub data PipelineExecutionOutcome (C O : Type 0) : Type 0 where
  -- `output`, `nextContext`, `attempts`
  done : TransitionOutput C O → C → ℕ → PipelineExecutionOutcome C O
  -- `error`, `compensateRequested`, `fallbackTarget`, `attempts`
  failed : Thrown → Bool → String → ℕ → PipelineExecutionOutcome C O

abbrev pub attempts_of : {C O : Type 0} → PipelineExecutionOutcome C O → ℕ
attempts_of (done output next n) = n
attempts_of (failed e compensate target n) = n

-- `rawResult && typeof rawResult === "object" ? rawResult : {}`
abbrev pub output_or_empty : {C O : Type 0} → Option (TransitionOutput C O) → TransitionOutput C O
output_or_empty none = empty_output
output_or_empty (some o) = o

-- `output.context !== undefined ? output.context : txContext.data`
abbrev pub candidate_context : {C : Type 0} → Option C → C → C
candidate_context none left = left
candidate_context (some c) left = c

-- `err instanceof Error ? err : new Error(String(err))`
abbrev as_error : Thrown → Thrown
as_error (primitive m) = error m
as_error e = e

abbrev attempts_or_one : Option ℕ → ℕ
attempts_or_one none = 1
attempts_or_one (some n) = n

-- `typeof err?.__dfsmAttempts === "number" ? err.__dfsmAttempts : 1`
abbrev pub read_attempts : Raised → ℕ
read_attempts e = if is_object e.cause then attempts_or_one e.attempts else 1

-- `{ ...result, attempts }`
abbrev pub with_attempts :
    {C O : Type 0} → PipelineExecutionOutcome C O → ℕ → PipelineExecutionOutcome C O
with_attempts (done output next n) attempts = done output next attempts
with_attempts (failed e compensate target n) attempts = failed e compensate target attempts

module _ {C O S : Type 0} (fn : Option (ℕ → C → Exec S (Option (TransitionOutput C O) × C)))
    (context_validator : Option (SchemaValidator C C)) (policy : NormalizedTransitionPolicy)
    (now : S → ℕ) (sleep : ℕ → Breaker × S → Breaker × S) (random_fn : ℕ → Ratio)
    (context_data : C) where
  validated : ℕ → TransitionOutput C O → Result C → Result (PipelineExecutionOutcome C O)
  validated attempt output (ok c) = ok (done output c attempt)
  validated attempt output (threw e) = threw e

  returned :
      ℕ → Result (Option (TransitionOutput C O) × C) × S → Result (PipelineExecutionOutcome C O) × S
  unfolding validated enforce_validation
  returned attempt (threw e, s) = (threw e, s)
  returned attempt (ok (raw, left), s) =
      let output = output_or_empty raw in
      (
        validated attempt output (
            enforce_validation (λ c. c) context (candidate_context output.context left)
              context_validator),
        s,
      )

  -- `UserFunctionComponent.execute`
  user_function : ℕ → Exec S (PipelineExecutionOutcome C O)
  unfolding returned
  user_function attempt s = elim fn [
    | none ↦ (ok (done empty_output context_data attempt), s)
    | some f ↦ returned attempt (f attempt context_data s)
  ]

  beside_breaker : ℕ → Exec (Breaker × S) (PipelineExecutionOutcome C O)
  unfolding user_function
  beside_breaker attempt (b, s) = let (r, s') = user_function attempt s in (r, (b, s'))

  abbrev counted :
      Result (PipelineExecutionOutcome C O × ℕ) × (Breaker × S)
      → Result (PipelineExecutionOutcome C O) × (Breaker × S)
  counted (ok (outcome, attempts), w) = (ok (with_attempts outcome attempts), w)
  counted (threw e, w) = (threw e, w)

  -- `RetryBackoffDecorator.execute`
  with_retry : Exec (Breaker × S) (PipelineExecutionOutcome C O)
  unfolding beside_breaker run_with_retry_policy
  with_retry w = counted (run_with_retry_policy sleep random_fn policy.retry beside_breaker w)

  -- `CircuitBreakerDecorator.execute`
  with_breaker : Exec (Breaker × S) (PipelineExecutionOutcome C O)
  unfolding with_retry execute
  with_breaker = execute now with_retry

  abbrev caught :
      Result (PipelineExecutionOutcome C O) × (Breaker × S)
      → PipelineExecutionOutcome C O × (Breaker × S)
  caught (ok outcome, w) = (outcome, w)
  caught (threw e, w) = (
    failed (as_error e.cause) policy.on_fail.compensate
        (if policy.on_fail.target == "" then "error" else policy.on_fail.target) (read_attempts e),
    w,
  )

  -- `FallbackCompensateDecorator.execute`, which throws nothing
  unfoldable pub pipeline : Breaker × S → PipelineExecutionOutcome C O × (Breaker × S)
  unfolding with_breaker
  pipeline w = caught (with_breaker w)
