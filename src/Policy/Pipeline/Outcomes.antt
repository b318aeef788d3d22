-- ===== src/Policy/Pipeline/Outcomes.antt =====
-- What the outcome of a decorated transition (policy/pipeline.ts) says, whatever its function does.
use dfsm.Prelude.{ℕ, ◌≤◌, ◌≡◌, refl, sym, ◌≢◌, ◌⊎◌, inl, inr, Option, none, some, arith}
use mathlib.Core.Path.{subst}
use dfsm.Errors.{context, Raised, Result, ok, threw, Exec}
use dfsm.Policy.{Ratio, NormalizedTransitionPolicy}
use dfsm.Policy.Retry.{max_attempts_of, note_attempts}
use dfsm.Policy.Retry.Trace.{reported, run_with_retry_policy-Decided}
use dfsm.Policy.Breaker.{Breaker}
use dfsm.Policy.Breaker.Calls.{execute_result}
use dfsm.Policy.Pipeline.{
  TransitionOutput, PipelineExecutionOutcome, done, failed, attempts_of, read_attempts,
  with_attempts, output_or_empty, candidate_context, validated, returned, user_function,
  beside_breaker, counted, with_retry, with_breaker, caught, pipeline,
}
use dfsm.Validation.{SchemaValidator, success, enforce_validation}

module _ {C O S : Type 0} (fn : Option (ℕ → C → Exec S (Option (TransitionOutput C O) × C)))
    (context_validator : Option (SchemaValidator C C)) (policy : NormalizedTransitionPolicy)
    (now : S → ℕ) (sleep : ℕ → Breaker × S → Breaker × S) (random_fn : ℕ → Ratio)
    (context_data : C) where
  abbrev Within : ℕ → Type 0
  Within n = (1 ≤ n) × (n ≤ max_attempts_of policy.retry)

  abbrev CountedWithin : Result (PipelineExecutionOutcome C O) → Type 0
  CountedWithin (ok outcome) = Within (attempts_of outcome)
  CountedWithin (threw e) = Within (read_attempts e)

  with_attempts-Within :
      (outcome : PipelineExecutionOutcome C O) (n : ℕ)
      → Within n
      → Within (attempts_of (with_attempts outcome n))
  with_attempts-Within (done output next m) n h = h
  with_attempts-Within (failed e compensate target m) n h = h

  read-note_attempts : (n : ℕ) (e : Raised) → Within n → Within (read_attempts (note_attempts n e))
  read-note_attempts n e h = ground arith

  counted-Within :
      (n : ℕ) (x : Result (PipelineExecutionOutcome C O) × (Breaker × S))
      → Within n
      → CountedWithin
          (counted fn context_validator policy now sleep random_fn context_data (reported n x)).0
  counted-Within n (ok outcome, w) h = with_attempts-Within outcome n h
  counted-Within n (threw e, w) h = read-note_attempts n e h

  with_retry-Within :
      (w : Breaker × S)
      → CountedWithin (with_retry fn context_validator policy now sleep random_fn context_data w).0
  unfolding with_retry
  with_retry-Within w =
      let d =
        run_with_retry_policy-Decided sleep random_fn policy.retry
          (beside_breaker fn context_validator policy now sleep random_fn context_data) w in
      rw d.result_eq (
        counted-Within d.attempt
          (beside_breaker fn context_validator policy now sleep random_fn context_data d.attempt
            d.start)
          (d.positive, d.bounded))

  caught-Within :
      (x : Result (PipelineExecutionOutcome C O) × (Breaker × S))
      → CountedWithin x.0
      → Within
          (attempts_of (caught fn context_validator policy now sleep random_fn context_data x).0)
  caught-Within (ok outcome, w) h = h
  caught-Within (threw e, w) h = h

  -- The outcome of a transition counts at least one attempt, and no more than the policy's
  -- `max(1, maxAttempts)`, whether it succeeded, failed or was refused by the circuit breaker.
  pub pipeline_attempts :
      (w : Breaker × S)
      → let n =
          attempts_of (pipeline fn context_validator policy now sleep random_fn context_data w).0 in
        (1 ≤ n) × (n ≤ max_attempts_of policy.retry)
  unfolding pipeline
  pipeline_attempts w =
      caught-Within (with_breaker fn context_validator policy now sleep random_fn context_data w) (
        execute_result now CountedWithin
          (with_retry fn context_validator policy now sleep random_fn context_data)
          with_retry-Within (λ key left. (omega arith, omega arith)) w)

  -- A context that may be committed: one that the validator, if there is one, made of some value.
  abbrev Accepted : Option (SchemaValidator C C) → C → Type 0
  Accepted none c = Unit
  Accepted (some validate) c = (value : C) × (validate value ≡ success c)

  abbrev AcceptedOutcome : PipelineExecutionOutcome C O → Type 0
  AcceptedOutcome (done output next n) = (fn ≡ none) ⊎ Accepted context_validator next
  AcceptedOutcome (failed e compensate target n) = Unit

  abbrev AcceptedResult : Result (PipelineExecutionOutcome C O) → Type 0
  AcceptedResult (ok outcome) = AcceptedOutcome outcome
  AcceptedResult (threw e) = Unit

  enforced-Accepted :
      (v : Option (SchemaValidator C C)) (candidate c : C)
      → enforce_validation (λ x. x) context candidate v ≡ ok c
      → Accepted v c
  unfolding enforce_validation
  enforced-Accepted none candidate c h = tt
  enforced-Accepted (some validate) candidate c h = (candidate, ground arith)

  validated-Accepted :
      (attempt : ℕ) (output : TransitionOutput C O) (r : Result C)
      → ((c : C) → r ≡ ok c → Accepted context_validator c)
      → AcceptedResult
          (validated fn context_validator policy now sleep random_fn context_data attempt output r)
  unfolding validated
  validated-Accepted attempt output (ok c) h = inr (h c refl)
  validated-Accepted attempt output (threw e) h = tt

  returned-Accepted :
      (attempt : ℕ) (x : Result (Option (TransitionOutput C O) × C) × S)
      → AcceptedResult
          (returned fn context_validator policy now sleep random_fn context_data attempt x).0
  unfolding returned
  returned-Accepted attempt (threw e, s) = tt
  returned-Accepted attempt (ok (raw, left), s) =
      let output = output_or_empty raw in
      validated-Accepted attempt output _
        (λ c. enforced-Accepted context_validator (candidate_context output.context left) c)

  user_function-some :
      (f : ℕ → C → Exec S (Option (TransitionOutput C O) × C)) (attempt : ℕ) (s : S)
      → fn ≡ some f
      → user_function fn context_validator policy now sleep random_fn context_data attempt s
        ≡ returned fn context_validator policy now sleep random_fn context_data attempt
            (f attempt context_data s)
  unfolding user_function
  user_function-some f attempt s e = rw (e, user_function)

  user_function-Accepted :
      (o : Option (ℕ → C → Exec S (Option (TransitionOutput C O) × C)))
      → fn ≡ o
      → (attempt : ℕ) (s : S)
      → AcceptedResult
          (user_function fn context_validator policy now sleep random_fn context_data attempt s).0
  unfolding user_function
  user_function-Accepted none e attempt s = rw (e, user_function) (inl refl)
  user_function-Accepted (some f) e attempt s =
      subst (λ (x : Result (PipelineExecutionOutcome C O) × S). AcceptedResult x.0)
        (sym (user_function-some f attempt s e))
        (returned-Accepted attempt (f attempt context_data s))

  beside_breaker-Accepted :
      (attempt : ℕ) (w : Breaker × S)
      → AcceptedResult
          (beside_breaker fn context_validator policy now sleep random_fn context_data attempt w).0
  unfolding beside_breaker
  beside_breaker-Accepted attempt (b, s) = user_function-Accepted fn refl attempt s

  counted-Accepted :
      (n : ℕ) (x : Result (PipelineExecutionOutcome C O) × (Breaker × S))
      → AcceptedResult x.0
      → AcceptedResult
          (counted fn context_validator policy now sleep random_fn context_data (reported n x)).0
  counted-Accepted n (ok (done output next m), w) h = h
  counted-Accepted n (ok (failed e compensate target m), w) h = tt
  counted-Accepted n (threw e, w) h = tt

  with_retry-Accepted :
      (w : Breaker × S)
      → AcceptedResult (with_retry fn context_validator policy now sleep random_fn context_data w).0
  unfolding with_retry
  with_retry-Accepted w =
      let operation = beside_breaker fn context_validator policy now sleep random_fn context_data in
      let d = run_with_retry_policy-Decided sleep random_fn policy.retry operation w in
      rw d.result_eq (
        counted-Accepted d.attempt (operation d.attempt d.start)
          (beside_breaker-Accepted d.attempt d.start))

  caught-Accepted :
      (x : Result (PipelineExecutionOutcome C O) × (Breaker × S))
      → AcceptedResult x.0
      → AcceptedOutcome (caught fn context_validator policy now sleep random_fn context_data x).0
  caught-Accepted (ok outcome, w) h = h
  caught-Accepted (threw e, w) h = tt

  -- When a transition with a function succeeds, the context that it hands on was made by the
  -- context validator of some value, if there is a validator: no context gets past validation.
  pub pipeline_validated :
      (w : Breaker × S) (output : TransitionOutput C O) (next : C) (n : ℕ)
      → fn ≢ none
      → (pipeline fn context_validator policy now sleep random_fn context_data w).0
        ≡ done output next n
      → Accepted context_validator next
  unfolding pipeline
  pipeline_validated w output next n some_fn h = accepted (
      subst AcceptedOutcome h (
        caught-Accepted
          (with_breaker fn context_validator policy now sleep random_fn context_data w)
          (execute_result now AcceptedResult
            (with_retry fn context_validator policy now sleep random_fn context_data)
            with_retry-Accepted (λ key left. tt) w)))
    where
      accepted : (fn ≡ none) ⊎ Accepted context_validator next → Accepted context_validator next
      accepted (inl e) = absurd (some_fn e)
      accepted (inr a) = a
