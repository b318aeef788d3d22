-- ===== src/Examples/Retries.antt =====
-- Runs of the backoff, of the retry loop (policy/retry.ts) and of the pipeline
-- (policy/pipeline.ts).
use dfsm.Prelude.{
  ℕ, suc, ◌+◌, ◌≡◌, ◌≤◌, ◌*◌, refl, true, Option, none, some, [], arith, ltb, if◌then◌else◌,
}
use dfsm.Errors.{error, raised, ok, threw, Exec}
use dfsm.Validation.{success, failure, SchemaValidator}
use dfsm.Policy.{
  Ratio, fixed, linear, exponential, exponential_jitter, NormalizedRetryPolicy,
  NormalizedTransitionPolicy,
}
use dfsm.Policy.Backoff.{compute_backoff_delay_ms}
use dfsm.Policy.Backoff.Bounds.{whole_policy, jitter_bounds, delay_mono}
use dfsm.Policy.Retry.{run_with_retry_policy}
use dfsm.Policy.Retry.Trace.{Decided, run_with_retry_policy-Decided}
use dfsm.Policy.Breaker.{Breaker, new_breaker}
use dfsm.Policy.Pipeline.{TransitionOutput, empty_output, done, attempts_of, pipeline}
use dfsm.Policy.Pipeline.Outcomes.{pipeline_attempts, pipeline_validated}

-- the draw 1/4
abbrev quarter : Ratio
quarter = record { num = 1; den = 4 }

jitter_bounds_example :
    (compute_backoff_delay_ms 3 (whole_policy exponential 100 5000 2) quarter
      ≤ 2 * compute_backoff_delay_ms 3 (whole_policy exponential_jitter 100 5000 2) quarter)
    × (compute_backoff_delay_ms 3 (whole_policy exponential_jitter 100 5000 2) quarter
        ≤ compute_backoff_delay_ms 3 (whole_policy exponential 100 5000 2) quarter)
jitter_bounds_example = jitter_bounds 3 100 5000 2 quarter (omega arith) (omega arith)

delay_mono_example :
    (compute_backoff_delay_ms 2 (whole_policy linear 100 250 1) quarter
      ≤ compute_backoff_delay_ms 3 (whole_policy linear 100 250 1) quarter)
    × (compute_backoff_delay_ms 3 (whole_policy linear 100 250 1) quarter ≤ 250)
delay_mono_example = delay_mono linear 2 3 100 250 1 quarter (λ e. cc e) (omega arith) (omega arith)

abbrev retry : NormalizedRetryPolicy
retry = record { max_attempts = 3; backoff = whole_policy fixed 10 100 1; retry_if = none }

abbrev wait : ℕ → ℕ → ℕ
wait ms s = ms + s

abbrev draws : ℕ → Ratio
draws k = quarter

-- It fails once.
abbrev flaky : ℕ → Exec ℕ ℕ
flaky k s = if ltb k 2 then (threw (raised (error "busy")), suc s) else (ok k, suc s)

run_with_retry_policy-Decided_example :
    Decided wait draws retry flaky 0 (run_with_retry_policy wait draws retry flaky 0)
run_with_retry_policy-Decided_example = run_with_retry_policy-Decided wait draws retry flaky 0

flaky_test : run_with_retry_policy wait draws retry flaky 0 ≡ (ok (2, 2), 12)
unfolding run_with_retry_policy compute_backoff_delay_ms
flaky_test = refl

abbrev transition_policy : NormalizedTransitionPolicy
transition_policy = record {
  retry = retry;
  circuit_breaker = record {
    enabled = true;
    key = "pay";
    failure_threshold = 2;
    sliding_window_size = 3;
    open_duration_ms = 100;
    half_open_max_calls = 1;
  };
  on_fail = record { compensate = true; target = "error" };
  benchmark = record { enabled = true };
  compensate_handler = none;
}

abbrev clock : ℕ → ℕ
clock s = s

abbrev wait_beside : ℕ → Breaker × ℕ → Breaker × ℕ
wait_beside ms (b, s) = (b, ms + s)

-- A context is a number of at most 9.
abbrev small : SchemaValidator ℕ ℕ
small n = if ltb n 10 then success n else failure []

-- It fails once, and then adds 1 to the context.
abbrev pay : ℕ → ℕ → Exec ℕ (Option (TransitionOutput ℕ ℕ) × ℕ)
pay k c s = if ltb k 2 then (threw (raised (error "busy")), suc s) else (ok (none, suc c), suc s)

abbrev start : Breaker × ℕ
start = (new_breaker transition_policy.circuit_breaker, 0)

pipeline_attempts_example :
    (1
      ≤ attempts_of
          (pipeline {O = ℕ}
            (some pay)
            (some small)
            transition_policy
            clock
            wait_beside
            draws
            4
            start).0)
    × (attempts_of
          (pipeline {O = ℕ}
            (some pay)
            (some small)
            transition_policy
            clock
            wait_beside
            draws
            4
            start).0
        ≤ 3)
pipeline_attempts_example =
    pipeline_attempts (some pay) (some small) transition_policy clock wait_beside draws 4 start

pay_done :
    (pipeline {O = ℕ} (some pay) (some small) transition_policy clock wait_beside draws 4 start).0
    ≡ done empty_output 5 2
unfolding pipeline
pay_done = refl

pipeline_validated_example : (value : ℕ) × (small value ≡ success 5)
pipeline_validated_example =
    pipeline_validated (some pay) (some small) transition_policy clock wait_beside draws 4 start
      empty_output 5 2 (λ e. cc e) pay_done
