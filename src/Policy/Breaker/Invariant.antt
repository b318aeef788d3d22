-- ===== src/Policy/Breaker/Invariant.antt =====
-- What holds of a breaker (policy/circuit-breaker.ts) through any interleaving of calls.
use dfsm.Prelude.{
  ℕ, ◌≤◌, ◌<◌, ◌≡◌, Bool, true, false, List, [], ◌∷◌, ◌++◌, arith, length, length-append,
  filter-append,
}
use dfsm.Policy.{NormalizedCircuitBreakerPolicy}
use dfsm.Policy.Breaker.{
  Breaker, new_breaker, reset, evaluate_timer_transition, shift_to, on_success, failures,
  on_failure, on_invalid, admit,
}

pub record IsSound (b : Breaker) : Type 0 where
  pub window_bounded : length b.outcomes_window ≤ b.policy.sliding_window_size
  pub below_threshold :
      0 < b.policy.failure_threshold → failures b.outcomes_window < b.policy.failure_threshold
  pub probes_bounded : b.half_open_in_flight ≤ b.policy.half_open_max_calls
  pub successes_bounded :
      0 < b.policy.half_open_max_calls → b.half_open_successes < b.policy.half_open_max_calls

-- The stretches of `execute`, `getStatus` and `reset`, as they may interleave.
pub data BreakerEvent : Type 0 where
  call : ℕ → BreakerEvent
  succeeds : BreakerEvent
  fails : ℕ → BreakerEvent
  is_invalid : BreakerEvent
  polled : ℕ → BreakerEvent
  is_reset : BreakerEvent

step : BreakerEvent → Breaker → Breaker
step (call now) b = (admit now b).1
step succeeds b = on_success b
step (fails now) b = on_failure now b
step is_invalid b = on_invalid b
step (polled now) b = evaluate_timer_transition now b
step is_reset b = reset b

pub steps : List BreakerEvent → Breaker → Breaker
unfolding step
steps [] b = b
steps (e ∷ es) b = steps es (step e b)

length-shift_to : (n : ℕ) (w : List Bool) → length (shift_to n w) ≤ n
unfolding shift_to
length-shift_to n [] = omega arith
length-shift_to n (x ∷ w) = ground (arith, length-shift_to n w)

failures-shift_to : (n : ℕ) (w : List Bool) → failures (shift_to n w) ≤ failures w
unfolding shift_to
failures-shift_to n [] = omega arith
failures-shift_to n (true ∷ w) = ground (arith, failures-shift_to n w)
failures-shift_to n (false ∷ w) = ground (arith, failures-shift_to n w)

failures-push_true : (w : List Bool) → failures (w ++ true ∷ []) ≡ failures w
failures-push_true w = rw filter-append (rw length-append (omega arith))

admit-IsSound : (now : ℕ) (b : Breaker) → IsSound b → IsSound (admit now b).1
unfolding admit
admit-IsSound now b h = ground arith

on_success-IsSound : (b : Breaker) → IsSound b → IsSound (on_success b)
unfolding on_success
on_success-IsSound b h = ground (
  arith,
  length-shift_to b.policy.sliding_window_size (b.outcomes_window ++ true ∷ []),
  failures-shift_to b.policy.sliding_window_size (b.outcomes_window ++ true ∷ []),
  failures-push_true b.outcomes_window,
)

on_failure-IsSound : (now : ℕ) (b : Breaker) → IsSound b → IsSound (on_failure now b)
unfolding on_failure
on_failure-IsSound now b h =
    ground (arith, length-shift_to b.policy.sliding_window_size (b.outcomes_window ++ false ∷ []))

step-IsSound : (e : BreakerEvent) (b : Breaker) → IsSound b → IsSound (step e b)
unfolding step
step-IsSound (call now) b h = admit-IsSound now b h
step-IsSound succeeds b h = on_success-IsSound b h
step-IsSound (fails now) b h = on_failure-IsSound now b h
step-IsSound is_invalid b h = unfold on_invalid in ground arith
step-IsSound (polled now) b h = unfold evaluate_timer_transition in ground arith
step-IsSound is_reset b h = unfold reset in ground arith

steps-IsSound : (es : List BreakerEvent) (b : Breaker) → IsSound b → IsSound (steps es b)
unfolding steps
steps-IsSound [] b h = h
steps-IsSound (e ∷ es) b h = steps-IsSound es (step e b) (step-IsSound e b h)

-- Whatever calls enter, succeed, fail or are invalid, at whatever times and in whatever order, of a
-- new breaker: the window has at most `slidingWindowSize` outcomes, with fewer than
-- `failureThreshold` failures among them if that is positive; at most `halfOpenMaxCalls` probes are
-- counted in flight, and fewer than that have been counted as successes if it is positive.
pub interleaving-IsSound :
    (policy : NormalizedCircuitBreakerPolicy) (es : List BreakerEvent)
    → IsSound (steps es (new_breaker policy))
interleaving-IsSound policy es = steps-IsSound es (new_breaker policy) (ground arith)
