-- ===== src/Examples/Breakers.antt =====
-- Runs of the circuit breaker (policy/circuit-breaker.ts) and of the policy merger
-- (policy/merger.ts).
use dfsm.Prelude.{
  ◌+◌, ◌-◌, ℕ, ◌≡◌, refl, inr, true, false, Option, none, some, List, [], ◌∷◌, arith,
}
use dfsm.Prelude.Dict.{get}
use dfsm.Errors.{validation_error, input, error, circuit_open_error, raised, threw, Exec}
use dfsm.Policy.{fixed, PartialRetryPolicy, PartialTransitionPolicy, NormalizedCircuitBreakerPolicy}
use dfsm.Policy.Merger.{PolicyMergeInputs, normalize_transition_policy}
use dfsm.Policy.Merger.Precedence.{normalize_leaf_by_leaf}
use dfsm.Policy.Breaker.{
  CircuitStatus, closed, opened, half_open, Breaker, new_breaker, shift_to, push_outcome,
  on_success, on_failure, trip_open, execute,
}
use dfsm.Policy.Breaker.Invariant.{
  IsSound, BreakerEvent, call, succeeds, fails, is_invalid, polled, steps, interleaving-IsSound,
}
use dfsm.Policy.Breaker.Window.{all_settled, closed-window}
use dfsm.Policy.Breaker.Calls.{
  half_opens, open_rejects, invalid_is_neutral, failed_probe_reopens, calls, recovers,
}
use dfsm.Policy.Breaker.Manager.{
  Breakers, get_or_create, breaker_status, reset_breakers, get_or_create_shares, reset_closes,
}

abbrev policy : NormalizedCircuitBreakerPolicy
policy = record {
  enabled = true;
  key = "pay";
  failure_threshold = 2;
  sliding_window_size = 3;
  open_duration_ms = 100;
  half_open_max_calls = 2;
}

abbrev breaker : CircuitStatus → Breaker
breaker status = record {
  policy = policy;
  status = status;
  opened_at = 50;
  outcomes_window = [];
  half_open_in_flight = 0;
  half_open_successes = 0;
}

abbrev clock : ℕ → ℕ
clock s = s

abbrev failing : Exec (Breaker × ℕ) ℕ
failing (b, s) = (threw (raised (error "down")), (b, 170))

abbrev misused : Exec (Breaker × ℕ) ℕ
misused (b, s) = (threw (raised (validation_error input [])), (b, 170))

open_rejects_example :
    execute clock failing (breaker opened, 60)
    ≡ (threw (raised (circuit_open_error "pay" 90)), (breaker opened, 60))
open_rejects_example = open_rejects clock failing (breaker opened) 60 refl refl (omega arith)

invalid_is_neutral_example :
    execute clock misused (breaker opened, 160)
    ≡ (threw (raised (validation_error input [])), (breaker half_open, 170))
invalid_is_neutral_example =
    invalid_is_neutral clock misused (breaker opened) (breaker half_open) 160 170
      (raised (validation_error input [])) (half_opens refl refl (omega arith) (omega arith)) refl
      (λ c. refl)

failed_probe_reopens_example :
    let r = execute clock failing (breaker opened, 160) in
    (r.0 ≡ threw (raised (error "down")))
    × (r.1.1 ≡ 170)
    × (execute clock failing (r.1.0, 200)
        ≡ (threw (raised (circuit_open_error "pay" (170 + 100 - 200))), (r.1.0, 200)))
failed_probe_reopens_example =
    failed_probe_reopens clock failing failing (breaker opened) 160 170 200 (raised (error "down"))
      refl (inr (refl, omega arith, omega arith)) refl (λ c. refl) (omega arith)

recovers_example : calls {A = ℕ} clock 2 7 (breaker opened, 150) ≡ (new_breaker policy, 150)
recovers_example = recovers clock 7 (breaker opened) 150 refl refl (omega arith) (omega arith)

abbrev events : List BreakerEvent
events = call 1 ∷ call 2 ∷ fails 3 ∷ fails 4 ∷ polled 104 ∷ call 105 ∷ is_invalid ∷ succeeds ∷ []

interleaving-IsSound_example : IsSound (steps events (new_breaker policy))
interleaving-IsSound_example = interleaving-IsSound policy events

closed-window_example :
    ((all_settled 9 (false ∷ true ∷ true ∷ true ∷ []) (new_breaker policy)).outcomes_window
      ≡ true ∷ true ∷ true ∷ [])
    × ((on_failure 9 (all_settled 9 (false ∷ true ∷ true ∷ true ∷ []) (new_breaker policy))).status
        ≡ closed)
unfolding on_success on_failure push_outcome shift_to trip_open
closed-window_example = closed-window policy 9 (false ∷ true ∷ true ∷ true ∷ []) refl

abbrev shared : Breakers
shared = ("pay", breaker opened) ∷ ("mail", breaker closed) ∷ []

get_or_create_shares_example :
    ((get_or_create policy shared).0.policy ≡ policy)
    × (get "mail" (get_or_create policy shared).1 ≡ some (breaker closed))
    × ((c : Breaker)
        → get "pay" shared ≡ some c
        → ((get_or_create policy shared).0.status ≡ c.status)
          × ((get_or_create policy shared).0.outcomes_window ≡ c.outcomes_window))
get_or_create_shares_example = get_or_create_shares policy shared "mail"

reset_closes_example : (breaker_status "pay" 60 (reset_breakers (some "pay") shared)).0 ≡ closed
reset_closes_example = reset_closes "pay" (some "pay") 60 shared (inr refl)

abbrev no_policy : PartialTransitionPolicy
no_policy = record {
  retry = none;
  circuit_breaker = none;
  on_fail = none;
  benchmark = none;
  compensate_handler = none;
}

abbrev backoff : Option ℕ → PartialRetryPolicy
backoff delay = record {
  max_attempts = none;
  backoff = some (record {
    strategy = some fixed;
    initial_delay_ms = delay;
    max_delay_ms = none;
    multiplier = none;
  });
  retry_if = none;
}

-- The decorator gives a delay, the machine a number of attempts and a target.
abbrev layers : PolicyMergeInputs
layers = record {
  default_breaker_key = "order:pay";
  global_defaults = none;
  machine_defaults = some (record no_policy {
    retry = some (record { max_attempts = some 3; backoff = none; retry_if = none });
    on_fail = some (record { compensate = none; target = some "refund" });
  });
  transition_policy = some (record no_policy { retry = some (backoff none) });
  decorator_policy = some (record no_policy { retry = some (backoff (some 20)) });
}

normalize_leaf_by_leaf_example : normalize_transition_policy layers ≡ record {
  retry = record {
    max_attempts = 3;
    backoff = record {
      strategy = fixed;
      initial_delay_ms = 20;
      max_delay_ms = 5000;
      multiplier = record { num = 2; den = 1 };
    };
    retry_if = none;
  };
  circuit_breaker = record {
    enabled = false;
    key = "order:pay";
    failure_threshold = 5;
    sliding_window_size = 10;
    open_duration_ms = 30000;
    half_open_max_calls = 1;
  };
  on_fail = record { compensate = false; target = "refund" };
  benchmark = record { enabled = true };
  compensate_handler = none;
}
normalize_leaf_by_leaf_example = normalize_leaf_by_leaf layers
