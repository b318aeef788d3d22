-- ===== src/Policy/Merger.antt =====
-- sdks/typescript/src/policy/merger.ts: the four policy layers merged leaf by leaf.
--
-- The loop over the layers is a fold of `apply_layer`, whose parts are the `if` blocks of its body.
pub mod Precedence
use dfsm.Prelude.{ℕ, String, Bool, true, false, Option, none, some, List, [], ◌∷◌}
use dfsm.Policy.{
  Ratio, exponential, PartialBackoffPolicy, NormalizedBackoffPolicy, PartialRetryPolicy,
  NormalizedRetryPolicy, PartialCircuitBreakerPolicy, NormalizedCircuitBreakerPolicy,
  PartialOnFailPolicy, NormalizedOnFailPolicy, PartialBenchmarkPolicy, NormalizedBenchmarkPolicy,
  PartialTransitionPolicy, NormalizedTransitionPolicy,
}

-- `SDK_DEFAULT_POLICY`, its breaker with the key given
abbrev pub sdk_default_policy : String → NormalizedTransitionPolicy
sdk_default_policy key = record {
  retry = record {
    max_attempts = 1;
    backoff = record {
      strategy = exponential;
      initial_delay_ms = 100;
      max_delay_ms = 5000;
      multiplier = record { num = 2; den = 1 };
    };
    retry_if = none;
  };
  circuit_breaker = record {
    enabled = false;
    key = key;
    failure_threshold = 5;
    sliding_window_size = 10;
    open_duration_ms = 30000;
    half_open_max_calls = 1;
  };
  on_fail = record { compensate = false; target = "error" };
  benchmark = record { enabled = true };
  compensate_handler = none;
}

pub record PolicyMergeInputs : Type 0 where
  pub default_breaker_key : String
  pub global_defaults : Option PartialTransitionPolicy
  pub machine_defaults : Option PartialTransitionPolicy
  pub transition_policy : Option PartialTransitionPolicy
  pub decorator_policy : Option PartialTransitionPolicy

-- `if (field !== undefined) x = field`
abbrev pub assign {ℓ} : {A : Type ℓ} → Option A → A → A
assign none x = x
assign (some y) x = y

abbrev pub assign_some {ℓ} : {A : Type ℓ} → Option A → Option A → Option A
assign_some none x = x
assign_some (some y) x = some y

apply_backoff : Option PartialBackoffPolicy → NormalizedBackoffPolicy → NormalizedBackoffPolicy
apply_backoff none b = b
apply_backoff (some l) b = record {
  strategy = assign l.strategy b.strategy;
  initial_delay_ms = assign l.initial_delay_ms b.initial_delay_ms;
  max_delay_ms = assign l.max_delay_ms b.max_delay_ms;
  multiplier = assign l.multiplier b.multiplier;
}

apply_retry : Option PartialRetryPolicy → NormalizedRetryPolicy → NormalizedRetryPolicy
apply_retry none r = r
apply_retry (some l) r = record {
  max_attempts = assign l.max_attempts r.max_attempts;
  backoff = apply_backoff l.backoff r.backoff;
  retry_if = assign_some l.retry_if r.retry_if;
}

apply_circuit_breaker :
    Option PartialCircuitBreakerPolicy
    → NormalizedCircuitBreakerPolicy
    → NormalizedCircuitBreakerPolicy
apply_circuit_breaker none c = c
apply_circuit_breaker (some l) c = record {
  enabled = assign l.enabled c.enabled;
  key = assign l.key c.key;
  failure_threshold = assign l.failure_threshold c.failure_threshold;
  sliding_window_size = assign l.sliding_window_size c.sliding_window_size;
  open_duration_ms = assign l.open_duration_ms c.open_duration_ms;
  half_open_max_calls = assign l.half_open_max_calls c.half_open_max_calls;
}

apply_on_fail : Option PartialOnFailPolicy → NormalizedOnFailPolicy → NormalizedOnFailPolicy
apply_on_fail none f = f
apply_on_fail (some l) f = record {
  compensate = assign l.compensate f.compensate;
  target = assign l.target f.target;
}

apply_benchmark :
    Option PartialBenchmarkPolicy → NormalizedBenchmarkPolicy → NormalizedBenchmarkPolicy
apply_benchmark none b = b
apply_benchmark (some l) b = record { enabled = assign l.enabled b.enabled }

-- the body of `for (const layer of layers)`
apply_layer :
    Option PartialTransitionPolicy → NormalizedTransitionPolicy → NormalizedTransitionPolicy
unfolding apply_backoff apply_retry apply_circuit_breaker apply_on_fail apply_benchmark
apply_layer none p = p
apply_layer (some l) p = record {
  retry = apply_retry l.retry p.retry;
  circuit_breaker = apply_circuit_breaker l.circuit_breaker p.circuit_breaker;
  on_fail = apply_on_fail l.on_fail p.on_fail;
  benchmark = apply_benchmark l.benchmark p.benchmark;
  compensate_handler = assign_some l.compensate_handler p.compensate_handler;
}

apply_layers :
    List (Option PartialTransitionPolicy) → NormalizedTransitionPolicy → NormalizedTransitionPolicy
unfolding apply_layer
apply_layers [] p = p
apply_layers (l ∷ ls) p = apply_layers ls (apply_layer l p)

unfoldable pub normalize_transition_policy : PolicyMergeInputs → NormalizedTransitionPolicy
unfolding apply_layers
normalize_transition_policy inputs =
    apply_layers
      (inputs.global_defaults ∷ inputs.machine_defaults ∷ inputs.transition_policy
        ∷ inputs.decorator_policy ∷ [])
      (sdk_default_policy inputs.default_breaker_key)
