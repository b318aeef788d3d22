-- ===== src/Policy.antt =====
-- sdks/typescript/src/types.ts: the policies, partial as the user writes them and normalized.
--
-- Times and counts are natural numbers; a backoff multiplier is a fraction. `retryIf` is a test.
pub mod Merger
pub mod Backoff
pub mod Retry
pub mod Breaker
pub mod Pipeline
use dfsm.Prelude.{ℕ, String, Bool, Option}
use dfsm.Errors.{Thrown}

pub data BackoffStrategy : Type 0 where
  fixed linear exponential exponential_jitter : BackoffStrategy

pub record Ratio : Type 0 where
  pub num : ℕ
  pub den : ℕ

pub record PartialBackoffPolicy : Type 0 where
  pub strategy : Option BackoffStrategy
  pub initial_delay_ms : Option ℕ
  pub max_delay_ms : Option ℕ
  pub multiplier : Option Ratio

pub record NormalizedBackoffPolicy : Type 0 where
  pub strategy : BackoffStrategy
  pub initial_delay_ms : ℕ
  pub max_delay_ms : ℕ
  pub multiplier : Ratio

pub record PartialRetryPolicy : Type 0 where
  pub max_attempts : Option ℕ
  pub backoff : Option PartialBackoffPolicy
  pub retry_if : Option (Thrown → Bool)

pub record NormalizedRetryPolicy : Type 0 where
  pub max_attempts : ℕ
  pub backoff : NormalizedBackoffPolicy
  pub retry_if : Option (Thrown → Bool)

pub record PartialCircuitBreakerPolicy : Type 0 where
  pub enabled : Option Bool
  pub key : Option String
  pub failure_threshold : Option ℕ
  pub sliding_window_size : Option ℕ
  pub open_duration_ms : Option ℕ
  pub half_open_max_calls : Option ℕ

pub record NormalizedCircuitBreakerPolicy : Type 0 where
  pub enabled : Bool
  pub key : String
  pub failure_threshold : ℕ
  pub sliding_window_size : ℕ
  pub open_duration_ms : ℕ
  pub half_open_max_calls : ℕ

pub record PartialOnFailPolicy : Type 0 where
  pub compensate : Option Bool
  pub target : Option String

pub record NormalizedOnFailPolicy : Type 0 where
  pub compensate : Bool
  pub target : String

pub record PartialBenchmarkPolicy : Type 0 where
  pub enabled : Option Bool

pub record NormalizedBenchmarkPolicy : Type 0 where
  pub enabled : Bool

pub record PartialTransitionPolicy : Type 0 where
  pub retry : Option PartialRetryPolicy
  pub circuit_breaker : Option PartialCircuitBreakerPolicy
  pub on_fail : Option PartialOnFailPolicy
  pub benchmark : Option PartialBenchmarkPolicy
  pub compensate_handler : Option String

pub record NormalizedTransitionPolicy : Type 0 where
  pub retry : NormalizedRetryPolicy
  pub circuit_breaker : NormalizedCircuitBreakerPolicy
  pub on_fail : NormalizedOnFailPolicy
  pub benchmark : NormalizedBenchmarkPolicy
  pub compensate_handler : Option String
