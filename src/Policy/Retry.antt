-- ===== src/Policy/Retry.antt =====
-- `isRetryableByDefault` and `runWithRetryPolicy` of sdks/typescript/src/policy/retry.ts.
--
-- The operation and `clock.sleep` change a state `S`; `random_fn k` is the draw made for the k-th
-- delay. The `for` loop recurs on the rounds that it has left.
pub mod Trace
use dfsm.Prelude.{
  ℕ, zero, suc, max, Bool, true, false, ◌&&◌, ◌||◌, not, Option, none, some, ltb, if◌then◌else◌,
}
use dfsm.Errors.{
  Thrown, primitive, is_validation_error, is_circuit_open_error, is_object, Raised, raised, Result,
  ok, threw, Exec,
}
use dfsm.Policy.{Ratio, NormalizedRetryPolicy}
use dfsm.Policy.Backoff.{compute_backoff_delay_ms}

abbrev is_retryable_by_default : Thrown → Bool
is_retryable_by_default e =
    if is_validation_error e then false else if is_circuit_open_error e then false else true

abbrev pub max_attempts_of : NormalizedRetryPolicy → ℕ
max_attempts_of policy = max 1 policy.max_attempts

-- `policy.retryIf ? policy.retryIf(err) : true`
abbrev retry_if_allows : Option (Thrown → Bool) → Thrown → Bool
retry_if_allows none e = true
retry_if_allows (some f) e = f e

abbrev pub can_retry : NormalizedRetryPolicy → ℕ → Thrown → Bool
can_retry policy attempt e =
    ltb attempt (max_attempts_of policy)
    && (is_retryable_by_default e && retry_if_allows policy.retry_if e)

-- `err.__dfsmAttempts = attempt`, where `err` is an object
abbrev pub note_attempts : ℕ → Raised → Raised
note_attempts n e = if is_object e.cause then record e { attempts = some n } else e

-- the delay after a failed attempt
abbrev pub pause {ℓ} : {S : Type ℓ} → (ℕ → S → S) → (ℕ → Ratio) → NormalizedRetryPolicy → ℕ → S → S
pause sleep random_fn policy attempt s =
    let delay_ms = compute_backoff_delay_ms attempt policy.backoff (random_fn attempt) in
    if ltb 0 delay_ms then sleep delay_ms s else s

module _ {S A : Type 0} (sleep : ℕ → S → S) (random_fn : ℕ → Ratio) (policy : NormalizedRetryPolicy)
    (operation : ℕ → Exec S A) where
  -- what one round of the loop does with the outcome of the operation
  abbrev pub after_attempt : (Raised → Exec S (A × ℕ)) → ℕ → Result A × S → Result (A × ℕ) × S
  after_attempt again attempt (ok a, s) = (ok (a, attempt), s)
  after_attempt again attempt (threw e, s) =
      if can_retry policy attempt e.cause
      then again e (pause sleep random_fn policy attempt s)
      else (threw (note_attempts attempt e), s)

  -- the loop; after its last round comes `throw lastError`
  pub retry_loop : ℕ → ℕ → Raised → Exec S (A × ℕ)
  retry_loop zero attempt last_error s = (threw last_error, s)
  retry_loop (suc rounds) attempt last_error s =
      after_attempt (retry_loop rounds (suc attempt)) attempt (operation attempt s)

  unfoldable pub run_with_retry_policy : Exec S (A × ℕ)
  unfolding retry_loop
  run_with_retry_policy s = retry_loop (max_attempts_of policy) 1 (raised (primitive "undefined")) s
