-- ===== src/Policy/Breaker.antt =====
-- sdks/typescript/src/policy/circuit-breaker.ts: one circuit breaker, and the manager of all.
--
-- The time of `clock.now()` is an argument. An interval test `now - openedAt >= d` is written
-- `openedAt + d ≤ now`. A call of `execute` is a stretch before the awaited function, the function,
-- and a stretch after it; in one stretch every read of the clock gives the same time.
-- `getOrCreate` updates a breaker only with a policy of its own key, so its `key` is the policy's.
pub mod Invariant
pub mod Window
pub mod Calls
pub mod Manager
use dfsm.Prelude.{
  ℕ, zero, suc, ◌+◌, ◌-◌, String, Bool, true, false, not, List, [], ◌∷◌, ◌++◌, ltb, leb, length,
  filter, if◌then◌else◌,
}
use dfsm.Errors.{
  Thrown, circuit_open_error, is_validation_error, Raised, raised, Result, ok, threw, Exec,
}
use dfsm.Policy.{NormalizedCircuitBreakerPolicy}

pub data CircuitStatus : Type 0 where
  closed opened half_open : CircuitStatus

pub record Breaker : Type 0 where
  pub policy : NormalizedCircuitBreakerPolicy
  pub status : CircuitStatus
  pub opened_at : ℕ
  pub outcomes_window : List Bool
  pub half_open_in_flight : ℕ
  pub half_open_successes : ℕ

-- the constructor
abbrev pub new_breaker : NormalizedCircuitBreakerPolicy → Breaker
new_breaker policy = record {
  policy = policy;
  status = closed;
  opened_at = 0;
  outcomes_window = [];
  half_open_in_flight = 0;
  half_open_successes = 0;
}

unfoldable pub update_policy : NormalizedCircuitBreakerPolicy → Breaker → Breaker
update_policy policy b = record b { policy = policy }

unfoldable pub reset : Breaker → Breaker
reset b = record b {
  status = closed;
  opened_at = 0;
  outcomes_window = [];
  half_open_in_flight = 0;
  half_open_successes = 0;
}

-- the body of `if (this.status === "OPEN")`
abbrev open_timer : ℕ → Breaker → Breaker
open_timer now b =
    if leb (b.opened_at + b.policy.open_duration_ms) now
    then record b { status = half_open; half_open_in_flight = 0; half_open_successes = 0 }
    else b

abbrev timer_by : CircuitStatus → ℕ → Breaker → Breaker
timer_by opened now b = open_timer now b
timer_by _ now b = b

pub evaluate_timer_transition : ℕ → Breaker → Breaker
evaluate_timer_transition now b = timer_by b.status now b

unfoldable pub get_status : ℕ → Breaker → CircuitStatus × Breaker
unfolding evaluate_timer_transition
get_status now b = let b' = evaluate_timer_transition now b in (b'.status, b')

-- `while (window.length > n) window.shift()`
unfoldable pub shift_to : ℕ → List Bool → List Bool
shift_to n [] = []
shift_to n (x ∷ window) =
    let rest = shift_to n window in if ltb n (suc (length window)) then rest else x ∷ window

unfoldable pub push_outcome : Bool → Breaker → Breaker
push_outcome outcome b = record b {
  outcomes_window = shift_to b.policy.sliding_window_size (b.outcomes_window ++ outcome ∷ []);
}

unfoldable pub trip_open : ℕ → Breaker → Breaker
trip_open now b = record b {
  status = opened;
  opened_at = now;
  half_open_in_flight = 0;
  half_open_successes = 0;
  outcomes_window = [];
}

-- one more probe has succeeded
abbrev probe_success : Breaker → Breaker
probe_success b =
    let b' = record b {
      half_open_in_flight = b.half_open_in_flight - 1;
      half_open_successes = suc b.half_open_successes;
    } in
    if leb b.policy.half_open_max_calls b'.half_open_successes then reset b' else b'

abbrev success_by : CircuitStatus → Breaker → Breaker
success_by half_open b = probe_success b
success_by _ b = push_outcome true b

unfoldable pub on_success : Breaker → Breaker
unfolding push_outcome reset
on_success b = success_by b.status b

abbrev pub failures : List Bool → ℕ
failures window = length (filter not window)

-- a failure that is counted in the window
abbrev counted_failure : ℕ → Breaker → Breaker
counted_failure now b =
    let b' = push_outcome false b in
    if leb b.policy.failure_threshold (failures b'.outcomes_window) then trip_open now b' else b'

abbrev failure_by : CircuitStatus → ℕ → Breaker → Breaker
failure_by half_open now b = trip_open now b
failure_by _ now b = counted_failure now b

unfoldable pub on_failure : ℕ → Breaker → Breaker
unfolding push_outcome trip_open
on_failure now b = failure_by b.status now b

-- the branch of the `catch` for a `ValidationError`
abbrev invalid_by : CircuitStatus → Breaker → Breaker
invalid_by half_open b = record b { half_open_in_flight = b.half_open_in_flight - 1 }
invalid_by _ b = b

pub on_invalid : Breaker → Breaker
on_invalid b = invalid_by b.status b

-- What `execute` does before it awaits the function: it throws a `CircuitOpenError` with its key
-- and remaining time, or it lets the call through.
pub data Admission : Type 0 where
  rejected : String → ℕ → Admission
  admitted : Admission

abbrev admit_probe : Breaker → Admission × Breaker
admit_probe b =
    if leb b.policy.half_open_max_calls b.half_open_in_flight
    then (rejected b.policy.key b.policy.open_duration_ms, b)
    else (admitted, record b { half_open_in_flight = suc b.half_open_in_flight })

abbrev admit_by : CircuitStatus → ℕ → Breaker → Admission × Breaker
admit_by closed now b = (admitted, b)
admit_by opened now b = (rejected b.policy.key (b.opened_at + b.policy.open_duration_ms - now), b)
admit_by half_open now b = admit_probe b

unfoldable pub admit : ℕ → Breaker → Admission × Breaker
unfolding evaluate_timer_transition
admit now b = let b' = evaluate_timer_transition now b in admit_by b'.status now b'

-- What `execute` does after the function has returned or thrown.
abbrev settle {ℓ} : {A : Type ℓ} → ℕ → Result A → Breaker → Breaker
settle now (ok a) b = on_success b
settle now (threw e) b = if is_validation_error e.cause then on_invalid b else on_failure now b

module _ {S A : Type 0} (now : S → ℕ) (fn : Exec (Breaker × S) A) where
  -- after the awaited function; it runs beside other calls, which may have changed the breaker
  abbrev finish : Result A × (Breaker × S) → Result A × (Breaker × S)
  finish (r, (b, s)) = (r, (settle (now s) r b, s))

  abbrev pub enter : Admission × Breaker → S → Result A × (Breaker × S)
  enter (rejected key left, b) s = (threw (raised (circuit_open_error key left)), (b, s))
  enter (admitted, b) s = finish (fn (b, s))

  unfoldable pub execute : Exec (Breaker × S) A
  unfolding admit on_success on_failure on_invalid
  execute (b, s) = if b.policy.enabled then enter (admit (now s) b) s else fn (b, s)
