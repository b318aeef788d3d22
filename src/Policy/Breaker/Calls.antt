-- ===== src/Policy/Breaker/Calls.antt =====
-- What a caller of `execute` (policy/circuit-breaker.ts) sees, by the state of the breaker.
use dfsm.Prelude.{
  ℕ, String, if_both, zero, suc, [], inl, inr, ◌+◌, ◌-◌, ◌≤◌, ◌<◌, ◌≡◌, refl, ◌⊎◌, true, false,
  arith,
}
use dfsm.Errors.{circuit_open_error, is_validation_error, Raised, raised, Result, ok, threw, Exec}
use dfsm.Policy.Breaker.{
  closed, opened, half_open, Breaker, new_breaker, trip_open, execute, Admission, rejected,
  admitted, admit, enter,
}

-- A breaker at a time that lets a call through, with the breaker that the call leaves if it counts
-- neither for nor against the circuit: a disabled or a closed breaker, and a half-open one with a
-- probe to spare, are left as they were; an open one whose `openDurationMs` has passed, and that
-- admits probes, is left half open and without a probe.
pub data LetIn (at : ℕ) (b : Breaker) : Breaker → Type 0 where
  disabled : b.policy.enabled ≡ false → LetIn at b b
  stays_closed : b.status ≡ closed → LetIn at b b
  has_room :
      b.status ≡ half_open → b.half_open_in_flight < b.policy.half_open_max_calls → LetIn at b b
  half_opens :
      b.policy.enabled ≡ true
      → b.status ≡ opened
      → b.opened_at + b.policy.open_duration_ms ≤ at
      → 0 < b.policy.half_open_max_calls
      → LetIn at b
          (record b { status = half_open; half_open_in_flight = 0; half_open_successes = 0 })

-- A breaker at a time for which the next call is a probe.
abbrev Probes : ℕ → Breaker → Type 0
Probes at b =
    ((b.status ≡ half_open) × (b.half_open_in_flight < b.policy.half_open_max_calls))
    ⊎ ((b.status ≡ opened)
        × (b.opened_at + b.policy.open_duration_ms ≤ at)
        × (0 < b.policy.half_open_max_calls))

module _ {S A : Type 0} (now : S → ℕ) where
  -- Before `openDurationMs` has passed, an enabled open breaker fails every call with the time that
  -- is left, without calling the function and without changing any state.
  pub open_rejects :
      (fn : Exec (Breaker × S) A) (b : Breaker) (s : S)
      → b.policy.enabled ≡ true
      → b.status ≡ opened
      → now s < b.opened_at + b.policy.open_duration_ms
      → execute now fn (b, s) ≡ (
        threw (
            raised
              (circuit_open_error b.policy.key (b.opened_at + b.policy.open_duration_ms - now s))),
        (b, s),
      )
  unfolding execute
  open_rejects fn b s enabled is_open early = ground arith

  -- A call whose function fails validation, and changes no breaker, leaves the breaker as it was,
  -- wherever the call is let through, but for the end of an open breaker's wait: such an error
  -- never counts for or against the circuit, and takes no probe.
  pub invalid_is_neutral :
      (fn : Exec (Breaker × S) A) (b c : Breaker) (s s' : S) (e : Raised)
      → LetIn (now s) b c
      → is_validation_error e.cause ≡ true
      → ((c : Breaker) → fn (c, s) ≡ (threw e, (c, s')))
      → execute now fn (b, s) ≡ (threw e, (c, s'))
  unfolding execute
  invalid_is_neutral fn b c s s' e (disabled off) invalid runs = ground (arith, runs b)
  invalid_is_neutral fn b c s s' e (stays_closed is_closed) invalid runs = ground (arith, runs b)
  invalid_is_neutral fn b c s s' e (has_room half room) invalid runs =
      ground (arith, runs b, runs (record b { half_open_in_flight = suc b.half_open_in_flight }))
  invalid_is_neutral fn b c s s' e (half_opens enabled is_open late some_calls) invalid runs =
      ground (
        arith,
        runs (record b { status = half_open; half_open_in_flight = 1; half_open_successes = 0 }),
      )

  failed_probe :
      (fn : Exec (Breaker × S) A) (b : Breaker) (s s' : S) (e : Raised)
      → b.policy.enabled ≡ true
      → Probes (now s) b
      → is_validation_error e.cause ≡ false
      → ((c : Breaker) → fn (c, s) ≡ (threw e, (c, s')))
      → execute now fn (b, s) ≡ (
        threw e,
        (
          record {
            policy = b.policy;
            status = opened;
            opened_at = now s';
            outcomes_window = [];
            half_open_in_flight = 0;
            half_open_successes = 0;
          },
          s',
        ),
      )
  unfolding execute trip_open
  failed_probe fn b s s' e enabled (inl (half, room)) fails runs =
      ground (arith, runs (record b { half_open_in_flight = suc b.half_open_in_flight }))
  failed_probe fn b s s' e enabled (inr (is_open, late, some_calls)) fails runs = ground (
    arith,
    runs (record b { status = half_open; half_open_in_flight = 1; half_open_successes = 0 }),
  )

  -- A probe of an enabled breaker, half open with a probe to spare or open with its wait over,
  -- whose function changes no breaker and fails with no validation error, passes the error on and
  -- opens the breaker again: every later call of any function within `openDurationMs` of the time
  -- at which the probe failed is refused with the time that is left, and is not run.
  pub failed_probe_reopens :
      (fn gn : Exec (Breaker × S) A) (b : Breaker) (s s' later : S) (e : Raised)
      → b.policy.enabled ≡ true
      → Probes (now s) b
      → is_validation_error e.cause ≡ false
      → ((c : Breaker) → fn (c, s) ≡ (threw e, (c, s')))
      → now later < now s' + b.policy.open_duration_ms
      → let r = execute now fn (b, s) in
        (r.0 ≡ threw e)
        × (r.1.1 ≡ s')
        × (execute now gn (r.1.0, later) ≡ (
          threw (
              raised
                (circuit_open_error b.policy.key (now s' + b.policy.open_duration_ms - now later))),
          (r.1.0, later),
        ))
  failed_probe_reopens fn gn b s s' later e enabled probes fails runs early =
      let opens = failed_probe fn b s s' e enabled probes fails runs in
      rw opens (refl, refl, open_rejects gn _ later enabled refl early)

  -- `k` calls, one after the other, of a function that returns `a` and changes nothing.
  pub calls : ℕ → A → Breaker × S → Breaker × S
  calls zero a w = w
  calls (suc k) a w = calls k a (execute now (λ v. (ok a, v)) w).1

  last_probe :
      (a : A) (b : Breaker) (s : S)
      → b.policy.enabled ≡ true
      → b.status ≡ half_open
      → b.half_open_in_flight ≡ 0
      → b.half_open_successes + 1 ≡ b.policy.half_open_max_calls
      → execute now (λ v. (ok a, v)) (b, s) ≡ (ok a, (new_breaker b.policy, s))
  unfolding execute
  last_probe a b s enabled half idle count = ground arith

  earlier_probe :
      (a : A) (b : Breaker) (s : S)
      → b.policy.enabled ≡ true
      → b.status ≡ half_open
      → b.half_open_in_flight ≡ 0
      → b.half_open_successes + 1 < b.policy.half_open_max_calls
      → execute now (λ v. (ok a, v)) (b, s)
        ≡ (ok a, (record b { half_open_successes = suc b.half_open_successes }, s))
  unfolding execute
  earlier_probe a b s enabled half idle count = ground arith

  half_open_calls :
      (k : ℕ) (a : A) (b : Breaker) (s : S)
      → b.policy.enabled ≡ true
      → b.status ≡ half_open
      → b.half_open_in_flight ≡ 0
      → b.half_open_successes + suc k ≡ b.policy.half_open_max_calls
      → calls (suc k) a (b, s) ≡ (new_breaker b.policy, s)
  unfolding calls
  half_open_calls zero a b s enabled half idle count =
      rw (last_probe a b s enabled half idle (omega arith), calls)
  half_open_calls (suc k) a b s enabled half idle count =
      rw (earlier_probe a b s enabled half idle (omega arith), calls)
        (half_open_calls k a (record b { half_open_successes = suc b.half_open_successes }) s
          enabled half idle (omega arith))

  -- A late call of an open breaker is a call of the half-open breaker.
  late_call :
      (a : A) (b : Breaker) (s : S)
      → b.policy.enabled ≡ true
      → b.status ≡ opened
      → b.opened_at + b.policy.open_duration_ms ≤ now s
      → execute now (λ v. (ok a, v)) (b, s)
        ≡ execute now
            (λ v. (ok a, v))
            (record b { status = half_open; half_open_in_flight = 0; half_open_successes = 0 }, s)
  unfolding execute
  late_call a b s enabled is_open late = ground arith

  late_calls :
      (m : ℕ) (a : A) (b : Breaker) (s : S)
      → b.policy.enabled ≡ true
      → b.status ≡ opened
      → b.opened_at + b.policy.open_duration_ms ≤ now s
      → 0 < m
      → m ≡ b.policy.half_open_max_calls
      → calls m a (b, s) ≡ (new_breaker b.policy, s)
  unfolding calls
  late_calls zero a b s enabled is_open late some_calls count = elim some_calls [ ]
  late_calls (suc k) a b s enabled is_open late some_calls count =
      rw (late_call a b s enabled is_open late, calls)
        (half_open_calls k a
          (record b { status = half_open; half_open_in_flight = 0; half_open_successes = 0 }) s
          enabled refl refl (omega arith))

  -- Once `openDurationMs` has passed, `halfOpenMaxCalls` successful calls one after the other, if
  -- that is positive, take an enabled open breaker to the state of a new one with its policy.
  pub recovers :
      (a : A) (b : Breaker) (s : S)
      → b.policy.enabled ≡ true
      → b.status ≡ opened
      → b.opened_at + b.policy.open_duration_ms ≤ now s
      → 0 < b.policy.half_open_max_calls
      → calls b.policy.half_open_max_calls a (b, s) ≡ (new_breaker b.policy, s)
  recovers a b s enabled is_open late some_calls =
      late_calls b.policy.half_open_max_calls a b s enabled is_open late some_calls refl

  -- The result of a call is the function's, or the breaker's refusal.
  pub execute_result :
      (P : Result A → Type 0) (fn : Exec (Breaker × S) A)
      → ((w : Breaker × S) → P (fn w).0)
      → ((key : String) (left : ℕ) → P (threw (raised (circuit_open_error key left))))
      → (w : Breaker × S) → P (execute now fn w).0
  unfolding execute
  execute_result P fn of_fn of_refusal (b, s) =
      if_both (λ (r : Result A × (Breaker × S)). P r.0) b.policy.enabled (entered (admit (now s) b))
        (of_fn (b, s))
    where
      entered : (x : Admission × Breaker) → P (enter now fn x s).0
      entered (admitted, c) = of_fn (c, s)
      entered (rejected key left, c) = of_refusal key left
