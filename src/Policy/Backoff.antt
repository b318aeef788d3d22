-- ===== src/Policy/Backoff.antt =====
-- `computeBackoffDelayMs` of sdks/typescript/src/policy/retry.ts.
--
-- JavaScript's numbers are read as fractions without rounding error: `raw` is a `Ratio`, and
-- `Math.round` takes it to the nearest natural number, halves upwards. The draw of `randomFn` is a
-- `Ratio` too. A delay of the policy is a natural number, so `<= 0` is a test for 0.
pub mod Bounds
use dfsm.Prelude.{ℕ, ◌+◌, ◌-◌, ◌*◌, ◌/◌, ◌^◌, Bool, ◌||◌, min, max, leb, eqb, if◌then◌else◌}
use dfsm.Policy.{
  Ratio, BackoffStrategy, fixed, linear, exponential, exponential_jitter, NormalizedBackoffPolicy,
}

-- `Math.round`
abbrev pub round : Ratio → ℕ
round r = (2 * r.num + r.den) / (2 * r.den)

-- `initialDelayMs * Math.pow(multiplier, Math.max(0, retryIndex - 1))`
abbrev exponential_raw : ℕ → Ratio → ℕ → Ratio
exponential_raw initial m retry_index = record {
  num = initial * m.num ^ (retry_index - 1);
  den = m.den ^ (retry_index - 1);
}

-- `Math.min(maxDelayMs, r)`
abbrev pub min_ratio : ℕ → Ratio → Ratio
min_ratio max_delay r =
    if leb (max_delay * r.den) r.num then record { num = max_delay; den = 1 } else r

-- `c * (0.5 + 0.5 * draw)`
abbrev pub jittered : Ratio → Ratio → Ratio
jittered c draw = record { num = c.num * (draw.den + draw.num); den = c.den * (2 * draw.den) }

abbrev raw_delay : BackoffStrategy → ℕ → NormalizedBackoffPolicy → Ratio → Ratio
raw_delay fixed i b draw = record { num = b.initial_delay_ms; den = 1 }
raw_delay linear i b draw = record { num = b.initial_delay_ms * i; den = 1 }
raw_delay exponential i b draw = exponential_raw b.initial_delay_ms b.multiplier i
raw_delay exponential_jitter i b draw =
    jittered (min_ratio b.max_delay_ms (exponential_raw b.initial_delay_ms b.multiplier i)) draw

unfoldable pub compute_backoff_delay_ms : ℕ → NormalizedBackoffPolicy → Ratio → ℕ
compute_backoff_delay_ms retry_index backoff draw =
    if eqb backoff.initial_delay_ms 0 || eqb backoff.max_delay_ms 0
    then 0
    else min backoff.max_delay_ms (round (raw_delay backoff.strategy retry_index backoff draw))
