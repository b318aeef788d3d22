-- ===== src/Policy/Backoff/Bounds.antt =====
-- Bounds on the delays of policy/retry.ts.
use dfsm.Prelude.{
  ℕ, zero, suc, ◌≢◌, eqb, ◌||◌, ◌+◌, ◌-◌, ◌*◌, ◌/◌, ◌^◌, ◌≤◌, ◌<◌, ◌≡◌, refl, min, arith,
  if◌then◌else◌,
}
use native.Mathlib.Nat.{pow-suc, pow-le-pow_right, mul-le-mul_left}
use native.Mathlib.Decide.{dec_le}
use dfsm.Policy.{
  Ratio, BackoffStrategy, fixed, linear, exponential, exponential_jitter, NormalizedBackoffPolicy,
}
use dfsm.Policy.Backoff.{compute_backoff_delay_ms, round, min_ratio, jittered}

-- `round` of a whole number.
round_whole : (n : ℕ) → round (record { num = n; den = 1 }) ≡ n
round_whole n = omega arith

-- Half of a whole ceiling, rounded, and the ceiling itself bound a jittered delay.
round-jittered_le :
    (c : ℕ) (draw : Ratio)
    → draw.num ≤ draw.den
    → 0 < draw.den
    → round (jittered (record { num = c; den = 1 }) draw) ≤ c
round-jittered_le c draw h k = grind arith

le_div : (q m n : ℕ) → 0 < m → q * m ≤ n → q ≤ n / m
le_div q m n h k = grind arith

half_of_ceiling :
    (c d n q : ℕ) → 2 * q + 1 ≤ c → suc q * (2 * (1 * (2 * d))) ≤ 2 * (c * (d + n)) + 1 * (2 * d)
half_of_ceiling c d n q h =
    let k : ℕ = c - (2 * q + 1) in let e : c ≡ 2 * q + 1 + k = omega arith in rw e (omega arith)

le_round-jittered :
    (c : ℕ) (draw : Ratio)
    → 0 < draw.den
    → c ≤ 2 * round (jittered (record { num = c; den = 1 }) draw)
le_round-jittered c draw k =
    elim (dec_le c (2 * round (jittered (record { num = c; den = 1 }) draw))) [
      | yes h ↦ h
      | no h ↦ absurd (
          omega (
            arith,
            le_div (suc (round (jittered (record { num = c; den = 1 }) draw)))
                (2 * (1 * (2 * draw.den))) (2 * (c * (draw.den + draw.num)) + 1 * (2 * draw.den))
                (omega arith)
                (half_of_ceiling c draw.den draw.num
                  (round (jittered (record { num = c; den = 1 }) draw)) (omega arith)),
          ))
    ]

-- The two strategies at a whole multiplier, where no rounding is needed.
abbrev pub whole_policy : BackoffStrategy → ℕ → ℕ → ℕ → NormalizedBackoffPolicy
whole_policy s initial max_delay m = record {
  strategy = s;
  initial_delay_ms = initial;
  max_delay_ms = max_delay;
  multiplier = record { num = m; den = 1 };
}

one_pow : (k : ℕ) → 1 ^ k ≡ 1
one_pow zero = refl
one_pow (suc k) = rw pow-suc (omega (arith, one_pow k))

min_ratio_whole :
    (max_delay n : ℕ)
    → min_ratio max_delay (record { num = n; den = 1 }) ≡ record { num = min max_delay n; den = 1 }
min_ratio_whole max_delay n = ground arith

-- The delay before it is capped, for the strategies that draw nothing.
abbrev whole_raw : BackoffStrategy → ℕ → ℕ → ℕ → ℕ
whole_raw fixed i initial m = initial
whole_raw linear i initial m = initial * i
whole_raw _ i initial m = initial * m ^ (i - 1)

module _ (i initial max_delay m : ℕ) (draw : Ratio) where
  exponential_closed :
      compute_backoff_delay_ms i (whole_policy exponential initial max_delay m) draw
      ≡ min max_delay (initial * m ^ (i - 1))
  unfolding compute_backoff_delay_ms
  exponential_closed = rw one_pow (ground arith)

  closed :
      (s : BackoffStrategy)
      → s ≢ exponential_jitter
      → compute_backoff_delay_ms i (whole_policy s initial max_delay m) draw
        ≡ min max_delay (whole_raw s i initial m)
  unfolding compute_backoff_delay_ms
  closed fixed h = ground arith
  closed linear h = ground arith
  closed exponential h = exponential_closed
  closed exponential_jitter h = absurd (h refl)

  jitter_closed :
      compute_backoff_delay_ms i (whole_policy exponential_jitter initial max_delay m) draw ≡ (
        if eqb initial 0 || eqb max_delay 0
        then 0
        else min max_delay (
            round
              (jittered (record { num = min max_delay (initial * m ^ (i - 1)); den = 1 }) draw)))
  unfolding compute_backoff_delay_ms
  jitter_closed = rw (one_pow, min_ratio_whole)

-- Multiplying by more, or by a higher power, gives no less.
whole_raw_mono :
    (s : BackoffStrategy) (i j initial m : ℕ)
    → i ≤ j
    → 0 < m
    → whole_raw s i initial m ≤ whole_raw s j initial m
whole_raw_mono fixed i j initial m h k = omega arith
whole_raw_mono linear i j initial m h k = mul-le-mul_left initial h
whole_raw_mono exponential i j initial m h k =
    mul-le-mul_left initial (pow-le-pow_right k (omega arith))
whole_raw_mono exponential_jitter i j initial m h k =
    mul-le-mul_left initial (pow-le-pow_right k (omega arith))

-- With a whole multiplier and a draw of at most 1, a jittered delay is at least half of the delay
-- without jitter, and at most that delay.
pub jitter_bounds :
    (i initial max_delay m : ℕ) (draw : Ratio)
    → draw.num ≤ draw.den
    → 0 < draw.den
    → let plain = compute_backoff_delay_ms i (whole_policy exponential initial max_delay m) draw in
      let jittery =
        compute_backoff_delay_ms i (whole_policy exponential_jitter initial max_delay m) draw in
      (plain ≤ 2 * jittery) × (jittery ≤ plain)
jitter_bounds i initial max_delay m draw h k =
    let c : ℕ = min max_delay (initial * m ^ (i - 1)) in
    rw (exponential_closed i initial max_delay m draw, jitter_closed i initial max_delay m draw)
      (ground (arith, round-jittered_le c draw h k, le_round-jittered c draw k))

-- Without jitter and with a whole multiplier of at least 1, a later retry never waits less, and no
-- retry waits longer than `maxDelayMs`.
pub delay_mono :
    (s : BackoffStrategy) (i j initial max_delay m : ℕ) (draw : Ratio)
    → s ≢ exponential_jitter
    → i ≤ j
    → 0 < m
    → (compute_backoff_delay_ms i (whole_policy s initial max_delay m) draw
        ≤ compute_backoff_delay_ms j (whole_policy s initial max_delay m) draw)
      × (compute_backoff_delay_ms j (whole_policy s initial max_delay m) draw ≤ max_delay)
delay_mono s i j initial max_delay m draw h le k =
    rw (closed i initial max_delay m draw s h, closed j initial max_delay m draw s h)
      (omega (arith, whole_raw_mono s i j initial m le k))
