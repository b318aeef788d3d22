-- ===== src/Policy/Retry/Trace.antt =====
-- Which attempts `runWithRetryPolicy` (policy/retry.ts) makes, and which of them decides.
use dfsm.Prelude.{
  ℕ, zero, suc, ◌+◌, ◌≤◌, ◌<◌, ◌≡◌, refl, Bool, true, not, arith, Bool-cases, inl, inr,
}
use dfsm.Errors.{Thrown, Raised, Result, ok, threw, Exec, raised, primitive}
use dfsm.Policy.{Ratio, NormalizedRetryPolicy}
use dfsm.Policy.Retry.{
  max_attempts_of, can_retry, note_attempts, pause, after_attempt, retry_loop,
  run_with_retry_policy,
}

-- An outcome after which no further attempt is made.
abbrev is_decisive {ℓ} : {A : Type ℓ} → NormalizedRetryPolicy → ℕ → Result A → Bool
is_decisive policy k (ok a) = true
is_decisive policy k (threw e) = not (can_retry policy k e.cause)

-- What the caller gets of the outcome of attempt `k`.
abbrev pub reported {ℓ} : {S A : Type ℓ} → ℕ → Result A × S → Result (A × ℕ) × S
reported k (ok a, s) = (ok (a, k), s)
reported k (threw e, s) = (threw (note_attempts k e), s)

-- Only an attempt before the last is followed by another.
can_retry-lt :
    (policy : NormalizedRetryPolicy) (k : ℕ) (e : Thrown)
    → can_retry policy k e ≡ true
    → k < max_attempts_of policy
can_retry-lt policy k e h = ground arith

module _ {S A : Type 0} (sleep : ℕ → S → S) (random_fn : ℕ → Ratio) (policy : NormalizedRetryPolicy)
    (operation : ℕ → Exec S A) where
  -- Attempt `k` starts in state `t`: every attempt before it threw an error that may be retried,
  -- and the delay of the policy came after each.
  pub data Reaches (s : S) : ℕ → S → Type 0 where
    first : Reaches s 1 s
    again :
        {k : ℕ} {t u : S} {e : Raised}
        → Reaches s k t
        → operation k t ≡ (threw e, u)
        → can_retry policy k e.cause ≡ true
        → Reaches s (suc k) (pause sleep random_fn policy k u)

  -- The attempt that decides a run.
  pub record Decided (s : S) (result : Result (A × ℕ) × S) : Type 0 where
    pub attempt : ℕ
    pub start : S
    pub reached : Reaches s attempt start
    pub positive : 1 ≤ attempt
    pub bounded : attempt ≤ max_attempts_of policy
    pub decisive : is_decisive policy attempt (operation attempt start).0 ≡ true
    pub result_eq : result ≡ reported attempt (operation attempt start)

  -- The loop from attempt `k` on, with at least the rounds that are left.
  loop_decides :
      (rounds k : ℕ) (s t : S) (last : Raised)
      → Reaches s k t
      → 1 ≤ k
      → k + rounds ≡ suc (max_attempts_of policy)
      → 0 < rounds
      → Decided s (retry_loop sleep random_fn policy operation rounds k last t)
  unfolding retry_loop
  loop_decides zero k s t last r p e h = absurd (omega arith)
  loop_decides (suc rounds) k s t last r p e h =
      go (loop_decides rounds (suc k) s) (operation k t) refl
    where
      go :
          ((u : S) (e' : Raised)
            → Reaches s (suc k) u
            → 1 ≤ suc k
            → suc k + rounds ≡ suc (max_attempts_of policy)
            → 0 < rounds
            → Decided s (retry_loop sleep random_fn policy operation rounds (suc k) e' u))
          → (x : Result A × S) → operation k t ≡ x
          → Decided s (
              after_attempt sleep random_fn policy operation
                (retry_loop sleep random_fn policy operation rounds (suc k))
                k
                x)
      go ih (ok a, u) eq = record {
        attempt = k;
        start = t;
        reached = r;
        positive = p;
        bounded = omega arith;
        decisive = rw eq;
        result_eq = rw eq;
      }
      go ih (threw e', u) eq = elim (Bool-cases (can_retry policy k e'.cause)) [
        | inl more ↦ rw more (
            ih (pause sleep random_fn policy k u) e' (again r eq more) (omega arith) (omega arith)
              (omega (arith, can_retry-lt policy k e'.cause more)))
        | inr done ↦ rw done (record {
          attempt = k;
          start = t;
          reached = r;
          positive = p;
          bounded = omega arith;
          decisive = rw (eq, done);
          result_eq = rw eq;
        })
      ]

-- A run of the retry policy ends with the outcome of one attempt, numbered from 1 and at most
-- `max(1, maxAttempts)`. It is reached through attempts that each threw an error that may be
-- retried, with the policy's delay after each; its own outcome is a value or an error that is not
-- retried.
pub run_with_retry_policy-Decided :
    {S A : Type 0} (sleep : ℕ → S → S) (random_fn : ℕ → Ratio) (policy : NormalizedRetryPolicy)
    (operation : ℕ → Exec S A) (s : S)
    → Decided sleep random_fn policy operation s
        (run_with_retry_policy sleep random_fn policy operation s)
unfolding run_with_retry_policy
run_with_retry_policy-Decided sleep random_fn policy operation s =
    loop_decides sleep random_fn policy operation (max_attempts_of policy) 1 s s
      (raised (primitive "undefined")) first (omega arith) (omega arith) (omega arith)
