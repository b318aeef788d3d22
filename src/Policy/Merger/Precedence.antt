-- ===== src/Policy/Merger/Precedence.antt =====
-- Which layer each leaf of a normalized policy comes from (policy/merger.ts).
use dfsm.Prelude.{◌≡◌, refl, Option, none, some, Option-cases, inl, inr, List, [], ◌∷◌}
use dfsm.Policy.{
  PartialBackoffPolicy, PartialRetryPolicy, PartialCircuitBreakerPolicy, PartialOnFailPolicy,
  PartialBenchmarkPolicy, PartialTransitionPolicy, NormalizedTransitionPolicy,
}
use dfsm.Policy.Merger.{
  PolicyMergeInputs, assign, sdk_default_policy, assign_some, apply_retry, apply_circuit_breaker,
  apply_on_fail, apply_benchmark, apply_layer, apply_layers, normalize_transition_policy,
}

abbrev and_then {ℓ κ} : {A : Type ℓ} {B : Type κ} → Option A → (A → Option B) → Option B
and_then none f = none
and_then (some a) f = f a

-- The first value that is given, or the default.
abbrev first_given {ℓ} : {A : Type ℓ} → List (Option A) → A → A
first_given [] d = d
first_given (none ∷ os) d = first_given os d
first_given (some a ∷ os) d = a

-- The same for a leaf that may stay absent.
abbrev first_given_or {ℓ} : {A : Type ℓ} → List (Option A) → Option A → Option A
first_given_or [] d = d
first_given_or (none ∷ os) d = first_given_or os d
first_given_or (some a ∷ os) d = some a

-- The layers from the strongest to the weakest, without the SDK's defaults.
abbrev by_precedence : PolicyMergeInputs → List (Option PartialTransitionPolicy)
by_precedence i =
    i.decorator_policy ∷ i.transition_policy ∷ i.machine_defaults ∷ i.global_defaults ∷ []

-- What the layers say of one leaf.
abbrev said {ℓ} :
    {A : Type ℓ}
    → (PartialTransitionPolicy → Option A)
    → List (Option PartialTransitionPolicy)
    → List (Option A)
said f [] = []
said f (l ∷ ls) = and_then l f ∷ said f ls

abbrev retry_leaf {ℓ} :
    {A : Type ℓ} → (PartialRetryPolicy → Option A) → PartialTransitionPolicy → Option A
retry_leaf f l = and_then l.retry f

abbrev backoff_leaf {ℓ} :
    {A : Type ℓ} → (PartialBackoffPolicy → Option A) → PartialTransitionPolicy → Option A
backoff_leaf f l = and_then l.retry (λ r. and_then r.backoff f)

abbrev breaker_leaf {ℓ} :
    {A : Type ℓ} → (PartialCircuitBreakerPolicy → Option A) → PartialTransitionPolicy → Option A
breaker_leaf f l = and_then l.circuit_breaker f

abbrev on_fail_leaf {ℓ} :
    {A : Type ℓ} → (PartialOnFailPolicy → Option A) → PartialTransitionPolicy → Option A
on_fail_leaf f l = and_then l.on_fail f

-- Each leaf on its own: the strongest layer that gives it, else what `d` has.
abbrev leaf_by_leaf :
    List (Option PartialTransitionPolicy) → NormalizedTransitionPolicy → NormalizedTransitionPolicy
leaf_by_leaf ls d = record {
  retry = record {
    max_attempts = first_given (said (retry_leaf (λ r. r.max_attempts)) ls) d.retry.max_attempts;
    backoff = record {
      strategy = first_given (said (backoff_leaf (λ b. b.strategy)) ls) d.retry.backoff.strategy;
      initial_delay_ms =
          first_given (said (backoff_leaf (λ b. b.initial_delay_ms)) ls)
            d.retry.backoff.initial_delay_ms;
      max_delay_ms =
          first_given (said (backoff_leaf (λ b. b.max_delay_ms)) ls) d.retry.backoff.max_delay_ms;
      multiplier =
          first_given (said (backoff_leaf (λ b. b.multiplier)) ls) d.retry.backoff.multiplier;
    };
    retry_if = first_given_or (said (retry_leaf (λ r. r.retry_if)) ls) d.retry.retry_if;
  };
  circuit_breaker = record {
    enabled = first_given (said (breaker_leaf (λ c. c.enabled)) ls) d.circuit_breaker.enabled;
    key = first_given (said (breaker_leaf (λ c. c.key)) ls) d.circuit_breaker.key;
    failure_threshold =
        first_given (said (breaker_leaf (λ c. c.failure_threshold)) ls)
          d.circuit_breaker.failure_threshold;
    sliding_window_size =
        first_given (said (breaker_leaf (λ c. c.sliding_window_size)) ls)
          d.circuit_breaker.sliding_window_size;
    open_duration_ms =
        first_given (said (breaker_leaf (λ c. c.open_duration_ms)) ls)
          d.circuit_breaker.open_duration_ms;
    half_open_max_calls =
        first_given (said (breaker_leaf (λ c. c.half_open_max_calls)) ls)
          d.circuit_breaker.half_open_max_calls;
  };
  on_fail = record {
    compensate = first_given (said (on_fail_leaf (λ f. f.compensate)) ls) d.on_fail.compensate;
    target = first_given (said (on_fail_leaf (λ f. f.target)) ls) d.on_fail.target;
  };
  benchmark = record {
    enabled =
        first_given (said (λ l. and_then l.benchmark (λ b. b.enabled)) ls) d.benchmark.enabled;
  };
  compensate_handler = first_given_or (said (λ l. l.compensate_handler) ls) d.compensate_handler;
}

assign-first_given {ℓ} :
    {A : Type ℓ} (o : Option A) (os : List (Option A)) (d : A)
    → assign o (first_given os d) ≡ first_given (o ∷ os) d
assign-first_given none os d = refl
assign-first_given (some a) os d = refl

assign_some-first_given_or {ℓ} :
    {A : Type ℓ} (o : Option A) (os : List (Option A)) (d : Option A)
    → assign_some o (first_given_or os d) ≡ first_given_or (o ∷ os) d
assign_some-first_given_or none os d = refl
assign_some-first_given_or (some a) os d = refl

ruleset assigns = (assign-first_given, assign_some-first_given_or)

module _ (l : PartialTransitionPolicy) (ls : List (Option PartialTransitionPolicy))
    (d : NormalizedTransitionPolicy) where
  retry_part :
      (o : Option PartialRetryPolicy)
      → l.retry ≡ o
      → apply_retry o (leaf_by_leaf ls d).retry ≡ (leaf_by_leaf (some l ∷ ls) d).retry
  unfolding apply_layer
  retry_part none p = rw p
  retry_part (some r) p = elim (Option-cases r.backoff) [
    | inl e ↦ rw (p, e) (simp assigns)
    | inr (b, e) ↦ rw (p, e) (simp assigns)
  ]

  circuit_breaker_part :
      (o : Option PartialCircuitBreakerPolicy)
      → l.circuit_breaker ≡ o
      → apply_circuit_breaker o (leaf_by_leaf ls d).circuit_breaker
        ≡ (leaf_by_leaf (some l ∷ ls) d).circuit_breaker
  unfolding apply_layer
  circuit_breaker_part none p = rw p
  circuit_breaker_part (some c) p = rw p (simp assigns)

  on_fail_part :
      (o : Option PartialOnFailPolicy)
      → l.on_fail ≡ o
      → apply_on_fail o (leaf_by_leaf ls d).on_fail ≡ (leaf_by_leaf (some l ∷ ls) d).on_fail
  unfolding apply_layer
  on_fail_part none p = rw p
  on_fail_part (some f) p = rw p (simp assigns)

  benchmark_part :
      (o : Option PartialBenchmarkPolicy)
      → l.benchmark ≡ o
      → apply_benchmark o (leaf_by_leaf ls d).benchmark ≡ (leaf_by_leaf (some l ∷ ls) d).benchmark
  unfolding apply_layer
  benchmark_part none p = rw p
  benchmark_part (some b) p = rw p (simp assigns)

-- One more layer on top changes the leaves that it gives and no other.
apply_layer-leaf_by_leaf :
    (l : Option PartialTransitionPolicy) (ls : List (Option PartialTransitionPolicy))
    (d : NormalizedTransitionPolicy)
    → apply_layer l (leaf_by_leaf ls d) ≡ leaf_by_leaf (l ∷ ls) d
unfolding apply_layer
apply_layer-leaf_by_leaf none ls d = refl
apply_layer-leaf_by_leaf (some l) ls d = λ i. record {
  retry = retry_part l ls d l.retry refl i;
  circuit_breaker = circuit_breaker_part l ls d l.circuit_breaker refl i;
  on_fail = on_fail_part l ls d l.on_fail refl i;
  benchmark = benchmark_part l ls d l.benchmark refl i;
  compensate_handler =
      assign_some-first_given_or l.compensate_handler
        (said (λ (p : PartialTransitionPolicy). p.compensate_handler) ls) d.compensate_handler i;
}

-- Layers put on a stack one after the other.
abbrev stacked {ℓ} : {A : Type ℓ} → List A → List A → List A
stacked [] ks = ks
stacked (l ∷ ls) ks = stacked ls (l ∷ ks)

-- The layers of a list, the weakest first, applied over `leaf_by_leaf`.
apply_layers-leaf_by_leaf :
    (ls ks : List (Option PartialTransitionPolicy)) (d : NormalizedTransitionPolicy)
    → apply_layers ls (leaf_by_leaf ks d) ≡ leaf_by_leaf (stacked ls ks) d
unfolding apply_layers
apply_layers-leaf_by_leaf [] ks d = refl
apply_layers-leaf_by_leaf (l ∷ ls) ks d =
    rw apply_layer-leaf_by_leaf (apply_layers-leaf_by_leaf ls (l ∷ ks) d)

-- A normalized policy takes every leaf from the strongest layer that gives it, in the order
-- decorator, transition, machine defaults, global defaults, and from the SDK's default policy, with
-- the default breaker key, where none does: no leaf depends on whether a layer gives another.
pub normalize_leaf_by_leaf :
    (i : PolicyMergeInputs)
    → normalize_transition_policy i
      ≡ leaf_by_leaf (by_precedence i) (sdk_default_policy i.default_breaker_key)
unfolding normalize_transition_policy
normalize_leaf_by_leaf i =
    apply_layers-leaf_by_leaf
      (i.global_defaults ∷ i.machine_defaults ∷ i.transition_policy ∷ i.decorator_policy ∷ []) []
      (sdk_default_policy i.default_breaker_key)
