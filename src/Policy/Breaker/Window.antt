-- ===== src/Policy/Breaker/Window.antt =====
-- Which outcomes the window of a closed breaker holds, and when a failure opens it
-- (policy/circuit-breaker.ts).
use dfsm.Prelude.{
  ℕ, suc, ◌-◌, ◌≡◌, refl, sym, ◌∙◌, ◌⊎◌, Bool, true, false, List, [], ◌∷◌, ◌++◌, arith, length,
  drop, drop-nil, length-append, leb, ltb, if◌then◌else◌, Bool-cases, inl, inr,
}
use mathlib.Core.List.{append_assoc, append-nil}
use dfsm.Policy.{NormalizedCircuitBreakerPolicy}
use dfsm.Policy.Breaker.{
  closed, opened, Breaker, new_breaker, shift_to, push_outcome, on_success, failures, on_failure,
}

-- The last `n` elements.
abbrev pub last {ℓ} : {A : Type ℓ} → ℕ → List A → List A
last n xs = drop (length xs - n) xs

shift_to-eq-last : (n : ℕ) (w : List Bool) → shift_to n w ≡ last n w
unfolding shift_to
shift_to-eq-last n [] = sym (drop-nil (0 - n))
shift_to-eq-last n (x ∷ w) = elim (Bool-cases (ltb n (suc (length w)))) [
  | inl more ↦
      let e : suc (length w) - n ≡ suc (length w - n) = ground arith in
      rw (more, e) (shift_to-eq-last n w)
  | inr fits ↦ let e : suc (length w) - n ≡ 0 = ground arith in rw (fits, e)
]

shift_to-append :
    (n : ℕ) (w : List Bool) (x : Bool)
    → shift_to n (shift_to n w ++ x ∷ []) ≡ shift_to n (w ++ x ∷ [])
unfolding shift_to
shift_to-append n [] x = refl
shift_to-append n (y ∷ w) x = ground (arith, shift_to-append n w x, length-append w (x ∷ []))

-- One call that ends in success or, at time `now`, in failure.
abbrev settled : ℕ → Bool → Breaker → Breaker
settled now true b = on_success b
settled now false b = on_failure now b

abbrev pub all_settled : ℕ → List Bool → Breaker → Breaker
all_settled now [] b = b
all_settled now (o ∷ os) b = all_settled now os (settled now o b)

-- No outcome takes an open breaker back to closed.
opened_stays :
    (now : ℕ) (os : List Bool) (b : Breaker)
    → b.status ≡ opened
    → (all_settled now os b).status ≡ opened
unfolding on_success on_failure
opened_stays now [] b h = h
opened_stays now (true ∷ os) b h = opened_stays now os (on_success b) (ground arith)
opened_stays now (false ∷ os) b h = opened_stays now os (on_failure now b) (ground arith)

-- A breaker that was closed throughout the outcomes `seen`.
record Closed (policy : NormalizedCircuitBreakerPolicy) (seen : List Bool) (b : Breaker)
    : Type 0 where
  same_policy : b.policy ≡ policy
  is_closed : b.status ≡ closed
  window : b.outcomes_window ≡ shift_to policy.sliding_window_size seen

settled-Closed :
    (policy : NormalizedCircuitBreakerPolicy) (now : ℕ) (o : Bool) (seen : List Bool) (b : Breaker)
    → Closed policy seen b
    → ((settled now o b).status ≡ opened) ⊎ Closed policy (seen ++ o ∷ []) (settled now o b)
unfolding on_success on_failure push_outcome
settled-Closed policy now true seen b h = inr (record {
  same_policy = ground arith;
  is_closed = ground arith;
  window = ground (arith, shift_to-append policy.sliding_window_size seen true);
})
settled-Closed policy now false seen b h = elim (Bool-cases trips) [
  | inl trip ↦ inl (ground arith)
  | inr stay ↦ inr (record {
    same_policy = ground arith;
    is_closed = ground arith;
    window = ground (arith, shift_to-append policy.sliding_window_size seen false);
  })
]
  where
    trips : Bool
    trips = leb b.policy.failure_threshold (failures (push_outcome false b).outcomes_window)

all_settled-Closed :
    (policy : NormalizedCircuitBreakerPolicy) (now : ℕ) (os seen : List Bool) (b : Breaker)
    → Closed policy seen b
    → (all_settled now os b).status ≡ closed
    → Closed policy (seen ++ os) (all_settled now os b)
all_settled-Closed policy now [] seen b h c = rw append-nil h
all_settled-Closed policy now (o ∷ os) seen b h c = elim (settled-Closed policy now o seen b h) [
  | inl opens ↦ cc (opened_stays now os (settled now o b) opens)
  | inr k ↦
      rw (append_assoc seen (o ∷ []) os) at
        (all_settled-Closed policy now os (seen ++ o ∷ []) (settled now o b) k c)
]

closed_failure :
    (policy : NormalizedCircuitBreakerPolicy) (now : ℕ) (seen : List Bool) (b : Breaker)
    → Closed policy seen b
    → (on_failure now b).status ≡ (
        if leb policy.failure_threshold
          (failures (shift_to policy.sliding_window_size (seen ++ false ∷ [])))
        then opened
        else closed)
unfolding on_failure push_outcome
closed_failure policy now seen b h =
    rw (← shift_to-append policy.sliding_window_size seen false, ← h.window, ← h.same_policy)
      (ground (arith, h.is_closed))

-- A new breaker that is still closed after calls with the outcomes `os` holds the last
-- `slidingWindowSize` of them, and one more failure opens it exactly if, of the last
-- `slidingWindowSize` outcomes with that failure, at least `failureThreshold` are failures.
pub closed-window :
    (policy : NormalizedCircuitBreakerPolicy) (now : ℕ) (os : List Bool)
    → let b = all_settled now os (new_breaker policy) in
      b.status ≡ closed
      → (b.outcomes_window ≡ last policy.sliding_window_size os)
        × ((on_failure now b).status ≡ (
            if leb policy.failure_threshold
              (failures (last policy.sliding_window_size (os ++ false ∷ [])))
            then opened
            else closed))
closed-window policy now os h =
    let n : ℕ = policy.sliding_window_size in
    let b : Breaker = all_settled now os (new_breaker policy) in
    let k : Closed policy os b = all_settled-Closed policy now os [] (new_breaker policy) fresh h in
    (
      k.window ∙ shift_to-eq-last n os,
      rw (← shift_to-eq-last n (os ++ false ∷ [])) (closed_failure policy now os b k),
    )
  where
    fresh : Closed policy [] (new_breaker policy)
    fresh = record { same_policy = refl; is_closed = refl; window = unfold shift_to in refl }
