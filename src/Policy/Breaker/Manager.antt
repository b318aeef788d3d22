-- ===== src/Policy/Breaker/Manager.antt =====
-- `CircuitBreakerManager` of sdks/typescript/src/policy/circuit-breaker.ts: breakers by key.
use dfsm.Prelude.{
  ℕ, String, ◌≡◌, refl, ◌⊎◌, inl, inr, Bool-cases, Option, none, some, [], ◌∷◌, ◌==◌, eq_iff,
  if◌then◌else◌,
}
use mathlib.Core.Option
use mathlib.Core.Option.{some-injective}
use dfsm.Prelude.Dict.{Dict, get, put, get-put}
use dfsm.Policy.{NormalizedCircuitBreakerPolicy}
use dfsm.Policy.Breaker.{
  CircuitStatus, closed, Breaker, new_breaker, update_policy, get_status, reset,
}

-- `breakers`
abbrev pub Breakers : Type 0
Breakers = Dict Breaker

-- The instance of a policy: the one under its key with the new policy, or a new one.
abbrev instance_for : NormalizedCircuitBreakerPolicy → Option Breaker → Breaker
instance_for policy none = new_breaker policy
instance_for policy (some b) = update_policy policy b

unfoldable pub get_or_create : NormalizedCircuitBreakerPolicy → Breakers → Breaker × Breakers
get_or_create policy m = let b = instance_for policy (get policy.key m) in (b, put policy.key b m)

abbrev status_of : String → ℕ → Option Breaker → Breakers → CircuitStatus × Breakers
status_of key now none m = (closed, m)
status_of key now (some b) m = let (s, b') = get_status now b in (s, put key b' m)

unfoldable pub breaker_status : String → ℕ → Breakers → CircuitStatus × Breakers
breaker_status key now m = status_of key now (get key m) m

abbrev reset_all : Breakers → Breakers
reset_all [] = []
reset_all ((k, b) ∷ m) = (k, reset b) ∷ reset_all m

abbrev reset_found : String → Option Breaker → Breakers → Breakers
reset_found key none m = m
reset_found key (some b) m = put key (reset b) m

-- `reset(key?)`: an absent or empty key means all
unfoldable pub reset_breakers : Option String → Breakers → Breakers
reset_breakers none m = reset_all m
reset_breakers (some key) m = if key == "" then reset_all m else reset_found key (get key m) m

policy-instance_for :
    (policy : NormalizedCircuitBreakerPolicy) (o : Option Breaker)
    → (instance_for policy o).policy ≡ policy
unfolding update_policy
policy-instance_for policy none = refl
policy-instance_for policy (some b) = refl

-- `getOrCreate` returns and keeps, under the policy's key, a breaker with that policy; what another
-- transition learnt of the same key (its status and its window) stays; no other key changes.
pub get_or_create_shares :
    (policy : NormalizedCircuitBreakerPolicy) (m : Breakers) (j : String)
    → let (b, m') = get_or_create policy m in
      (b.policy ≡ policy)
      × (get j m' ≡ (if policy.key == j then some b else get j m))
      × ((c : Breaker)
          → get policy.key m ≡ some c
          → (b.status ≡ c.status) × (b.outcomes_window ≡ c.outcomes_window))
unfolding get_or_create update_policy
get_or_create_shares policy m j = (
  policy-instance_for policy (get policy.key m),
  get-put policy.key j (instance_for policy (get policy.key m)) m,
  λ c found. rw found (refl, refl),
)

get-reset_all : (k : String) (m : Breakers) → get k (reset_all m) ≡ Option.map reset (get k m)
get-reset_all k [] = refl
get-reset_all k ((j, b) ∷ m) = elim (Bool-cases (j == k)) [
  | inl same ↦ rw same
  | inr other ↦ rw other (get-reset_all k m)
]

get-reset_found :
    (k : String) (o : Option Breaker) (m : Breakers)
    → get k m ≡ o
    → get k (reset_found k o m) ≡ Option.map reset o
get-reset_found k none m e = e
get-reset_found k (some b) m e = rw get-put (rw (eq_iff k k).1 refl)

reported_closed :
    (key : String) (now : ℕ) (o : Option Breaker) (m : Breakers)
    → (status_of key now (Option.map reset o) m).0 ≡ closed
unfolding reset get_status
reported_closed key now none m = refl
reported_closed key now (some b) m = refl

-- After `reset` of its key, or of all, a breaker is reported closed at any time.
pub reset_closes :
    (key : String) (which : Option String) (now : ℕ) (m : Breakers)
    → (which ≡ none) ⊎ (which ≡ some key)
    → (breaker_status key now (reset_breakers which m)).0 ≡ closed
unfolding breaker_status reset_breakers
reset_closes key none now m h = rw get-reset_all (reported_closed key now (get key m) (reset_all m))
reset_closes key (some j) now m h = elim h [
  | inl p ↦ cc p
  | inr p ↦
      let e : j ≡ key = some-injective j key p in
      rw e (elim (Bool-cases (key == "")) [
        | inl all_keys ↦
            rw (all_keys, get-reset_all) (reported_closed key now (get key m) (reset_all m))
        | inr one_key ↦
            rw (one_key, get-reset_found key (get key m) m refl)
              (reported_closed key now (get key m) (reset_found key (get key m) m))
      ])
]
