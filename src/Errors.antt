-- ===== src/Errors.antt =====
-- sdks/typescript/src/errors.ts: what a call may throw, and calls that may throw.
--
-- `Thrown` has a constructor for each error class, with the data that the runtime reads from it.
-- What user code throws is `error` with its message, or `primitive` when it is no object.
use dfsm.Prelude.{ℕ, String, Bool, true, false, Option, none, List}

pub data ValidationTarget : Type 0 where
  initial_context input context : ValidationTarget

pub data Thrown : Type 0 where
  -- `target`, `details`
  validation_error : ValidationTarget → List String → Thrown
  -- `breakerKey`, `remainingOpenMs`
  circuit_open_error : String → ℕ → Thrown
  -- the event, and `availableEvents`
  invalid_transition_error : String → List String → Thrown
  transaction_not_found_error : String → Thrown
  -- the id and `expectedVersion`
  stale_transaction_version_error : String → ℕ → Thrown
  -- the machine's id and `missingHandlers`
  unregistered_handler_error : String → List String → Thrown
  machine_validation_error : List String → Thrown
  -- the actor's id and `stuckTransactionIds`
  actor_stopped_by_recovery_error : String → List String → Thrown
  -- any other `Error`, and any thrown value that is no object
  error primitive : String → Thrown

-- `err instanceof ValidationError`
abbrev pub is_validation_error : Thrown → Bool
is_validation_error (validation_error _ _) = true
is_validation_error _ = false

-- `err instanceof CircuitOpenError`
abbrev pub is_circuit_open_error : Thrown → Bool
is_circuit_open_error (circuit_open_error _ _) = true
is_circuit_open_error _ = false

-- `err && typeof err === "object"`
abbrev pub is_object : Thrown → Bool
is_object (primitive _) = false
is_object _ = true

-- A thrown value with its `__dfsmAttempts` property.
pub record Raised : Type 0 where
  pub cause : Thrown
  pub attempts : Option ℕ

abbrev pub raised : Thrown → Raised
raised e = record { cause = e; attempts = none }

pub data Result {ℓ} (A : Type ℓ) : Type ℓ where
  ok : A → Result A
  threw : Raised → Result A

-- An asynchronous call that reads and changes a state `S`. What was written before a throw stays.
abbrev pub Exec {ℓ} : Type ℓ → Type ℓ → Type ℓ
Exec S A = S → Result A × S
