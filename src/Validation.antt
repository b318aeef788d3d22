-- ===== src/Validation.antt =====
-- sdks/typescript/src/validation.ts: validators, and what a failed validation throws.
--
-- Values to validate are of a type `V`, and the data that a validator makes of them of a type `T`.
-- The schema library behind `safeParse`, and the function of a custom validator, are arguments. The
-- text of the thrown message is left out; its `details` are kept.
use dfsm.Prelude.{String, Bool, Option, none, some, List, [], ◌∷◌, map, ◌==◌, if◌then◌else◌}
use dfsm.Prelude.Text.{append, join_dots}
use dfsm.Errors.{ValidationTarget, validation_error, raised, Result, ok, threw}

pub record ValidationIssue : Type 0 where
  pub path : Option String
  pub message : String

pub data ValidationResult (T : Type 0) : Type 0 where
  success : T → ValidationResult T
  failure : List ValidationIssue → ValidationResult T

-- `SchemaValidator<T>`
abbrev pub SchemaValidator : Type 0 → Type 0 → Type 0
SchemaValidator V T = V → ValidationResult T

-- an issue of a `safeParse` error, its path's elements as texts
pub record SafeParseIssue : Type 0 where
  pub path : Option (List String)
  pub message : String

pub record SafeParseError : Type 0 where
  pub issues : Option (List SafeParseIssue)
  pub message : Option String

pub data SafeParseResult (T : Type 0) : Type 0 where
  parsed : T → SafeParseResult T
  unparsed : SafeParseError → SafeParseResult T

-- `issue.path?.join(".") ?? ""`
abbrev joined_path : Option (List String) → String
joined_path none = ""
joined_path (some parts) = join_dots parts

abbrev or_message : Option String → String → String
or_message none m = m
or_message (some n) m = n

abbrev zod_issues : SafeParseError → List ValidationIssue
zod_issues e = elim e.issues [
  | none ↦ record { path = none; message = or_message e.message "Schema validation failed" } ∷ []
  | some is ↦
      map (λ (i : SafeParseIssue). record { path = some (joined_path i.path); message = i.message })
        is
]

unfoldable zod_validator : {V T : Type 0} → (V → SafeParseResult T) → SchemaValidator V T
unfolding join_dots
zod_validator safe_parse value = elim (safe_parse value) [
  | parsed t ↦ success t
  | unparsed e ↦ failure (zod_issues e)
]

-- What the function of `customValidator` may do: throw with a message, return an object whose
-- `valid` is a Boolean, or return any other value.
pub data CustomOutcome (T : Type 0) : Type 0 where
  custom_threw : String → CustomOutcome T
  structured : Bool → Option T → Option (List String) → CustomOutcome T
  plain : T → CustomOutcome T

abbrev messages : List String → List ValidationIssue
messages = map (λ m. record { path = none; message = m })

abbrev errors_or_default : Option (List String) → List String
errors_or_default none = "Validation failed" ∷ []
errors_or_default (some es) = es

-- `structured.data ?? value`, where the value itself is taken for data
abbrev data_or : {T : Type 0} → Option T → T → T
data_or none v = v
data_or (some t) v = t

unfoldable custom_validator : {T : Type 0} → (T → CustomOutcome T) → SchemaValidator T T
custom_validator fn value = elim (fn value) [
  | custom_threw m ↦ failure (messages (m ∷ []))
  | structured valid d errors ↦
      if valid then success (data_or d value) else failure (messages (errors_or_default errors))
  | plain t ↦ success t
]

-- `i.path ? `${i.path}: ${i.message}` : i.message`
abbrev pub detail : ValidationIssue → String
detail i = elim i.path [
  | none ↦ i.message
  | some p ↦ if p == "" then i.message else append p (append ": " i.message)
]

-- With no validator the value is passed on as it is: `as_data` is the cast `value as T`.
unfoldable pub enforce_validation :
    {V T : Type 0} → (V → T) → ValidationTarget → V → Option (SchemaValidator V T) → Result T
enforce_validation as_data target value none = ok (as_data value)
enforce_validation as_data target value (some validate) = elim (validate value) [
  | success t ↦ ok t
  | failure issues ↦ threw (raised (validation_error target (map detail issues)))
]
