-- ===== src/Runtime/Registry.antt =====
-- The lookups of sdks/typescript/src/runtime/registry.ts.
--
-- What a registry holds is an argument. A handler is a function, so that a name that is registered
-- always has one.
use dfsm.Prelude.{ℕ, String, Option, none, some}
use dfsm.Prelude.Dict.{Dict, get}
use dfsm.Errors.{Exec}
use dfsm.Validation.{SchemaValidator}
use dfsm.Policy.{PartialTransitionPolicy}
use dfsm.Policy.Pipeline.{TransitionOutput}
use dfsm.Machine.Finalize.{given}
use dfsm.Runtime.{HookEvent, PipelineRequest, EffectRequest, EffectCode, CompensateRequest}
use dfsm.Runtime.Qualify.{qualify_handler_name}

-- `RegisteredTransitionEntry`
pub record TransitionEntry (V D S : Type 0) : Type 0 where
  pub fn : PipelineRequest V → ℕ → V → Exec (D × S) (Option (TransitionOutput V V) × V)
  pub policy : Option PartialTransitionPolicy
  pub input_validator : Option (SchemaValidator V V)

-- `HandlerRegistry`, with its four maps and the global defaults
pub record Registry (V D S : Type 0) : Type 0 where
  pub transitions : Dict (TransitionEntry V D S)
  pub compensations : Dict (CompensateRequest V → Exec (D × S) (Option V))
  pub effects : Dict (EffectRequest V → EffectCode V D S)
  pub hooks : Dict (HookEvent V → Exec (D × S) (Unit {0}))
  pub policy_defaults : Option PartialTransitionPolicy

abbrev pub named : {A : Type 0} → String → Option A → Option (String × A)
named name none = none
named name (some a) = some (name, a)

abbrev pub or_direct :
    {A : Type 0} → Option (String × A) → Option (String × A) → Option (String × A)
or_direct none direct = direct
or_direct (some found) direct = some found

-- `resolveTransition`, `resolveCompensate`, `resolveEffect` and `resolveHook`, each on its map
unfoldable pub resolve : {A : Type 0} → Dict A → String → Option String → Option (String × A)
resolve table raw_name namespace = elim (given namespace) [
  | none ↦ named raw_name (get raw_name table)
  | some ns ↦
      (let qualified = qualify_handler_name raw_name namespace in
        or_direct (named qualified (get qualified table)) (named raw_name (get raw_name table)))
]
