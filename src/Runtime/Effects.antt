-- ===== src/Runtime/Effects.antt =====
-- `invokeSingleEffect` and `invokeEffects` of sdks/typescript/src/runtime/actor.ts.
use dfsm.Prelude.{ℕ, ◌+◌, ◌-◌, String, Option, none, some, List, [], ◌∷◌, eqb, ltb, if◌then◌else◌}
use dfsm.Prelude.Dict.{Dict, put}
use dfsm.Errors.{error, unregistered_handler_error, Raised, raised, Exec}
use dfsm.Machine.StateValue.{StateValue}
use dfsm.Store.{Snapshot}
use dfsm.Runtime.{
  Actor, TransitionResult, EffectRequest, EffectCode, finish, fail, act, run_effect, send,
}
use dfsm.Runtime.Monad.{pure, raise, returning, gets, attempt, modify, ◌>>=◌, ◌>>◌, for_each}
use dfsm.Runtime.Qualify.{qualify_handler_name}
use dfsm.Runtime.World.{World, get_or, remove, revision, fetch}

-- The ways back into the actor: `runEffect`, with the arguments of `invokeSingleEffect`,
-- `actor.transition`, and `initialize` of an actor that is not initialized.
pub record Calls (V D S : Type 0) : Type 0 where
  pub single_effect : String → StateValue → V → String → Option V → ℕ → Exec (World D S) (Unit {0})
  pub send_transition : String → String → V → Exec (World D S) (TransitionResult V)
  pub start_up : Exec (World D S) (Unit {0})

-- an effect's function, run with `runEffect` and `actor.transition`
unfoldable pub interpret :
    {V D S : Type 0}
    → (String → Option V → Exec (World D S) (Unit {0}))
    → (String → V → Exec (World D S) (TransitionResult V))
    → EffectCode V D S
    → Exec (World D S) (Unit {0})
interpret run transition finish w = pure tt w
interpret run transition (fail e) w = raise e w
interpret run transition (act f next) w =
    interpret run transition (next (f w.rest)) (record w { rest = f w.rest })
interpret run transition (run_effect name payload next) w =
    let (r, w') = run name payload w in interpret run transition (next r) w'
interpret run transition (send event input next) w =
    let (r, w') = transition event input w in interpret run transition (next r) w'

-- the error of a chain that is too deep, its code in place of its text
abbrev pub chain_too_deep : Raised
chain_too_deep = raised (error "DFSM_MAX_EFFECT_CHAIN_DEPTH")

-- the `finally` block
abbrev pub release : String → Dict ℕ → Dict ℕ
release tx depths =
    let remaining = get_or 1 tx depths - 1 in
    if eqb remaining 0 then remove tx depths else put tx remaining depths

abbrev latest_or : {V : Type 0} → StateValue × V → Option (Snapshot V) → StateValue × V
latest_or fallback none = fallback
latest_or fallback (some s) = (s.transaction.state_value, s.transaction.context)

module _ {D S : Type 0} where
  abbrev pub set_depth : String → ℕ → Exec (World D S) (Unit {0})
  set_depth tx depth = modify (λ (w : World D S). record w { depths = put tx depth w.depths })

  abbrev pub release_depth : String → Exec (World D S) (Unit {0})
  release_depth tx = modify (λ (w : World D S). record w { depths = release tx w.depths })

module _ {V D S : Type 0} where
  -- the state and context that the effect is given
  abbrev pub effective :
      Actor V D S → String → ℕ → StateValue → V → Exec (World D S) (StateValue × V)
  effective a tx baseline state context = do
    now_at ← revision tx
    latest ← fetch a tx
    pure (if eqb now_at baseline then (state, context) else latest_or (state, context) latest)

  -- the call of a handler that is there, at a depth that is allowed
  unfoldable pub call_effect :
      Calls V D S
      → String
      → (EffectRequest V → EffectCode V D S)
      → Option V
      → ℕ
      → ℕ
      → StateValue × V
      → Exec (World D S) (Unit {0})
  call_effect calls tx fn payload baseline depth (state, context) = do
    set_depth tx depth
    result ← attempt (
        interpret
          (λ name sub_payload. calls.single_effect tx state context name sub_payload baseline)
          (calls.send_transition tx)
          (fn
            (record { transaction_id = tx; state = state; context = context; payload = payload })))
    release_depth tx
    returning result

  abbrev pub not_found : Actor V D S → String → Exec (World D S) (Unit {0})
  not_found a name =
      if a.strict
      then raise (
          raised
            (unregistered_handler_error a.machine.id (qualify_handler_name name a.namespace ∷ [])))
      else pure tt

  -- the guard of the depth, and the call
  abbrev pub guarded :
      Actor V D S
      → Calls V D S
      → String
      → StateValue
      → V
      → (EffectRequest V → EffectCode V D S)
      → Option V
      → ℕ
      → ℕ
      → Exec (World D S) (Unit {0})
  guarded a calls tx state context fn payload baseline depth =
      if ltb a.max_effect_chain_depth depth
      then raise chain_too_deep
      else (effective a tx baseline state context
          >>= call_effect calls tx fn payload baseline depth)

  abbrev pub invoke_found :
      Actor V D S
      → Calls V D S
      → String
      → StateValue
      → V
      → String
      → Option V
      → ℕ
      → Option (String × (EffectRequest V → EffectCode V D S))
      → Exec (World D S) (Unit {0})
  invoke_found a calls tx state context name payload baseline none = not_found a name
  invoke_found a calls tx state context name payload baseline (some (resolved, fn)) =
      gets (λ (w : World D S). get_or 0 tx w.depths + 1)
      >>= guarded a calls tx state context fn payload baseline

  -- `invokeSingleEffect`
  unfoldable pub invoke_single_effect :
      Actor V D S
      → Calls V D S
      → String
      → StateValue
      → V
      → String
      → Option V
      → ℕ
      → Exec (World D S) (Unit {0})
  invoke_single_effect a calls tx state context name payload baseline =
      invoke_found a calls tx state context name payload baseline (a.resolve_effect name)

  -- `invokeEffects`
  unfoldable pub invoke_effects :
      Actor V D S
      → Calls V D S
      → String
      → StateValue
      → V
      → List (String × Option V)
      → Exec (World D S) (Unit {0})
  invoke_effects a calls tx state context effects = do
    baseline ← revision tx
    for_each
        (λ (e : String × Option V). invoke_single_effect a calls tx state context e.0 e.1 baseline)
        effects
