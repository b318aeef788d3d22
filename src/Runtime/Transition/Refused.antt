-- ===== src/Runtime/Transition/Refused.antt =====
-- The calls of `transition` (runtime/actor.ts) that are refused before anything is written.
use dfsm.Prelude.{
  String, ◌≡◌, ◌≢◌, refl, ap, ◌∙◌, sym, true, false, Bool, Option, none, some, List, [], ◌∷◌, ◌++◌,
  map, ◌==◌, eq_iff, inl, inr, Bool-cases, All, if◌then◌else◌,
}
use dfsm.Prelude.Dict.{get}
use dfsm.Errors.{
  Thrown, input, invalid_transition_error, transaction_not_found_error,
  actor_stopped_by_recovery_error, validation_error, raised, Raised, threw, Exec,
}
use dfsm.Engine.Match.{MatchedTransition, resolve_transitions_for_event}
use dfsm.Engine.Match.Active.{ActiveIn}
use dfsm.Engine.Match.Roots.{matches_exact}
use dfsm.Engine.Status.{get_available_events}
use dfsm.Machine.{NodeInfo}
use dfsm.Store.{Snapshot, Transaction}
use dfsm.Validation.{ValidationIssue, SchemaValidator, success, failure, detail, enforce_validation}
use dfsm.Runtime.{Actor, Binding, TransitionResult}
use dfsm.Runtime.Monad.{after_call, pure, raise, gets, ◌>>◌, ◌>>=◌}
use dfsm.Runtime.World.{World, fetch}
use dfsm.Runtime.Effects.{Calls}
use dfsm.Runtime.Transition.{
  run_validated, validate_inputs, execute_matches, handle_matches, execute_transition_on_snapshot,
}
use dfsm.Runtime.Entry.{on_own_transaction, transition_with}
use dfsm.Runtime.Lifecycle.{calls_of, transition}

throws-bind :
    {W A B : Type 0} (m : Exec W A) (f : A → Exec W B) (w : W) (e : Raised)
    → m w ≡ (threw e, w)
    → (m >>= f) w ≡ (threw e, w)
throws-bind m f w e h = ap (after_call f) h

module _ {V D S : Type 0} (a : Actor V D S) (raw : V) where
  -- The input passes the validator of a match, if the match has one.
  pub data Accepts (m : MatchedTransition) : Type 0 where
    unchecked :
        (b : Binding V D S)
        → a.bindings m.source_node.path m.edge.event ≡ some b
        → b.input_validator ≡ none
        → Accepts m
    checked :
        (b : Binding V D S) (validate : SchemaValidator V V) (v : V)
        → a.bindings m.source_node.path m.edge.event ≡ some b
        → b.input_validator ≡ some validate
        → validate raw ≡ success v
        → Accepts m

  -- The error for an input that a match's validator rejects.
  pub data Rejects (m : MatchedTransition) : Thrown → Type 0 where
    failing :
        (b : Binding V D S) (validate : SchemaValidator V V) (issues : List ValidationIssue)
        → a.bindings m.source_node.path m.edge.event ≡ some b
        → b.input_validator ≡ some validate
        → validate raw ≡ failure issues
        → Rejects m (validation_error input (map detail issues))

  validated :
      (before after : List MatchedTransition) (m : MatchedTransition) (e : Thrown) (w : World D S)
      → All Accepts before
      → Rejects m e
      → validate_inputs a raw (before ++ m ∷ after) w ≡ (threw (raised e), w)
  unfolding validate_inputs enforce_validation
  validated [] after m e w h (failing b validate issues bound has fails) =
      rw (bound, has, fails) refl
  validated (n ∷ before) after m e w (unchecked b bound has, h) r =
      let rest = validated before after m e w h r in
      rw (bound, has)
        (throws-bind (validate_inputs a raw (before ++ m ∷ after)) (λ vs. pure (raw ∷ vs)) w
          (raised e) rest)
  validated (n ∷ before) after m e w (checked b validate v bound has passes, h) r =
      let rest = validated before after m e w h r in
      rw (bound, has, passes)
        (throws-bind (validate_inputs a raw (before ++ m ∷ after)) (λ vs. pure (v ∷ vs)) w
          (raised e) rest)

-- The reasons to refuse a transition, each with its error: recovery stopped the actor; the
-- transaction is not there, or of another machine; no state that is active in the transaction's
-- value has an edge for the event; the input fails the validator of a match, and passes those of
-- the matches before it.
pub data Refused {V D S : Type 0} (a : Actor V D S) (tx event : String) (raw : V) (w : World D S)
    : Thrown → Type 0 where
  stopped :
      w.stopped_by_recovery ≡ true
      → Refused a tx event raw w (actor_stopped_by_recovery_error a.actor_id [])
  absent :
      w.stopped_by_recovery ≡ false
      → a.store.get_transaction tx w.rest.0 ≡ none
      → Refused a tx event raw w (transaction_not_found_error tx)
  foreign :
      (s : Snapshot V)
      → w.stopped_by_recovery ≡ false
      → a.store.get_transaction tx w.rest.0 ≡ some s
      → s.transaction.machine_id ≢ a.machine.id
      → Refused a tx event raw w (transaction_not_found_error tx)
  unhandled :
      (s : Snapshot V)
      → w.stopped_by_recovery ≡ false
      → a.store.get_transaction tx w.rest.0 ≡ some s
      → s.transaction.machine_id ≡ a.machine.id
      → ((j : NodeInfo) → ActiveIn a.machine s.transaction.state_value j → get event j.on ≡ none)
      → Refused a tx event raw w (
          invalid_transition_error event (get_available_events a.machine s.transaction.state_value))
  invalid :
      (s : Snapshot V) (before after : List MatchedTransition) (m : MatchedTransition) (e : Thrown)
      → w.stopped_by_recovery ≡ false
      → a.store.get_transaction tx w.rest.0 ≡ some s
      → s.transaction.machine_id ≡ a.machine.id
      → resolve_transitions_for_event a.machine s.transaction.state_value event
        ≡ before ++ m ∷ after
      → All (Accepts a raw) before
      → Rejects a raw m e
      → Refused a tx event raw w e

none_matches :
    (event : String) (P : NodeInfo → Type 0) (ms : List MatchedTransition)
    → All
        (λ (t : MatchedTransition). P t.source_node × (get event t.source_node.on ≡ some t.edge))
        ms
    → ((j : NodeInfo) → P j → get event j.on ≡ none)
    → ms ≡ []
none_matches event P [] h k = refl
none_matches event P (t ∷ ts) h k =
    let no : none ≡ some t.edge = sym (k t.source_node h.0.0) ∙ h.0.1 in cc

module _ {V D S : Type 0} (a : Actor V D S) (tx event : String) (raw metadata : V)
    (w : World D S) where
  matched_invalid :
      (c : Calls V D S) (t : Transaction V) (before after : List MatchedTransition)
      (m : MatchedTransition) (e : Thrown)
      → All (Accepts a raw) before
      → Rejects a raw m e
      → handle_matches a c t event raw metadata (before ++ m ∷ after) w ≡ (threw (raised e), w)
  unfolding execute_matches
  matched_invalid c t [] after m e h r =
      throws-bind (validate_inputs a raw (m ∷ after))
        (run_validated a c t event raw metadata (m ∷ after)) w (raised e)
        (validated a raw [] after m e w h r)
  matched_invalid c t (n ∷ before) after m e h r =
      throws-bind (validate_inputs a raw (n ∷ before ++ m ∷ after))
        (run_validated a c t event raw metadata (n ∷ before ++ m ∷ after)) w (raised e)
        (validated a raw (n ∷ before) after m e w h r)

  abbrev own : Exec (World D S) (TransitionResult V)
  own = fetch a tx >>= on_own_transaction a (calls_of a) tx event raw metadata

  abbrev unless_stopped : Bool → Exec (World D S) (Unit {0})
  unless_stopped b =
      if b then raise (raised (actor_stopped_by_recovery_error a.actor_id [])) else pure tt

  initialized_lem :
      w.initialized ≡ true
      → transition a tx event raw metadata w ≡ (unless_stopped w.stopped_by_recovery >>= λ _. own) w
  unfolding transition transition_with
  initialized_lem ready =
      let start = (calls_of a).start_up in
      ap
        (λ b.
          (((if b then pure tt else start)
                >> (gets (λ (v : World D S). v.stopped_by_recovery) >>= unless_stopped))
              >>= λ _. own)
            w)
        ready

  running :
      (o : Option (Snapshot V))
      → w.initialized ≡ true
      → w.stopped_by_recovery ≡ false
      → a.store.get_transaction tx w.rest.0 ≡ o
      → transition a tx event raw metadata w
        ≡ on_own_transaction a (calls_of a) tx event raw metadata o w
  running o ready runs found =
      initialized_lem ready
      ∙ ap (λ b. (unless_stopped b >>= λ _. own) w) runs
      ∙ ap (λ x. on_own_transaction a (calls_of a) tx event raw metadata x w) found

  on_matches :
      (s : Snapshot V) (ms : List MatchedTransition)
      → w.initialized ≡ true
      → w.stopped_by_recovery ≡ false
      → a.store.get_transaction tx w.rest.0 ≡ some s
      → s.transaction.machine_id ≡ a.machine.id
      → resolve_transitions_for_event a.machine s.transaction.state_value event ≡ ms
      → transition a tx event raw metadata w
        ≡ handle_matches a (calls_of a) s.transaction event raw metadata ms w
  unfolding execute_transition_on_snapshot
  on_matches s ms ready runs found mine matches =
      running (some s) ready runs found
      ∙ ap
          (λ b.
            (if b
                then execute_transition_on_snapshot a (calls_of a) s.transaction event raw metadata
                else raise (raised (transaction_not_found_error tx)))
              w)
          ((eq_iff s.transaction.machine_id a.machine.id).1 mine)
      ∙ ap (λ x. handle_matches a (calls_of a) s.transaction event raw metadata x w) matches

  -- A transition of an initialized actor that is refused, for any of the reasons, throws the
  -- reason's error and changes nothing: no hook is called, no row is written, no breaker and no
  -- counter moves. In a parallel state with several matches, the first whose validator rejects the
  -- input decides, whatever those behind it would do.
  pub transition-Refused :
      (e : Thrown)
      → w.initialized ≡ true
      → Refused a tx event raw w e
      → transition a tx event raw metadata w ≡ (threw (raised e), w)
  transition-Refused e ready (stopped halted) =
      initialized_lem ready ∙ ap (λ b. (unless_stopped b >>= λ _. own) w) halted
  transition-Refused e ready (absent runs missing) = running none ready runs missing
  transition-Refused e ready (foreign s runs found other) =
      running (some s) ready runs found
      ∙ elim (Bool-cases (s.transaction.machine_id == a.machine.id)) [
        | inl same ↦ absurd (other ((eq_iff s.transaction.machine_id a.machine.id).0 same))
        | inr differs ↦
            ap
              (λ b.
                (if b
                    then execute_transition_on_snapshot a (calls_of a) s.transaction event raw
                        metadata
                    else raise (raised (transaction_not_found_error tx)))
                  w)
              differs
      ]
  transition-Refused e ready (unhandled s runs found mine quiet) =
      let v = s.transaction.state_value in
      on_matches s [] ready runs found mine (
        none_matches event (ActiveIn a.machine v) (resolve_transitions_for_event a.machine v event)
          (matches_exact a.machine v event).0 quiet)
  transition-Refused e ready (invalid s before after m e' runs found mine matches h r) =
      on_matches s (before ++ m ∷ after) ready runs found mine matches
      ∙ matched_invalid (calls_of a) s.transaction before after m e' h r
