-- ===== src/Runtime/Bindings/Notes.antt =====
-- What the walk of `compileMachineBindings` (runtime/actor.ts) notes as missing.
use dfsm.Prelude.{
  String, ◌≡◌, refl, ap, ◌∙◌, sym, Bool-cases, inl, inr, Option, none, some, List, [], ◌∷◌, ◌++◌,
  map, arith, if_both,
}
use mathlib.Core.Path.{subst}
use mathlib.Core.List.{append-nil, append_assoc}
use dfsm.Prelude.Dict.{Dict, includes}
use dfsm.Policy.Breaker.Manager.{Breakers}
use dfsm.Machine.{NodeInfo, Edge, StateNode, States, state, no_states, child, MachineDefinition}
use dfsm.Machine.Finalize.{given}
use dfsm.Errors.{Exec}
use dfsm.Runtime.{HookEvent, EffectRequest, EffectCode}
use dfsm.Runtime.Registry.{Registry, resolve}
use dfsm.Runtime.Bindings.{
  Declared, Compiled, note_missing, note_given, add_effect, add_hook, verify_effect_list,
  verify_hooks, verify_slots, compensate_name, bind_edge, compile_edge, compile_edges, compile_done,
  compile_node, walk_state, walk_states, compile_all,
}
use dfsm.Runtime.Bindings.References.{
  Reference, effect_ref, hook_ref, transition_ref, compensate_ref, reference_name, is_there,
  optional, is_registered, required, slot_references, edge_references, edges_references,
  done_references, node_references, state_references, states_references, references,
}
use dfsm.Runtime.Bindings.Known.{resolve_known}

module _ {V D S : Type 0} (h : Registry V D S) (d : Declared V) where
  -- `f` notes as missing what `rs` requires, behind what is there.
  record Notes (f : Compiled V D S → Compiled V D S) (rs : List Reference) : Type 0 where
    at : (c : Compiled V D S) → (f c).missing ≡ c.missing ++ required h d rs

  required-append :
      (rs ss : List Reference) → required h d (rs ++ ss) ≡ required h d rs ++ required h d ss
  required-append [] ss = ground arith
  required-append (r ∷ rs) ss = ground (arith, required-append rs ss)

  Notes-nothing :
      (f : Compiled V D S → Compiled V D S)
      → ((c : Compiled V D S) → (f c).missing ≡ c.missing)
      → Notes f []
  Notes-nothing f h = record {
    at = λ c. h c ∙ sym (ap (λ xs. c.missing ++ xs) (ground arith) ∙ append-nil c.missing);
  }

  Notes-then :
      (f g : Compiled V D S → Compiled V D S) (rs ss : List Reference)
      → Notes f rs
      → Notes g ss
      → Notes (λ c. g (f c)) (rs ++ ss)
  Notes-then f g rs ss nf ng = record {
    at = λ c.
        ng.at (f c)
        ∙ ap (λ xs. xs ++ required h d ss) (nf.at c)
        ∙ append_assoc c.missing (required h d rs) (required h d ss)
        ∙ ap (λ xs. c.missing ++ xs) (sym (required-append rs ss));
  }

  note_missing-Notes :
      {A : Type 0} (o : Option A) (r : Reference)
      → is_registered h d r ≡ is_there o
      → Notes (note_missing h d (reference_name r) o) (r ∷ [])
  note_missing-Notes none r e = record {
    at = λ c. elim (Bool-cases d.strict) [
      | inl strict ↦ rw (strict, e) refl
      | inr lenient ↦ rw lenient (sym (append-nil c.missing))
    ];
  }
  note_missing-Notes (some a) r e = record {
    at = λ c.
        let nothing : required h d (r ∷ []) ≡ [] = rw e (ground arith) in
        rw nothing (sym (append-nil c.missing));
  }

  note_given-Notes :
      {A : Type 0} (table : Dict A) (f : String → Reference) (o : Option String)
      → ((n : String) → is_registered h d (f n) ≡ is_there (resolve table n d.namespace))
      → ((n : String) → reference_name (f n) ≡ n)
      → Notes (note_given h d table o) (optional f o)
  note_given-Notes table f none e k = Notes-nothing (λ c. c) (λ c. refl)
  note_given-Notes table f (some n) e k =
      subst (λ m. Notes (note_missing h d m (resolve table n d.namespace)) (f n ∷ [])) (k n)
        (note_missing-Notes (resolve table n d.namespace) (f n) (e n))

  add_effect-Notes :
      (o : Option (String × (EffectRequest V → EffectCode V D S))) → Notes (add_effect h d o) []
  add_effect-Notes none = Notes-nothing (λ c. c) (λ c. refl)
  add_effect-Notes (some (name, fn)) = Notes-nothing (add_effect h d (some (name, fn))) (λ c.
      if_both (λ (x : Compiled V D S). x.missing ≡ c.missing) (includes name c.effect_names) refl
        refl)

  add_hook-Notes :
      (slot : String) (o : Option (String × (HookEvent V → Exec (D × S) (Unit {0}))))
      → Notes (add_hook h d slot o) []
  add_hook-Notes slot none = Notes-nothing (λ c. c) (λ c. refl)
  add_hook-Notes slot (some (name, fn)) =
      Notes-nothing (add_hook h d slot (some (name, fn))) (λ c. refl)

  effects-Notes : (es : List String) → Notes (verify_effect_list h d es) (map effect_ref es)
  unfolding verify_effect_list
  effects-Notes [] = Notes-nothing (λ c. c) (λ c. refl)
  effects-Notes (e ∷ es) =
      let o = resolve h.effects e d.namespace in
      Notes-then (λ c. add_effect h d o (note_missing h d e o c)) (verify_effect_list h d es)
        (effect_ref e ∷ []) (map effect_ref es)
        (Notes-then (note_missing h d e o) (add_effect h d o) (effect_ref e ∷ []) []
          (note_missing-Notes o (effect_ref e) (resolve_known h d h.effects e))
          (add_effect-Notes o))
        (effects-Notes es)

  hooks-Notes :
      (slot : String) (refs : List String) → Notes (verify_hooks h d slot refs) (map hook_ref refs)
  unfolding verify_hooks
  hooks-Notes slot [] = Notes-nothing (λ c. c) (λ c. refl)
  hooks-Notes slot (r ∷ rs) =
      let o = resolve h.hooks r d.namespace in
      Notes-then (λ c. add_hook h d slot o (note_missing h d r o c)) (verify_hooks h d slot rs)
        (hook_ref r ∷ []) (map hook_ref rs)
        (Notes-then (note_missing h d r o) (add_hook h d slot o) (hook_ref r ∷ []) []
          (note_missing-Notes o (hook_ref r) (resolve_known h d h.hooks r)) (add_hook-Notes slot o))
        (hooks-Notes slot rs)

  slots-Notes :
      (slots : Dict (List String)) → Notes (verify_slots h d slots) (slot_references h d slots)
  unfolding verify_slots
  slots-Notes [] = Notes-nothing (λ c. c) (λ c. refl)
  slots-Notes ((slot, refs) ∷ slots) =
      Notes-then (verify_hooks h d slot refs) (verify_slots h d slots) (map hook_ref refs)
        (slot_references h d slots) (hooks-Notes slot refs) (slots-Notes slots)

  module _ (machine : MachineDefinition) where
    edge-Notes :
        (path event : String) (e : Edge)
        → Notes (compile_edge h d machine path event e) (edge_references h d machine path event e)
    unfolding compile_edge
    edge-Notes path event e =
        let name = compensate_name h d machine path event e in
        Notes-then (note_given h d h.transitions (given e.transition))
          (λ c.
            bind_edge h d machine path event e
              (verify_effect_list h d e.effects (note_given h d h.compensations name c)))
          (optional transition_ref (given e.transition))
          (optional compensate_ref name ++ map effect_ref e.effects)
          (note_given-Notes h.transitions transition_ref (given e.transition)
            (λ n. resolve_known h d h.transitions n) (λ n. refl))
          (Notes-then (note_given h d h.compensations name)
            (λ c. bind_edge h d machine path event e (verify_effect_list h d e.effects c))
            (optional compensate_ref name) (map effect_ref e.effects)
            (note_given-Notes h.compensations compensate_ref name
              (λ n. resolve_known h d h.compensations n) (λ n. refl))
            (record { at = (effects-Notes e.effects).at }))

    edges-Notes :
        (path : String) (es : Dict Edge)
        → Notes (compile_edges h d machine path es) (edges_references h d machine path es)
    unfolding compile_edges
    edges-Notes path [] = Notes-nothing (λ c. c) (λ c. refl)
    edges-Notes path ((event, e) ∷ es) =
        Notes-then (compile_edge h d machine path event e) (compile_edges h d machine path es)
          (edge_references h d machine path event e) (edges_references h d machine path es)
          (edge-Notes path event e) (edges-Notes path es)

    done-Notes :
        (path : String) (o : Option Edge)
        → Notes (compile_done h d machine path o) (done_references h d machine path o)
    done-Notes path none = Notes-nothing (λ c. c) (λ c. refl)
    done-Notes path (some e) = edge-Notes path "$onDone" e

    node-Notes : (i : NodeInfo) → Notes (compile_node h d machine i) (node_references h d machine i)
    unfolding compile_node
    node-Notes i =
        let edges = compile_edges h d machine i.path i.on in
        let done = compile_done h d machine i.path i.on_done in
        Notes-then (verify_effect_list h d i.entry)
          (λ c. done (edges (verify_effect_list h d i.exit c))) (map effect_ref i.entry) _
          (effects-Notes i.entry)
          (Notes-then (verify_effect_list h d i.exit) (λ c. done (edges c)) (map effect_ref i.exit)
            _ (effects-Notes i.exit)
            (Notes-then edges done (edges_references h d machine i.path i.on)
              (done_references h d machine i.path i.on_done) (edges-Notes i.path i.on)
              (done-Notes i.path i.on_done)))

    mutual
      unfolding walk_state walk_states

      state-Notes :
          (n : StateNode) → Notes (walk_state h d machine n) (state_references h d machine n)
      state-Notes (state i cs) =
          Notes-then (compile_node h d machine i) (walk_states h d machine cs)
            (node_references h d machine i) (states_references h d machine cs) (node-Notes i)
            (states-Notes cs)

      states-Notes :
          (ns : States) → Notes (walk_states h d machine ns) (states_references h d machine ns)
      states-Notes no_states = Notes-nothing (λ c. c) (λ c. refl)
      states-Notes (child k n rest) =
          Notes-then (walk_state h d machine n) (walk_states h d machine rest)
            (state_references h d machine n) (states_references h d machine rest) (state-Notes n)
            (states-Notes rest)

    pub all_noted :
        (breakers : Breakers)
        → (compile_all h d machine breakers).missing ≡ required h d (references h d machine)
    unfolding compile_all
    all_noted breakers =
        ((Notes-then (verify_effect_list h d d.effects)
            (λ c. walk_states h d machine machine.states (verify_slots h d d.hooks c))
            (map effect_ref d.effects) _ (effects-Notes d.effects)
            (Notes-then (verify_slots h d d.hooks) (walk_states h d machine machine.states)
              (slot_references h d d.hooks) (states_references h d machine machine.states)
              (slots-Notes d.hooks) (states-Notes machine.states))).at
          _)
