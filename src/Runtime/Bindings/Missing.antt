-- ===== src/Runtime/Bindings/Missing.antt =====
-- The handlers that `compileMachineBindings` (runtime/actor.ts) looks for.
use dfsm.Prelude.{String, ◌≡◌, List, [], ◌∷◌}
use mathlib.Core.Path.{subst}
use dfsm.Prelude.Dict.{includes}
use dfsm.Policy.Breaker.Manager.{Breakers}
use dfsm.Machine.{MachineDefinition}
use dfsm.Errors.{Result, ok, threw, raised, unregistered_handler_error}
use dfsm.Runtime.Registry.{Registry}
use dfsm.Runtime.Bindings.{
  Declared, Compiled, compile_all, or_throw, distinct, compile_machine_bindings,
}
use dfsm.Runtime.Bindings.Distinct.{NoRepeats, includes-distinct, distinct-NoRepeats}
use dfsm.Runtime.Bindings.References.{required, references}
use dfsm.Runtime.Bindings.Notes.{all_noted}

module _ {V D S : Type 0} (h : Registry V D S) (d : Declared V) where
  module _ (machine : MachineDefinition) where
    -- How a compilation ends that needs handlers of these names and does not find them.
    pub data Verdict : List String → Result (Compiled V D S) → Type 0 where
      complete : (c : Compiled V D S) → Verdict [] (ok c)
      incomplete :
          (name : String) (names reported : List String)
          → NoRepeats reported
          → ((n : String) → includes n reported ≡ includes n (name ∷ names))
          → Verdict (name ∷ names) (threw (raised (unregistered_handler_error machine.id reported)))

    thrown-Verdict :
        (names : List String) (c : Compiled V D S) → Verdict names (or_throw h d machine names c)
    thrown-Verdict [] c = complete c
    thrown-Verdict (n ∷ ns) c =
        incomplete n ns (distinct (n ∷ ns)) (distinct-NoRepeats (n ∷ ns))
          (λ k. includes-distinct k (n ∷ ns))

    -- Compilation succeeds if every name that the machine uses is registered, under the name with
    -- the namespace or as it stands, or if the compilation is not strict. Otherwise it throws an
    -- error with the machine's id and the qualified names of the names that no handler is
    -- registered for: all of them, no other, and none twice.
    pub missing_exact :
        (breakers : Breakers)
        → Verdict
            (required h d (references h d machine))
            (compile_machine_bindings h d machine breakers)
    unfolding compile_machine_bindings
    missing_exact breakers =
        let c = compile_all h d machine breakers in
        subst (λ names. Verdict names (or_throw h d machine c.missing c))
          (all_noted h d machine breakers) (thrown-Verdict c.missing c)
