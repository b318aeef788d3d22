-- ===== src/Runtime/Bindings/Known.antt =====
-- `resolveEffect` and its like (runtime/registry.ts): a name is found if the map has it, with the
-- namespace or as it stands.
use dfsm.Prelude.{String, ◌≡◌, refl, ap, Bool-cases, inl, inr, Option, none, some, ◌||◌, ◌==◌}
use dfsm.Prelude.Dict.{Dict, get}
use dfsm.Machine.Finalize.{given}
use dfsm.Runtime.Qualify.{qualify_handler_name}
use dfsm.Runtime.Registry.{Registry, named, or_direct, resolve}
use dfsm.Runtime.Bindings.{Declared}
use dfsm.Runtime.Bindings.References.{is_there, is_known}

named_there :
    {A : Type 0} (n : String) (o : Option A) → (is_there o || is_there o) ≡ is_there (named n o)
named_there n none = refl
named_there n (some x) = refl

either_there :
    {A : Type 0} (q n : String) (o p : Option A)
    → (is_there o || is_there p) ≡ is_there (or_direct (named q o) (named n p))
either_there q n none none = refl
either_there q n none (some x) = refl
either_there q n (some x) p = refl

resolve_as :
    {A : Type 0} (table : Dict A) (n : String) (namespace g : Option String)
    → given namespace ≡ g
    → resolve table n namespace ≡ (elim g [
      | none ↦ named n (get n table)
      | some ns ↦
          or_direct
            (named
              (qualify_handler_name n namespace)
              (get (qualify_handler_name n namespace) table))
            (named n (get n table))
    ])
unfolding resolve
resolve_as table n namespace g h =
    ap
      (λ x. elim x [
        | none ↦ named n (get n table)
        | some ns ↦
            or_direct
              (named (qualify_handler_name n namespace)
                (get (qualify_handler_name n namespace) table))
              (named n (get n table))
      ])
      h

known_under :
    {A : Type 0} (table : Dict A) (n : String) (namespace : Option String)
    → (is_there (get (qualify_handler_name n namespace) table) || is_there (get n table))
      ≡ is_there (resolve table n namespace)
unfolding qualify_handler_name
known_under table n none = rw (resolve_as table n none none refl) (named_there n (get n table))
known_under table n (some ns) = elim (Bool-cases (ns == "")) [
  | inl empty ↦
      rw (resolve_as table n (some ns) none (rw empty refl), empty) (named_there n (get n table))
  | inr present ↦ rw (resolve_as table n (some ns) (some ns) (rw present refl)) (
      either_there (qualify_handler_name n (some ns)) n
        (get (qualify_handler_name n (some ns)) table) (get n table))
]

module _ {V D S : Type 0} (h : Registry V D S) (d : Declared V) where
  pub resolve_known :
      {A : Type 0} (table : Dict A) (n : String)
      → is_known h d table n ≡ is_there (resolve table n d.namespace)
  resolve_known table n = known_under table n d.namespace
