-- ===== src/Examples/Bindings.antt =====
-- Compilations of bindings.
use dfsm.Prelude.{ℕ, true, none, some, [], ◌∷◌}
use dfsm.Runtime.{finish}
use dfsm.Runtime.Registry.{Registry}
use dfsm.Runtime.Bindings.{Declared, compile_machine_bindings}
use dfsm.Runtime.Bindings.References.{required, references}
use dfsm.Runtime.Bindings.Missing.{Verdict, missing_exact}
use dfsm.Examples.Machines.{order}

-- one effect, registered under a qualified name
abbrev registry : Registry ℕ (Unit {0}) (Unit {0})
registry = record {
  transitions = [];
  compensations = [];
  effects = ("shop.pay", λ r. finish) ∷ [];
  hooks = [];
  policy_defaults = none;
}

abbrev declared : Declared ℕ
declared = record {
  namespace = some "shop";
  strict = true;
  effects = "pay" ∷ "ship" ∷ "ship" ∷ [];
  hooks = [];
  validators = [];
}

missing_exact_example :
    Verdict registry declared order
      (required registry declared (references registry declared order))
      (compile_machine_bindings registry declared order [])
missing_exact_example = missing_exact registry declared order []
