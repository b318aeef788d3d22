-- ===== src/Store/Sqlite/Columns.antt =====
-- The `SET` clauses of `updateTransaction` (store/sqlite-store.ts).
use dfsm.Prelude.{ℕ, refl, Option, none, some}
use dfsm.Store.{Transaction, Patch}
use dfsm.Store.Contract.{Column, IsPatched}
use dfsm.Store.Sqlite.{set_column, patched}

set_column-Column : {A : Type 0} (o : Option A) (old : A) → Column o old (set_column o old)
set_column-Column none old = refl
set_column-Column (some new) old = refl

pub patched-IsPatched :
    {V : Type 0} (v : ℕ) (p : Patch V) (t : Transaction V) → IsPatched v p t (patched v p t)
patched-IsPatched v p t = record {
  transaction_id = refl;
  machine_id = refl;
  machine_version = refl;
  actor_id = refl;
  state_value = set_column-Column p.state_value t.state_value;
  context = set_column-Column p.context t.context;
  status = set_column-Column p.status t.status;
  active_step = set_column-Column p.active_step t.active_step;
  last_error = set_column-Column p.last_error t.last_error;
  version = refl;
  lease_owner = set_column-Column p.lease_owner t.lease_owner;
  lease_expires_at = set_column-Column p.lease_expires_at t.lease_expires_at;
  created_at = refl;
  updated_at = refl;
}
