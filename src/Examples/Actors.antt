-- ===== src/Examples/Actors.antt =====
-- An actor (runtime/actor.ts) on the SQLite store, with one hook and one compensation.
use dfsm.Prelude.{
  ℕ, ◌+◌, String, ◌≡◌, refl, ap, ◌∙◌, sym, true, false, Option, Option-cases, inl, inr, none, some,
  [], ◌∷◌, arith, length, filter, map, take,
}
use mathlib.Core.Path.{subst}
use mathlib.Core.Option.{some-injective}
use dfsm.Errors.{Thrown, transaction_not_found_error, raised, ok, threw, Exec}
use dfsm.Examples.Machines.{order}
use dfsm.Machine.StateValue.{leaf, in_flight}
use dfsm.Policy.{Ratio}
use dfsm.Store.{Transaction, CompensationEntry, Snapshot}
use dfsm.Store.Contract.{Lawful, row_of}
use dfsm.Store.Sqlite.{Db, get_transaction}
use dfsm.Store.Sqlite.Queries.{TieOrder, where_clause, sort_asc, summary_of, query_transactions}
use dfsm.Store.Sqlite.Rows.{Keyed, found_id}
use dfsm.Store.Mongo.Valid.{IsValidCollection}
use dfsm.Store.Mongo.Refines.{mongo_store, mongo_store-Lawful}
use dfsm.Store.Sqlite.Refines.{sqlite_store, sqlite_store-Lawful, row-get_transaction}
use dfsm.Runtime.{
  Actor, CompensateRequest, EffectRequest, EffectCode, finish, send, HookEvent, mark_fail, stop,
}
use dfsm.Runtime.Monad.{pure}
use dfsm.Runtime.Report.{clean_delete}
use dfsm.Runtime.World.{World, get_or}
use dfsm.Runtime.Compensation.{unwind_compensation_stack}
use dfsm.Runtime.Compensation.Unwound.{QuietHandlers, Leads, unwind_exhausts}
use dfsm.Runtime.Entry.{transition_with, calls_to}
use dfsm.Runtime.Lifecycle.{transition, start_up, execute_recovery_sweep}
use dfsm.Runtime.Transition.Refused.{absent, transition-Refused}
use dfsm.Runtime.Levels.Enough.{levels_enough}
use dfsm.Runtime.Recovery.Isolated.{Answers, SweepEnd, sweep_isolates}
use dfsm.Runtime.CleanUp.{CleanUpOptions, force_clean_up}
use dfsm.Runtime.CleanUp.Selected.{selected}
use dfsm.Runtime.CleanUp.DryRun.{counted, dry_run_counts}
use dfsm.Runtime.Introspection.{get_active_count, get_status_breakdown}
use dfsm.Runtime.Introspection.Counts.{own, breakdown_complete}

-- rows with the same `updated_at` as the table has them
abbrev as_stored : TieOrder ℕ
as_stored t u = true

mongo_store-Lawful_example : Lawful (mongo_store as_stored) IsValidCollection
mongo_store-Lawful_example = mongo_store-Lawful as_stored

sqlite_store-Lawful_example : Lawful (sqlite_store as_stored) (λ db. Keyed db.transactions)
sqlite_store-Lawful_example = sqlite_store-Lawful as_stored

-- counts the hooks' calls in the number outside
abbrev counting_hook : HookEvent ℕ → Exec (Db ℕ × ℕ) (Unit {0})
counting_hook e (db, n) = (ok tt, (db, n + 1))

-- takes the input of the compensated step off the context
abbrev refund : CompensateRequest ℕ → Exec (Db ℕ × ℕ) (Option ℕ)
refund r (db, n) = (ok (some (r.current_context + r.input_snapshot)), (db, n))

-- sends the event `add` on the effect's own transaction
abbrev add_again : EffectRequest ℕ → EffectCode ℕ (Db ℕ) ℕ
add_again r = send "add" 0 (λ result. finish)

abbrev half : ℕ → Ratio
half n = record { num = 1; den = 2 }

abbrev text_of : Thrown → String
text_of e = "failed"

abbrev actor : Actor ℕ (Db ℕ) ℕ
actor = record {
  machine = order;
  machine_version = "1";
  namespace = none;
  strict = true;
  actor_id = "a";
  store = sqlite_store as_stored;
  now = λ n. n;
  sleep = λ ms w. w;
  random_fn = half;
  message = text_of;
  state_json = λ v. "";
  undefined = 0;
  is_nullish = λ v. false;
  no_metadata = 0;
  recovery_metadata = 1;
  context_validator = none;
  bindings = λ path event. none;
  resolve_compensate = λ key. some (key, refund);
  resolve_effect = λ name. some (name, add_again);
  hooks = counting_hook ∷ [];
  record_transition = λ r. pure tt;
  log_recovery = λ id state. pure tt;
  recovery = record {
    enabled = true;
    stuck_threshold_ms = 100;
    default_action = stop;
    state_actions = ("cart", mark_fail) ∷ [];
    halt_actor_on_stop = true;
  };
  max_effect_chain_depth = 3;
}

abbrev row : String → ℕ → Transaction ℕ
row id at = record {
  transaction_id = id;
  machine_id = "order";
  machine_version = "1";
  actor_id = "a";
  state_value = leaf "cart";
  context = 4;
  status = in_flight;
  active_step = none;
  last_error = none;
  version = 2;
  lease_owner = some "a";
  lease_expires_at = some 50;
  created_at = at;
  updated_at = at;
}

abbrev pushed : ℕ → ℕ → CompensationEntry ℕ
pushed seq input = record {
  transaction_id = "t1";
  step_seq = seq;
  entry = record {
    transition_key = "charge";
    compensate_key = "refund";
    from_state = leaf "cart";
    input_snapshot = input;
    context_before = 0;
    created_at = 10;
    compensated_at = none;
  };
}

abbrev world : World (Db ℕ) ℕ
world = record {
  rest = (
    record { transactions = row "t1" 10 ∷ row "t2" 900 ∷ []; stack = pushed 1 5 ∷ pushed 2 7 ∷ [] },
    1000,
  );
  breakers = [];
  revisions = [];
  depths = [];
  initialized = true;
  stopped_by_recovery = false;
  scheduler = record {
    config = record {
      enabled = false;
      sweep_interval_ms = 1000;
      stuck_threshold_ms = 100;
      retention_ms = some 50;
      batch_size = 10;
    };
    is_running = false;
    last_run_at = none;
    next_run_at = none;
    total_sweeps = 0;
    total_recovered_count = 0;
    total_retention_cleaned_count = 0;
    last_sweep_report = none;
  };
}

handlers-QuietHandlers : QuietHandlers actor
handlers-QuietHandlers = record {
  hooks = (λ e r. (tt, r.1 + 1, refl), tt);
  compensations = λ key name fn found r d.
      let e : refund ≡ fn = ap (λ q. q.1) (some-injective (key, refund) (name, fn) found) in
      subst (λ g. (v : Option ℕ) × (s : ℕ) × (g r d ≡ (ok v, (d.0, s)))) e
        (some (r.current_context + r.input_snapshot), d.1, refl);
}

unwind_exhausts_example :
    Leads (unwind_compensation_stack actor "t1" 4 (some "declined")) world (λ r d.
      (r.1 ≡ length ((sqlite_store as_stored).get_uncompensated_stack "t1" world.rest.0))
      × ((sqlite_store as_stored).get_uncompensated_stack "t1" d ≡ []))
unwind_exhausts_example =
    unwind_exhausts actor handlers-QuietHandlers (λ db. Keyed db.transactions)
      (sqlite_store-Lawful as_stored) "t1" (some "declined") 4 world (refl, (refl, tt))

transition-Refused_example :
    transition actor "t9" "add" 0 0 world
    ≡ (threw (raised (transaction_not_found_error "t9")), world)
unfolding get_transaction
transition-Refused_example =
    transition-Refused actor "t9" "add" 0 0 world (transaction_not_found_error "t9") refl
      (absent refl refl)

sqlite_ids :
    (id : String) (d : Db ℕ) (s : Snapshot ℕ)
    → (sqlite_store as_stored).get_transaction id d ≡ some s
    → s.transaction.transaction_id ≡ id
sqlite_ids id d s h =
    found_id id d.transactions s.transaction (sym (row-get_transaction id d) ∙ ap row_of h)

levels_enough_example :
    (transition actor "t1" "add" 0 0 world
      ≡ transition_with actor (calls_to actor (start_up actor) 7) "t1" "add" 0 0 world)
    × (get_or 0 "t1" (transition actor "t1" "add" 0 0 world).1.depths ≡ get_or 0 "t1" world.depths)
levels_enough_example = levels_enough actor "t1" sqlite_ids "add" 0 0 7 world (omega arith)

sqlite-Answers : Answers (sqlite_store as_stored)
unfolding query_transactions
sqlite-Answers f now threshold d h =
    let rows = sort_asc as_stored (filter (where_clause (some f)) d.transactions) in
    elim (Option-cases f.limit) [
      | inl all_rows ↦ (map (summary_of now threshold d) rows, rw (all_rows, h) refl)
      | inr (n, limited) ↦ (map (summary_of now threshold d) (take n rows), rw (limited, h) refl)
    ]

sweep_isolates_example : SweepEnd actor (execute_recovery_sweep actor 100 world)
sweep_isolates_example = sweep_isolates actor sqlite-Answers 100 world

abbrev dry : CleanUpOptions
dry = record {
  actor_id = none;
  transaction_ids = none;
  statuses = none;
  include_in_flight = some true;
  stuck_only = some true;
  stuck_threshold_ms = none;
  older_than_ms = none;
  action = some clean_delete;
  dry_run = some true;
}

dry_run_counts_example :
    force_clean_up actor dry world
    ≡ (ok (counted (length (filter (selected actor dry 1000) world.rest.0.transactions))), world)
dry_run_counts_example = dry_run_counts actor as_stored dry world refl refl

breakdown_complete_example :
    ((get_status_breakdown actor world).non_terminal_count ≡ get_active_count actor none world)
    × ((get_status_breakdown actor world).non_terminal_count
          + (get_status_breakdown actor world).terminal_count
        ≡ length (filter (own actor) world.rest.0.transactions))
breakdown_complete_example = breakdown_complete actor as_stored world refl
