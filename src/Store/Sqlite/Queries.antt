-- ===== src/Store/Sqlite/Queries.antt =====
-- `buildWhereClause`, `countTransactions` and `queryTransactions` of store/sqlite-store.ts.
--
-- `OFFSET` without `LIMIT` is no SQL that SQLite reads: the statement throws. SQLite
-- leaves open in which order rows with the same `updated_at` come: an argument of the query.
pub mod Results
use dfsm.Prelude.{
  ℕ, ◌+◌, String, Bool, true, false, ◌&&◌, ◌||◌, Option, none, some, List, [], ◌∷◌, map, ◌==◌, eqb,
  leb, ltb, length, take, drop, filter, if◌then◌else◌,
}
use dfsm.Prelude.Dict.{includes}
use dfsm.Errors.{error, raised, Result, ok, threw}
use dfsm.Machine.StateValue.{
  StateValue, leaf, node, Regions, no_regions, region, TransactionStatus, idle, in_flight,
  completed, compensating, compensated, failed,
}
use dfsm.Store.{Transaction, QueryFilter, Summary}
use dfsm.Store.Sqlite.{Db, pending_of}

-- whether two values have the same JSON text
abbrev mutual
  pub same_state : StateValue → StateValue → Bool
  same_state (leaf s) (leaf t) = s == t
  same_state (leaf s) (node qs) = false
  same_state (node rs) (leaf t) = false
  same_state (node rs) (node qs) = same_regions rs qs

  pub same_regions : Regions → Regions → Bool
  same_regions no_regions no_regions = true
  same_regions no_regions (region k w qs) = false
  same_regions (region j v rs) no_regions = false
  same_regions (region j v rs) (region k w qs) = j == k && (same_state v w && same_regions rs qs)

abbrev pub status_name : TransactionStatus → String
status_name idle = "IDLE"
status_name in_flight = "IN_FLIGHT"
status_name completed = "COMPLETED"
status_name compensating = "COMPENSATING"
status_name compensated = "COMPENSATED"
status_name failed = "FAILED"

-- `if (filter.x) clauses.push("t.x = ?")`
abbrev pub text_clause : Option String → String → Bool
text_clause none column = true
text_clause (some s) column = s == "" || column == s

-- `t.x IN (…)`, if the list is there and not empty
abbrev pub in_clause : Option (List String) → String → Bool
in_clause none column = true
in_clause (some []) column = true
in_clause (some (x ∷ xs)) column = includes column (x ∷ xs)

abbrev pub names_of : Option (List TransactionStatus) → Option (List String)
names_of none = none
names_of (some ss) = some (map status_name ss)

-- `t.updated_at <= ?`
abbrev pub until_clause : Option ℕ → ℕ → Bool
until_clause none column = true
until_clause (some limit) column = leb column limit

abbrev pub state_clause : Option StateValue → StateValue → Bool
state_clause none column = true
state_clause (some v) column = same_state column v

abbrev pub limit_of : Option QueryFilter → Option ℕ
limit_of none = none
limit_of (some f) = f.limit

abbrev pub offset_of : Option QueryFilter → Option ℕ
offset_of none = none
offset_of (some f) = f.offset

abbrev pub is_running : TransactionStatus → Bool
is_running in_flight = true
is_running compensating = true
is_running _ = false

-- whether a row comes before another one with the same `updated_at`
abbrev pub TieOrder : Type 0 → Type 0
TieOrder V = Transaction V → Transaction V → Bool

module _ {V : Type 0} where
  -- `WHERE` of `buildWhereClause`
  abbrev pub matches : QueryFilter → Transaction V → Bool
  matches f t =
      text_clause f.machine_id t.machine_id
      && (text_clause f.actor_id t.actor_id
          && (in_clause f.transaction_ids t.transaction_id
              && (in_clause (names_of f.statuses) (status_name t.status)
                  && (until_clause f.stuck_before_timestamp t.updated_at
                      && (until_clause f.older_than_timestamp t.updated_at
                          && state_clause f.state_equals t.state_value)))))

  abbrev pub where_clause : Option QueryFilter → Transaction V → Bool
  where_clause none t = true
  where_clause (some f) t = matches f t

  unfoldable pub count_transactions : Option QueryFilter → Db V → ℕ
  count_transactions f db = length (filter (where_clause f) db.transactions)

  -- `ORDER BY t.updated_at ASC`
  abbrev pub comes_first : TieOrder V → Transaction V → Transaction V → Bool
  comes_first ties t u =
      ltb t.updated_at u.updated_at || (eqb t.updated_at u.updated_at && ties t u)

  abbrev pub insert_asc : TieOrder V → Transaction V → List (Transaction V) → List (Transaction V)
  insert_asc ties t [] = t ∷ []
  insert_asc ties t (u ∷ us) = if comes_first ties t u then t ∷ u ∷ us else u ∷ insert_asc ties t us

  abbrev pub sort_asc : TieOrder V → List (Transaction V) → List (Transaction V)
  sort_asc ties [] = []
  sort_asc ties (t ∷ ts) = insert_asc ties t (sort_asc ties ts)

  -- `LIMIT` and `OFFSET`
  abbrev page : Option ℕ → Option ℕ → List (Transaction V) → Result (List (Transaction V))
  page none none ts = ok ts
  page (some limit) none ts = ok (take limit ts)
  page (some limit) (some offset) ts = ok (take limit (drop offset ts))
  page none (some offset) ts = threw (raised (error "near OFFSET: syntax error"))

  -- a row of the result; `now - updatedAt >= stuckThresholdMs` without subtraction
  abbrev pub summary_of : ℕ → ℕ → Db V → Transaction V → Summary V
  summary_of now stuck_threshold_ms db t = record {
    transaction_id = t.transaction_id;
    machine_id = t.machine_id;
    actor_id = t.actor_id;
    state_value = t.state_value;
    status = t.status;
    context = t.context;
    is_stuck = is_running t.status && leb (t.updated_at + stuck_threshold_ms) now;
    active_step = t.active_step;
    compensation_depth = length (filter (pending_of t.transaction_id) db.stack);
    version = t.version;
    created_at = t.created_at;
    updated_at = t.updated_at;
  }

  abbrev summaries : ℕ → ℕ → Db V → Result (List (Transaction V)) → Result (List (Summary V))
  summaries now stuck_threshold_ms db (ok ts) = ok (map (summary_of now stuck_threshold_ms db) ts)
  summaries now stuck_threshold_ms db (threw e) = threw e

  unfoldable pub query_transactions :
      TieOrder V → Option QueryFilter → ℕ → ℕ → Db V → Result (List (Summary V))
  query_transactions ties f now stuck_threshold_ms db =
      summaries now stuck_threshold_ms db
        (page (limit_of f) (offset_of f) (sort_asc ties (filter (where_clause f) db.transactions)))
