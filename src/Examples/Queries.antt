-- ===== src/Examples/Queries.antt =====
-- Queries and deletions on two transactions (store/sqlite-store.ts), and counts on documents
-- (store/mongodb-store.ts).
use dfsm.Prelude.{
  ℕ, ◌+◌, String, ◌≡◌, refl, Bool, true, none, some, List, [], ◌∷◌, map, length, filter,
  if◌then◌else◌,
}
use dfsm.Prelude.Dict.{includes}
use dfsm.Errors.{ok}
use dfsm.Machine.StateValue.{leaf, TransactionStatus, in_flight, completed}
use dfsm.Store.{Transaction, QueryFilter}
use dfsm.Store.Sqlite.{Db, find_transaction, get_uncompensated_stack, delete_transactions}
use dfsm.Store.Sqlite.Queries.{
  TieOrder, where_clause, count_transactions, summary_of, query_transactions,
}
use dfsm.Store.Sqlite.Queries.Results.{Ascending, query_whole}
use dfsm.Store.Sqlite.Deletion.{delete_exact}
use dfsm.Store.Mongo
use dfsm.Store.Mongo.{Document, new_document}
use dfsm.Store.Mongo.Documents.{rows}
use dfsm.Store.Mongo.Filters.{counts_agree}

abbrev row : String → TransactionStatus → ℕ → Transaction ℕ
row id status updated_at = record {
  transaction_id = id;
  machine_id = "order";
  machine_version = "1";
  actor_id = "a";
  state_value = leaf "open";
  context = 4;
  status = status;
  active_step = none;
  last_error = none;
  version = 1;
  lease_owner = none;
  lease_expires_at = none;
  created_at = 10;
  updated_at = updated_at;
}

abbrev tables : Db ℕ
tables = record {
  transactions = row "t1" in_flight 30 ∷ row "t2" completed 20 ∷ row "t3" in_flight 25 ∷ [];
  stack = [];
}

abbrev running : QueryFilter
running = record {
  machine_id = some "order";
  actor_id = none;
  transaction_ids = some [];
  statuses = some (in_flight ∷ []);
  stuck_before_timestamp = none;
  older_than_timestamp = some 40;
  state_equals = some (leaf "open");
  limit = none;
  offset = none;
}

-- SQLite takes rows with the same `updated_at` as they come.
abbrev as_stored : TieOrder ℕ
as_stored t u = true

query_test :
    query_transactions as_stored (some running) 60 30 tables
    ≡ ok (
        summary_of 60 30 tables (row "t3" in_flight 25)
        ∷ summary_of 60 30 tables (row "t1" in_flight 30)
        ∷ [])
unfolding query_transactions
query_test = refl

query_whole_example :
    (rows : List (Transaction ℕ)) × (query_transactions as_stored (some running) 60 30 tables
      ≡ ok (map (summary_of 60 30 tables) rows))
    × Ascending rows
    × (length rows ≡ count_transactions (some running) tables)
    × ((q : Transaction ℕ → Bool)
        → length (filter q rows)
          ≡ length (filter q (filter (where_clause (some running)) tables.transactions)))
query_whole_example = query_whole as_stored (some running) 60 30 tables refl refl

delete_exact_example :
    ((delete_transactions ("t1" ∷ "t9" ∷ []) tables).0
        + length (delete_transactions ("t1" ∷ "t9" ∷ []) tables).1.transactions
      ≡ 3)
    × ((j : String)
        → find_transaction j (delete_transactions ("t1" ∷ "t9" ∷ []) tables).1.transactions ≡ (
            if includes j ("t1" ∷ "t9" ∷ []) then none else find_transaction j tables.transactions))
    × ((j : String)
        → get_uncompensated_stack j (delete_transactions ("t1" ∷ "t9" ∷ []) tables).1
          ≡ (if includes j ("t1" ∷ "t9" ∷ []) then [] else get_uncompensated_stack j tables))
delete_exact_example = delete_exact ("t1" ∷ "t9" ∷ []) tables

abbrev documents : List (Document ℕ)
documents = new_document (row "t1" in_flight 30) ∷ new_document (row "t2" completed 20) ∷ []

counts_agree_example :
    Mongo.count_transactions (some (record running { stuck_before_timestamp = some 35 })) documents
    ≡ count_transactions
        (some (record running { stuck_before_timestamp = some 35 }))
        (record { transactions = rows documents; stack = [] })
counts_agree_example =
    counts_agree (some (record running { stuck_before_timestamp = some 35 })) documents []
