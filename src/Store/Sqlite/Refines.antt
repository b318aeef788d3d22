-- ===== src/Store/Sqlite/Refines.antt =====
-- `SqliteStore implements StateStore` (store/sqlite-store.ts, store/store.ts).
use dfsm.Prelude.{
  ℕ, suc, String, ◌≡◌, refl, ap, ◌∙◌, sym, none, some, [], Option-cases, inl, inr, if_both, eq_iff,
  filter,
}
use mathlib.Core.List.{append-nil}
use dfsm.Errors.{Result, ok}
use dfsm.Store.{Transaction, Patch}
use dfsm.Store.Contract.{StateStore, row_of, Lawful}
use dfsm.Store.Sqlite.{
  Db, find_transaction, sort_desc, numbered, pending_of, create_transaction, get_transaction,
  patched, update_transaction, get_uncompensated_stack, mark_compensation_executed,
  delete_transactions,
}
use dfsm.Store.Sqlite.Columns.{patched-IsPatched}
use dfsm.Store.Sqlite.Queries.{TieOrder, count_transactions, query_transactions}
use dfsm.Store.Sqlite.Rows.{Keyed, found_id, create_fresh, find-append}
use dfsm.Store.Sqlite.Versions.{update_applies, update_refuses, operations-Keyed}
use dfsm.Store.Sqlite.Marks.{pending-mark}

module _ {V : Type 0} where
  -- `class SqliteStore implements StateStore`
  abbrev pub sqlite_store : TieOrder V → StateStore V (Db V)
  sqlite_store ties = record {
    create_transaction = create_transaction;
    get_transaction = get_transaction;
    update_transaction = update_transaction;
    get_uncompensated_stack = get_uncompensated_stack;
    mark_compensation_executed = mark_compensation_executed;
    count_transactions = count_transactions;
    query_transactions = query_transactions ties;
    delete_transactions = delete_transactions;
  }

  pub row-get_transaction :
      (id : String) (db : Db V)
      → row_of (get_transaction id db) ≡ find_transaction id db.transactions
  unfolding get_transaction
  row-get_transaction id db = elim (Option-cases (find_transaction id db.transactions)) [
    | inl absent ↦ rw (absent, get_transaction)
    | inr (t, found) ↦ rw (found, get_transaction)
  ]

  created :
      (db : Db V) (t : Transaction V)
      → find_transaction t.transaction_id db.transactions ≡ none
      → ((create_transaction t db).0 ≡ ok tt)
        × (find_transaction t.transaction_id (create_transaction t db).1.transactions ≡ some t)
  unfolding create_transaction
  created db t absent = (
    rw (absent, create_transaction),
    rw (create_fresh t db absent, find-append t.transaction_id t db.transactions absent)
        (rw ((eq_iff t.transaction_id t.transaction_id).1 refl)),
  )

  pending-update :
      (db : Db V) (id : String) (v : ℕ) (p : Patch V)
      → get_uncompensated_stack id (update_transaction id v p [] db).1
        ≡ get_uncompensated_stack id db
  unfolding update_transaction get_uncompensated_stack numbered
  pending-update db id v p =
      if_both
        (λ (r : Result ℕ × Db V). get_uncompensated_stack id r.1 ≡ get_uncompensated_stack id db) _
        (ap (λ es. sort_desc (filter (pending_of id) es)) (append-nil db.stack)) refl

  -- The SQLite store keeps the promises of the interface: each operation keeps ids unique; a row
  -- that is found has the id asked for; a row that is created is there; an update with the row's
  -- version is applied, with the columns that the patch gives and no other column changed but the
  -- time, and counts the version up, one with another version is refused and changes nothing; a
  -- compensation that is marked is pending no more and the others stay in their order; an update
  -- that appends no compensation changes no pending one.
  pub sqlite_store-Lawful :
      (ties : TieOrder V) → Lawful (sqlite_store ties) (λ db. Keyed db.transactions)
  unfolding mark_compensation_executed
  sqlite_store-Lawful ties = record {
    create_IsValid = λ db t k. (operations-Keyed db k).0 t;
    update_IsValid = λ db id v p cs k. (operations-Keyed db k).1 id v p cs;
    mark_IsValid = λ db id seq at k. k;
    delete_IsValid = λ db ids k. (operations-Keyed db k).3 ids;
    found_id = λ db id t h.
        found_id id db.transactions t.transaction (sym (row-get_transaction id db) ∙ ap row_of h);
    created = λ db t k absent.
        let c = created db t (sym (row-get_transaction t.transaction_id db) ∙ absent) in
        (c.0, row-get_transaction t.transaction_id (create_transaction t db).1 ∙ c.1);
    update_current = λ db id v p cs t k found same.
        let a = update_applies id v p cs db t k (sym (row-get_transaction id db) ∙ found) same in
        (
          patched (suc v) p t,
          a.0,
          row-get_transaction id (update_transaction id v p cs db).1 ∙ a.1,
          patched-IsPatched (suc v) p t,
        );
    update_stale = λ db id v p cs t k found stale.
        update_refuses id v p cs db t k (sym (row-get_transaction id db) ∙ found) stale;
    pending_mark = λ db id seq at k. pending-mark id seq at db;
    mark_keeps_row = λ db id j seq at.
        row-get_transaction j (mark_compensation_executed id seq at db)
        ∙ sym (row-get_transaction j db);
    pending_update = pending-update;
  }
