-- ===== src/Store/Mongo/Refines.antt =====
-- `MongoStateStore implements StateStore` (store/mongodb-store.ts, store/store.ts).
use dfsm.Prelude.{
  ℕ, suc, String, ◌≡◌, refl, ap, ◌∙◌, sym, Bool, ◌&&◌, Bool-cases, inl, inr, none, some, List, [],
  ◌∷◌, ◌++◌, eq_iff, if◌then◌else◌,
}
use dfsm.Errors.{ok}
use dfsm.Store.{Transaction}
use dfsm.Store.Contract.{StateStore, row_of, Lawful}
use dfsm.Store.Sqlite.{find_transaction, patched}
use dfsm.Store.Sqlite.Rows.{find-append, found_id}
use dfsm.Store.Sqlite.Columns.{patched-IsPatched}
use dfsm.Store.Sqlite.Queries.{TieOrder}
use dfsm.Store.Mongo.{
  Document, update_one, has_id, new_document, create_transaction, get_transaction,
  update_transaction, get_uncompensated_stack, has_seq, mark_op, mark_compensation_executed,
  count_transactions, query_transactions, delete_transactions,
}
use dfsm.Store.Mongo.Documents.{rows, row-get_transaction, rows-append}
use dfsm.Store.Mongo.Valid.{
  IsValidCollection, absent_document, create_fresh, create-Valid, update-Valid, mark-Valid,
  delete-Valid,
}
use dfsm.Store.Mongo.Pending.{pending-mark, pending-update}
use dfsm.Store.Mongo.Versions.{update-current, update-stale}

module _ {V : Type 0} where
  -- `class MongoStateStore implements StateStore`
  abbrev pub mongo_store : TieOrder V → StateStore V (List (Document V))
  mongo_store ties = record {
    create_transaction = create_transaction;
    get_transaction = get_transaction;
    update_transaction = update_transaction;
    get_uncompensated_stack = get_uncompensated_stack;
    mark_compensation_executed = mark_compensation_executed;
    count_transactions = count_transactions;
    query_transactions = query_transactions ties;
    delete_transactions = delete_transactions;
  }

  rows-mark :
      (q : Document V → Bool) (seq at : ℕ) (ds : List (Document V))
      → rows (update_one q (mark_op seq at) ds) ≡ rows ds
  rows-mark q seq at [] = refl
  rows-mark q seq at (d ∷ ds) = elim (Bool-cases (q d)) [
    | inl took ↦ rw took refl
    | inr left ↦ rw left (ap (λ ts. d.transaction ∷ ts) (rows-mark q seq at ds))
  ]

  created :
      (ds : List (Document V)) (t : Transaction V)
      → find_transaction t.transaction_id (rows ds) ≡ none
      → ((create_transaction t ds).0 ≡ ok tt)
        × (row_of (get_transaction t.transaction_id (create_transaction t ds).1) ≡ some t)
  created ds t absent =
      let fresh = create_fresh ds t (absent_document t.transaction_id ds absent) in
      (
        ap (λ r. r.0) fresh,
        ap (λ r. row_of (get_transaction t.transaction_id r.1)) fresh
            ∙ row-get_transaction t.transaction_id (ds ++ new_document t ∷ [])
            ∙ ap (find_transaction t.transaction_id) (rows-append ds (new_document t))
            ∙ find-append t.transaction_id t (rows ds) absent
            ∙ ap (λ b. if b then some t else none)
                ((eq_iff t.transaction_id t.transaction_id).1 refl),
      )

  mark_keeps_row :
      (ds : List (Document V)) (id j : String) (seq at : ℕ)
      → row_of (get_transaction j (mark_compensation_executed id seq at ds))
        ≡ row_of (get_transaction j ds)
  unfolding mark_compensation_executed
  mark_keeps_row ds id j seq at =
      let q = λ (d : Document V). has_id id d && has_seq seq d.compensation_stack in
      row-get_transaction j (update_one q (mark_op seq at) ds)
      ∙ ap (find_transaction j) (rows-mark q seq at ds)
      ∙ sym (row-get_transaction j ds)

  -- The MongoDB store keeps the promises of the interface, in collections where no two documents
  -- have the same `_id` and the entries of each stack are numbered from 1 on: each operation keeps
  -- the collection so; a row that is found has the id asked for; a row that is created is there; an
  -- update with the row's version is applied, with the columns that the patch gives and no other
  -- column changed but the time, and counts the version up, one with another version is
  -- refused and changes nothing; a compensation that is marked is pending no more and the others
  -- stay in their order; an update that appends no compensation changes no pending one.
  pub mongo_store-Lawful : (ties : TieOrder V) → Lawful (mongo_store ties) IsValidCollection
  mongo_store-Lawful ties = record {
    create_IsValid = create-Valid;
    update_IsValid = update-Valid;
    mark_IsValid = mark-Valid;
    delete_IsValid = delete-Valid;
    found_id = λ ds id t h.
        found_id id (rows ds) t.transaction (sym (row-get_transaction id ds) ∙ ap row_of h);
    created =
        λ ds t k absent. created ds t (sym (row-get_transaction t.transaction_id ds) ∙ absent);
    update_current = λ ds id v p cs t k h same.
        let a = update-current ds id v p cs t h same in
        (patched (suc v) p t, a.0, a.1, patched-IsPatched (suc v) p t);
    update_stale = λ ds id v p cs t k h other. update-stale ds id v p cs t k.0 h other;
    pending_mark = pending-mark;
    mark_keeps_row = mark_keeps_row;
    pending_update = pending-update;
  }
