-- ===== src/Store/Sqlite/Versions.antt =====
-- Optimistic concurrency of `updateTransaction` (store/sqlite-store.ts).
use dfsm.Prelude.{
  ℕ, suc, String, ◌≡◌, ◌≢◌, refl, ap, Bool-cases, if_both, inl, inr, some, List, eqb, eqb_iff,
  arith,
}
use dfsm.Errors.{stale_transaction_version_error, raised, Result, ok, threw}
use dfsm.Store.{Transaction, Compensation, Patch}
use dfsm.Store.Sqlite.{
  Db, find_transaction, patched, create_transaction, mark_compensation_executed, update_transaction,
  delete_transactions,
}
use dfsm.Store.Sqlite.Rows.{
  Keyed, find-update_rows, found_id, one_current, touched_it, find_other, Keyed-update_rows,
  Keyed-filter, Keyed-create,
}

module _ {V : Type 0} where
  -- Where ids are unique, an update with the version that the row has is applied: it answers the
  -- next version, the row has the patch's fields and that version, and every other row is as it
  -- was.
  pub update_applies :
      (id : String) (v : ℕ) (p : Patch V) (cs : List (Compensation V)) (db : Db V)
      (t : Transaction V)
      → Keyed db.transactions
      → find_transaction id db.transactions ≡ some t
      → t.version ≡ v
      → let r = update_transaction id v p cs db in
        (r.0 ≡ ok (suc v))
        × (find_transaction id r.1.transactions ≡ some (patched (suc v) p t))
        × ((j : String)
            → j ≢ id
            → find_transaction j r.1.transactions ≡ find_transaction j db.transactions)
  unfolding update_transaction
  update_applies id v p cs db t k found same =
      rw (one_current id v db.transactions t k found, (eqb_iff t.version v).1 same)
        (
          refl,
          rw (find-update_rows id id v p db.transactions, found)
              (ap some (touched_it id v p t (found_id id db.transactions t found) same)),
          λ j other. find_other j id v p db.transactions other,
        )

  -- Where ids are unique, an update with a version that the row does not have is refused with
  -- `StaleTransactionVersionError`, and leaves both tables as they were.
  pub update_refuses :
      (id : String) (v : ℕ) (p : Patch V) (cs : List (Compensation V)) (db : Db V)
      (t : Transaction V)
      → Keyed db.transactions
      → find_transaction id db.transactions ≡ some t
      → t.version ≢ v
      → update_transaction id v p cs db
        ≡ (threw (raised (stale_transaction_version_error id v)), db)
  unfolding update_transaction
  update_refuses id v p cs db t k found stale = elim (Bool-cases (eqb t.version v)) [
    | inl now ↦ absurd (stale ((eqb_iff t.version v).0 now))
    | inr older ↦ rw (one_current id v db.transactions t k found, older)
  ]

  -- If no two transactions have the same id, that stays so after every operation that changes the
  -- tables, its refusals included.
  pub operations-Keyed :
      (db : Db V)
      → Keyed db.transactions
      → ((t : Transaction V) → Keyed (create_transaction t db).1.transactions)
        × ((id : String) (v : ℕ) (p : Patch V) (cs : List (Compensation V))
            → Keyed (update_transaction id v p cs db).1.transactions)
        × ((id : String) (seq at : ℕ)
            → Keyed (mark_compensation_executed id seq at db).transactions)
        × ((ids : List String) → Keyed (delete_transactions ids db).1.transactions)
  unfolding update_transaction mark_compensation_executed delete_transactions
  operations-Keyed db k = (
    λ t. Keyed-create t db k,
    λ id v p cs.
        if_both (λ (r : Result ℕ × Db V). Keyed r.1.transactions) _
          (Keyed-update_rows id v p db.transactions k) k,
    λ id seq at. k,
    λ ids. Keyed-filter _ db.transactions k,
  )

  -- Where ids are unique, of two writers that update with the version that the row has, the second
  -- is refused with `StaleTransactionVersionError`, whatever either writes, and changes nothing.
  pub no_lost_update :
      (id : String) (v : ℕ) (p q : Patch V) (cs ds : List (Compensation V)) (db : Db V)
      (t : Transaction V)
      → Keyed db.transactions
      → find_transaction id db.transactions ≡ some t
      → t.version ≡ v
      → let first = (update_transaction id v p cs db).1 in
        update_transaction id v q ds first
        ≡ (threw (raised (stale_transaction_version_error id v)), first)
  no_lost_update id v p q cs ds db t k found same =
      update_refuses id v q ds (update_transaction id v p cs db).1 (patched (suc v) p t)
        ((operations-Keyed db k).1 id v p cs) ((update_applies id v p cs db t k found same).1)
        (λ e. omega (arith, e))
