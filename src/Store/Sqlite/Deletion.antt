-- ===== src/Store/Sqlite/Deletion.antt =====
-- What `deleteTransactions` (store/sqlite-store.ts) removes, with the schema's cascade.
use dfsm.Prelude.{
  ◌+◌, String, ◌≡◌, refl, ap, ◌∙◌, Bool, true, false, not, Bool-cases, inl, inr, none, List, [],
  ◌∷◌, ◌==◌, eq_iff, length, filter, if◌then◌else◌, arith,
}
use dfsm.Prelude.Dict.{includes}
use dfsm.Store.{Transaction, CompensationEntry}
use dfsm.Store.Sqlite.{
  Db, find_transaction, sort_desc, pending_of, get_uncompensated_stack, delete_transactions,
}

length-filter-not {ℓ} :
    {A : Type ℓ} (p : A → Bool) (xs : List A)
    → length (filter p xs) + length (filter (λ x. not (p x)) xs) ≡ length xs
length-filter-not p [] = omega arith
length-filter-not p (x ∷ xs) = elim (Bool-cases (p x)) [
  | inl yes_it ↦ rw yes_it (omega (arith, length-filter-not p xs))
  | inr no_it ↦ rw no_it (omega (arith, length-filter-not p xs))
]

module _ {V : Type 0} (ids : List String) where
  abbrev stays : Transaction V → Bool
  stays t = not (includes t.transaction_id ids)

  abbrev row_stays : CompensationEntry V → Bool
  row_stays e = not (includes e.transaction_id ids)

  find-filter-stays :
      (j : String) (ts : List (Transaction V))
      → find_transaction j (filter stays ts)
        ≡ (if includes j ids then none else find_transaction j ts)
  find-filter-stays j [] = elim (Bool-cases (includes j ids)) [ inl h ↦ rw h | inr h ↦ rw h ]
  find-filter-stays j (t ∷ ts) = elim (Bool-cases (t.transaction_id == j)) [
    | inl same ↦
        let e : t.transaction_id ≡ j = (eq_iff t.transaction_id j).0 same in
        ground (arith, find-filter-stays j ts)
    | inr other ↦ ground (arith, find-filter-stays j ts)
  ]

  pending-filter-stays :
      (j : String) (es : List (CompensationEntry V))
      → filter (pending_of j) (filter row_stays es)
        ≡ (if includes j ids then [] else filter (pending_of j) es)
  pending-filter-stays j [] = elim (Bool-cases (includes j ids)) [ inl h ↦ rw h | inr h ↦ rw h ]
  pending-filter-stays j (e ∷ es) =
      ground (arith, eq_iff e.transaction_id j, pending-filter-stays j es)

  -- Deletion removes the transactions of the ids given and their compensations, answers how many
  -- transactions it removed, and leaves every other transaction and its pending compensations.
  pub delete_exact :
      (db : Db V)
      → let (n, after) = delete_transactions ids db in
        (n + length after.transactions ≡ length db.transactions)
        × ((j : String)
            → find_transaction j after.transactions
              ≡ (if includes j ids then none else find_transaction j db.transactions))
        × ((j : String)
            → get_uncompensated_stack j after
              ≡ (if includes j ids then [] else get_uncompensated_stack j db))
  unfolding delete_transactions get_uncompensated_stack
  delete_exact db = (
    length-filter-not (λ (t : Transaction V). includes t.transaction_id ids) db.transactions,
    λ j. find-filter-stays j db.transactions,
    λ j. ap sort_desc (pending-filter-stays j db.stack) ∙ sorted_if j (includes j ids) db,
  )
    where
      sorted_if :
          (j : String) (b : Bool) (d : Db V)
          → sort_desc (if b then [] else filter (pending_of j) d.stack)
            ≡ (if b then [] else sort_desc (filter (pending_of j) d.stack))
      sorted_if j true d = refl
      sorted_if j false d = refl
