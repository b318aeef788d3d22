-- ===== src/Store/Sqlite/Queries/Results.antt =====
-- What `queryTransactions` (store/sqlite-store.ts) gives: the order of the rows, and pages of them.
use dfsm.Prelude.{
  ℕ, suc, ◌≤◌, ◌≡◌, refl, ◌∙◌, Bool, Bool-cases, inl, inr, Option, none, List, [], ◌∷◌, map, length,
  filter, All, if_both, arith,
}
use dfsm.Errors.{ok}
use dfsm.Store.{Transaction, QueryFilter}
use dfsm.Store.Sqlite.{Db}
use dfsm.Store.Sqlite.Queries.{
  TieOrder, comes_first, where_clause, count_transactions, insert_asc, sort_asc, limit_of,
  offset_of, summary_of, query_transactions,
}

module _ {V : Type 0} where
  abbrev NotBefore : ℕ → List (Transaction V) → Type 0
  NotBefore n ts = All (λ (t : Transaction V). n ≤ t.updated_at) ts

  -- No row is before one that was changed earlier.
  abbrev pub Ascending : List (Transaction V) → Type 0
  Ascending [] = Unit
  Ascending (t ∷ ts) = NotBefore t.updated_at ts × Ascending ts

  NotBefore-le : (m n : ℕ) (ts : List (Transaction V)) → m ≤ n → NotBefore n ts → NotBefore m ts
  NotBefore-le m n [] h k = tt
  NotBefore-le m n (t ∷ ts) h k = (omega (arith, k.0), NotBefore-le m n ts h k.1)

module _ {V : Type 0} (ties : TieOrder V) where
  insert-NotBefore :
      (n : ℕ) (t : Transaction V) (us : List (Transaction V))
      → n ≤ t.updated_at
      → NotBefore n us
      → NotBefore n (insert_asc ties t us)
  insert-NotBefore n t [] h k = (h, tt)
  insert-NotBefore n t (u ∷ us) h k =
      if_both (NotBefore n) (comes_first ties t u) (h, k) (k.0, insert-NotBefore n t us h k.1)

  insert-Ascending :
      (t : Transaction V) (us : List (Transaction V))
      → Ascending us
      → Ascending (insert_asc ties t us)
  insert-Ascending t [] k = (tt, tt)
  insert-Ascending t (u ∷ us) k = elim (Bool-cases (comes_first ties t u)) [
    | inl first ↦
        let le : t.updated_at ≤ u.updated_at = ground (arith, first) in
        rw first ((le, NotBefore-le t.updated_at u.updated_at us le k.0), k)
    | inr later ↦
        rw later (
          insert-NotBefore u.updated_at t us (ground (arith, later)) k.0,
          insert-Ascending t us k.1,
        )
  ]

  sort-Ascending : (ts : List (Transaction V)) → Ascending (sort_asc ties ts)
  sort-Ascending [] = tt
  sort-Ascending (t ∷ ts) = insert-Ascending t (sort_asc ties ts) (sort-Ascending ts)

  -- Sorting keeps the number of rows with any property.
  count-insert :
      (q : Transaction V → Bool) (t : Transaction V) (us : List (Transaction V))
      → length (filter q (insert_asc ties t us)) ≡ length (filter q (t ∷ us))
  count-insert q t [] = refl
  count-insert q t (u ∷ us) = ground (arith, count-insert q t us)

  count-cons :
      (q : Transaction V → Bool) (t : Transaction V) (us vs : List (Transaction V))
      → length (filter q us) ≡ length (filter q vs)
      → length (filter q (t ∷ us)) ≡ length (filter q (t ∷ vs))
  count-cons q t us vs h = ground (arith, h)

  count-sort :
      (q : Transaction V → Bool) (ts : List (Transaction V))
      → length (filter q (sort_asc ties ts)) ≡ length (filter q ts)
  count-sort q [] = refl
  count-sort q (t ∷ ts) =
      count-insert q t (sort_asc ties ts) ∙ count-cons q t (sort_asc ties ts) ts (count-sort q ts)

  length-insert :
      (t : Transaction V) (us : List (Transaction V))
      → length (insert_asc ties t us) ≡ suc (length us)
  length-insert t [] = refl
  length-insert t (u ∷ us) = ground (arith, length-insert t us)

  pub length-sort : (ts : List (Transaction V)) → length (sort_asc ties ts) ≡ length ts
  length-sort [] = refl
  length-sort (t ∷ ts) = omega (arith, length-insert t (sort_asc ties ts), length-sort ts)

  -- Without limit and offset, a query gives summaries of rows in ascending order of `updated_at`,
  -- as many as `countTransactions` counts, and of any kind as many as the table has matching rows
  -- of that kind.
  pub query_whole :
      (f : Option QueryFilter) (now stuck_threshold_ms : ℕ) (db : Db V)
      → limit_of f ≡ none
      → offset_of f ≡ none
      → (rows : List (Transaction V)) × (query_transactions ties f now stuck_threshold_ms db
          ≡ ok (map (summary_of now stuck_threshold_ms db) rows))
        × Ascending rows
        × (length rows ≡ count_transactions f db)
        × ((q : Transaction V → Bool)
            → length (filter q rows) ≡ length (filter q (filter (where_clause f) db.transactions)))
  unfolding query_transactions count_transactions
  query_whole f now stuck_threshold_ms db no_limit no_offset =
      let found : List (Transaction V) = filter (where_clause f) db.transactions in
      (
        sort_asc ties found,
        rw (no_limit, no_offset),
        sort-Ascending found,
        length-sort found,
        λ q. count-sort q found,
      )
