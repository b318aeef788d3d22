-- ===== src/Store/Sqlite/Stack.antt =====
-- The order in which `getUncompensatedStack` (store/sqlite-store.ts) gives compensations back.
use dfsm.Prelude.{
  ℕ, suc, String, ◌≡◌, ◌≤◌, ◌<◌, refl, Bool, true, none, some, List, [], ◌∷◌, ◌++◌, arith, eq_iff,
  eqb_iff, filter, filter-append, All, if_both, Bool-cases, inl, inr, ltb, lt→ltb, max, ap, ◌∙◌,
  sym,
}
use mathlib.Core.List.{reverse, append-nil, reverse-cons}
use dfsm.Store.{Transaction, Compensation, CompensationEntry, Patch}
use dfsm.Store.Sqlite.{
  Db, find_transaction, insert_desc, sort_desc, of_transaction, max_seq, numbered,
  update_transaction, is_uncompensated, pending_of, get_uncompensated_stack,
}
use dfsm.Store.Sqlite.Rows.{Keyed, one_current}

module _ {V : Type 0} where
  abbrev Over : ℕ → List (CompensationEntry V) → Type 0
  Over m es = All (λ (e : CompensationEntry V). m < e.step_seq) es

  insert-append :
      (m : ℕ) (e : CompensationEntry V) (zs ws : List (CompensationEntry V))
      → e.step_seq ≤ m
      → Over m zs
      → insert_desc e (zs ++ ws) ≡ zs ++ insert_desc e ws
  insert-append m e [] ws h k = refl
  insert-append m e (z ∷ zs) ws h k =
      rw (lt→ltb e.step_seq z.step_seq (omega (arith, k.0)))
        (ap (λ r. z ∷ r) (insert-append m e zs ws h k.1))

  Over-insert :
      (m : ℕ) (e : CompensationEntry V) (zs : List (CompensationEntry V))
      → m < e.step_seq
      → Over m zs
      → Over m (insert_desc e zs)
  Over-insert m e [] h k = (h, tt)
  Over-insert m e (z ∷ zs) h k =
      if_both (Over m) (ltb e.step_seq z.step_seq) (k.0, Over-insert m e zs h k.1) (h, k)

  Over-sort : (m : ℕ) (zs : List (CompensationEntry V)) → Over m zs → Over m (sort_desc zs)
  Over-sort m [] k = tt
  Over-sort m (z ∷ zs) k = Over-insert m z (sort_desc zs) k.0 (Over-sort m zs k.1)

  -- Rows with later numbers come before all rows with earlier ones.
  sort-append :
      (m : ℕ) (xs ys : List (CompensationEntry V))
      → All (λ (e : CompensationEntry V). e.step_seq ≤ m) xs
      → Over m ys
      → sort_desc (xs ++ ys) ≡ sort_desc ys ++ sort_desc xs
  sort-append m [] ys h k = sym (append-nil (sort_desc ys))
  sort-append m (x ∷ xs) ys h k =
      rw (sort-append m xs ys h.1 k)
        (insert-append m x (sort_desc ys) (sort_desc xs) h.0 (Over-sort m ys k))

  Over-numbered :
      (m n : ℕ) (id : String) (cs : List (Compensation V)) → m < n → Over m (numbered id n cs)
  unfolding numbered
  Over-numbered m n id [] h = tt
  Over-numbered m n id (c ∷ cs) h = (h, Over-numbered m (suc n) id cs (omega arith))

  sort-numbered :
      (n : ℕ) (id : String) (cs : List (Compensation V))
      → sort_desc (numbered id n cs) ≡ reverse (numbered id n cs)
  unfolding numbered
  sort-numbered n id [] = refl
  sort-numbered n id (c ∷ cs) =
      let e : CompensationEntry V = record { transaction_id = id; step_seq = n; entry = c } in
      let rest : List (CompensationEntry V) = numbered id (suc n) cs in
      ap (insert_desc e) (sym (append-nil (sort_desc rest)))
      ∙ insert-append n e (sort_desc rest) [] (omega arith)
          (Over-sort n rest (Over-numbered n (suc n) id cs (omega arith)))
      ∙ ap (λ r. r ++ e ∷ []) (sort-numbered (suc n) id cs)
      ∙ sym (reverse-cons e rest)

  abbrev Pending : List (Compensation V) → Type 0
  Pending cs = All (λ (c : Compensation V). c.compensated_at ≡ none) cs

  filter-kept :
      (q : CompensationEntry V → Bool) (e : CompensationEntry V) (es : List (CompensationEntry V))
      → q e ≡ true
      → filter q (e ∷ es) ≡ e ∷ filter q es
  filter-kept q e es h = rw h

  row-pending :
      (n : ℕ) (id : String) (c : Compensation V)
      → c.compensated_at ≡ none
      → pending_of id (record { transaction_id = id; step_seq = n; entry = c }) ≡ true
  row-pending n id c h = rw ((eq_iff id id).1 refl, h)

  filter-numbered :
      (n : ℕ) (id : String) (cs : List (Compensation V))
      → Pending cs
      → filter (pending_of id) (numbered id n cs) ≡ numbered id n cs
  unfolding numbered
  filter-numbered n id [] h = refl
  filter-numbered n id (c ∷ cs) h =
      filter-kept (pending_of id) (record { transaction_id = id; step_seq = n; entry = c })
        (numbered id (suc n) cs) (row-pending n id c h.0)
      ∙ ap (λ r. record { transaction_id = id; step_seq = n; entry = c } ∷ r)
          (filter-numbered (suc n) id cs h.1)

  All-le :
      (m n : ℕ) (es : List (CompensationEntry V))
      → m ≤ n
      → All (λ (e : CompensationEntry V). e.step_seq ≤ m) es
      → All (λ (e : CompensationEntry V). e.step_seq ≤ n) es
  All-le m n [] h k = tt
  All-le m n (e ∷ es) h k = (omega (arith, k.0), All-le m n es h k.1)

  filter-max_seq :
      (id : String) (es : List (CompensationEntry V))
      → All (λ (e : CompensationEntry V). e.step_seq ≤ max_seq id es) (filter (pending_of id) es)
  unfolding max_seq
  filter-max_seq id [] = tt
  filter-max_seq id (e ∷ es) = elim (Bool-cases (of_transaction id e)) [
    | inl own ↦ rw own (
        if_both (All (λ (f : CompensationEntry V). f.step_seq ≤ max e.step_seq (max_seq id es)))
          (is_uncompensated e)
          (omega arith, All-le (max_seq id es) _ _ (omega arith) (filter-max_seq id es))
          (All-le (max_seq id es) _ _ (omega arith) (filter-max_seq id es)))
    | inr other ↦ rw other (filter-max_seq id es)
  ]

  -- Where ids are unique, after an update with the row's version the pending compensations come
  -- back newest first: those that it appends, if none of them is marked as executed, in the reverse
  -- of the order given and before all that were pending, whose order stays.
  pub last_appended_first :
      (id : String) (v : ℕ) (p : Patch V) (cs : List (Compensation V)) (db : Db V)
      (t : Transaction V)
      → Keyed db.transactions
      → find_transaction id db.transactions ≡ some t
      → t.version ≡ v
      → Pending cs
      → get_uncompensated_stack id (update_transaction id v p cs db).1
        ≡ reverse (numbered id (suc (max_seq id db.stack)) cs) ++ get_uncompensated_stack id db
  unfolding update_transaction get_uncompensated_stack
  last_appended_first id v p cs db t k found same pending =
      rw (one_current id v db.transactions t k found, (eqb_iff t.version v).1 same)
        (rw
          (
            filter-append (pending_of id) db.stack (numbered id (suc (max_seq id db.stack)) cs),
            filter-numbered (suc (max_seq id db.stack)) id cs pending,
          )
          (sort-append (max_seq id db.stack) _ _ (filter-max_seq id db.stack)
              (Over-numbered _ _ id cs (omega arith))
            ∙ ap (λ r. r ++ get_uncompensated_stack id db) (sort-numbered _ id cs)))
