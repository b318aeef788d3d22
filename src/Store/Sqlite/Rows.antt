-- ===== src/Store/Sqlite/Rows.antt =====
-- The rows of `dfsm_transactions` under an update, an insertion and a deletion: lookups and the
-- primary key (store/sqlite-store.ts).
use mathlib.Core.Option
use dfsm.Prelude.{
  ℕ, suc, String, ◌≡◌, ◌≢◌, refl, ap, Bool, false, Bool-cases, if_both, inl, inr, none, some, List,
  [], ◌∷◌, ◌++◌, ◌==◌, eq_iff, eqb, eqb_iff, Option-cases, sym, ◌∙◌, arith, length, filter,
  if◌then◌else◌,
}
use dfsm.Store.{Transaction, Patch}
use dfsm.Store.Sqlite.{Db, find_transaction, patched, is_current, update_rows, create_transaction}

module _ {V : Type 0} where
  -- The primary key: no two rows have the same id.
  abbrev pub Keyed : List (Transaction V) → Type 0
  Keyed [] = Unit
  Keyed (t ∷ ts) = (find_transaction t.transaction_id ts ≡ none) × Keyed ts

  abbrev touched : String → ℕ → Patch V → Transaction V → Transaction V
  touched id expected p t = if is_current id expected t then patched (suc expected) p t else t

  touched_id :
      (id : String) (v : ℕ) (p : Patch V) (t : Transaction V)
      → (touched id v p t).transaction_id ≡ t.transaction_id
  touched_id id v p t = elim (Bool-cases (is_current id v t)) [
    | inl now ↦ ap (λ b. (if b then patched (suc v) p t else t).transaction_id) now
    | inr old ↦ ap (λ b. (if b then patched (suc v) p t else t).transaction_id) old
  ]

  pub find-update_rows :
      (j id : String) (v : ℕ) (p : Patch V) (ts : List (Transaction V))
      → find_transaction j (update_rows id v p ts)
        ≡ Option.map (touched id v p) (find_transaction j ts)
  unfolding update_rows
  find-update_rows j id v p [] = refl
  find-update_rows j id v p (t ∷ ts) = elim (Bool-cases (t.transaction_id == j)) [
    | inl same ↦ rw (touched_id id v p t, same)
    | inr other ↦ rw (touched_id id v p t, other) (find-update_rows j id v p ts)
  ]

  pub found_id :
      (j : String) (ts : List (Transaction V)) (t : Transaction V)
      → find_transaction j ts ≡ some t
      → t.transaction_id ≡ j
  found_id j [] t h = cc
  found_id j (u ∷ ts) t h = ground (arith, eq_iff u.transaction_id j, found_id j ts t)

  no_current :
      (id : String) (v : ℕ) (ts : List (Transaction V))
      → find_transaction id ts ≡ none
      → length (filter (is_current id v) ts) ≡ 0
  no_current id v [] h = refl
  no_current id v (t ∷ ts) h = ground (arith, no_current id v ts)

  count_current :
      (id : String) (v : ℕ) (ts : List (Transaction V)) (t : Transaction V)
      → Keyed ts
      → find_transaction id ts ≡ some t
      → length (filter (is_current id v) ts) ≡ (if eqb t.version v then 1 else 0)
  count_current id v [] t k h = cc
  count_current id v (u ∷ ts) t k h = elim (Bool-cases (u.transaction_id == id)) [
    | inl same ↦ ground (
      arith,
      eq_iff u.transaction_id id,
      no_current id v ts (rw (← (eq_iff u.transaction_id id).0 same) k.0),
    )
    | inr other ↦ ground (arith, other, count_current id v ts t)
  ]

  pub one_current :
      (id : String) (v : ℕ) (ts : List (Transaction V)) (t : Transaction V)
      → Keyed ts
      → find_transaction id ts ≡ some t
      → eqb (length (filter (is_current id v) ts)) 1 ≡ eqb t.version v
  one_current id v ts t k h =
      rw (count_current id v ts t k h)
        (elim (Bool-cases (eqb t.version v)) [ inl same ↦ rw same | inr other ↦ rw other ])

  pub touched_it :
      (id : String) (v : ℕ) (p : Patch V) (t : Transaction V)
      → t.transaction_id ≡ id
      → t.version ≡ v
      → touched id v p t ≡ patched (suc v) p t
  touched_it id v p t same now =
      rw ((eq_iff t.transaction_id id).1 same, (eqb_iff t.version v).1 now)

  untouched :
      (id : String) (v : ℕ) (p : Patch V) (t : Transaction V)
      → t.transaction_id ≢ id
      → touched id v p t ≡ t
  untouched id v p t other = elim (Bool-cases (t.transaction_id == id)) [
    | inl same ↦ absurd (other ((eq_iff t.transaction_id id).0 same))
    | inr differs ↦ rw differs
  ]

  -- the lookup of another row after the update
  pub find_other :
      (j id : String) (v : ℕ) (p : Patch V) (ts : List (Transaction V))
      → j ≢ id
      → find_transaction j (update_rows id v p ts) ≡ find_transaction j ts
  find_other j id v p ts other = elim (Option-cases (find_transaction j ts)) [
    | inl absent ↦ rw (find-update_rows j id v p ts, absent)
    | inr (t, found) ↦
        rw (find-update_rows j id v p ts, found)
          (ap some (untouched id v p t (λ e. other (sym (found_id j ts t found) ∙ e))))
  ]

  pub Keyed-update_rows :
      (id : String) (v : ℕ) (p : Patch V) (ts : List (Transaction V))
      → Keyed ts
      → Keyed (update_rows id v p ts)
  unfolding update_rows
  Keyed-update_rows id v p [] k = tt
  Keyed-update_rows id v p (t ∷ ts) k = (
    rw (touched_id id v p t, find-update_rows t.transaction_id id v p ts, k.0),
    Keyed-update_rows id v p ts k.1,
  )

  pub find-append :
      (j : String) (t : Transaction V) (ts : List (Transaction V))
      → find_transaction j ts ≡ none
      → find_transaction j (ts ++ t ∷ []) ≡ (if t.transaction_id == j then some t else none)
  find-append j t [] h = refl
  find-append j t (u ∷ ts) h = ground (arith, find-append j t ts)

  apart :
      (t u : Transaction V)
      → (u.transaction_id == t.transaction_id) ≡ false
      → (t.transaction_id == u.transaction_id) ≡ false
  apart t u h =
      ground
        (arith, eq_iff t.transaction_id u.transaction_id, eq_iff u.transaction_id t.transaction_id)

  pub Keyed-append :
      (t : Transaction V) (ts : List (Transaction V))
      → find_transaction t.transaction_id ts ≡ none
      → Keyed ts
      → Keyed (ts ++ t ∷ [])
  Keyed-append t [] h k = (refl, tt)
  Keyed-append t (u ∷ ts) h k = elim (Bool-cases (u.transaction_id == t.transaction_id)) [
    | inl same ↦ (let e : some u ≡ none = rw same at h in cc)
    | inr other ↦ (
      rw (find-append u.transaction_id t ts k.0, apart t u other),
      Keyed-append t ts (rw other at h) k.1,
    )
  ]

  find-filter :
      (p : Transaction V → Bool) (j : String) (ts : List (Transaction V))
      → find_transaction j ts ≡ none
      → find_transaction j (filter p ts) ≡ none
  find-filter p j [] h = refl
  find-filter p j (t ∷ ts) h = ground (arith, find-filter p j ts)

  pub Keyed-filter :
      (p : Transaction V → Bool) (ts : List (Transaction V)) → Keyed ts → Keyed (filter p ts)
  Keyed-filter p [] k = tt
  Keyed-filter p (t ∷ ts) k =
      if_both Keyed (p t) (find-filter p t.transaction_id ts k.0, Keyed-filter p ts k.1)
        (Keyed-filter p ts k.1)

  pub create_fresh :
      (t : Transaction V) (db : Db V)
      → find_transaction t.transaction_id db.transactions ≡ none
      → (create_transaction t db).1 ≡ record db { transactions = db.transactions ++ t ∷ [] }
  unfolding create_transaction
  create_fresh t db h = rw (h, create_transaction)

  create_taken :
      (t u : Transaction V) (db : Db V)
      → find_transaction t.transaction_id db.transactions ≡ some u
      → (create_transaction t db).1 ≡ db
  unfolding create_transaction
  create_taken t u db h = rw (h, create_transaction)

  pub Keyed-create :
      (t : Transaction V) (db : Db V)
      → Keyed db.transactions
      → Keyed (create_transaction t db).1.transactions
  Keyed-create t db k = elim (Option-cases (find_transaction t.transaction_id db.transactions)) [
    | inl absent ↦ rw (create_fresh t db absent) (Keyed-append t db.transactions absent k)
    | inr (u, taken) ↦ rw (create_taken t u db taken) k
  ]
