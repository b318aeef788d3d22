-- ===== src/Store/Mongo/Valid.antt =====
-- What every operation keeps of the collection (store/mongodb-store.ts).
use dfsm.Prelude.{
  ℕ, suc, String, ◌≡◌, refl, ap, ◌∙◌, sym, Bool, ◌&&◌, if_both, inl, inr, none, some, List, [], ◌∷◌,
  ◌++◌, filter, All, All-append, Option-cases,
}
use dfsm.Errors.{stale_transaction_version_error, raised, ok, threw}
use dfsm.Store.{Transaction, Compensation, Patch}
use dfsm.Store.Sqlite.{find_transaction, patched}
use dfsm.Store.Sqlite.Rows.{Keyed, Keyed-append, Keyed-filter}
use dfsm.Store.Mongo.{
  Document, find_one, update_one, has_id, has_version, new_document, create_transaction, base_seq,
  update_op, update_at, update_transaction, has_seq, mark_op, mark_compensation_executed,
  delete_transactions,
}
use dfsm.Store.Mongo.Documents.{
  rows, row, find-rows, rows-append, rows-filter, All-find_one, All-update_one, update_none,
  Keyed-update_one,
}
use dfsm.Store.Mongo.Numbers.{Counted, Counted-append, Counted-mark_first}

module _ {V : Type 0} where
  abbrev pub IsNumbered : Document V → Type 0
  IsNumbered d = Counted 1 d.next_comp_step_seq d.compensation_stack

  -- No two documents have the same `_id`, and the entries of each stack are numbered from 1 on, up
  -- to `nextCompStepSeq`.
  abbrev pub IsValidCollection : List (Document V) → Type 0
  IsValidCollection ds = Keyed (rows ds) × All IsNumbered ds

  All-filter :
      (P : Document V → Type 0) (q : Document V → Bool) (ds : List (Document V))
      → All P ds
      → All P (filter q ds)
  All-filter P q [] h = tt
  All-filter P q (d ∷ ds) h =
      if_both (All P) (q d) (h.0, All-filter P q ds h.1) (All-filter P q ds h.1)

  pub absent_document :
      (id : String) (ds : List (Document V))
      → find_transaction id (rows ds) ≡ none
      → find_one (has_id id) ds ≡ none
  absent_document id ds h = elim (Option-cases (find_one (has_id id) ds)) [
    | inl absent ↦ absent
    | inr (d, found) ↦
        (let e : some d.transaction ≡ none = ap row (sym found) ∙ sym (find-rows id ds) ∙ h in cc)
  ]

  pub create_fresh :
      (ds : List (Document V)) (t : Transaction V)
      → find_one (has_id t.transaction_id) ds ≡ none
      → create_transaction t ds ≡ (ok tt, ds ++ new_document t ∷ [])
  unfolding create_transaction
  create_fresh ds t h = rw (h, create_transaction) refl

  pub create-Valid :
      (ds : List (Document V)) (t : Transaction V)
      → IsValidCollection ds
      → IsValidCollection (create_transaction t ds).1
  unfolding create_transaction
  create-Valid ds t k = elim (Option-cases (find_one (has_id t.transaction_id) ds)) [
    | inl absent ↦ rw (create_fresh ds t absent) (
      rw (rows-append ds (new_document t))
          (Keyed-append t (rows ds) (find-rows t.transaction_id ds ∙ ap row absent) k.0),
      All-append IsNumbered ds (new_document t ∷ []) k.1 (refl, tt),
    )
    | inr (u, taken) ↦ rw (taken, create_transaction) k
  ]

  pub op_id :
      (id : String) (v : ℕ) (p : Patch V) (cs : List (Compensation V)) (base : ℕ) (d : Document V)
      → (update_op id v p cs base d).transaction ≡ patched (suc v) p d.transaction
  unfolding update_op
  op_id id v p [] base d = refl
  op_id id v p (c ∷ cs) base d = refl

  -- the outcome of an update: refused as a whole, or applied to the document with that version
  pub data Updated (id : String) (v : ℕ) (p : Patch V) (cs : List (Compensation V))
      (ds : List (Document V)) : Type 0 where
    stale :
        find_one (has_version id v) ds ≡ none
        → update_transaction id v p cs ds
          ≡ (threw (raised (stale_transaction_version_error id v)), ds)
        → Updated id v p cs ds
    applied :
        (d : Document V) (base : ℕ)
        → find_one (has_version id v) ds ≡ some d
        → (IsNumbered d → IsNumbered (update_op id v p cs base d))
        → update_transaction id v p cs ds
          ≡ (ok (suc v), update_one (has_version id v) (update_op id v p cs base) ds)
        → Updated id v p cs ds

  pub update_cases :
      (id : String) (v : ℕ) (p : Patch V) (cs : List (Compensation V)) (ds : List (Document V))
      → Updated id v p cs ds
  unfolding update_transaction update_op
  update_cases id v p [] ds = elim (Option-cases (find_one (has_version id v) ds)) [
    | inl absent ↦ stale absent (rw (absent, update_at, update_transaction) refl)
    | inr (d, found) ↦ applied d 1 found (λ h. h) (rw (found, update_at, update_transaction) refl)
  ]
  update_cases id v p (c ∷ cs) ds = elim (Option-cases (find_one (has_version id v) ds)) [
    | inl absent ↦ stale absent (rw (absent, base_seq, update_transaction) refl)
    | inr (d, found) ↦
        applied d d.next_comp_step_seq found
          (λ h. Counted-append id 1 d.next_comp_step_seq d.compensation_stack (c ∷ cs) h)
          (rw (found, base_seq, update_at, update_transaction) (rw (found, update_at) refl))
  ]

  pub update-Valid :
      (ds : List (Document V)) (id : String) (v : ℕ) (p : Patch V) (cs : List (Compensation V))
      → IsValidCollection ds
      → IsValidCollection (update_transaction id v p cs ds).1
  update-Valid ds id v p cs k = elim (update_cases id v p cs ds) [
    | stale absent e ↦ rw e k
    | applied d base found numbers e ↦ rw e (
      Keyed-update_one (has_version id v) (update_op id v p cs base)
          (λ d. ap (λ t. t.transaction_id) (op_id id v p cs base d)) ds k.0,
      All-update_one (has_version id v) (update_op id v p cs base) IsNumbered ds d found k.1
          (numbers (All-find_one IsNumbered (has_version id v) ds d k.1 found)),
    )
  ]

  mark_keeps :
      (seq at : ℕ) (d : Document V)
      → (mark_op seq at d).transaction.transaction_id ≡ d.transaction.transaction_id
  mark_keeps seq at d = refl

  pub mark-Valid :
      (ds : List (Document V)) (id : String) (seq at : ℕ)
      → IsValidCollection ds
      → IsValidCollection (mark_compensation_executed id seq at ds)
  unfolding mark_compensation_executed
  mark-Valid ds id seq at k =
      let q = λ (d : Document V). has_id id d && has_seq seq d.compensation_stack in
      elim (Option-cases (find_one q ds)) [
        | inl absent ↦ rw (update_none q (mark_op seq at) ds absent) k
        | inr (d, found) ↦ (
          Keyed-update_one q (mark_op seq at) (λ d. refl) ds k.0,
          All-update_one q (mark_op seq at) IsNumbered ds d found k.1 (
              Counted-mark_first seq at 1 d.next_comp_step_seq d.compensation_stack
                (All-find_one IsNumbered q ds d k.1 found)),
        )
      ]

  pub delete-Valid :
      (ds : List (Document V)) (ids : List String)
      → IsValidCollection ds
      → IsValidCollection (delete_transactions ids ds).1
  unfolding delete_transactions
  delete-Valid ds [] k = k
  delete-Valid ds (id ∷ ids) k = (
    rw (rows-filter (id ∷ ids) ds) (Keyed-filter _ (rows ds) k.0),
    All-filter IsNumbered _ ds k.1,
  )
