-- ===== src/Store/Mongo/Versions.antt =====
-- The version check of `updateTransaction` (store/mongodb-store.ts).
use dfsm.Prelude.{
  ℕ, suc, String, ◌≡◌, ◌≢◌, refl, ap, ◌∙◌, sym, true, false, Bool-cases, inl, inr, none, some, List,
  [], ◌∷◌, eq_iff, eqb, eqb_iff, arith, Option-cases, if◌then◌else◌,
}
use mathlib.Core.Path.{subst}
use mathlib.Core.Option
use dfsm.Errors.{stale_transaction_version_error, raised, ok, threw}
use dfsm.Store.{Transaction, Compensation, Patch}
use dfsm.Store.Contract.{row_of}
use dfsm.Store.Sqlite.{find_transaction, patched}
use dfsm.Store.Sqlite.Rows.{Keyed}
use dfsm.Store.Mongo.{
  Document, find_one, update_one, has_id, has_version, get_transaction, update_op,
  update_transaction,
}
use dfsm.Store.Mongo.Documents.{rows, row, find-rows, row-get_transaction, find-update_one}
use dfsm.Store.Mongo.Valid.{stale, applied}
use dfsm.Store.Mongo.Valid.{op_id, update_cases}

module _ {V : Type 0} where
  version_there :
      (id : String) (v : ℕ) (ds : List (Document V)) (d : Document V)
      → find_one (has_id id) ds ≡ some d
      → eqb d.transaction.version v ≡ true
      → find_one (has_version id v) ds ≡ some d
  version_there id v [] d found h = cc found
  version_there id v (e ∷ ds) d found h = elim (Bool-cases (has_id id e)) [
    | inl same ↦
        (let it : some e ≡ some d = rw same at found in
          subst
            (λ x.
              eqb x.transaction.version v ≡ true → find_one (has_version id v) (e ∷ ds) ≡ some x)
            (Option.some-injective e d it) (λ now. rw (same, now) refl) h)
    | inr other ↦ rw other (version_there id v ds d (rw other at found) h)
  ]

  no_version :
      (id : String) (v : ℕ) (ds : List (Document V))
      → find_transaction id (rows ds) ≡ none
      → find_one (has_version id v) ds ≡ none
  no_version id v [] h = refl
  no_version id v (e ∷ ds) h = ground (arith, no_version id v ds)

  version_gone :
      (id : String) (v : ℕ) (ds : List (Document V)) (d : Document V)
      → Keyed (rows ds)
      → find_one (has_id id) ds ≡ some d
      → eqb d.transaction.version v ≡ false
      → find_one (has_version id v) ds ≡ none
  version_gone id v [] d k found h = refl
  version_gone id v (e ∷ ds) d k found h = elim (Bool-cases (has_id id e)) [
    | inl same ↦
        (let it : some e ≡ some d = rw same at found in
          let rest : find_transaction id (rows ds) ≡ none =
            rw (← (eq_iff e.transaction.transaction_id id).0 same) k.0 in
          let old : eqb e.transaction.version v ≡ false = rw (Option.some-injective e d it) h in
          rw (same, old) (no_version id v ds rest))
    | inr other ↦ rw other (version_gone id v ds d k.1 (rw other at found) h)
  ]

  document_of :
      (id : String) (ds : List (Document V)) (t : Transaction V)
      → row_of (get_transaction id ds) ≡ some t
      → (d : Document V) × (find_one (has_id id) ds ≡ some d) × (d.transaction ≡ t)
  document_of id ds t h =
      let e = sym (find-rows id ds) ∙ sym (row-get_transaction id ds) ∙ h in
      elim (Option-cases (find_one (has_id id) ds)) [
        | inl absent ↦ (let no : none ≡ some t = sym (ap row absent) ∙ e in cc)
        | inr (d, found) ↦
            (d, found, Option.some-injective d.transaction t (sym (ap row found) ∙ e))
      ]

  pub update-current :
      (ds : List (Document V)) (id : String) (v : ℕ) (p : Patch V) (cs : List (Compensation V))
      (t : Transaction V)
      → row_of (get_transaction id ds) ≡ some t
      → t.version ≡ v
      → ((update_transaction id v p cs ds).0 ≡ ok (suc v))
        × (row_of (get_transaction id (update_transaction id v p cs ds).1)
            ≡ some (patched (suc v) p t))
  update-current ds id v p cs t h same =
      let (d, found, it) = document_of id ds t h in
      let now : eqb d.transaction.version v ≡ true =
        (eqb_iff d.transaction.version v).1 (ap (λ t. t.version) it ∙ same) in
      let there = version_there id v ds d found now in
      elim (update_cases id v p cs ds) [
        | stale gone e ↦ (let no : none ≡ some d = sym gone ∙ there in cc)
        | applied d' base there' numbers e ↦
            (let f = update_op id v p cs base in
              let r = λ (d : Document V). eqb d.transaction.version v in
              (
                ap (λ u. u.0) e,
                ap (λ u. row_of (get_transaction id u.1)) e
                    ∙ row-get_transaction id (update_one (has_version id v) f ds)
                    ∙ find-rows id (update_one (has_version id v) f ds)
                    ∙ ap row (
                        find-update_one id r f
                          (λ d. ap (λ t. t.transaction_id) (op_id id v p cs base d)) ds d found)
                    ∙ ap (λ b. row (some (if b then f d else d))) now
                    ∙ ap some (op_id id v p cs base d)
                    ∙ ap (λ t. some (patched (suc v) p t)) it,
              ))
      ]

  pub update-stale :
      (ds : List (Document V)) (id : String) (v : ℕ) (p : Patch V) (cs : List (Compensation V))
      (t : Transaction V)
      → Keyed (rows ds)
      → row_of (get_transaction id ds) ≡ some t
      → t.version ≢ v
      → update_transaction id v p cs ds
        ≡ (threw (raised (stale_transaction_version_error id v)), ds)
  update-stale ds id v p cs t k h other =
      let (d, found, it) = document_of id ds t h in
      elim (Bool-cases (eqb d.transaction.version v)) [
        | inl now ↦
            absurd (other (sym (ap (λ t. t.version) it) ∙ (eqb_iff d.transaction.version v).0 now))
        | inr old ↦ elim (update_cases id v p cs ds) [
          | stale gone e ↦ e
          | applied d' base there numbers e ↦
              (let no : none ≡ some d' = sym (version_gone id v ds d k found old) ∙ there in cc)
        ]
      ]
