-- ===== src/Store/Mongo/Documents.antt =====
-- Lookups and ids under `updateOne` and `insertOne` (store/mongodb-store.ts).
use mathlib.Core.Option
use mathlib.Core.Path.{subst}
use dfsm.Prelude.{
  String, ◌≡◌, refl, ap, Bool, true, false, not, ◌&&◌, Bool-cases, inl, inr, none, some, List, [],
  ◌∷◌, ◌++◌, arith, filter, All, Option-cases, if◌then◌else◌,
}
use dfsm.Prelude.Dict.{includes}
use dfsm.Store.{Transaction}
use dfsm.Store.Contract.{row_of}
use dfsm.Store.Sqlite.{find_transaction}
use dfsm.Store.Sqlite.Rows.{Keyed}
use dfsm.Store.Mongo.{Document, find_one, update_one, has_id, get_transaction}

module _ {V : Type 0} where
  abbrev pub rows : List (Document V) → List (Transaction V)
  rows [] = []
  rows (d ∷ ds) = d.transaction ∷ rows ds

  abbrev pub row : Option.Option (Document V) → Option.Option (Transaction V)
  row none = none
  row (some d) = some d.transaction

  pub find-rows :
      (id : String) (ds : List (Document V))
      → find_transaction id (rows ds) ≡ row (find_one (has_id id) ds)
  find-rows id [] = refl
  find-rows id (d ∷ ds) = elim (Bool-cases (has_id id d)) [
    | inl same ↦ rw same
    | inr other ↦ rw other (find-rows id ds)
  ]

  pub row-get_transaction :
      (id : String) (ds : List (Document V))
      → row_of (get_transaction id ds) ≡ find_transaction id (rows ds)
  unfolding get_transaction
  row-get_transaction id ds = elim (Option-cases (find_one (has_id id) ds)) [
    | inl absent ↦ rw (find-rows id ds, absent, get_transaction)
    | inr (d, found) ↦ rw (find-rows id ds, found, get_transaction)
  ]

  pub rows-append :
      (ds : List (Document V)) (d : Document V)
      → rows (ds ++ d ∷ []) ≡ rows ds ++ d.transaction ∷ []
  rows-append [] d = refl
  rows-append (e ∷ ds) d = ap (λ ts. e.transaction ∷ ts) (rows-append ds d)

  pub rows-filter :
      (ids : List String) (ds : List (Document V))
      → rows (filter (λ d. not (includes d.transaction.transaction_id ids)) ds)
        ≡ filter (λ (t : Transaction V). not (includes t.transaction_id ids)) (rows ds)
  rows-filter ids [] = refl
  rows-filter ids (d ∷ ds) = ground (arith, rows-filter ids ds)

  -- the document that is found, and its promises
  pub All-find_one :
      (P : Document V → Type 0) (q : Document V → Bool) (ds : List (Document V)) (d : Document V)
      → All P ds
      → find_one q ds ≡ some d
      → P d
  All-find_one P q [] d h found = cc found
  All-find_one P q (e ∷ ds) d h found = elim (Bool-cases (q e)) [
    | inl took ↦
        (let same : some e ≡ some d = rw took at found in rw (← Option.some-injective e d same) h.0)
    | inr left ↦ All-find_one P q ds d h.1 (rw left at found)
  ]

  -- an update of the document that is found
  module _ (q : Document V → Bool) (f : Document V → Document V) where
    pub All-update_one :
        (P : Document V → Type 0) (ds : List (Document V)) (d : Document V)
        → find_one q ds ≡ some d
        → All P ds
        → P (f d)
        → All P (update_one q f ds)
    All-update_one P [] d found h k = cc
    All-update_one P (e ∷ ds) d found h k = elim (Bool-cases (q e)) [
      | inl took ↦
          (let same : some e ≡ some d = rw took at found in
            rw (took, Option.some-injective e d same) (k, h.1))
      | inr left ↦ rw left (h.0, All-update_one P ds d (rw left at found) h.1 k)
    ]

    pub update_none : (ds : List (Document V)) → find_one q ds ≡ none → update_one q f ds ≡ ds
    update_none [] h = refl
    update_none (e ∷ ds) h = ground (arith, update_none ds)

    module _
        (keeps : (d : Document V)
          → (f d).transaction.transaction_id ≡ d.transaction.transaction_id) where
      pub find-update_other :
          (j : String) (ds : List (Document V))
          → ((d : Document V) → q d ≡ true → has_id j d ≡ false)
          → find_one (has_id j) (update_one q f ds) ≡ find_one (has_id j) ds
      find-update_other j [] h = refl
      find-update_other j (e ∷ ds) h = elim (Bool-cases (q e)) [
        | inl took ↦ rw (took, keeps e, h e took)
        | inr left ↦ rw left (ap (λ o. if has_id j e then some e else o) (find-update_other j ds h))
      ]

      find_transaction-update :
          (j : String) (ds : List (Document V))
          → find_transaction j (rows ds) ≡ none
          → find_transaction j (rows (update_one q f ds)) ≡ none
      find_transaction-update j [] h = refl
      find_transaction-update j (e ∷ ds) h = elim (Bool-cases (q e)) [
        | inl took ↦ rw took (ground (arith, keeps e))
        | inr left ↦ rw left (ground (arith, find_transaction-update j ds))
      ]

      pub Keyed-update_one :
          (ds : List (Document V)) → Keyed (rows ds) → Keyed (rows (update_one q f ds))
      Keyed-update_one [] k = tt
      Keyed-update_one (e ∷ ds) k = elim (Bool-cases (q e)) [
        | inl took ↦ rw (took, keeps e) k
        | inr left ↦
            rw left
              (find_transaction-update e.transaction.transaction_id ds k.0, Keyed-update_one ds k.1)
      ]

  -- an update of the first document with an id that meets a test
  pub find-update_one :
      (id : String) (r : Document V → Bool) (f : Document V → Document V)
      (keeps : (d : Document V) → (f d).transaction.transaction_id ≡ d.transaction.transaction_id)
      (ds : List (Document V)) (d : Document V)
      → find_one (has_id id) ds ≡ some d
      → find_one (has_id id) (update_one (λ e. has_id id e && r e) f ds)
        ≡ some (if r d then f d else d)
  find-update_one id r f keeps [] d found = cc found
  find-update_one id r f keeps (e ∷ ds) d found = elim (Bool-cases (has_id id e)) [
    | inl same ↦
        (let it : some e ≡ some d = rw same at found in
          subst
            (λ x.
              find_one (has_id id) (update_one (λ y. has_id id y && r y) f (e ∷ ds))
              ≡ some (if r x then f x else x))
            (Option.some-injective e d it)
            (elim (Bool-cases (r e)) [
              | inl meets ↦ rw (same, meets, keeps e, same)
              | inr fails ↦ rw (same, fails, same)
            ]))
    | inr other ↦ rw other (rw other (find-update_one id r f keeps ds d (rw other at found)))
  ]
