-- ===== src/Store/Mongo/Filters.antt =====
-- `buildMongoFilter` (store/mongodb-store.ts) and `buildWhereClause` (store/sqlite-store.ts).
use dfsm.Prelude.{
  ℕ, suc, ◌≡◌, refl, ap, ◌∙◌, Bool, true, false, ◌&&◌, Option, none, some, List, [], ◌∷◌, arith,
  Bool-cases, inl, inr,
}
use dfsm.Store.{CompensationEntry, QueryFilter}
use dfsm.Store.Sqlite.Queries.{
  text_clause, in_clause, names_of, until_clause, state_clause, status_name, where_clause,
}
use dfsm.Store.Sqlite.Queries
use dfsm.Store.Mongo.{Document, max_updated, build_mongo_filter, count_transactions}
use dfsm.Store.Mongo.Documents.{rows}

until_both :
    (stuck older : Option ℕ) (at : ℕ)
    → until_clause (max_updated stuck older) at ≡ until_clause stuck at && until_clause older at
until_both none none at = refl
until_both none (some n) at = refl
until_both (some m) none at = ground arith
until_both (some m) (some n) at = grind arith

and_assoc : (x y z : Bool) → (x && y) && z ≡ x && (y && z)
and_assoc true y z = refl
and_assoc false y z = refl

module _ {V : Type 0} where
  filters_agree :
      (f : Option QueryFilter) (d : Document V)
      → build_mongo_filter f d ≡ where_clause f d.transaction
  filters_agree none d = refl
  filters_agree (some f) d =
      let t = d.transaction in
      let same_state = state_clause f.state_equals t.state_value in
      ap
        (λ b.
          text_clause f.machine_id t.machine_id
          && (text_clause f.actor_id t.actor_id
              && (in_clause f.transaction_ids t.transaction_id
                  && (in_clause (names_of f.statuses) (status_name t.status) && b))))
        (ap (λ b. b && same_state)
            (until_both f.stuck_before_timestamp f.older_than_timestamp t.updated_at)
          ∙ and_assoc (until_clause f.stuck_before_timestamp t.updated_at)
              (until_clause f.older_than_timestamp t.updated_at) same_state)

  -- The MongoDB store counts under a filter the transactions that the SQLite store counts under it,
  -- when both keep the same ones; so the smaller of two limits of age stands for both limits.
  pub counts_agree :
      (f : Option QueryFilter) (ds : List (Document V)) (stack : List (CompensationEntry V))
      → count_transactions f ds
        ≡ Queries.count_transactions f (record { transactions = rows ds; stack = stack })
  unfolding count_transactions Queries.count_transactions
  counts_agree f [] stack = refl
  counts_agree f (d ∷ ds) stack = elim (Bool-cases (where_clause f d.transaction)) [
    | inl kept ↦ rw (filters_agree f d, kept) (ap suc (counts_agree f ds stack))
    | inr dropped ↦ rw (filters_agree f d, dropped) (counts_agree f ds stack)
  ]
