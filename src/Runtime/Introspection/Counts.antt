-- ===== src/Runtime/Introspection/Counts.antt =====
-- The counts of `getStatusBreakdown` and `getActiveCount` (runtime/actor.ts) on the SQLite store.
use dfsm.Prelude.{
  ℕ, ◌+◌, ◌≡◌, refl, Bool, true, false, none, some, List, [], ◌∷◌, arith, length, filter,
  Bool-cases, inl, inr, map, ◌&&◌, if◌then◌else◌,
}
use dfsm.Prelude.Dict.{includes}
use dfsm.Machine.StateValue.{
  TransactionStatus, idle, in_flight, completed, compensating, compensated, failed,
}
use dfsm.Store.{Transaction}
use dfsm.Store.Sqlite.{Db}
use dfsm.Store.Sqlite.Queries.{matches, text_clause, status_name, count_transactions}
use dfsm.Store.Sqlite.Queries.{TieOrder}
use dfsm.Store.Sqlite.Refines.{sqlite_store}
use dfsm.Runtime.{Actor}
use dfsm.Runtime.World.{World}
use dfsm.Runtime.Recovery.Rows.{statuses_of}
use dfsm.Runtime.Introspection.{non_terminal_statuses, get_active_count, get_status_breakdown}

module _ {V S : Type 0} (a : Actor V (Db V) S) where
  -- rows of the machine with one of the statuses
  abbrev rows_with : List TransactionStatus → List (Transaction V) → ℕ
  rows_with ss ts = length (filter (matches (statuses_of a ss)) ts)

  abbrev pub own : Transaction V → Bool
  own t = text_clause (some a.machine.id) t.machine_id

  abbrev one_if : Bool → ℕ
  one_if b = if b then 1 else 0

  row_matches :
      (s : TransactionStatus) (ss : List TransactionStatus) (t : Transaction V)
      → matches (statuses_of a (s ∷ ss)) t
        ≡ own t && includes (status_name t.status) (map status_name (s ∷ ss))
  row_matches s ss t = trues (own t) (includes (status_name t.status) (map status_name (s ∷ ss)))
    where
      trues : (b c : Bool) → b && (true && (true && (c && (true && (true && true))))) ≡ b && c
      trues true true = refl
      trues true false = refl
      trues false c = refl

  rows-cons :
      (s : TransactionStatus) (ss : List TransactionStatus) (t : Transaction V)
      (ts : List (Transaction V))
      → rows_with (s ∷ ss) (t ∷ ts)
        ≡ one_if (own t && includes (status_name t.status) (map status_name (s ∷ ss)))
          + rows_with (s ∷ ss) ts
  rows-cons s ss t ts =
      rw (row_matches s ss t)
        (counted (own t && includes (status_name t.status) (map status_name (s ∷ ss))))
    where
      counted :
          (b : Bool)
          → length (
              if b
              then t ∷ filter (matches (statuses_of a (s ∷ ss))) ts
              else filter (matches (statuses_of a (s ∷ ss))) ts)
            ≡ one_if b + rows_with (s ∷ ss) ts
      counted true = omega arith
      counted false = omega arith

  -- the statuses that are not terminal are one of three
  split_active :
      (b : Bool) (s : TransactionStatus)
      → one_if (b && includes (status_name s) ("IDLE" ∷ []))
          + one_if (b && includes (status_name s) ("IN_FLIGHT" ∷ []))
          + one_if (b && includes (status_name s) ("COMPENSATING" ∷ []))
        ≡ one_if (b && includes (status_name s) (map status_name non_terminal_statuses))
  split_active false s = refl
  split_active true idle = refl
  split_active true in_flight = refl
  split_active true compensating = refl
  split_active true completed = refl
  split_active true compensated = refl
  split_active true failed = refl

  count_active :
      (ts : List (Transaction V))
      → rows_with (idle ∷ []) ts + rows_with (in_flight ∷ []) ts + rows_with (compensating ∷ []) ts
        ≡ rows_with non_terminal_statuses ts
  count_active [] = refl
  count_active (t ∷ ts) = omega (
    arith,
    rows-cons idle [] t ts,
    rows-cons in_flight [] t ts,
    rows-cons compensating [] t ts,
    rows-cons idle (in_flight ∷ compensating ∷ []) t ts,
    split_active (own t) t.status,
    count_active ts,
  )

  split_all :
      (b : Bool) (s : TransactionStatus)
      → one_if (b && includes (status_name s) (map status_name non_terminal_statuses))
          + (one_if (b && includes (status_name s) ("COMPLETED" ∷ []))
              + one_if (b && includes (status_name s) ("COMPENSATED" ∷ []))
              + one_if (b && includes (status_name s) ("FAILED" ∷ [])))
        ≡ one_if b
  split_all false s = refl
  split_all true idle = refl
  split_all true in_flight = refl
  split_all true compensating = refl
  split_all true completed = refl
  split_all true compensated = refl
  split_all true failed = refl

  own-cons :
      (t : Transaction V) (ts : List (Transaction V))
      → length (filter own (t ∷ ts)) ≡ one_if (own t) + length (filter own ts)
  own-cons t ts = elim (Bool-cases (own t)) [
    | inl mine ↦ rw mine (omega arith)
    | inr other ↦ rw other (omega arith)
  ]

  count_all :
      (ts : List (Transaction V))
      → rows_with non_terminal_statuses ts
          + (rows_with (completed ∷ []) ts
              + rows_with (compensated ∷ []) ts
              + rows_with (failed ∷ []) ts)
        ≡ length (filter own ts)
  count_all [] = refl
  count_all (t ∷ ts) = omega (
    arith,
    rows-cons completed [] t ts,
    rows-cons compensated [] t ts,
    rows-cons failed [] t ts,
    rows-cons idle (in_flight ∷ compensating ∷ []) t ts,
    split_all (own t) t.status,
    own-cons t ts,
    count_all ts,
  )

  -- On the SQLite store, the breakdown by status counts each transaction of the machine once: the
  -- non-terminal ones are those that `getActiveCount` counts, and together with the terminal ones
  -- they are all rows that a query for the machine alone selects.
  pub breakdown_complete :
      (ties : TieOrder V) (w : World (Db V) S)
      → a.store ≡ sqlite_store ties
      → let b = get_status_breakdown a w in
        (b.non_terminal_count ≡ get_active_count a none w)
        × (b.non_terminal_count + b.terminal_count ≡ length (filter own w.rest.0.transactions))
  unfolding get_status_breakdown get_active_count count_transactions
  breakdown_complete ties w e = rw e (
    count_active w.rest.0.transactions,
    omega (arith, count_active w.rest.0.transactions, count_all w.rest.0.transactions),
  )
