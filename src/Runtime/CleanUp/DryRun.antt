-- ===== src/Runtime/CleanUp/DryRun.antt =====
-- Dry runs of `forceCleanUp` (runtime/actor.ts) on the SQLite store.
use dfsm.Prelude.{
  ℕ, suc, arith, Bool, Bool-cases, inl, inr, ◌≡◌, refl, true, false, some, List, [], ◌∷◌, length,
  filter, map, ap, sym, ◌∙◌,
}
use dfsm.Errors.{Result, ok}
use dfsm.Store.{Summary}
use dfsm.Store.Sqlite.{Db}
use dfsm.Store.Sqlite.Queries.{TieOrder, matches, sort_asc, summary_of, query_transactions}
use dfsm.Store.Sqlite.Queries.Results.{length-sort}
use dfsm.Store.Sqlite.Refines.{sqlite_store}
use dfsm.Runtime.{Actor}
use dfsm.Runtime.Report.{CleanUpAction, clean_delete, CleanUpReport}
use dfsm.Runtime.World.{World}
use dfsm.Runtime.Monad.{after_call}
use dfsm.Runtime.Recovery.Rows.{query}
use dfsm.Runtime.CleanUp.{
  CleanUpOptions, or_default, age_of, before_start, threshold_of, candidate_filter,
  empty_clean_up_report, candidates, clean_found, force_clean_up,
}
use dfsm.Runtime.CleanUp.Selected.{
  stuck_age, stuck_lem, selected, matches-selected, selected-stuck, selected-old,
}

count-same {ℓ} :
    {A : Type ℓ} (p q : A → Bool) (xs : List A)
    → ((x : A) → p x ≡ q x)
    → length (filter p xs) ≡ length (filter q xs)
count-same p q [] h = refl
count-same p q (x ∷ xs) h = ground (arith, h x, count-same p q xs h)

count-none {ℓ} :
    {A : Type ℓ} (q : A → Bool) (xs : List A) → ((x : A) → q x ≡ false) → 0 ≡ length (filter q xs)
count-none q [] h = refl
count-none q (x ∷ xs) h = ground (arith, h x, count-none q xs h)

length-map {ℓ κ} :
    {A : Type ℓ} {B : Type κ} (f : A → B) (xs : List A) → length (map f xs) ≡ length xs
length-map f [] = refl
length-map f (x ∷ xs) = ap suc (length-map f xs)

-- the report of a dry run that found `n` transactions
abbrev pub counted : ℕ → CleanUpReport
counted n = record {
  scanned = n;
  matched = n;
  deleted = [];
  marked_failed = [];
  compensated = [];
  unlocked = [];
  dry_run = true;
  errors = [];
}

module _ {V S : Type 0} (a : Actor V (Db V) S) (ties : TieOrder V) (o : CleanUpOptions) where
  module _ (now : ℕ) (w : World (Db V) S) where
    -- the call gives a list of this length and changes nothing
    abbrev Gives : Result (List (Summary V)) × World (Db V) S → ℕ → Type 0
    Gives r n = (found : List (Summary V)) × (r ≡ (ok found, w)) × (length found ≡ n)

    asked-Gives :
        a.store ≡ sqlite_store ties
        → before_start now
            (stuck_age o.stuck_only o.stuck_threshold_ms a.recovery.stuck_threshold_ms)
          ≡ false
        → before_start now o.older_than_ms ≡ false
        → Gives
            (query a (candidate_filter a o now) now (threshold_of a o) w)
            (length (filter (selected a o now) w.rest.0.transactions))
    unfolding query query_transactions
    asked-Gives store h k =
        let f = candidate_filter a o now in
        let rows = filter (matches f) w.rest.0.transactions in
        let summary = summary_of now (threshold_of a o) w.rest.0 in
        (
          map summary (sort_asc ties rows),
          ap (λ s. (s.query_transactions (some f) now (threshold_of a o) w.rest.0, w)) store,
          length-map summary (sort_asc ties rows)
              ∙ length-sort ties rows
              ∙ count-same (matches f) (selected a o now) w.rest.0.transactions
                  (λ t. matches-selected a o now t h k),
        )

    candidates-Gives :
        a.store ≡ sqlite_store ties
        → Gives (candidates a o now w) (length (filter (selected a o now) w.rest.0.transactions))
    unfolding candidates
    candidates-Gives store =
        let rows = w.rest.0.transactions in
        let age = age_of (or_default false o.stuck_only) (threshold_of a o) in
        let same = sym (
          ap (before_start now)
            (stuck_lem o.stuck_only o.stuck_threshold_ms a.recovery.stuck_threshold_ms)) in
        elim (Bool-cases (before_start now age)) [
          | inl early ↦ rw early (
            [],
            refl,
            count-none (selected a o now) rows (λ t. selected-stuck a o now t (same ∙ early)),
          )
          | inr late ↦ rw late (elim (Bool-cases (before_start now o.older_than_ms)) [
            | inl early ↦
                rw early
                  ([], refl, count-none (selected a o now) rows (λ t. selected-old a o now t early))
            | inr later ↦ rw later (asked-Gives store (same ∙ late) later)
          ])
        ]

  found_counted :
      (action : CleanUpAction) (found : List (Summary V)) (w : World (Db V) S)
      → clean_found a action true found w ≡ (ok (empty_clean_up_report (length found) true), w)
  unfolding clean_found
  found_counted action [] w = refl
  found_counted action (i ∷ is) w = refl

  -- On the SQLite store, a dry run of a clean-up succeeds and changes nothing, whatever its action.
  -- Its report counts the rows that the options select: those of the machine (of any machine, if
  -- its id is empty), of the actor and with the ids and statuses asked for (by default the terminal
  -- statuses, or all of them with `includeInFlight`), unchanged for the stuck threshold with
  -- `stuckOnly`, and for `olderThanMs` where it is given; an empty name or list asks for nothing.
  -- No list of treated transactions has an entry.
  pub dry_run_counts :
      (w : World (Db V) S)
      → a.store ≡ sqlite_store ties
      → o.dry_run ≡ some true
      → force_clean_up a o w
        ≡ (ok (counted (length (filter (selected a o (a.now w.rest.1)) w.rest.0.transactions))), w)
  unfolding force_clean_up
  dry_run_counts w store dry =
      let action = or_default clean_delete o.action in
      let (found, e, n) = candidates-Gives (a.now w.rest.1) w store in
      let now = a.now w.rest.1 in
      ap (λ d. after_call (clean_found a action (or_default false d)) (candidates a o now w)) dry
      ∙ ap (λ c. after_call (clean_found a action true) c) e
      ∙ found_counted action found w
      ∙ ap (λ k. (ok (counted k), w)) n
