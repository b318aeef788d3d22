-- ===== src/Runtime/CleanUp/Selected.antt =====
-- The rows that the options of `forceCleanUp` (runtime/actor.ts) select, row by row.
use dfsm.Prelude.{
  ℕ, ◌+◌, String, Bool, true, false, ◌&&◌, ◌||◌, ◌==◌, leb, ◌≡◌, refl, arith, Option, none, some,
  List, [], ◌∷◌, map,
}
use dfsm.Prelude.Dict.{includes}
use dfsm.Machine.StateValue.{
  TransactionStatus, idle, in_flight, completed, compensating, compensated, failed,
}
use dfsm.Store.{Transaction}
use dfsm.Store.Sqlite.Queries.{status_name, text_clause, in_clause, names_of, until_clause, matches}
use dfsm.Runtime.{Actor}
use dfsm.Runtime.CleanUp.{
  CleanUpOptions, or_default, default_statuses, age_of, before_start, cutoff, candidate_filter,
}

abbrev is_terminal : TransactionStatus → Bool
is_terminal completed = true
is_terminal compensated = true
is_terminal failed = true
is_terminal _ = false

-- Without a list of statuses, running transactions are left out unless the options ask for them.
abbrev has_status : Option (List TransactionStatus) → Option Bool → TransactionStatus → Bool
has_status none (some true) s = true
has_status none (some false) s = is_terminal s
has_status none none s = is_terminal s
has_status (some []) running s = true
has_status (some (x ∷ xs)) running s = includes (status_name s) (map status_name (x ∷ xs))

abbrev has_id : Option (List String) → String → Bool
has_id none id = true
has_id (some []) id = true
has_id (some (x ∷ xs)) id = includes id (x ∷ xs)

abbrev has_name : Option String → String → Bool
has_name none name = true
has_name (some s) name = s == "" || name == s

-- the row has not changed for this long
abbrev is_aged : ℕ → Option ℕ → ℕ → Bool
is_aged now none changed = true
is_aged now (some ms) changed = leb (changed + ms) now

-- the limit of age that `stuckOnly` sets
abbrev pub stuck_age : Option Bool → Option ℕ → ℕ → Option ℕ
stuck_age (some true) (some ms) default = some ms
stuck_age (some true) none default = some default
stuck_age (some false) ms default = none
stuck_age none ms default = none

module _ {V D S : Type 0} (a : Actor V D S) (o : CleanUpOptions) (now : ℕ) where
  -- The options select this row.
  abbrev pub selected : Transaction V → Bool
  selected t =
      has_name (some a.machine.id) t.machine_id
      && (has_name o.actor_id t.actor_id
          && (has_id o.transaction_ids t.transaction_id
              && (has_status o.statuses o.include_in_flight t.status
                  && (is_aged now
                        (stuck_age o.stuck_only o.stuck_threshold_ms a.recovery.stuck_threshold_ms)
                        t.updated_at
                      && (is_aged now o.older_than_ms t.updated_at && true)))))

name_lem : (o : Option String) (s : String) → text_clause o s ≡ has_name o s
name_lem none s = refl
name_lem (some x) s = refl

id_lem : (o : Option (List String)) (s : String) → in_clause o s ≡ has_id o s
id_lem none s = refl
id_lem (some []) s = refl
id_lem (some (x ∷ xs)) s = refl

terminal_lem :
    (s : TransactionStatus)
    → includes (status_name s) (map status_name (default_statuses false)) ≡ is_terminal s
terminal_lem idle = refl
terminal_lem in_flight = refl
terminal_lem completed = refl
terminal_lem compensating = refl
terminal_lem compensated = refl
terminal_lem failed = refl

status_lem :
    (o : Option (List TransactionStatus)) (running : Option Bool) (s : TransactionStatus)
    → in_clause
        (names_of (some (or_default (default_statuses (or_default false running)) o)))
        (status_name s)
      ≡ has_status o running s
status_lem (some []) running s = refl
status_lem (some (x ∷ xs)) running s = refl
status_lem none (some true) idle = refl
status_lem none (some true) in_flight = refl
status_lem none (some true) completed = refl
status_lem none (some true) compensating = refl
status_lem none (some true) compensated = refl
status_lem none (some true) failed = refl
status_lem none (some false) s = terminal_lem s
status_lem none none s = terminal_lem s

pub stuck_lem :
    (only : Option Bool) (ms : Option ℕ) (default : ℕ)
    → age_of (or_default false only) (or_default default ms) ≡ stuck_age only ms default
stuck_lem none ms default = refl
stuck_lem (some false) ms default = refl
stuck_lem (some true) none default = refl
stuck_lem (some true) (some ms) default = refl

age_lem :
    (now : ℕ) (age : Option ℕ) (changed : ℕ)
    → before_start now age ≡ false
    → until_clause (cutoff now age) changed ≡ is_aged now age changed
age_lem now none changed h = refl
age_lem now (some ms) changed h = ground (arith, h)

pub too_old :
    (now : ℕ) (age : Option ℕ) (changed : ℕ)
    → before_start now age ≡ true
    → is_aged now age changed ≡ false
too_old now none changed h = cc
too_old now (some ms) changed h = ground (arith, h)

module _ {V D S : Type 0} (a : Actor V D S) (o : CleanUpOptions) (now : ℕ) where
  -- Where no limit of age lies before time 0, the filter of the query selects the same rows.
  pub matches-selected :
      (t : Transaction V)
      → before_start now (stuck_age o.stuck_only o.stuck_threshold_ms a.recovery.stuck_threshold_ms)
        ≡ false
      → before_start now o.older_than_ms ≡ false
      → matches (candidate_filter a o now) t ≡ selected a o now t
  matches-selected t h k =
      rw
        (
          name_lem o.actor_id t.actor_id,
          id_lem o.transaction_ids t.transaction_id,
          status_lem o.statuses o.include_in_flight t.status,
          stuck_lem o.stuck_only o.stuck_threshold_ms a.recovery.stuck_threshold_ms,
          age_lem now (stuck_age o.stuck_only o.stuck_threshold_ms a.recovery.stuck_threshold_ms)
              t.updated_at h,
          age_lem now o.older_than_ms t.updated_at k,
        )
        refl

  -- Where one does, the options select no row.
  pub selected-stuck :
      (t : Transaction V)
      → before_start now (stuck_age o.stuck_only o.stuck_threshold_ms a.recovery.stuck_threshold_ms)
        ≡ true
      → selected a o now t ≡ false
  selected-stuck t h =
      rw
        (too_old now (stuck_age o.stuck_only o.stuck_threshold_ms a.recovery.stuck_threshold_ms)
          t.updated_at h)
        (ground arith)

  pub selected-old :
      (t : Transaction V) → before_start now o.older_than_ms ≡ true → selected a o now t ≡ false
  selected-old t h = rw (too_old now o.older_than_ms t.updated_at h) (ground arith)
