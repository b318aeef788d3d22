-- ===== src/Store/Mongo/Pending.antt =====
-- The pending compensations under an update and a mark (store/mongodb-store.ts).
use dfsm.Prelude.{
  ℕ, String, ◌≡◌, refl, ap, ◌∙◌, sym, Bool, ◌&&◌, Bool-cases, if_both, inl, inr, none, some, List,
  [], ◌∷◌, eqb, arith, filter, Option-cases, if◌then◌else◌,
}
use dfsm.Store.{Patch}
use dfsm.Store.Contract.{differs}
use dfsm.Store.Sqlite.{sort_desc, is_uncompensated}
use dfsm.Store.Sqlite.Marks.{sort-filter}
use dfsm.Store.Mongo.{
  Document, find_one, update_one, has_id, update_op, update_transaction, get_uncompensated_stack,
  has_seq, mark_first, mark_op, mark_compensation_executed,
}
use dfsm.Store.Mongo.Documents.{All-find_one, find-update_one}
use dfsm.Store.Mongo.Numbers.{mark_first-absent, filter-mark_first}
use dfsm.Store.Mongo.Valid.{stale, applied}
use dfsm.Store.Mongo.Valid.{IsNumbered, IsValidCollection, update_cases}

module _ {V : Type 0} where
  absent-update :
      (id : String) (r : Document V → Bool) (f : Document V → Document V) (ds : List (Document V))
      → find_one (has_id id) ds ≡ none
      → update_one (λ d. has_id id d && r d) f ds ≡ ds
  absent-update id r f [] h = refl
  absent-update id r f (d ∷ ds) h = ground (arith, absent-update id r f ds)

  pending_of_absent :
      (id : String) (ds : List (Document V))
      → find_one (has_id id) ds ≡ none
      → get_uncompensated_stack id ds ≡ []
  unfolding get_uncompensated_stack
  pending_of_absent id ds h = rw (h, get_uncompensated_stack) refl

  pending_of_found :
      (id : String) (ds : List (Document V)) (d : Document V)
      → find_one (has_id id) ds ≡ some d
      → get_uncompensated_stack id ds ≡ sort_desc (filter is_uncompensated d.compensation_stack)
  unfolding get_uncompensated_stack
  pending_of_found id ds d h = rw (h, get_uncompensated_stack) refl

  marked_stack :
      (seq at : ℕ) (d : Document V)
      → (if has_seq seq d.compensation_stack then mark_op seq at d else d).compensation_stack
        ≡ mark_first seq at d.compensation_stack
  marked_stack seq at d = elim (Bool-cases (has_seq seq d.compensation_stack)) [
    | inl there ↦ ap (λ b. (if b then mark_op seq at d else d).compensation_stack) there
    | inr missing ↦
        ap (λ b. (if b then mark_op seq at d else d).compensation_stack) missing
        ∙ sym (mark_first-absent seq at d.compensation_stack missing)
  ]

  pub pending-mark :
      (ds : List (Document V)) (id : String) (seq at : ℕ)
      → IsValidCollection ds
      → get_uncompensated_stack id (mark_compensation_executed id seq at ds)
        ≡ filter (differs seq) (get_uncompensated_stack id ds)
  unfolding mark_compensation_executed
  pending-mark ds id seq at k =
      let r = λ (d : Document V). has_seq seq d.compensation_stack in
      elim (Option-cases (find_one (has_id id) ds)) [
        | inl absent ↦
            rw (absent-update id r (mark_op seq at) ds absent, pending_of_absent id ds absent) refl
        | inr (d, found) ↦
            pending_of_found id (update_one (λ d. has_id id d && r d) (mark_op seq at) ds) _
              (find-update_one id r (mark_op seq at) (λ d. refl) ds d found)
            ∙ ap (λ es. sort_desc (filter is_uncompensated es)) (marked_stack seq at d)
            ∙ ap sort_desc (
                filter-mark_first seq at 1 d.next_comp_step_seq d.compensation_stack
                  (All-find_one IsNumbered (has_id id) ds d k.1 found))
            ∙ sort-filter (differs seq) (filter is_uncompensated d.compensation_stack)
            ∙ ap (filter (differs seq)) (sym (pending_of_found id ds d found))
      ]

  pub pending-update :
      (ds : List (Document V)) (id : String) (v : ℕ) (p : Patch V)
      → get_uncompensated_stack id (update_transaction id v p [] ds).1
        ≡ get_uncompensated_stack id ds
  unfolding update_op
  pending-update ds id v p =
      let r = λ (d : Document V). eqb d.transaction.version v in
      elim (update_cases id v p [] ds) [
        | stale gone e ↦ rw e refl
        | applied d base there numbers e ↦
            (let f = update_op id v p [] base in
              ap (λ u. get_uncompensated_stack id u.1) e
              ∙ elim (Option-cases (find_one (has_id id) ds)) [
                | inl absent ↦ ap (get_uncompensated_stack id) (absent-update id r f ds absent)
                | inr (d', found) ↦
                    pending_of_found id (update_one (λ d. has_id id d && r d) f ds) _
                      (find-update_one id r f (λ d. refl) ds d' found)
                    ∙ ap (λ es. sort_desc (filter is_uncompensated es))
                        (if_both (λ (d : Document V). d.compensation_stack ≡ d'.compensation_stack)
                          (r d') refl refl)
                    ∙ sym (pending_of_found id ds d' found)
              ])
      ]
