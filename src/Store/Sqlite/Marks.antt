-- ===== src/Store/Sqlite/Marks.antt =====
-- The pending compensations after `markCompensationExecuted` (store/sqlite-store.ts).
use dfsm.Prelude.{
  ℕ, String, ◌≡◌, ◌≤◌, refl, ap, ◌∙◌, Bool, true, ◌&&◌, List, [], ◌∷◌, arith, filter, All, if_both,
  Bool-cases, inl, inr, ltb, if◌then◌else◌,
}
use dfsm.Store.{CompensationEntry}
use dfsm.Store.Sqlite.{
  Db, insert_desc, sort_desc, pending_of, mark_row, mark_rows, mark_compensation_executed,
  get_uncompensated_stack,
}
use dfsm.Store.Contract.{differs}

module _ {V : Type 0} where
  abbrev UpTo : ℕ → List (CompensationEntry V) → Type 0
  UpTo m es = All (λ (e : CompensationEntry V). e.step_seq ≤ m) es

  abbrev Descending : List (CompensationEntry V) → Type 0
  Descending [] = Unit
  Descending (e ∷ es) = UpTo e.step_seq es × Descending es

  UpTo-le : (m n : ℕ) (es : List (CompensationEntry V)) → m ≤ n → UpTo m es → UpTo n es
  UpTo-le m n [] h k = tt
  UpTo-le m n (e ∷ es) h k = (omega (arith, k.0), UpTo-le m n es h k.1)

  UpTo-insert :
      (m : ℕ) (e : CompensationEntry V) (es : List (CompensationEntry V))
      → e.step_seq ≤ m
      → UpTo m es
      → UpTo m (insert_desc e es)
  UpTo-insert m e [] h k = (h, tt)
  UpTo-insert m e (f ∷ fs) h k =
      if_both (UpTo m) (ltb e.step_seq f.step_seq) (k.0, UpTo-insert m e fs h k.1) (h, k)

  Descending-insert :
      (e : CompensationEntry V) (es : List (CompensationEntry V))
      → Descending es
      → Descending (insert_desc e es)
  Descending-insert e [] d = (tt, tt)
  Descending-insert e (f ∷ fs) d = elim (Bool-cases (ltb e.step_seq f.step_seq)) [
    | inl less ↦
        let h : e.step_seq ≤ f.step_seq = ground arith in
        rw less (UpTo-insert f.step_seq e fs h d.0, Descending-insert e fs d.1)
    | inr more ↦
        let h : f.step_seq ≤ e.step_seq = ground arith in
        rw more ((h, UpTo-le f.step_seq e.step_seq fs h d.0), d)
  ]

  Descending-sort : (es : List (CompensationEntry V)) → Descending (sort_desc es)
  Descending-sort [] = tt
  Descending-sort (e ∷ es) = Descending-insert e (sort_desc es) (Descending-sort es)

  insert_front :
      (e : CompensationEntry V) (es : List (CompensationEntry V))
      → UpTo e.step_seq es
      → insert_desc e es ≡ e ∷ es
  insert_front e [] h = refl
  insert_front e (f ∷ fs) h = ground (arith, h.0)

  UpTo-filter :
      (q : CompensationEntry V → Bool) (m : ℕ) (es : List (CompensationEntry V))
      → UpTo m es
      → UpTo m (filter q es)
  UpTo-filter q m [] h = tt
  UpTo-filter q m (e ∷ es) h =
      if_both (UpTo m) (q e) (h.0, UpTo-filter q m es h.1) (UpTo-filter q m es h.1)

  filter-insert :
      (q : CompensationEntry V → Bool) (e : CompensationEntry V) (es : List (CompensationEntry V))
      → Descending es
      → filter q (insert_desc e es) ≡ (if q e then insert_desc e (filter q es) else filter q es)
  filter-insert q e [] d = ground arith
  filter-insert q e (f ∷ fs) d = elim (Bool-cases (ltb e.step_seq f.step_seq)) [
    | inl less ↦ ground (arith, filter-insert q e fs d.1)
    | inr more ↦
        let h : f.step_seq ≤ e.step_seq = ground arith in
        let front : insert_desc e (filter q (f ∷ fs)) ≡ e ∷ filter q (f ∷ fs) =
          insert_front e (filter q (f ∷ fs))
            (UpTo-filter q e.step_seq (f ∷ fs) (h, UpTo-le f.step_seq e.step_seq fs h d.0)) in
        rw (more, front) refl
  ]

  pub sort-filter :
      (q : CompensationEntry V → Bool) (es : List (CompensationEntry V))
      → sort_desc (filter q es) ≡ filter q (sort_desc es)
  sort-filter q [] = refl
  sort-filter q (e ∷ es) = elim (Bool-cases (q e)) [
    | inl kept ↦
        rw (kept, filter-insert q e (sort_desc es) (Descending-sort es))
          (rw kept (ap (insert_desc e) (sort-filter q es)))
    | inr dropped ↦
        rw (dropped, filter-insert q e (sort_desc es) (Descending-sort es))
          (rw dropped (sort-filter q es))
  ]

  pending-mark_row :
      (id : String) (seq at : ℕ) (e : CompensationEntry V)
      → pending_of id (mark_row id seq at e) ≡ pending_of id e && differs seq e
  pending-mark_row id seq at e = ground arith

  mark_row_kept :
      (id : String) (seq at : ℕ) (e : CompensationEntry V)
      → pending_of id e && differs seq e ≡ true
      → mark_row id seq at e ≡ e
  mark_row_kept id seq at e h = ground arith

  filter-mark_rows :
      (id : String) (seq at : ℕ) (es : List (CompensationEntry V))
      → filter (pending_of id) (mark_rows id seq at es)
        ≡ filter (differs seq) (filter (pending_of id) es)
  filter-mark_rows id seq at [] = refl
  filter-mark_rows id seq at (e ∷ es) = elim (Bool-cases (pending_of id e && differs seq e)) [
    | inl kept ↦
        rw (pending-mark_row id seq at e, kept, mark_row_kept id seq at e kept)
          (ground (arith, filter-mark_rows id seq at es))
    | inr dropped ↦
        rw (pending-mark_row id seq at e, dropped) (ground (arith, filter-mark_rows id seq at es))
  ]

  -- Marking a compensation as executed takes it, and no other, out of the pending ones, whose
  -- order stays.
  pub pending-mark :
      (id : String) (seq at : ℕ) (db : Db V)
      → get_uncompensated_stack id (mark_compensation_executed id seq at db)
        ≡ filter (differs seq) (get_uncompensated_stack id db)
  unfolding get_uncompensated_stack mark_compensation_executed
  pending-mark id seq at db =
      ap sort_desc (filter-mark_rows id seq at db.stack)
      ∙ sort-filter (differs seq) (filter (pending_of id) db.stack)
