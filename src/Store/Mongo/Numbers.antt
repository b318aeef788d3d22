-- ===== src/Store/Mongo/Numbers.antt =====
-- The numbers in the embedded stacks (store/mongodb-store.ts).
use dfsm.Prelude.{
  ℕ, suc, ◌+◌, String, ◌≡◌, ◌<◌, refl, false, Bool-cases, inl, inr, List, [], ◌∷◌, ◌++◌, eqb,
  eqb_iff, arith, length, filter,
}
use dfsm.Store.{Compensation, CompensationEntry}
use dfsm.Store.Contract.{differs}
use dfsm.Store.Sqlite.{numbered, is_uncompensated}
use dfsm.Store.Mongo.{has_seq, mark_first}

module _ {V : Type 0} where
  -- The entries have the numbers from `n` on, in their order, and `m` is the next number.
  abbrev pub Counted : ℕ → ℕ → List (CompensationEntry V) → Type 0
  Counted n m [] = m ≡ n
  Counted n m (e ∷ es) = (e.step_seq ≡ n) × Counted (suc n) m es

  Counted-numbered :
      (id : String) (n : ℕ) (cs : List (Compensation V))
      → Counted n (n + length cs) (numbered id n cs)
  unfolding numbered
  Counted-numbered id n [] = omega arith
  Counted-numbered id n (c ∷ cs) =
      let e : n + suc (length cs) ≡ suc n + length cs = omega arith in
      (refl, rw e (Counted-numbered id (suc n) cs))

  pub Counted-append :
      (id : String) (n m : ℕ) (es : List (CompensationEntry V)) (cs : List (Compensation V))
      → Counted n m es
      → Counted n (m + length cs) (es ++ numbered id m cs)
  Counted-append id n m [] cs h =
      let e : n ≡ m = omega (arith, h) in rw e (Counted-numbered id m cs)
  Counted-append id n m (e ∷ es) cs h = (h.0, Counted-append id (suc n) m es cs h.1)

  pub Counted-mark_first :
      (seq at n m : ℕ) (es : List (CompensationEntry V))
      → Counted n m es
      → Counted n m (mark_first seq at es)
  Counted-mark_first seq at n m [] h = h
  Counted-mark_first seq at n m (e ∷ es) h = elim (Bool-cases (eqb e.step_seq seq)) [
    | inl same ↦ rw same (h.0, h.1)
    | inr other ↦ rw other (h.0, Counted-mark_first seq at (suc n) m es h.1)
  ]

  pub mark_first-absent :
      (seq at : ℕ) (es : List (CompensationEntry V))
      → has_seq seq es ≡ false
      → mark_first seq at es ≡ es
  mark_first-absent seq at [] h = refl
  mark_first-absent seq at (e ∷ es) h = ground (arith, mark_first-absent seq at es)

  smaller_differs :
      (seq n m : ℕ) (es : List (CompensationEntry V))
      → seq < n
      → Counted n m es
      → filter is_uncompensated es ≡ filter (differs seq) (filter is_uncompensated es)
  smaller_differs seq n m [] below h = refl
  smaller_differs seq n m (e ∷ es) below h =
      let later : seq < suc n = omega arith in
      ground (arith, h.0, smaller_differs seq (suc n) m es later h.1)

  -- Numbers from `n` on occur once, so the first entry with a number is the only one.
  pub filter-mark_first :
      (seq at n m : ℕ) (es : List (CompensationEntry V))
      → Counted n m es
      → filter is_uncompensated (mark_first seq at es)
        ≡ filter (differs seq) (filter is_uncompensated es)
  filter-mark_first seq at n m [] h = refl
  filter-mark_first seq at n m (e ∷ es) h = elim (Bool-cases (eqb e.step_seq seq)) [
    | inl same ↦
        (let below : seq < suc n = omega (arith, h.0, (eqb_iff e.step_seq seq).0 same) in
          ground (arith, same, smaller_differs seq (suc n) m es below h.1))
    | inr other ↦ ground (arith, other, filter-mark_first seq at (suc n) m es h.1)
  ]
