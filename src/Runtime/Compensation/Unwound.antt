-- ===== src/Runtime/Compensation/Unwound.antt =====
-- What `unwindCompensationStack` (runtime/actor.ts) leaves on the stack.
use mathlib.Core.Path.{subst}
use dfsm.Prelude.{
  sym, ℕ, suc, ◌+◌, String, ◌≡◌, refl, ap, ◌∙◌, true, false, Option, none, some, List, [], ◌∷◌, eqb,
  arith, length, filter, Bool-cases, inl, inr, Bool, All, if◌then◌else◌,
}
use dfsm.Errors.{ok, Exec}
use dfsm.Store.{CompensationEntry}
use dfsm.Store.Contract.{Lawful, differs}
use dfsm.Runtime.{Actor, CompensateRequest, HookEvent, on_compensate}
use dfsm.Runtime.Monad.{after_call, pure, ◌>>=◌, for_each}
use dfsm.Runtime.World.{World, outside, emit}
use dfsm.Runtime.Compensation.{
  Handler, request_of, or_context, name_of, call_handler, note_executed, unwind_entry,
  unwind_entries, unwind_compensation_stack,
}

-- An action of user code that returns, and leaves the store as it is.
abbrev pub Quiet : {D S A : Type 0} → Exec (D × S) A → Type 0
Quiet {D} {S} {A} m = (r : D × S) → (v : A) × (s : S) × (m r ≡ (ok v, (r.0, s)))

-- Every hook and every compensation is quiet.
pub record QuietHandlers {V D S : Type 0} (a : Actor V D S) : Type 0 where
  pub hooks :
      All (λ (h : HookEvent V → Exec (D × S) (Unit {0})). (e : HookEvent V) → Quiet (h e)) a.hooks
  pub compensations :
      (key name : String) (fn : CompensateRequest V → Exec (D × S) (Option V))
      → a.resolve_compensate key ≡ some (name, fn)
      → (r : CompensateRequest V) → Quiet (fn r)

-- `m` returns from `w`, with a value and a store that are as `P` says.
pub record Leads {D S A : Type 0} (m : Exec (World D S) A) (w : World D S) (P : A → D → Type 0)
    : Type 0 where
  pub value : A
  pub after : World D S
  pub run : m w ≡ (ok value, after)
  pub post : P value after.rest.0

module _ {D S A B : Type 0} where
  Leads-bind :
      (m : Exec (World D S) A) (f : A → Exec (World D S) B) (w w' : World D S) (v : A)
      (Q : B → D → Type 0)
      → m w ≡ (ok v, w')
      → Leads (f v) w' Q
      → Leads (m >>= f) w Q
  Leads-bind m f w w' v Q h l = record {
    value = l.value;
    after = l.after;
    run = ap (after_call f) h ∙ l.run;
    post = l.post;
  }

outside-Leads :
    {D S A : Type 0} (m : Exec (D × S) A) (w : World D S)
    → Quiet m
    → Leads (outside m) w (λ v d. d ≡ w.rest.0)
outside-Leads m w q =
    let (v, s, e) = q w.rest in
    record {
      value = v;
      after = record w { rest = (w.rest.0, s) };
      run = ap (λ r. (r.0, record w { rest = r.1 })) e;
      post = refl;
    }

module _ {V D S : Type 0} where
  hooks-Leads :
      (hs : List (HookEvent V → Exec (D × S) (Unit {0}))) (e : HookEvent V) (w : World D S) (d : D)
      → All (λ (h : HookEvent V → Exec (D × S) (Unit {0})). (e : HookEvent V) → Quiet (h e)) hs
      → w.rest.0 ≡ d
      → Leads (for_each (λ hook. outside (hook e)) hs) w (λ _ d'. d' ≡ d)
  unfolding for_each
  hooks-Leads [] e w d q h = record { value = tt; after = w; run = refl; post = h }
  hooks-Leads (x ∷ xs) e w d q h =
      let l = outside-Leads (x e) w (q.0 e) in
      Leads-bind (outside (x e)) (λ _. for_each (λ hook. outside (hook e)) xs) w l.after l.value
        (λ _ d'. d' ≡ d) l.run (hooks-Leads xs e l.after d q.1 (l.post ∙ h))

-- whether one of the entries has the number
abbrev is_among : {V : Type 0} → ℕ → List (CompensationEntry V) → Bool
is_among n [] = false
is_among n (e ∷ es) = if eqb n e.step_seq then true else is_among n es

module _ {V : Type 0} where
  -- Each of `es` has its number among `treated`.
  abbrev Covered : List (CompensationEntry V) → List (CompensationEntry V) → Type 0
  Covered treated es = All (λ (e : CompensationEntry V). is_among e.step_seq treated ≡ true) es

  Covered-nil : (es : List (CompensationEntry V)) → Covered [] es → es ≡ []
  Covered-nil [] h = refl
  Covered-nil (e ∷ es) h = cc h.0

  Covered-weaken :
      (e : CompensationEntry V) (treated es : List (CompensationEntry V))
      → Covered treated es
      → Covered (e ∷ treated) es
  Covered-weaken e treated [] h = tt
  Covered-weaken e treated (f ∷ fs) h = (ground (arith, h.0), Covered-weaken e treated fs h.1)

  Covered-self : (es : List (CompensationEntry V)) → Covered es es
  Covered-self [] = tt
  Covered-self (e ∷ es) = (ground arith, Covered-weaken e es es (Covered-self es))

  Covered-filter :
      (e : CompensationEntry V) (treated es : List (CompensationEntry V))
      → Covered (e ∷ treated) es
      → Covered treated (filter (differs e.step_seq) es)
  Covered-filter e treated [] h = tt
  Covered-filter e treated (f ∷ fs) h = elim (Bool-cases (eqb f.step_seq e.step_seq)) [
    | inl same ↦ rw same (Covered-filter e treated fs h.1)
    | inr other ↦ rw other (rw other at h.0, Covered-filter e treated fs h.1)
  ]

module _ {V D S : Type 0} (a : Actor V D S) (quiet : QuietHandlers a) (Q : D → Type 0)
    (laws : Lawful a.store Q) (tx : String) (failure : Option String) where
  call_handler-Leads :
      (o : Handler V D S) (e : CompensationEntry V) (c : V) (w : World D S)
      → a.resolve_compensate e.entry.compensate_key ≡ o
      → Leads (call_handler o tx e c failure) w (λ _ d. d ≡ w.rest.0)
  call_handler-Leads none e c w h = record { value = c; after = w; run = refl; post = refl }
  call_handler-Leads (some (name, fn)) e c w h =
      let r = request_of tx e c failure in
      let l = outside-Leads (fn r) w (quiet.compensations e.entry.compensate_key name fn h r) in
      Leads-bind (outside (fn r)) (λ u. pure (or_context c u)) w l.after l.value
        (λ _ d. d ≡ w.rest.0) l.run
        (record { value = or_context c l.value; after = l.after; run = refl; post = l.post })

  emit-Leads : (e : HookEvent V) (w : World D S) → Leads (emit a e) w (λ _ d. d ≡ w.rest.0)
  unfolding emit
  emit-Leads e w = hooks-Leads a.hooks e w w.rest.0 quiet.hooks refl

  abbrev pending : D → List (CompensationEntry V)
  pending d = a.store.get_uncompensated_stack tx d

  -- `d'` has the pending compensations of `d` but `e`.
  abbrev Without : CompensationEntry V → D → D → Type 0
  Without e d d' = pending d' ≡ filter (differs e.step_seq) (pending d)

  note_executed-Leads :
      (e : CompensationEntry V) (c : V) (w : World D S)
      → Q w.rest.0
      → Leads (note_executed a tx failure e c) w (λ _ d. Without e w.rest.0 d × Q d)
  unfolding note_executed
  note_executed-Leads e c w q =
      let at = a.now w.rest.1 in
      let marked : World D S = record w {
        rest = (a.store.mark_compensation_executed tx e.step_seq at w.rest.0, w.rest.1);
      } in
      let name = name_of (a.resolve_compensate e.entry.compensate_key) e.entry.compensate_key in
      let event =
        on_compensate tx e.step_seq name e.entry.from_state e.entry.input_snapshot c failure in
      let n = emit-Leads event marked in
      record {
        value = c;
        after = n.after;
        run = ap (after_call (λ _. pure c)) n.run;
        post = (
          ap pending n.post ∙ laws.pending_mark w.rest.0 tx e.step_seq at q,
          subst Q (sym n.post) (laws.mark_IsValid w.rest.0 tx e.step_seq at q),
        );
      }

  unwind_entry-Leads :
      (e : CompensationEntry V) (c : V) (w : World D S)
      → Q w.rest.0
      → Leads (unwind_entry a tx failure e c) w (λ _ d. Without e w.rest.0 d × Q d)
  unfolding unwind_entry
  unwind_entry-Leads e c w q =
      let handler = a.resolve_compensate e.entry.compensate_key in
      let l = call_handler-Leads handler e c w refl in
      let n = note_executed-Leads e l.value l.after (subst Q (sym l.post) q) in
      Leads-bind (call_handler handler tx e c failure) (note_executed a tx failure e) w l.after
        l.value (λ _ d. Without e w.rest.0 d × Q d) l.run
        (record {
          value = n.value;
          after = n.after;
          run = n.run;
          post = (n.post.0 ∙ ap (λ d. filter (differs e.step_seq) (pending d)) l.post, n.post.1);
        })

  unwind_entries-Leads :
      (es : List (CompensationEntry V)) (c : V) (n : ℕ) (w : World D S)
      → Q w.rest.0
      → Covered es (pending w.rest.0)
      → Leads
          (unwind_entries a tx failure es c n)
          w
          (λ r d. (r.1 ≡ n + length es) × (pending d ≡ []))
  unfolding unwind_entries
  unwind_entries-Leads [] c n w q h = record {
    value = (c, n);
    after = w;
    run = refl;
    post = (omega arith, Covered-nil _ h);
  }
  unwind_entries-Leads (e ∷ es) c n w q h =
      let l = unwind_entry-Leads e c w q in
      let k =
        unwind_entries-Leads es l.value (suc n) l.after l.post.1
          (rw l.post.0 (Covered-filter e es (pending w.rest.0) h)) in
      Leads-bind (unwind_entry a tx failure e c)
        (λ updated. unwind_entries a tx failure es updated (suc n)) w l.after l.value
        (λ r d. (r.1 ≡ n + length (e ∷ es)) × (pending d ≡ [])) l.run
        (record {
          value = k.value;
          after = k.after;
          run = k.run;
          post = (omega (arith, k.post.0), k.post.1);
        })

  -- With a store that keeps the interface's promises, and hooks and compensations that return and
  -- leave the store alone, unwinding returns, from any valid state of the store: its count is the
  -- number of compensations that were pending, and none of the transaction's is pending afterwards.
  pub unwind_exhausts :
      (c : V) (w : World D S)
      → Q w.rest.0
      → Leads
          (unwind_compensation_stack a tx c failure)
          w
          (λ r d. (r.1 ≡ length (pending w.rest.0)) × (pending d ≡ []))
  unfolding unwind_compensation_stack
  unwind_exhausts c w q =
      let l = unwind_entries-Leads (pending w.rest.0) c 0 w q (Covered-self (pending w.rest.0)) in
      record {
        value = l.value;
        after = l.after;
        run = l.run;
        post = (omega (arith, l.post.0), l.post.1);
      }
