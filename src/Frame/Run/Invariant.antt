-- ===== src/Frame/Run/Invariant.antt =====
-- What holds after each step of a request, and that a step keeps it (src/frame/graph.h and
-- src/frame/graph.cpp).
use graphize.Common.{
  ℕ, suc, ◌+◌, ◌++◌, ◌≤◌, ◌<◌, ◌≡◌, refl, sym, ap, subst, ◌∙◌, inl, inr, List, [], ◌∷◌, arith, Bool,
  none, some, length, Option-cases, dec_lt, some-injective, none≢some,
}
use graphize.Common.Bag.{count, total, count-append, total-append}
use graphize.Frame.Node.{Heap}
use graphize.Frame.Graph.{Graph}
use graphize.Frame.Graph.Edges.{IsOrdered}
use graphize.Frame.Graph.Verdict.{IsReachable-closed}
use graphize.Frame.Run.{
  Context, System, Thread, RunResult, no_root, bad_id, running, run, turn, resume, step_selected,
  step, execute,
}
use graphize.Frame.Run.Ledger.{Ledger, Ledger-cong}
use graphize.Frame.Run.Turn.{cost, work, turn-IsFine, IsFine}
use graphize.Frame.Run.Start.{IsReady, run-starts}
use graphize.Frame.Run.Threads.{
  owed_of, held_of, owed_by, held_by, owed-append, held-append, total-held-append, select-append,
  select-past,
}

abbrev system_of : System → RunResult → System
system_of d (running s) = s
system_of d no_root = d
system_of d bad_id = d

pub running-injective : {s s' : System} → running s ≡ running s' → s ≡ s'
running-injective {s} e = ap (system_of s) e

module _ (h : Heap) (skips : ℕ → Bool) (g : Graph) (root : ℕ) (ready : IsReady h g root) where
  abbrev out : ℕ → List ℕ
  out v = (h v).out_nodes

  abbrev Books : Context → (ℕ → ℕ) → (ℕ → ℕ) → List ℕ → Type 0
  Books c = Ledger out (λ v. (h v).id) g.all_nodes c.node_input_num_map

  abbrev todo : List Thread → ℕ
  todo = work h skips g.all_nodes

  abbrev price : List ℕ → ℕ
  price = total (cost h skips g.all_nodes)

  todo-append : (xs ys : List Thread) → todo (xs ++ ys) ≡ todo xs + todo ys
  todo-append [] ys = omega arith
  todo-append (t ∷ ts) ys = omega (arith, todo-append ts ys)

  -- The state after so many steps.
  pub record RunInv (steps : ℕ) (s : System) : Type 0 where
    pub books :
        Books s.context
          (λ v. count v (owed_by s.threads))
          (λ v. count v (held_by s.threads))
          s.completed
    pub ordered : IsOrdered out g.all_nodes s.completed
    pub paid : steps + todo s.threads ≤ price s.completed + price (held_by s.threads)

  resume-Inv :
      (steps : ℕ) (s : System) (before after : List Thread) (t : Thread)
      → s.threads ≡ before ++ (t ∷ after)
      → RunInv steps s
      → (s' : System) × (resume s before after (turn h skips s.context t) ≡ some s')
        × RunInv (suc steps) s'
  unfolding resume
  resume-Inv steps s before after t e i = (
    record {
      context = f.after;
      threads = before ++ (f.threads ++ after);
      completed = f.done ++ s.completed;
    },
    ap (resume s before after) f.returns,
    record {
      books =
          Ledger-cong out (λ v. (h v).id) g.all_nodes
            {owed = λ v. count v (owed_by f.threads) + owed v}
            {held = λ v. count v (held_by f.threads) + held v}
            (λ v.
              omega
                (arith, owed-append v before (f.threads ++ after), owed-append v f.threads after))
            (λ v.
              omega
                (arith, held-append v before (f.threads ++ after), held-append v f.threads after))
            f.books;
      ordered = f.ordered i.ordered;
      paid = omega (
        arith,
        paid,
        f.paid,
        todo-append before (f.threads ++ after),
        todo-append f.threads after,
        todo-append before (t ∷ after),
        total-held-append (cost h skips g.all_nodes) before (f.threads ++ after),
        total-held-append (cost h skips g.all_nodes) f.threads after,
        total-held-append (cost h skips g.all_nodes) before (t ∷ after),
        total-append (cost h skips g.all_nodes) (held_of t) (held_by after),
        total-append (cost h skips g.all_nodes) f.done s.completed,
      );
    },
  )
    where
      owed : ℕ → ℕ
      owed v = count v (owed_by before) + count v (owed_by after)

      held : ℕ → ℕ
      held v = count v (held_by before) + count v (held_by after)

      books :
          Books s.context
            (λ v. count v (owed_of t) + owed v)
            (λ v. count v (held_of t) + held v)
            s.completed
      books =
          Ledger-cong out (λ v. (h v).id) g.all_nodes
            {owed = λ v. count v (owed_by (before ++ (t ∷ after)))}
            {held = λ v. count v (held_by (before ++ (t ∷ after)))}
            (λ v.
              omega (
                arith,
                owed-append v before (t ∷ after),
                count-append v (owed_of t) (owed_by after),
              ))
            (λ v.
              omega (
                arith,
                held-append v before (t ∷ after),
                count-append v (held_of t) (held_by after),
              ))
            (subst
              (λ ts.
                Books s.context (λ v. count v (owed_by ts)) (λ v. count v (held_by ts)) s.completed)
              e i.books)

      paid :
          steps + todo (before ++ (t ∷ after))
          ≤ price s.completed + price (held_by (before ++ (t ∷ after)))
      paid = subst (λ ts. steps + todo ts ≤ price s.completed + price (held_by ts)) e i.paid

      f : IsFine h skips g.all_nodes s.context t owed held s.completed (turn h skips s.context t)
      f =
          turn-IsFine h skips g.all_nodes (IsReachable-closed out root g.all_nodes ready.reachable)
            ready.numbered s.context owed held s.completed t books

  pub step-Inv :
      (steps : ℕ) (s : System) (i : ℕ)
      → i < length s.threads
      → RunInv steps s
      → (s' : System) × (step h skips s i ≡ some s') × RunInv (suc steps) s'
  unfolding step step_selected
  step-Inv steps s i lt v =
      let (before, t, after, chosen, e) = select-append i s.threads lt in
      let (s', resumed, v') = resume-Inv steps s before after t e v in
      (s', ap (step_selected h skips s) chosen ∙ resumed, v')

  step-past : (s : System) (i : ℕ) → length s.threads ≤ i → step h skips s i ≡ none
  unfolding step step_selected
  step-past s i past = ap (step_selected h skips s) (select-past i s.threads past)

  -- A step that is made keeps the invariant.
  stepped-Inv :
      (steps : ℕ) (s s' : System) (i : ℕ)
      → step h skips s i ≡ some s'
      → RunInv steps s
      → RunInv (suc steps) s'
  stepped-Inv steps s s' i e v = elim (dec_lt i (length s.threads)) [
    | yes lt ↦
        let (s'', e', v') = step-Inv steps s i lt v in
        subst (RunInv (suc steps)) (some-injective (sym e' ∙ e)) v'
    | no past ↦ absurd (none≢some (sym (step-past s i (omega arith)) ∙ e))
  ]

  pub execute-Inv :
      (schedule : List ℕ) (steps : ℕ) (s s' : System)
      → execute h skips s schedule ≡ some s'
      → RunInv steps s
      → RunInv (steps + length schedule) s'
  unfolding execute
  execute-Inv [] steps s s' e v =
      subst (λ k. RunInv k s') (omega arith) (subst (RunInv steps) (some-injective e) v)
  execute-Inv (i ∷ schedule) steps s s' e v = elim (Option-cases (step h skips s i)) [
    | inl stuck ↦ absurd (none≢some (sym (rw (stuck, execute)) ∙ e))
    | inr (s1, made) ↦
        subst (λ k. RunInv k s') (omega arith)
          (execute-Inv schedule (suc steps) s1 s' (sym (rw (made, execute)) ∙ e)
            (stepped-Inv steps s s1 i made v))
  ]

  pub started-Inv : (s : System) → run h g ≡ running s → RunInv 0 s
  unfolding total
  started-Inv s e =
      let (c, e', books) = run-starts h g root ready in
      subst (RunInv 0) (running-injective (sym e' ∙ e)) (record {
        books =
            Ledger-cong out (λ v. (h v).id) g.all_nodes {owed = λ v. 0}
              {held = λ v. count v (root ∷ [])} (λ v. refl) (λ v. refl) books;
        ordered = tt;
        paid = omega arith;
      })
