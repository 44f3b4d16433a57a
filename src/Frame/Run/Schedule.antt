-- ===== src/Frame/Run/Schedule.antt =====
-- Every interleaving of the bthreads of a request (Graph::run, src/frame/graph.h, and
-- src/frame/graph.cpp): no step is a fault, each node runs once and after its inputs, the run ends,
-- and then every node has run.
use graphize.Common.{
  ℕ, ◌+◌, ◌++◌, ◌≤◌, ◌<◌, ◌≡◌, refl, sym, subst, List, [], ◌∷◌, arith, Bool, some, length,
}
use graphize.Common.Bag.{
  count, total, IsNodup, count-append, total-append, total-diff, IsWithin, IsNodup-IsWithin,
}
use graphize.Frame.Node.{Heap}
use graphize.Frame.Graph.{Graph}
use graphize.Frame.Graph.Edges.{edges, IsOrdered}
use graphize.Frame.Graph.Verdict.{ordered-deleted}
use graphize.Frame.Run.{System, Thread, serving, running, run, step, execute}
use graphize.Frame.Run.Ledger.{completed-IsWithin}
use graphize.Frame.Run.Threads.{held_by, held-append}
use graphize.Frame.Run.Turn.{held-inputs}
use graphize.Frame.Run.Start.{IsReady}
use graphize.Frame.Run.Invariant.{RunInv, step-Inv, execute-Inv, started-Inv}

module _ (h : Heap) (skips : ℕ → Bool) (g : Graph) (root : ℕ) (ready : IsReady h g root) where
  module _ (s s' : System) (schedule : List ℕ) (begins : run h g ≡ running s)
      (runs : execute h skips s schedule ≡ some s') where
    reached-Inv : RunInv h skips g root ready (length schedule) s'
    reached-Inv =
        subst (λ k. RunInv h skips g root ready k s') (omega arith)
          (execute-Inv h skips g root ready schedule 0 s s' runs
            (started-Inv h skips g root ready s begins))

    -- No interleaving meets a fault: each bthread that is there can make its next step.
    pub execute_progress :
        (i : ℕ) → i < length s'.threads → (s'' : System) × (step h skips s' i ≡ some s'')
    execute_progress i lt =
        let (s'', e, _) = step-Inv h skips g root ready (length schedule) s' i lt reached-Inv in
        (s'', e)

    -- At any time no node has completed twice, and the completed nodes stand behind their inputs.
    pub execute-IsOrdered :
        IsNodup s'.completed × IsOrdered (λ v. (h v).out_nodes) g.all_nodes s'.completed
    execute-IsOrdered = (λ v. omega (arith, reached-Inv.books.once v), reached-Inv.ordered)

    -- A node that is in its service, or about to be, has all its inputs completed.
    pub execute_inputs :
        (before after : List Thread) (n : ℕ)
        → s'.threads ≡ before ++ (serving n ∷ after)
        → (u : ℕ) → 0 < count u g.all_nodes
        → 0 < count n (h u).out_nodes
        → 0 < count u s'.completed
    execute_inputs before after n e u m =
        held-inputs h skips g.all_nodes s'.completed n reached-Inv.books
          (subst (λ ts. 0 < count n (held_by ts)) (sym e)
            (ground (arith, held-append n before (serving n ∷ after))))
          u m

    -- No execution is longer than the sum over the nodes of four and the number of outputs.
    pub execute_bounded : length schedule ≤ total (λ n. length (h n).out_nodes + 4) g.all_nodes
    execute_bounded =
        let both : List ℕ = s'.completed ++ held_by s'.threads in
        let within : IsWithin both g.all_nodes =
          IsNodup-IsWithin both g.all_nodes
            (λ a.
              omega
                (arith, reached-Inv.books.once a, count-append a s'.completed (held_by s'.threads)))
            (λ a m.
              reached-Inv.books.known a
                (omega (arith, count-append a s'.completed (held_by s'.threads)))) in
        omega (
          arith,
          reached-Inv.paid,
          total-append (λ n. length (h n).out_nodes + 4) s'.completed (held_by s'.threads),
          total-diff (λ n. length (h n).out_nodes + 4) both g.all_nodes within,
        )

    -- When no bthread is left, exactly the nodes of the graph have completed, each of them once.
    pub execute_complete : s'.threads ≡ [] → (v : ℕ) → count v s'.completed ≡ count v g.all_nodes
    execute_complete e v =
        let idle : RunInv h skips g root ready (length schedule) (record s' { threads = [] }) =
          subst (λ ts. RunInv h skips g root ready (length schedule) (record s' { threads = ts })) e
            reached-Inv in
        let all : 0 < count v g.all_nodes → 0 < count v s'.completed = λ m.
          ordered-deleted (λ v. (h v).out_nodes) g.all_nodes
            (edges (λ v. (h v).out_nodes) g.all_nodes) ready.reachable.once ready.acyclic.order
            s'.completed
            (completed-IsWithin (λ v. (h v).out_nodes) (λ w. (h w).id) g.all_nodes s'.completed
              idle.books)
            (λ w _. refl) (λ w n f. omega (arith, idle.books.full w n (omega arith)))
            ready.acyclic.ordered v (ready.acyclic.covers v m) m in
        ground (arith, all, idle.books.once v, ready.reachable.once v, idle.books.known v)
