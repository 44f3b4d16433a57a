-- ===== src/Frame/Run/Finish.antt =====
-- A request can always go on to its end (Graph::run, src/frame/graph.h, and src/frame/graph.cpp).
use graphize.Common.{
  ℕ, zero, suc, ◌+◌, ◌++◌, ◌<◌, ◌≡◌, refl, ◌∙◌, List, [], ◌∷◌, arith, Bool, some, none≢some,
  some-injective, Option-cases, inl, inr, List-cases, length, length-append,
}
use graphize.Common.Bag.{total}
use graphize.Frame.Node.{Heap}
use graphize.Frame.Graph.{Graph}
use graphize.Frame.Run.{System, running, run, step, execute}
use graphize.Frame.Run.Start.{IsReady}
use graphize.Frame.Run.Schedule.{execute_progress, execute_bounded}

module _ (h : Heap) (skips : ℕ → Bool) where
  -- One execution behind another.
  pub execute-append :
      (s s1 : System) (front back : List ℕ)
      → execute h skips s front ≡ some s1
      → execute h skips s (front ++ back) ≡ execute h skips s1 back
  unfolding execute
  execute-append s s1 [] back e = rw (some-injective e) refl
  execute-append s s1 (i ∷ front) back e = elim (Option-cases (step h skips s i)) [
    | inl stuck ↦ absurd (none≢some (rw (stuck, execute) at e))
    | inr (s2, moved) ↦
        rw (moved, execute) (execute-append s2 s1 front back (rw (moved, execute) at e))
  ]

  module _ (g : Graph) (root : ℕ) (ready : IsReady h g root) where
    abbrev bound : ℕ
    bound = total (λ n. length (h n).out_nodes + 4) g.all_nodes

    -- With `n` steps left to the bound, the first bthread always goes on.
    finishes :
        (n : ℕ) (s s' : System) (schedule : List ℕ)
        → run h g ≡ running s
        → execute h skips s schedule ≡ some s'
        → bound < n + length schedule
        → (rest : List ℕ) × (s'' : System) × (execute h skips s' rest ≡ some s'')
          × (s''.threads ≡ [])
    unfolding execute
    finishes zero s s' schedule begins runs lt =
        absurd (omega (arith, lt, execute_bounded h skips g root ready s s' schedule begins runs))
    finishes (suc n) s s' schedule begins runs lt = elim (List-cases s'.threads) [
      | inl none_left ↦ ([], s', refl, none_left)
      | inr (t, ts, some_left) ↦
          let (s1, moved) =
            execute_progress h skips g root ready s s' schedule begins runs 0
              (rw some_left (omega arith)) in
          let (rest, s'', ends, none_left) =
            finishes n s s1 (schedule ++ 0 ∷ []) begins
              (execute-append s s' schedule (0 ∷ []) runs ∙ rw (moved, execute) refl)
              (omega (arith, lt, length-append schedule (0 ∷ []))) in
          (0 ∷ rest, s'', rw (moved, execute) ends, none_left)
    ]

    -- From every state that an execution of a graph that is ready reaches, with any answers of `skip`,
    -- some execution goes on to a state without bthreads, in which the request is done.
    pub execute_finishes :
        (s s' : System) (schedule : List ℕ)
        → run h g ≡ running s
        → execute h skips s schedule ≡ some s'
        → (rest : List ℕ) × (s'' : System) × (execute h skips s' rest ≡ some s'')
          × (s''.threads ≡ [])
    execute_finishes s s' schedule begins runs =
        finishes (suc bound) s s' schedule begins runs (omega arith)
