-- ===== src/Frame/Run/Turn.antt =====
-- One step of a bthread (src/frame/graph.cpp) keeps the books of the request.
use graphize.Common.{
  ℕ, zero, suc, ◌+◌, ◌++◌, ◌≤◌, ◌<◌, ◌≡◌, refl, List, [], ◌∷◌, arith, ℤ, pos, Option, none, some,
  Bool, length, is_one, if◌then◌else◌, Bool-cases, inl, inr,
}
use graphize.Common.Bag.{count, same, total, count-append}
use graphize.Frame.Node.{Heap, Kind, cpu, io}
use graphize.Frame.Graph.Edges.{IsOrdered, inputs_within}
use graphize.Frame.Graph.Bfs.{IsClosed}
use graphize.Frame.Run.{
  Context, Thread, entering, serving, waiting, notifying, Turn, turn, notify, after_output,
  fetch_sub,
}
use graphize.Frame.Run.Ledger.{
  IsNumbered, Ledger, Ledger-cong, complete-Ledger, notify-Ledger, completed-IsWithin,
}
use graphize.Frame.Run.Threads.{owed_of, held_of, owed_by, held_by}

module _ (h : Heap) (skips : ℕ → Bool) (nodes : List ℕ) where
  abbrev out : ℕ → List ℕ
  out v = (h v).out_nodes

  abbrev id : ℕ → ℕ
  id v = (h v).id

  -- The steps of a node: to enter, to serve, to call back, each output, and to leave.
  abbrev pub cost : ℕ → ℕ
  cost n = length (h n).out_nodes + 4

  -- The steps that a bthread has still to make.
  abbrev pub work_of : Thread → ℕ
  work_of (entering n) = cost n
  work_of (serving n) = length (h n).out_nodes + 3
  work_of (waiting n) = length (h n).out_nodes + 2
  work_of (notifying rest none) = length rest + 1
  work_of (notifying rest (some last)) = length rest + 1 + cost last

  abbrev pub work : List Thread → ℕ
  work [] = 0
  work (t ∷ ts) = work_of t + work ts

  abbrev Books : Context → (ℕ → ℕ) → (ℕ → ℕ) → List ℕ → Type 0
  Books c = Ledger out id nodes c.node_input_num_map

  -- What holds of a step of `t`, where the other bthreads owe `owed` and hold `held`.
  pub record IsFine (c : Context) (t : Thread) (owed held : ℕ → ℕ) (completed : List ℕ) (r : Turn)
      : Type 0 where
    pub after : Context
    pub threads : List Thread
    pub done : List ℕ
    pub returns : r ≡ some (after, threads, done)
    pub books :
        Books after
          (λ v. count v (owed_by threads) + owed v)
          (λ v. count v (held_by threads) + held v)
          (done ++ completed)
    pub ordered : IsOrdered out nodes completed → IsOrdered out nodes (done ++ completed)
    pub paid :
        work threads + 1 + total cost (held_of t)
        ≤ work_of t + total cost done + total cost (held_by threads)

  -- A node that is held stands behind all its inputs.
  pub held-inputs :
      {counters : List (Option ℤ)} {owed held : ℕ → ℕ} (completed : List ℕ) (n : ℕ)
      → Ledger out id nodes counters owed held completed
      → 0 < held n
      → (u : ℕ) → 0 < count u nodes
      → 0 < count n (h u).out_nodes
      → 0 < count u completed
  held-inputs completed n b m =
      inputs_within out nodes completed n (completed-IsWithin out id nodes completed b)
        (omega (arith, b.empty n (omega arith)))

  module _ (closed : IsClosed out nodes) (numbered : IsNumbered id nodes) (c : Context)
      (owed held : ℕ → ℕ) (completed : List ℕ) where
    -- The node of a bthread completes.
    completes :
        (t : Thread) (n : ℕ)
        → held_of t ≡ n ∷ []
        → length (h n).out_nodes + 2 ≤ work_of t
        → Books c owed (λ v. same v n + held v) completed
        → IsFine c t owed held completed (some (c, notifying (h n).out_nodes none ∷ [], n ∷ []))
    completes t n e room b = record {
      after = c;
      threads = notifying (h n).out_nodes none ∷ [];
      done = n ∷ [];
      returns = refl;
      books =
          Ledger-cong out id nodes {owed = λ v. count v (h n).out_nodes + owed v} {held = held}
            (λ v. omega (arith, count-append v (h n).out_nodes [])) (λ v. omega arith)
            (complete-Ledger out id nodes n owed held completed
              (λ v m. closed n v (b.known n (ground arith)) m) b);
      ordered = λ o. (held-inputs completed n b (ground arith), o);
      paid = rw e (unfold total in omega arith);
    }

    -- The counter went down to `old`: the output is ready if and only if that is 0.
    notified :
        (n : ℕ) (rest : List ℕ) (last : Option ℕ) (old : ℕ) (c' : Context)
        → Books c'
            (λ v. count v rest + owed v)
            (λ v.
              if is_one (pos (suc old))
              then same v n + (count v (held_of (notifying rest last)) + held v)
              else count v (held_of (notifying rest last)) + held v)
            completed
        → IsFine c
            (notifying (n ∷ rest) last)
            owed
            held
            completed
            (after_output n rest last (some (c', is_one (pos (suc old)))))
    unfolding after_output total
    notified n rest none zero c' b = record {
      after = c';
      threads = notifying rest (some n) ∷ [];
      done = [];
      returns = refl;
      books =
          Ledger-cong out id nodes {owed = λ v. count v rest + owed v}
            {held = λ v. same v n + (0 + held v)} (λ v. omega (arith, count-append v rest []))
            (λ v. omega arith) b;
      ordered = λ o. o;
      paid = omega arith;
    }
    notified n rest (some last) zero c' b = record {
      after = c';
      threads = entering last ∷ notifying rest (some n) ∷ [];
      done = [];
      returns = refl;
      books =
          Ledger-cong out id nodes {owed = λ v. count v rest + owed v}
            {held = λ v. same v n + (same v last + 0 + held v)}
            (λ v. omega (arith, count-append v rest [])) (λ v. omega arith) b;
      ordered = λ o. o;
      paid = omega arith;
    }
    notified n rest none (suc old) c' b = record {
      after = c';
      threads = notifying rest none ∷ [];
      done = [];
      returns = refl;
      books =
          Ledger-cong out id nodes {owed = λ v. count v rest + owed v} {held = λ v. 0 + held v}
            (λ v. omega (arith, count-append v rest [])) (λ v. omega arith) b;
      ordered = λ o. o;
      paid = omega arith;
    }
    notified n rest (some last) (suc old) c' b = record {
      after = c';
      threads = notifying rest (some last) ∷ [];
      done = [];
      returns = refl;
      books =
          Ledger-cong out id nodes {owed = λ v. count v rest + owed v}
            {held = λ v. same v last + 0 + held v} (λ v. omega (arith, count-append v rest []))
            (λ v. omega arith) b;
      ordered = λ o. o;
      paid = omega arith;
    }

    -- A notification is made.
    notifies :
        (n : ℕ) (rest : List ℕ) (last : Option ℕ)
        → Books c
            (λ v. count v (n ∷ rest) + owed v)
            (λ v. count v (held_of (notifying rest last)) + held v)
            completed
        → IsFine c
            (notifying (n ∷ rest) last)
            owed
            held
            completed
            (after_output n rest last (notify h c n))
    unfolding notify
    notifies n rest last b =
        let (old, before, b') =
          notify-Ledger out id nodes numbered n (λ v. count v rest + owed v)
            (λ v. count v (held_of (notifying rest last)) + held v) completed
            (b.owed_known n (ground arith))
            (Ledger-cong out id nodes {owed = λ v. count v (n ∷ rest) + owed v}
              {held = λ v. count v (held_of (notifying rest last)) + held v} (λ v. omega arith)
              (λ v. refl) b) in
        rw (before, fetch_sub) (notified n rest last old _ b')

    alone :
        (n : ℕ)
        → Books c (λ v. count v [] + owed v) (λ v. count v (n ∷ []) + held v) completed
        → Books c owed (λ v. same v n + held v) completed
    alone n b =
        Ledger-cong out id nodes {owed = λ v. 0 + owed v} {held = λ v. same v n + 0 + held v}
          (λ v. omega arith) (λ v. omega arith) b

    serves :
        (n : ℕ) (kind : Kind)
        → Books c (λ v. count v [] + owed v) (λ v. count v (n ∷ []) + held v) completed
        → IsFine c (serving n) owed held completed (elim kind [
          | cpu ↦ some (c, notifying (h n).out_nodes none ∷ [], n ∷ [])
          | io ↦ some (c, waiting n ∷ [], [])
        ])
    serves n cpu b = completes (serving n) n refl (omega arith) (alone n b)
    serves n io b = record {
      after = c;
      threads = waiting n ∷ [];
      done = [];
      returns = refl;
      books = b;
      ordered = λ o. o;
      paid = unfold total in omega arith;
    }

    pub turn-IsFine :
        (t : Thread)
        → Books c (λ v. count v (owed_of t) + owed v) (λ v. count v (held_of t) + held v) completed
        → IsFine c t owed held completed (turn h skips c t)
    unfolding turn
    turn-IsFine (entering n) b = elim (Bool-cases (skips n)) [
      | inl skipped ↦ rw skipped (completes (entering n) n refl (omega arith) (alone n b))
      | inr runs ↦ rw runs (record {
        after = c;
        threads = serving n ∷ [];
        done = [];
        returns = refl;
        books = b;
        ordered = λ o. o;
        paid = unfold total in omega arith;
      })
    ]
    turn-IsFine (serving n) b = serves n (h n).kind b
    turn-IsFine (waiting n) b = completes (waiting n) n refl (omega arith) (alone n b)
    turn-IsFine (notifying (n ∷ rest) last) b = notifies n rest last b
    turn-IsFine (notifying [] (some last)) b = record {
      after = c;
      threads = entering last ∷ [];
      done = [];
      returns = refl;
      books = b;
      ordered = λ o. o;
      paid = omega arith;
    }
    turn-IsFine (notifying [] none) b = record {
      after = c;
      threads = [];
      done = [];
      returns = refl;
      books = b;
      ordered = λ o. o;
      paid = omega arith;
    }
