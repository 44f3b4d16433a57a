-- ===== src/Frame/Run/Ledger.antt =====
-- The counters of one request (Node::notify, src/frame/graph.cpp) against the work that is done
-- and outstanding: what each counter shows, and who is ready.
use graphize.Common.{
  ℕ, suc, ◌+◌, ◌-◌, ◌≤◌, ◌<◌, ◌≡◌, subst, fun_ext, List, ◌∷◌, arith, ℤ, pos, Option, some, length,
  get_elem?, set, get_elem?-set_self, get_elem?-set_ne, lt_of_get_elem?, if◌then◌else◌, is_one,
  ℕ_discrete, ◌∙◌,
}
use graphize.Common.Bag.{count, same, total, IsWithin, IsNodup-IsWithin, total-diff}
use graphize.Frame.Graph.Edges.{edges}

-- The ids of the nodes are their places in the vector of counters.
pub record IsNumbered (id : ℕ → ℕ) (nodes : List ℕ) : Type 0 where
  pub distinct : (v w : ℕ) → 0 < count v nodes → 0 < count w nodes → id v ≡ id w → v ≡ w
  pub small : (v : ℕ) → 0 < count v nodes → id v < length nodes

-- `owed` holds an entry for each notification that is still to be made by a completed node, and
-- `held` the nodes that are ready or running.
module _ (out : ℕ → List ℕ) (id : ℕ → ℕ) (nodes : List ℕ) where
  pub record Ledger (counters : List (Option ℤ)) (owed held : ℕ → ℕ) (completed : List ℕ)
      : Type 0 where
    pub left :
        (v : ℕ)
        → 0 < count v nodes
        → get_elem? counters (id v)
          ≡ some (some (pos (edges out nodes v + owed v - edges out completed v)))
    pub once : (v : ℕ) → count v completed + held v ≤ 1
    pub known : (v : ℕ) → 0 < count v completed + held v → 0 < count v nodes
    pub owed_known : (v : ℕ) → 0 < owed v → 0 < count v nodes
    pub empty :
        (v : ℕ)
        → 0 < count v completed + held v
        → edges out nodes v + owed v ≤ edges out completed v
    pub full :
        (v : ℕ)
        → 0 < count v nodes
        → edges out nodes v + owed v ≤ edges out completed v
        → 0 < count v completed + held v

  -- The books depend on the numbers only.
  pub Ledger-cong :
      {counters : List (Option ℤ)} {owed owed' held held' : ℕ → ℕ} {completed : List ℕ}
      → ((v : ℕ) → owed v ≡ owed' v)
      → ((v : ℕ) → held v ≡ held' v)
      → Ledger counters owed held completed
      → Ledger counters owed' held' completed
  Ledger-cong {counters} {owed'} {held} {completed} e e' l =
      subst (λ k. Ledger counters owed' k completed) (fun_ext e')
        (subst (λ k. Ledger counters k held completed) (fun_ext e) l)

  pub completed-IsWithin :
      {counters : List (Option ℤ)} {owed held : ℕ → ℕ} (completed : List ℕ)
      → Ledger counters owed held completed
      → IsWithin completed nodes
  completed-IsWithin completed l =
      IsNodup-IsWithin completed nodes (λ a. omega (arith, l.once a))
        (λ a m. l.known a (omega arith))

  -- A node that was held completes: from now on it owes a notification to each of its outputs.
  pub complete-Ledger :
      {counters : List (Option ℤ)} (n : ℕ) (owed held : ℕ → ℕ) (completed : List ℕ)
      → ((v : ℕ) → 0 < count v (out n) → 0 < count v nodes)
      → Ledger counters owed (λ v. same v n + held v) completed
      → Ledger counters (λ v. count v (out n) + owed v) held (n ∷ completed)
  unfolding total
  complete-Ledger n owed held completed outputs l = record {
    left = λ v m. ground (arith, l.left v);
    once = λ v. omega (arith, l.once v);
    known = λ v m. l.known v (omega arith);
    owed_known = λ v m. ground (arith, outputs v, l.owed_known v);
    empty = λ v m. omega (arith, l.empty v (omega arith));
    full = λ v m e. omega (arith, l.full v m (omega arith));
  }

  module _ (numbered : IsNumbered id nodes) where
    -- A notification that was owed is made: the counter goes down, and the node is ready if and only
    -- if the old value was 1.
    pub notify-Ledger :
        {counters : List (Option ℤ)} (n : ℕ) (owed held : ℕ → ℕ) (completed : List ℕ)
        → 0 < count n nodes
        → Ledger counters (λ v. same v n + owed v) held completed
        → (old : ℕ) × (get_elem? counters (id n) ≡ some (some (pos (suc old))))
          × Ledger
              (set counters (id n) (some (pos old)))
              owed
              (λ v. if is_one (pos (suc old)) then same v n + held v else held v)
              completed
    notify-Ledger {counters} n owed held completed here l = (
      old,
      before,
      record {
        left = left_after;
        once = λ v. ground (arith, l.once v, l.empty v, bound v);
        known = λ v m. ground (arith, l.known v);
        owed_known = λ v m. l.owed_known v (omega arith);
        empty = λ v m. ground (arith, l.empty v, bound v);
        full = λ v m e. ground (arith, l.full v, bound v);
      },
    )
      where
        within : IsWithin completed nodes
        within = completed-IsWithin completed l

        bound : (v : ℕ) → edges out completed v ≤ edges out nodes v
        bound v = omega (arith, total-diff (λ u. count v (out u)) completed nodes within)

        old : ℕ
        old = edges out nodes n + owed n - edges out completed n

        before : get_elem? counters (id n) ≡ some (some (pos (suc old)))
        before = ground (arith, l.left n here, bound n)

        left_after :
            (v : ℕ)
            → 0 < count v nodes
            → get_elem? (set counters (id n) (some (pos old))) (id v)
              ≡ some (some (pos (edges out nodes v + owed v - edges out completed v)))
        left_after v m = elim (ℕ_discrete n v) [
          | yes hit ↦
              subst
                (λ w.
                  get_elem? (set counters (id n) (some (pos old))) (id w)
                  ≡ some (some (pos (edges out nodes w + owed w - edges out completed w))))
                hit (get_elem?-set_self counters (id n) _ (lt_of_get_elem? counters (id n) before))
          | no miss ↦
              get_elem?-set_ne counters _ (λ e. miss (numbered.distinct n v here m e))
              ∙ ground (arith, l.left v m)
        ]
