-- ===== src/Frame/Graph/Verdict.antt =====
-- What Graph::check decides (src/frame/graph.h).
use graphize.Common.{
  ℕ, ◌≤◌, ◌<◌, ◌≡◌, refl, ◌↔◌, inl, inr, List, [], ◌∷◌, arith, length, Bool-cases, Bool, true,
  false, some, pos, is_zero, subst, sym, ap, ◌∙◌, Option,
}
use graphize.Common.Bag.{
  count, contains, total, diff, total_pos, total-diff, count-diff, IsNodup, IsWithin, le-total,
  IsNodup-IsWithin,
}
use graphize.Frame.Node.{Heap}
use graphize.Frame.Graph.{Graph, all_deleted, verdict, check, check_root, remove_nodes}
use graphize.Frame.Graph.Edges.{edges, IsOrdered, Reaches}
use graphize.Frame.Graph.Bfs.{IsClosed, IsReachable}
use graphize.Frame.Graph.Check.{KahnInv, Loop, remove_nodes-Loop}
use graphize.Frame.Graph.Acyclic.{IsAcyclic, no_cycle, Walk-snoc}

all_deleted-true :
    (nodes deleted : List ℕ) (v : ℕ)
    → all_deleted nodes deleted ≡ true
    → 0 < count v nodes
    → 0 < count v deleted
unfolding all_deleted
all_deleted-true [] deleted v h m = absurd (omega arith)
all_deleted-true (n ∷ ns) deleted v h m = ground (arith, all_deleted-true ns deleted v)

true-all_deleted :
    (nodes deleted : List ℕ)
    → ((v : ℕ) → 0 < count v nodes → 0 < count v deleted)
    → all_deleted nodes deleted ≡ true
unfolding all_deleted
true-all_deleted [] deleted h = refl
true-all_deleted (n ∷ ns) deleted h =
    ground (arith, h n, true-all_deleted ns deleted (λ v m. h v (omega arith)))

module _ (out : ℕ → List ℕ) (nodes : List ℕ) (inputs : ℕ → ℕ) (unique : IsNodup nodes) where
  -- In a graph without cycles nothing is left over.
  pub ordered-deleted :
      (order deleted : List ℕ)
      → IsWithin deleted nodes
      → ((v : ℕ) → 0 < count v nodes → inputs v ≡ edges out nodes v)
      → ((v : ℕ) → 0 < count v nodes → inputs v ≤ edges out deleted v → 0 < count v deleted)
      → IsOrdered out nodes order
      → (v : ℕ) → 0 < count v order
      → 0 < count v nodes
      → 0 < count v deleted
  ordered-deleted [] deleted within exact full o v m n = absurd (omega arith)
  ordered-deleted (x ∷ xs) deleted within exact full o v m n = elim (Bool-cases (contains v xs)) [
    | inl later ↦ ordered-deleted xs deleted within exact full o.1 v (ground arith) n
    | inr here ↦ elim (Bool-cases (contains v deleted)) [
      | inl found ↦ ground arith
      | inr lost ↦
          let (u, left, e) =
            total_pos (λ w. count v (out w)) (diff deleted nodes)
              (ground (
                arith,
                exact v n,
                full v n,
                total-diff (λ w. count v (out w)) deleted nodes within,
              )) in
          let placed : 0 < count u xs = ground (arith, o.0 u, count-diff u deleted nodes within) in
          let gone : 0 < count u deleted =
            ordered-deleted xs deleted within exact full o.1 u placed
              (omega (arith, count-diff u deleted nodes within)) in
          absurd (omega (arith, unique u, count-diff u deleted nodes within))
    ]
  ]

-- The counters that Graph::check starts from: for each node the number of its inputs, among which
-- are the edges from nodes of the graph (and perhaps edges from nodes that the root does not reach).
pub record IsCounted (h : Heap) (nodes : List ℕ) (inputs : ℕ → ℕ) : Type 0 where
  pub counter : (v : ℕ) → 0 < count v nodes → (h v).input_num_4_check ≡ pos (inputs v)
  pub enough : (v : ℕ) → edges (λ u. (h u).out_nodes) nodes v ≤ inputs v

-- What the graph has to be for `check` to accept it.
pub record IsDag (out : ℕ → List ℕ) (nodes : List ℕ) (inputs : ℕ → ℕ) : Type 0 where
  pub acyclic : IsAcyclic out nodes
  pub exact : (v : ℕ) → 0 < count v nodes → inputs v ≡ edges out nodes v

pub IsReachable-closed :
    (out : ℕ → List ℕ) (root : ℕ) (nodes : List ℕ) → IsReachable out root nodes → IsClosed out nodes
IsReachable-closed out root nodes r v w m e = r.complete w (Reaches.along v w (r.sound v m) e)

module _ (h : Heap) (g : Graph) (root : ℕ) (inputs : ℕ → ℕ)
    (counted : IsCounted h g.all_nodes inputs)
    (reachable : IsReachable (λ v. (h v).out_nodes) root g.all_nodes) where
  abbrev out : ℕ → List ℕ
  out v = (h v).out_nodes

  -- Only the root can have no inputs: every other node stands behind the one that reached it.
  only_root : (v : ℕ) → Reaches out root v → inputs v ≤ 0 → 0 < count v (root ∷ [])
  only_root v Reaches.start e = ground arith
  only_root v (Reaches.along u w r m) e = absurd (
      omega (
        arith,
        counted.enough w,
        le-total (λ x. count w (out x)) u g.all_nodes (reachable.complete u r),
      ))

  start-Inv : inputs root ≤ 0 → KahnInv out g.all_nodes inputs (edges out []) h (root ∷ []) []
  unfolding total
  start-Inv z = record {
    same_out = λ v. refl;
    left = λ v m. ground (arith, counted.counter v m);
    once = λ v. ground arith;
    known = λ v m.
        subst (λ x. 0 < count x g.all_nodes) (ground arith) (reachable.complete root Reaches.start);
    empty = λ v m. subst (λ x. inputs x ≤ 0) (ground arith) z;
    full = λ v m e. omega (arith, only_root v (reachable.sound v m) e);
  }

  -- A root with inputs lies on a cycle, or has an input that the root does not reach.
  root-inputs : 0 < inputs root → ¬ IsDag out g.all_nodes inputs
  root-inputs some_input d =
      let here = reachable.complete root Reaches.start in
      let (u, m, e) =
        total_pos (λ x. count root (out x)) g.all_nodes (omega (arith, d.exact root here)) in
      no_cycle out g.all_nodes d.acyclic (IsReachable-closed out root g.all_nodes reachable) root
        here (Walk-snoc out root u root (reachable.sound u m) e)

  abbrev Decides : Option (Bool × Heap) → Type 0
  Decides r =
      (valid : Bool) × (h' : Heap) × (r ≡ some (valid, h'))
      × ((valid ≡ true) ↔ IsDag out g.all_nodes inputs)

  -- What the finished loop tells of the graph.
  Loop-Decides :
      (h' : Heap) (deleted : List ℕ)
      → Loop out g.all_nodes inputs reachable.once
          (IsReachable-closed out root g.all_nodes reachable)
          counted.enough
          h'
          []
          deleted
      → Decides (some (all_deleted g.all_nodes deleted, h'))
  Loop-Decides h' deleted (i, ordered) = (
    all_deleted g.all_nodes deleted,
    h',
    refl,
    (
      λ gone.
          let all = λ (v : ℕ) (m : 0 < count v g.all_nodes).
            all_deleted-true g.all_nodes deleted v gone m in
          record {
            acyclic = record { order = deleted; ordered = ordered; covers = all };
            exact = λ v m. omega (
              arith,
              counted.enough v,
              i.empty v (omega (arith, all v m)),
              total-diff (λ u. count v (out u)) deleted g.all_nodes within,
            );
          },
      λ d. true-all_deleted g.all_nodes deleted (λ v m.
          ordered-deleted out g.all_nodes inputs reachable.once d.acyclic.order deleted within
            d.exact (λ w n e. omega (arith, i.full w n e)) d.acyclic.ordered v
            (d.acyclic.covers v m) m),
    ),
  )
    where
      within : IsWithin deleted g.all_nodes
      within =
          IsNodup-IsWithin deleted g.all_nodes (λ a. omega (arith, i.once a))
            (λ a m. i.known a (omega arith))

  check-run :
      g.root_node ≡ some root
      → is_zero (h root).input_num_4_check ≡ true
      → check h g ≡ verdict g (remove_nodes (length g.all_nodes) h (root ∷ []) [])
  unfolding check
  check-run e zero = ap (check_root h g) e ∙ rw zero

  check-refused :
      g.root_node ≡ some root
      → is_zero (h root).input_num_4_check ≡ false
      → check h g ≡ some (false, h)
  unfolding check
  check-refused e some_input = ap (check_root h g) e ∙ rw some_input

  -- Graph::check ends within its fuel. It returns true exactly when the nodes can be put in an order
  -- behind their inputs and no input comes from a node that the root does not reach.
  pub check-IsDag :
      g.root_node ≡ some root
      → (valid : Bool) × (h' : Heap) × (check h g ≡ some (valid, h'))
        × ((valid ≡ true) ↔ IsDag (λ v. (h v).out_nodes) g.all_nodes inputs)
  unfolding verdict
  check-IsDag e = elim (Bool-cases (is_zero (h root).input_num_4_check)) [
    | inl zero ↦
        let z : inputs root ≤ 0 = ground (arith, counted.counter root here) in
        let (h', deleted, done, l) =
          remove_nodes-Loop out g.all_nodes inputs reachable.once shut counted.enough
            (length g.all_nodes) h (root ∷ []) [] (omega arith) (start-Inv z, tt) in
        subst Decides (sym (check-run e zero ∙ ap (verdict g) done)) (Loop-Decides h' deleted l)
    | inr some_input ↦ (
      false,
      h,
      check-refused e some_input,
      (λ accepted. cc, λ d. absurd (root-inputs (ground (arith, counted.counter root here)) d)),
    )
  ]
    where
      here : 0 < count root g.all_nodes
      here = reachable.complete root Reaches.start

      shut : IsClosed out g.all_nodes
      shut = IsReachable-closed out root g.all_nodes reachable
