-- ===== src/Frame/Manager/Accepted.antt =====
-- What holds of a graph that Graph::init accepts, whatever its configuration (src/frame/graph.h,
-- src/frame/graph_manager.cpp), and that later graphs do not change it.
use graphize.Common.{
  ℕ, ◌+◌, ◌≤◌, ◌<◌, ◌≡◌, refl, ap, sym, subst, ◌∙◌, fun_ext, List, [], ◌∷◌, some, Bool, true, false,
  inl, inr, Option-cases, arith, pos, ℕ_discrete, length, some-injective, none≢some,
}
use graphize.Common.Bag.{count, total, total-diff, total-cong, length-le}
use graphize.Frame.Node.{Heap}
use graphize.Frame.Graph.{Graph, InitResult, bfs, check, returned, init, check_nodes, finish_init}
use graphize.Frame.Graph.Edges.{edges, Reaches, IsOrdered}
use graphize.Frame.Graph.Bfs.{IsReachable, bfs-IsReachable}
use graphize.Frame.Graph.Acyclic.{IsAcyclic}
use graphize.Frame.Graph.Verdict.{IsCounted, IsDag, IsReachable-closed, check-IsDag}
use graphize.Frame.Run.Start.{IsReady}
use graphize.Frame.Manager.{Builder}
use graphize.Frame.Manager.Built.{created, created_only, In, out_of, inputs_of, Built}
use graphize.Frame.Manager.Ready.{length-created, node-In, nodes-IsWithin, shut, is_created}
use graphize.Frame.Graph.Kept.{Same, check_root-Same}
use graphize.Frame.Graph.Outside.{bfs_unique, check_root_outside}

-- All that a graph has to be to run, but for the ids of its nodes, which a node that the root does not
-- reach can push beyond their number.
pub record IsAccepted (h : Heap) (g : Graph) (root : ℕ) : Type 0 where
  pub rooted : g.root_node ≡ some root
  pub reachable : IsReachable (λ v. (h v).out_nodes) root g.all_nodes
  pub acyclic : IsAcyclic (λ v. (h v).out_nodes) g.all_nodes
  pub counted :
      (v : ℕ)
      → 0 < count v g.all_nodes
      → (h v).input_num ≡ pos (edges (λ u. (h u).out_nodes) g.all_nodes v)
  pub distinct :
      (v w : ℕ) → 0 < count v g.all_nodes → 0 < count w g.all_nodes → (h v).id ≡ (h w).id → v ≡ w
  pub room : length g.all_nodes ≤ g.max_node_id + 1

-- Each id is less than the number of nodes.
unfoldable pub HasSmallIds : Heap → Graph → Type 0
HasSmallIds h g = (v : ℕ) → 0 < count v g.all_nodes → (h v).id < length g.all_nodes

pub IsReady-of :
    (h : Heap) (g : Graph) (root : ℕ) → IsAccepted h g root → HasSmallIds h g → IsReady h g root
unfolding HasSmallIds
IsReady-of h g root a small = record {
  rooted = a.rooted;
  reachable = a.reachable;
  acyclic = a.acyclic;
  counted = a.counted;
  numbered = record { distinct = a.distinct; small = small };
  room = a.room;
}

-- Two heaps with the same nodes of a graph.
module _ (h h' : Heap) (g : Graph) (root : ℕ) (a : IsAccepted h g root)
    (same : (v : ℕ) → 0 < count v g.all_nodes → h' v ≡ h v) where
  abbrev out : ℕ → List ℕ
  out v = (h v).out_nodes

  abbrev out' : ℕ → List ℕ
  out' v = (h' v).out_nodes

  same_out : (v w : ℕ) → 0 < count v g.all_nodes → count w (out' v) ≡ count w (out v)
  same_out v w m = ap (λ x. count w x.out_nodes) (same v m)

  still_reached : (v : ℕ) → Reaches out root v → Reaches out' root v
  still_reached v Reaches.start = Reaches.start
  still_reached v (Reaches.along u w r e) =
      Reaches.along u w (still_reached u r) (omega (arith, same_out u w (a.reachable.complete u r)))

  only_reached : (v : ℕ) → Reaches out' root v → 0 < count v g.all_nodes
  only_reached v Reaches.start = a.reachable.complete root Reaches.start
  only_reached v (Reaches.along u w r e) =
      let m = only_reached u r in
      IsReachable-closed out root g.all_nodes a.reachable u w m (omega (arith, same_out u w m))

  still-IsOrdered : (vs : List ℕ) → IsOrdered out g.all_nodes vs → IsOrdered out' g.all_nodes vs
  still-IsOrdered [] o = tt
  still-IsOrdered (v ∷ vs) (first, rest) =
      (λ u m e. first u m (omega (arith, same_out u v m)), still-IsOrdered vs rest)

  pub IsAccepted-cong : IsAccepted h' g root
  IsAccepted-cong = record {
    rooted = a.rooted;
    reachable = record {
      once = a.reachable.once;
      sound = λ v m. still_reached v (a.reachable.sound v m);
      complete = only_reached;
    };
    acyclic = record {
      order = a.acyclic.order;
      ordered = still-IsOrdered a.acyclic.order a.acyclic.ordered;
      covers = a.acyclic.covers;
    };
    counted = λ v m.
        ap (λ x. x.input_num) (same v m)
        ∙ a.counted v m
        ∙ ap pos (
            total-cong (λ u. count v (out u)) (λ u. count v (out' u)) g.all_nodes
              (λ u n. sym (same_out u v n)));
    distinct = λ v w m n e.
        a.distinct v w m n (sym (ap (λ x. x.id) (same v m)) ∙ e ∙ ap (λ x. x.id) (same w n));
    room = a.room;
  }

-- What an accepting run of Graph::init leaves of the graph whose nodes were created from `start` on.
pub record Accepts (start root : ℕ) (b : Builder) (g : Graph) (h' : Heap) : Type 0 where
  pub accepted : IsAccepted h' g root
  pub inside : (v : ℕ) → 0 < count v g.all_nodes → v < b.allocated
  pub outside : (v : ℕ) → v < start → h' v ≡ b.heap v

abbrev valid_of : InitResult → Bool
valid_of InitResult.null_root = false
valid_of (returned valid g h) = valid

abbrev graph_of : Graph → InitResult → Graph
graph_of d InitResult.null_root = d
graph_of d (returned valid g h) = g

abbrev heap_of : Heap → InitResult → Heap
heap_of d InitResult.null_root = d
heap_of d (returned valid g h) = h

module _ (start root : ℕ) (b : Builder) (i : Built start b) (at_root : In start b root) where
  module _ (nodes : List ℕ) (found : IsReachable (out_of b) root nodes) where
    abbrev graph : Graph
    graph = record { root_node = some root; all_nodes = nodes; max_node_id = b.node_id_gen }

    is_counted : IsCounted b.heap nodes (inputs_of start b)
    is_counted = record {
      counter = λ v m. i.checks v (node-In start root b i at_root nodes found v m);
      enough = λ v. omega (
        arith,
        total-diff (λ u. count v (out_of b u)) nodes (created start b.node_id_gen)
            (nodes-IsWithin start root b i at_root nodes found),
      );
    }

    dag-IsAccepted :
        (h' : Heap)
        → Same b.heap h'
        → IsDag (out_of b) nodes (inputs_of start b)
        → IsAccepted h' graph root
    dag-IsAccepted h' s dag =
        let at_node = node-In start root b i at_root nodes found in
        let same_out : out_of b ≡ (λ v. (h' v).out_nodes) = fun_ext (λ v. sym (s.outs v)) in
        record {
          rooted = refl;
          reachable = subst (λ o. IsReachable o root nodes) same_out found;
          acyclic = subst (λ o. IsAcyclic o nodes) same_out dag.acyclic;
          counted = λ v m.
              s.nums v
              ∙ i.nums v (at_node v m)
              ∙ ap pos (dag.exact v m)
              ∙ ap (λ o. pos (edges o nodes v)) same_out;
          distinct = λ v w m n e. omega (
            arith,
            at_node v m,
            at_node w n,
            sym (s.ids v ∙ i.ids v (at_node v m)) ∙ e ∙ s.ids w ∙ i.ids w (at_node w n),
          );
          room = omega (
            arith,
            length-le nodes (created start b.node_id_gen)
                (nodes-IsWithin start root b i at_root nodes found),
            length-created start b.node_id_gen,
          );
        }

  created_below : (v : ℕ) → v < start → count v (created start b.node_id_gen) ≡ 0
  created_below v below_start = elim (ℕ_discrete (count v (created start b.node_id_gen)) 0) [
    | yes e ↦ e
    | no ne ↦ absurd (omega (arith, created_only start b.node_id_gen v (omega arith), below_start))
  ]

  init_true :
      (nodes : List ℕ) (g : Graph) (h' : Heap)
      → IsReachable (out_of b) root nodes
      → check_nodes b.heap b.node_id_gen root (some nodes) ≡ some (returned true g h')
      → Accepts start root b g h'
  unfolding check_nodes finish_init check
  init_true nodes g h' found e =
      let g0 = graph nodes found in
      let (valid, h1, done, (to_dag, from_dag)) =
        check-IsDag b.heap g0 root (inputs_of start b) (is_counted nodes found) found refl in
      let same : returned valid g0 h1 ≡ returned true g h' =
        some-injective (sym (ap (finish_init g0) done) ∙ e) in
      subst (λ x. Accepts start root b x h') (ap (graph_of g0) same)
        (subst (Accepts start root b g0) (ap (heap_of h1) same) (record {
          accepted =
              dag-IsAccepted nodes found h1 (check_root-Same b.heap g0 (some root) valid h1 done)
                (to_dag (ap valid_of same));
          inside = λ v m. omega (arith, node-In start root b i at_root nodes found v m);
          outside = λ v below_start.
              check_root_outside (created start b.node_id_gen) b.heap g0 root valid h1 v
                (shut start root b i at_root)
                (omega (arith, is_created start root b i at_root root at_root))
                (created_below v below_start) done;
        }))

  -- Whatever its fuel, if Graph::init returns 0 the graph is accepted.
  pub init-Accepts :
      (fuel : ℕ) (g : Graph) (h' : Heap)
      → init fuel b.heap b.node_id_gen (some root) ≡ some (returned true g h')
      → Accepts start root b g h'
  unfolding init check_nodes
  init-Accepts fuel g h' e =
      let (nodes, run, found) =
        bfs-IsReachable b.heap (created start b.node_id_gen) root
          (1 + total (λ u. length (out_of b u)) (created start b.node_id_gen))
          (shut start root b i at_root)
          (omega (arith, is_created start root b i at_root root at_root)) (omega arith) in
      elim (Option-cases (bfs fuel b.heap (root ∷ []) [])) [
        | inl stuck ↦
            absurd (none≢some (sym (ap (check_nodes b.heap b.node_id_gen root) stuck) ∙ e))
        | inr (nodes', run') ↦
            let same : nodes' ≡ nodes =
              bfs_unique fuel _ b.heap (root ∷ []) [] nodes' nodes run' run in
            init_true nodes g h' found
              (sym (ap (check_nodes b.heap b.node_id_gen root) (run' ∙ ap some same)) ∙ e)
      ]
