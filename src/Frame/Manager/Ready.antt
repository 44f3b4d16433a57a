-- ===== src/Frame/Manager/Ready.antt =====
-- A graph that GraphManager::init builds is ready to run if Graph::init accepts it
-- (src/frame/graph_manager.cpp, src/frame/graph.h).
use graphize.Common.{
  ℕ, zero, suc, ◌+◌, ◌≤◌, ◌<◌, ◌≡◌, ◌↔◌, refl, ap, sym, subst, ◌∙◌, fun_ext, List, some, Bool, true,
  arith, pos, ℕ_discrete, length,
}
use graphize.Common.Bag.{count, total, total-diff, length-le, IsWithin}
use graphize.Frame.Node.{Heap}
use graphize.Frame.Graph.{Graph, check, returned, init, check_nodes, finish_init}
use graphize.Frame.Graph.Edges.{edges, Reaches}
use graphize.Frame.Graph.Bfs.{IsClosed, IsReachable, bfs-IsReachable}
use graphize.Frame.Graph.Acyclic.{IsAcyclic}
use graphize.Frame.Graph.Verdict.{IsCounted, check-IsDag}
use graphize.Frame.Run.Start.{IsReady}
use graphize.Frame.Manager.{Builder}
use graphize.Frame.Manager.Built.{created, created_in, created_only, In, out_of, inputs_of, Built}
use graphize.Frame.Graph.Kept.{Same, check_root-Same}

-- Two lists of the same numbers.
total_permuted :
    (w : ℕ → ℕ) (xs ys : List ℕ) → IsWithin xs ys → IsWithin ys xs → total w xs ≡ total w ys
total_permuted w xs ys xy yx = omega (arith, total-diff w xs ys xy, total-diff w ys xs yx)

pub length-created : (start n : ℕ) → length (created start n) ≡ n
unfolding created
length-created start zero = refl
length-created start (suc n) = ap suc (length-created start n)

module _ (start root : ℕ) (b : Builder) (i : Built start b) (at_root : In start b root) where
  abbrev pub all_created : List ℕ
  all_created = created start b.node_id_gen

  pub is_In : (v : ℕ) → 0 < count v all_created → In start b v
  is_In v m = omega (arith, created_only start b.node_id_gen v m, i.in_order)

  pub is_created : (v : ℕ) → In start b v → count v all_created ≡ 1
  is_created v (lo, hi) = created_in start b.node_id_gen v lo (omega (arith, i.in_order))

  pub shut : IsClosed (out_of b) all_created
  shut v w m e = omega (arith, is_created w (i.closed v w (is_In v m) e))

  reached-In : (v : ℕ) → Reaches (out_of b) root v → In start b v
  reached-In v Reaches.start = at_root
  reached-In v (Reaches.along u w r e) = i.closed u w (reached-In u r) e

  module _ (nodes : List ℕ) (found : IsReachable (out_of b) root nodes) where
    pub node-In : (v : ℕ) → 0 < count v nodes → In start b v
    node-In v m = reached-In v (found.sound v m)

    pub nodes-IsWithin : IsWithin nodes all_created
    nodes-IsWithin v = elim (ℕ_discrete (count v nodes) 0) [
      | yes e ↦ omega arith
      | no ne ↦ omega (arith, found.once v, is_created v (node-In v (omega arith)))
    ]

  module _ (all_reached : (v : ℕ) → In start b v → Reaches (out_of b) root v) where
    module _ (nodes : List ℕ) (found : IsReachable (out_of b) root nodes) where
      created-IsWithin : IsWithin all_created nodes
      created-IsWithin v = elim (ℕ_discrete (count v all_created) 0) [
        | yes e ↦ omega arith
        | no ne ↦
            let m = is_In v (omega arith) in
            omega (arith, is_created v m, found.complete v (all_reached v m))
      ]

      inputs_found : (v : ℕ) → inputs_of start b v ≡ edges (out_of b) nodes v
      inputs_found v = sym (
          total_permuted (λ u. count v (out_of b u)) nodes all_created (nodes-IsWithin nodes found)
            created-IsWithin)

      gen_length : length nodes ≡ b.node_id_gen
      gen_length = omega (
        arith,
        length-le nodes all_created (nodes-IsWithin nodes found),
        length-le all_created nodes created-IsWithin,
        length-created start b.node_id_gen,
      )

      abbrev graph : Graph
      graph = record { root_node = some root; all_nodes = nodes; max_node_id = b.node_id_gen }

      ready : (h' : Heap) → Same b.heap h' → IsAcyclic (out_of b) nodes → IsReady h' graph root
      ready h' s acyclic =
          let same_out : out_of b ≡ (λ v. (h' v).out_nodes) = fun_ext (λ v. sym (s.outs v)) in
          record {
            rooted = refl;
            reachable = subst (λ o. IsReachable o root nodes) same_out found;
            acyclic = subst (λ o. IsAcyclic o nodes) same_out acyclic;
            counted = λ v m.
                s.nums v
                ∙ i.nums v (node-In nodes found v m)
                ∙ ap pos (inputs_found v)
                ∙ ap (λ o. pos (edges o nodes v)) same_out;
            numbered = record {
              distinct = λ v w m n e. omega (
                arith,
                node-In nodes found v m,
                node-In nodes found w n,
                sym (s.ids v ∙ i.ids v (node-In nodes found v m))
                    ∙ e
                    ∙ s.ids w
                    ∙ i.ids w (node-In nodes found w n),
              );
              small = λ v m. omega (
                arith,
                s.ids v ∙ i.ids v (node-In nodes found v m),
                node-In nodes found v m,
                gen_length,
                i.in_order,
              );
            };
            room = omega (arith, gen_length);
          }

      ready_acyclic :
          (h' : Heap) → Same b.heap h' → IsReady h' graph root → IsAcyclic (out_of b) nodes
      ready_acyclic h' s r = subst (λ o. IsAcyclic o nodes) (fun_ext (λ v. s.outs v)) r.acyclic

    -- If every node that was created is reached from the root, Graph::init ends, given fuel for the root
    -- and each edge, and returns 0 exactly if the graph is then ready to run.
    pub init-IsReady :
        (fuel : ℕ)
        → 1 + total (λ u. length (out_of b u)) (created start b.node_id_gen) ≤ fuel
        → (valid : Bool) × (g : Graph) × (h' : Heap) × (init fuel b.heap b.node_id_gen (some root)
            ≡ some (returned valid g h'))
          × ((valid ≡ true) ↔ IsReady h' g root)
    unfolding init check_nodes finish_init check
    init-IsReady fuel room =
        let (nodes, e, found) =
          bfs-IsReachable b.heap all_created root fuel shut (omega (arith, is_created root at_root))
            room in
        let g = graph nodes found in
        let counted : IsCounted b.heap nodes (inputs_of start b) = record {
          counter = λ v m. i.checks v (node-In nodes found v m);
          enough = λ v. omega (arith, inputs_found nodes found v);
        } in
        let (valid, h', done, (to_dag, from_dag)) =
          check-IsDag b.heap g root (inputs_of start b) counted found refl in
        let s = check_root-Same b.heap g (some root) valid h' done in
        (
          valid,
          g,
          h',
          ap (check_nodes b.heap b.node_id_gen root) e ∙ ap (finish_init g) done,
          (
            λ accepted. ready nodes found h' s (to_dag accepted).acyclic,
            λ r. from_dag (record {
              acyclic = ready_acyclic nodes found h' s r;
              exact = λ v m. inputs_found nodes found v;
            }),
          ),
        )
