-- ===== src/Frame/Setup/Accepted.antt =====
-- Every graph that GraphManager::init keeps was accepted by Graph::init, and stays as it was then
-- (src/frame/graph_manager.cpp).
use Prim.Native.String.{String}
use graphize.Common.{
  ℕ, ◌≤◌, ◌<◌, ◌≡◌, ◌≢◌, refl, sym, ap, subst, ◌∙◌, List, [], ◌∷◌, Option, none, some, none≢some,
  some-injective, Bool, true, false, arith, inl, inr,
}
use graphize.Common.Bag.{count}
use graphize.Common.Maps.{lookup, insert_new, lookup-insert_new}
use graphize.Frame.Graph.{Graph, InitResult, init, returned}
use graphize.Frame.Node.{Heap}
use graphize.Frame.Manager.{NodeConf, Registry, Strings, Builder, add_nodes, new_builder}
use graphize.Frame.Manager.Built.{Built}
use graphize.Frame.Manager.Loops.{RootIn, add_nodes-Built, add_nodes_old, add_nodes_more}
use graphize.Frame.Manager.Accepted.{IsAccepted, IsAccepted-cong, Accepts, init-Accepts}
use graphize.Frame.Setup.{Graphs, add_graph, init_next, init_graphs}
use graphize.Frame.Setup.EachNode.{false≢true}
use graphize.Frame.Setup.EachGraph.{init_graphs_next}

-- The graph is accepted, and its nodes are objects that exist.
pub record IsKept (graphs : Graphs) (g : Graph) : Type 0 where
  pub root : ℕ
  pub accepted : IsAccepted graphs.heap g root
  pub made : (v : ℕ) → 0 < count v g.all_nodes → v < graphs.nodes

abbrev pub AreKept : Graphs → Type 0
AreKept graphs =
    (name : String) (g : Graph) → lookup name graphs.graph_map ≡ some g → IsKept graphs g

-- More objects, and none of the old ones changed.
IsKept-more :
    (graphs graphs' : Graphs) (g : Graph)
    → graphs.nodes ≤ graphs'.nodes
    → ((v : ℕ) → v < graphs.nodes → graphs'.heap v ≡ graphs.heap v)
    → IsKept graphs g
    → IsKept graphs' g
IsKept-more graphs graphs' g more old k = record {
  root = k.root;
  accepted =
      IsAccepted-cong graphs.heap graphs'.heap g k.root k.accepted (λ v m. old v (k.made v m));
  made = λ v m. omega (arith, k.made v m, more);
}

is_returned : InitResult → Bool
is_returned InitResult.null_root = false
is_returned (returned valid g h) = true

null_root≢returned : (g : Graph) (h : Heap) → InitResult.null_root ≢ returned true g h
unfolding is_returned
null_root≢returned g h e = false≢true (ap is_returned e)

module _ (name : String) (b : Builder) (graphs graphs' : Graphs) (more : graphs.nodes ≤ b.allocated)
    (old : (v : ℕ) → v < graphs.nodes → b.heap v ≡ graphs.heap v) where
  -- What the round before kept, and the graph of this round if it is kept.
  add_graph-AreKept :
      (result : Option InitResult)
      → ((g : Graph) (h : Heap)
          → result ≡ some (returned true g h)
          → (root : ℕ) × Accepts graphs.nodes root b g h)
      → add_graph name b result graphs ≡ some (true, graphs')
      → AreKept graphs
      → AreKept graphs'
  unfolding add_graph
  add_graph-AreKept none each e kept = absurd (none≢some e)
  add_graph-AreKept (some InitResult.null_root) each e kept = absurd (none≢some e)
  add_graph-AreKept (some (returned false graph heap)) each e kept =
      absurd (false≢true (ap (λ r. r.0) (some-injective e)))
  add_graph-AreKept (some (returned true graph heap)) each e kept =
      let now : Graphs = record {
        graph_map = insert_new name graph graphs.graph_map;
        heap = heap;
        nodes = b.allocated;
      } in
      let (root, a) = each graph heap refl in
      let all_kept : AreKept now = λ key g found.
        elim (lookup-insert_new key name graph g graphs.graph_map found) [
          | inl before ↦
              IsKept-more graphs now g more (λ v l. a.outside v l ∙ old v l) (kept key g before)
          | inr new ↦
              subst (IsKept now) (sym new)
                (record { root = root; accepted = a.accepted; made = a.inside })
        ] in
      subst AreKept (ap (λ r. r.1) (some-injective e)) all_kept

module _ (fuel : ℕ) (reg : Registry) (str : Strings) where
  -- The root that was found, if there is one, is a node of the graph, so that an accepting run says so.
  Accepts-root :
      (start : ℕ) (b : Builder) (root : Option ℕ) (g : Graph) (h : Heap)
      → Built start b
      → RootIn reg str start b root
      → init fuel b.heap b.node_id_gen root ≡ some (returned true g h)
      → (r : ℕ) × Accepts start r b g h
  unfolding init
  Accepts-root start b none g h i at_root e = absurd (null_root≢returned g h (some-injective e))
  Accepts-root start b (some r) g h i at_root e = (r, init-Accepts start r b i at_root fuel g h e)

  init_next-AreKept :
      (name : String) (confs : List NodeConf) (graphs graphs' : Graphs)
      → init_next fuel reg str name confs graphs ≡ some (true, graphs')
      → AreKept graphs
      → AreKept graphs'
  unfolding init_next
  init_next-AreKept name confs graphs graphs' e kept =
      let (b, root) = add_nodes reg str confs (new_builder graphs.heap graphs.nodes []) none in
      let (i, at_root) = add_nodes-Built reg str graphs.nodes confs graphs.heap [] in
      add_graph-AreKept name b graphs graphs'
        (add_nodes_more reg str graphs.nodes confs graphs.heap [])
        (add_nodes_old reg str graphs.nodes confs graphs.heap [])
        (init fuel b.heap b.node_id_gen root)
        (λ g h done. Accepts-root graphs.nodes b root g h i at_root done) e kept

  pub init_graphs-AreKept :
      (confs : List (String × List NodeConf)) (graphs graphs' : Graphs)
      → init_graphs fuel reg str confs graphs ≡ some (true, graphs')
      → AreKept graphs
      → AreKept graphs'
  unfolding init_graphs
  init_graphs-AreKept [] graphs graphs' e kept =
      subst AreKept (ap (λ r. r.1) (some-injective e)) kept
  init_graphs-AreKept ((name, conf) ∷ confs) graphs graphs' e kept =
      let (graphs1, made, rest) = init_graphs_next fuel reg str name conf confs graphs graphs' e in
      init_graphs-AreKept confs graphs1 graphs' rest
        (init_next-AreKept name conf graphs graphs1 made kept)
