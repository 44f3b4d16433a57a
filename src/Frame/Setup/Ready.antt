-- ===== src/Frame/Setup/Ready.antt =====
-- What init_graph_frame has set up when it returns true (src/frame/graph_manager.cpp).
use Prim.Native.String.{String}
use graphize.Common.{
  ℕ, none≢some, ◌≡◌, sym, ap, ◌∙◌, subst, List, some, some-injective, some_of_bind, true, get_elem?,
  Bool-cases, inl, inr,
}
use graphize.Common.Maps.{IsIn}
use graphize.Frame.Node.{Kind}
use graphize.Frame.Graph.{Graph}
use graphize.Frame.Manager.{NodeConf, Registry, Strings}
use graphize.Frame.Setup.{
  NodeEntry, Graphs, Managers, init_clients, is_resolved, init_nodes, get_node_info, registry,
  init_graphs, get_graph, FrameConf, with_graphs, init_nodes_graphs, init_graph_frame,
}
use graphize.Frame.Setup.EachNode.{init_nodes-SameMaps, init_nodes-true, is_resolved_of}
use graphize.Frame.Setup.EachGraph.{init_graphs-true}

pub init_nodes_graphs-true :
    (fuel : ℕ) (services : List (String × Kind)) (str : Strings) (conf : FrameConf)
    (m m' : Managers)
    → init_nodes_graphs fuel services str conf m ≡ some (true, m')
    → (reg : Registry) × ((init_nodes conf.nodes m).0 ≡ true)
      × (graphs : Graphs) × (init_graphs fuel reg str conf.graphs (init_nodes conf.nodes m).1.graphs
          ≡ some (true, graphs))
      × (m' ≡ record (init_nodes conf.nodes m).1 { graphs = graphs })
unfolding init_nodes_graphs with_graphs
init_nodes_graphs-true fuel services str conf m m' e =
    let made = (init_nodes conf.nodes m).1 in
    let reg = registry made services in
    elim (Bool-cases (init_nodes conf.nodes m).0) [
      | inr stopped ↦ absurd (none≢some (rw stopped at e))
      | inl suc_nodes ↦
          let ((valid, graphs), built, done) =
            some_of_bind (init_graphs fuel reg str conf.graphs made.graphs) _ (rw suc_nodes at e) in
          elim (Bool-cases valid) [
            | inr failed ↦ absurd (none≢some (rw failed at done))
            | inl is_true ↦ (
              reg,
              suc_nodes,
              graphs,
              built ∙ ap (λ v. some (v, graphs)) is_true,
              sym (ap (λ r. r.1) (some-injective (rw is_true at done))),
            )
          ]
    ]

-- If init_graph_frame returns true, then get_graph finds each graph of the configuration, get_node_info each node, and the
-- downstream of each node is a transport or a redis client, if it has one.
pub init_graph_frame-true :
    (fuel : ℕ) (services : List (String × Kind)) (str : Strings) (conf : FrameConf)
    (m m' : Managers) (i j : ℕ) (graph_name node_name : String) (nodes : List NodeConf)
    (node : NodeEntry)
    → init_graph_frame fuel services str conf m ≡ some (true, m')
    → get_elem? conf.graphs i ≡ some (graph_name, nodes)
    → get_elem? conf.nodes j ≡ some (node_name, node)
    → ((graph : Graph) × (get_graph graph_name m' ≡ some graph))
      × ((found : NodeEntry) × (get_node_info node_name m' ≡ some found))
      × (is_resolved m' node ≡ true)
unfolding init_graph_frame get_graph get_node_info init_nodes_graphs
init_graph_frame-true fuel services str conf m m' i j graph_name node_name nodes node e at_graph
      at_node =
    elim (Bool-cases conf.has_graph_frame) [
      | inr absent ↦ absurd (none≢some (rw absent at e))
      | inl present ↦
          let (clients, made, rest) =
            some_of_bind (init_clients conf.clients m.client_map) _ (rw present at e) in
          let m1 : Managers = record m { client_map = clients } in
          let (reg, nodes_true, graphs, built, same) =
            init_nodes_graphs-true fuel services str conf m1 m' rest in
          let (resolved, in_nodes) =
            init_nodes-true conf.nodes m1 j node_name node nodes_true at_node in
          let kept = init_nodes-SameMaps conf.nodes m1 in
          let m2 = (init_nodes conf.nodes m1).1 in
          (
            subst (λ x. IsIn graph_name x.graphs.graph_map) (sym same)
                (init_graphs-true fuel reg str conf.graphs m2.graphs graphs i graph_name nodes built
                  at_graph),
            subst (λ x. IsIn node_name x.nodes_map) (sym same) in_nodes,
            ap (λ x. is_resolved x node) same ∙ is_resolved_of m1 m2 graphs node kept ∙ resolved,
          )
    ]
