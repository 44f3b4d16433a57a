-- ===== src/Frame/Setup/Transports.antt =====
-- The start of the frame leaves the channels of GtransportManager as they are (src/frame/graph_manager.cpp).
use Prim.Native.String.{String}
use graphize.Common.{
  ℕ, none≢some, ◌≡◌, sym, ap, ◌∙◌, List, some, some-injective, some_of_bind, Bool, Bool-cases, inl,
  inr,
}
use graphize.Frame.Node.{Kind}
use graphize.Frame.Manager.{Strings}
use graphize.Frame.Setup.{
  Managers, FrameConf, init_clients, init_nodes, init_graphs, registry, with_graphs,
  init_nodes_graphs, init_graph_frame,
}
use graphize.Frame.Setup.EachNode.{init_nodes-SameMaps}

init_nodes_graphs-transports :
    (fuel : ℕ) (services : List (String × Kind)) (str : Strings) (conf : FrameConf)
    (m m' : Managers) (suc : Bool)
    → init_nodes_graphs fuel services str conf m ≡ some (suc, m')
    → m'.downstream_map ≡ m.downstream_map
unfolding init_nodes_graphs with_graphs
init_nodes_graphs-transports fuel services str conf m m' suc e =
    let kept = init_nodes-SameMaps conf.nodes m in
    let made = (init_nodes conf.nodes m).1 in
    elim (Bool-cases (init_nodes conf.nodes m).0) [
      | inr stopped ↦ absurd (none≢some (rw stopped at e))
      | inl suc_nodes ↦
          let ((valid, graphs), built, done) =
            some_of_bind (init_graphs fuel (registry made services) str conf.graphs made.graphs) _
              (rw suc_nodes at e) in
          elim (Bool-cases valid) [
            | inr failed ↦ absurd (none≢some (rw failed at done))
            | inl is_true ↦
                ap (λ r. r.1.downstream_map) (sym (some-injective (rw is_true at done)))
                ∙ kept.transports
          ]
    ]

-- When init_graph_frame returns, it neither makes nor drops a channel.
pub init_graph_frame-transports :
    (fuel : ℕ) (services : List (String × Kind)) (str : Strings) (conf : FrameConf)
    (m m' : Managers) (suc : Bool)
    → init_graph_frame fuel services str conf m ≡ some (suc, m')
    → m'.downstream_map ≡ m.downstream_map
unfolding init_graph_frame init_nodes_graphs
init_graph_frame-transports fuel services str conf m m' suc e =
    elim (Bool-cases conf.has_graph_frame) [
      | inr absent ↦ absurd (none≢some (rw absent at e))
      | inl present ↦
          let (clients, made, rest) =
            some_of_bind (init_clients conf.clients m.client_map) _ (rw present at e) in
          init_nodes_graphs-transports fuel services str conf (record m { client_map = clients }) m'
            suc rest
    ]
