-- ===== src/Frame/Setup/Examples.antt =====
-- A frame with one redis client, two nodes, and a graph of one node.
use Prim.Native.String.{String}
use graphize.Common.{◌≡◌, refl, List, [], ◌∷◌, Option, none, some, Bool, true, pos}
use graphize.Common.Maps.{lookup, insert_new}
use graphize.Frame.Node.{add_output, Kind, cpu, io}
use graphize.Frame.Graph.{Graph, init}
use graphize.Frame.Manager.{NodeConf, Strings, add_nodes}
use graphize.Redis.Client.{Env, Answer, new_client}
use graphize.Frame.Setup.{
  NodeEntry, Managers, is_resolved, get_node_info, get_graph, FrameConf, init_clients, init_nodes,
  init_graphs, init_graph_frame, init_next, registry, init_nodes_graphs,
}
use graphize.Frame.Setup.Ready.{init_graph_frame-true}

abbrev env : Env
env = record {
  trim = λ text. text;
  split = λ separator text. [];
  builds = λ ip_port n. true;
  unset_port = λ line. 0;
  pool_size = 1;
}

abbrev str : Strings
str = record { trim = λ text. text; split = λ text. text ∷ [] }

abbrev services : List (String × Kind)
services = ("Start", cpu) ∷ ("Fetch", io) ∷ []

abbrev fetch : NodeEntry
fetch = record { class = "Fetch"; downstream = "redis" }

abbrev graph : List NodeConf
graph = record { node_name = "start"; root = true; children = "fetch"; parents = "" } ∷ []

abbrev conf : FrameConf
conf = record {
  has_graph_frame = true;
  cache_status = pos 2;
  clients = ("redis", env, Answer.rpc_failed) ∷ [];
  nodes = ("start", record { class = "Start"; downstream = "" }) ∷ ("fetch", fetch) ∷ [];
  graphs = ("main", graph) ∷ [];
}

abbrev nothing : Managers
nothing = record {
  client_map = [];
  downstream_map = [];
  nodes_map = [];
  graphs = record {
    graph_map = [];
    heap = λ p. record {
      name = "";
      class = "";
      id = 0;
      kind = cpu;
      input_num = pos 0;
      input_num_4_check = pos 0;
      out_nodes = [];
    };
    nodes = 0;
  };
}

abbrev managers_of : Option (Bool × Managers) → Managers
managers_of none = nothing
managers_of (some (suc, m)) = m

abbrev started : Managers
started = managers_of (init_graph_frame 4 services str conf nothing)

starts : init_graph_frame 4 services str conf nothing ≡ some (true, started)
unfolding init_graph_frame init_clients new_client init_nodes_graphs init_nodes is_resolved lookup
    insert_new init_graphs init_next init add_nodes registry add_output
starts = refl

init_graph_frame-true_example :
    ((g : Graph) × (get_graph "main" started ≡ some g))
    × ((found : NodeEntry) × (get_node_info "fetch" started ≡ some found))
    × (is_resolved started fetch ≡ true)
init_graph_frame-true_example =
    init_graph_frame-true 4 services str conf nothing started 0 1 "main" "fetch" graph fetch starts
      refl refl
