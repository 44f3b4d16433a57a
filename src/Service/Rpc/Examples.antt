-- ===== src/Service/Rpc/Examples.antt =====
-- A frame that is configured without graphs, and a service of the transport "rank".
use graphize.Common.{◌≡◌, refl, [], ◌∷◌, some, true, pos}
use graphize.Common.Maps.{lookup, insert_new}
use graphize.Frame.Node.{cpu}
use graphize.Frame.Manager.{Strings}
use graphize.Frame.Setup.{
  Managers, FrameConf, init_graphs, init_clients, init_nodes, is_resolved, init_nodes_graphs,
  init_graph_frame,
}
use graphize.Service.Rpc.{brpc_do_service, http_do_service, call_method}
use graphize.Service.Rpc.Unsent.{given_up, do_service_unsent}

abbrev str : Strings
str = record { trim = λ text. text; split = λ text. text ∷ [] }

-- A node without a downstream; one with the downstream "rank" would not be resolved.
abbrev conf : FrameConf
conf = record {
  has_graph_frame = true;
  cache_status = pos 0;
  clients = [];
  nodes = ("rank", record { class = "Rank"; downstream = "" }) ∷ [];
  graphs = [];
}

abbrev before : Managers
before = record {
  client_map = [];
  downstream_map = [];
  nodes_map = [];
  graphs = record {
    graph_map = [];
    heap = λ p. record {
      name = "";
      class = "";
      id = 0;
      kind = cpu;
      input_num = pos 0;
      input_num_4_check = pos 0;
      out_nodes = [];
    };
    nodes = 0;
  };
}

abbrev after : Managers
after = record before { nodes_map = ("rank", record { class = "Rank"; downstream = "" }) ∷ [] }

starts : init_graph_frame 4 [] str conf before ≡ some (true, after)
unfolding init_graph_frame init_clients init_nodes_graphs init_nodes is_resolved lookup insert_new
    init_graphs
starts = refl

do_service_unsent_example :
    (brpc_do_service call_method "rank" after ≡ given_up)
    × (http_do_service "rank" after ≡ given_up)
do_service_unsent_example =
    do_service_unsent 4 [] str conf before after true call_method "rank" refl starts
