-- ===== src/Server/Examples.antt =====
-- A server with two graphs of two nodes each, a StartService and a DoneService, and a request to it.
use Prim.Native.String.{String}
use text.Mathlib.Text.{◌==◌}
use graphize.Common.{
  ℕ, ◌+◌, ◌≤◌, ◌<◌, ◌≡◌, refl, List, [], ◌∷◌, Option, none, some, Bool, true, false, pos, length,
  arith, ℤ, sym, subst, ◌∙◌, some-injective, ℕ_discrete,
}
use graphize.Common.Bag.{count, total}
use graphize.Common.Maps.{lookup, insert_new}
use graphize.Frame.Node.{add_output, Kind, cpu}
use graphize.Frame.Graph.{Graph, init}
use graphize.Frame.Graph.Edges.{IsOrdered}
use graphize.Frame.Run.{
  System, run, running, entering, serving, notifying, step, execute, fill_context, turn, select,
}
use graphize.Frame.Manager.{NodeConf, Strings, add_nodes}
use graphize.Frame.Manager.Accepted.{IsAccepted, HasSmallIds, IsReady-of}
use graphize.Redis.Client.{new_client}
use graphize.Frame.Setup.{
  Managers, is_resolved, get_graph, FrameConf, init_clients, init_nodes, init_graphs,
  init_graph_frame, init_next, registry, init_nodes_graphs,
}
use graphize.Service.Start.{RequestData, serve_nodes, new_data, done_do_service, append}
use graphize.Service.Start.Reads.{IsStart, done_do_service-reads}
use graphize.Server.{Outside, main, echo}
use graphize.Server.Serves.{init_graph_frame-IsAccepted, echo_starts, echo_complete, echo_finishes}

abbrev str : Strings
str = record { trim = λ text. text; split = λ text. text ∷ [] }

abbrev services : List (String × Kind)
services = ("StartService", cpu) ∷ ("DoneService", cpu) ∷ []

abbrev graph : List NodeConf
graph = record { node_name = "start"; root = true; children = "done"; parents = "" } ∷ []

abbrev conf : FrameConf
conf = record {
  has_graph_frame = true;
  cache_status = pos 0;
  clients = [];
  nodes =
      ("start", record { class = "StartService"; downstream = "" })
      ∷ ("done", record { class = "DoneService"; downstream = "" })
      ∷ [];
  graphs = ("graph1", graph) ∷ ("graph2", graph) ∷ [];
}

abbrev nothing : Managers
nothing = record {
  client_map = [];
  downstream_map = [];
  nodes_map = [];
  graphs = record {
    graph_map = [];
    heap = λ p. record {
      name = "";
      class = "";
      id = 0;
      kind = cpu;
      input_num = pos 0;
      input_num_4_check = pos 0;
      out_nodes = [];
    };
    nodes = 0;
  };
}

abbrev managers_of : Option (ℤ × Managers) → Managers
managers_of none = nothing
managers_of (some (code, m)) = m

abbrev fine : Outside
fine = record { add_service = pos 0; start = pos 0 }

abbrev up : Managers
up = managers_of (main 4 services str conf fine nothing)

starts : main 4 services str conf fine nothing ≡ some (pos 0, up)
unfolding main init_graph_frame init_clients new_client init_nodes_graphs init_nodes is_resolved
    lookup insert_new init_graphs init_next init add_nodes registry add_output
starts = refl

begins : init_graph_frame 4 services str conf nothing ≡ some (true, up)
unfolding main init_graph_frame init_clients new_client init_nodes_graphs init_nodes is_resolved
    lookup insert_new init_graphs init_next init add_nodes registry add_output
begins = refl

abbrev graph1 : Graph
graph1 = record { root_node = some 0; all_nodes = 0 ∷ 1 ∷ []; max_node_id = 2 }

graph1_found : get_graph "graph1" up ≡ some graph1
unfolding get_graph main init_graph_frame init_clients new_client init_nodes_graphs init_nodes
    is_resolved lookup insert_new init_graphs init_next init add_nodes registry add_output
graph1_found = refl

init_graph_frame-IsAccepted_example : (root : ℕ) × IsAccepted up.graphs.heap graph1 root
init_graph_frame-IsAccepted_example =
    init_graph_frame-IsAccepted 4 services str conf nothing up "graph1" graph1 refl begins
      graph1_found

ids : ((up.graphs.heap 0).id ≡ 0) × ((up.graphs.heap 1).id ≡ 1)
unfolding main init_graph_frame init_clients new_client init_nodes_graphs init_nodes is_resolved
    lookup insert_new init_graphs init_next init add_nodes registry add_output
ids = (refl, refl)

small : HasSmallIds up.graphs.heap graph1
unfolding HasSmallIds
small v m = elim (ℕ_discrete v 0) [
  | yes start ↦ subst (λ w. (up.graphs.heap w).id < 2) (sym start) (omega (arith, ids.0))
  | no later ↦
      let done : 1 ≡ v = ground arith in
      subst (λ w. (up.graphs.heap w).id < 2) done (omega (arith, ids.1))
]

found_small : (g : Graph) → get_graph "graph1" up ≡ some g → HasSmallIds up.graphs.heap g
found_small g e = subst (HasSmallIds up.graphs.heap) (some-injective (sym graph1_found ∙ e)) small

echo_starts_example :
    (g : Graph) × (s : System) × (get_graph "graph1" up ≡ some g) × (echo up ≡ some (running s))
echo_starts_example =
    echo_starts 4 services str conf fine nothing up 0 graph refl starts refl found_small

abbrev request : System
request = record {
  context = record {
    node_input_num_map = some (pos 0) ∷ some (pos 1) ∷ [];
    node_service_context_vec = some "StartService" ∷ some "DoneService" ∷ none ∷ [];
  };
  threads = entering 0 ∷ [];
  completed = [];
}

abbrev ended : System
ended = record {
  context = record {
    node_input_num_map = some (pos 0) ∷ some (pos 0) ∷ [];
    node_service_context_vec = some "StartService" ∷ some "DoneService" ∷ none ∷ [];
  };
  threads = [];
  completed = 1 ∷ 0 ∷ [];
}

echoed : echo up ≡ some (running request)
unfolding echo run fill_context get_graph main init_graph_frame init_clients new_client
    init_nodes_graphs init_nodes is_resolved lookup insert_new init_graphs init_next init add_nodes
    registry add_output
echoed = refl

abbrev no_skip : ℕ → Bool
no_skip n = false

abbrev schedule : List ℕ
schedule = 0 ∷ 0 ∷ 0 ∷ 0 ∷ 0 ∷ 0 ∷ 0 ∷ []

runs : execute up.graphs.heap no_skip request schedule ≡ some ended
unfolding execute step turn main init_graph_frame init_clients new_client init_nodes_graphs
    init_nodes is_resolved lookup insert_new init_graphs init_next init add_nodes registry
    add_output
runs = refl

stuck : step up.graphs.heap no_skip ended 0 ≡ none
unfolding step select
stuck = refl

echo_complete_example :
    ((v : ℕ) → count v ended.completed ≡ count v graph1.all_nodes)
    × IsOrdered (λ v. (up.graphs.heap v).out_nodes) graph1.all_nodes ended.completed
    × (length schedule ≤ total (λ n. length (up.graphs.heap n).out_nodes + 4) graph1.all_nodes)
echo_complete_example =
    echo_complete 4 services str conf fine nothing up graph1 no_skip request ended schedule refl
      starts graph1_found small echoed runs stuck

-- The root has completed, and is about to notify its output.
abbrev halfway : System
halfway = record {
  context = record {
    node_input_num_map = some (pos 0) ∷ some (pos 1) ∷ [];
    node_service_context_vec = some "StartService" ∷ some "DoneService" ∷ none ∷ [];
  };
  threads = notifying (1 ∷ []) none ∷ [];
  completed = 0 ∷ [];
}

runs_halfway : execute up.graphs.heap no_skip request (0 ∷ 0 ∷ []) ≡ some halfway
unfolding execute step turn main init_graph_frame init_clients new_client init_nodes_graphs
    init_nodes is_resolved lookup insert_new init_graphs init_next init add_nodes registry
    add_output
runs_halfway = refl

echo_finishes_example :
    (rest : List ℕ) × (s'' : System) × (execute up.graphs.heap no_skip halfway rest ≡ some s'')
    × (s''.threads ≡ [])
    × ((v : ℕ) → count v s''.completed ≡ count v graph1.all_nodes)
echo_finishes_example =
    echo_finishes 4 services str conf fine nothing up graph1 no_skip request halfway (0 ∷ 0 ∷ [])
      refl starts graph1_found small echoed runs_halfway

-- The node of DoneService is about to run its service.
abbrev at_done : System
at_done = record {
  context = record {
    node_input_num_map = some (pos 0) ∷ some (pos 0) ∷ [];
    node_service_context_vec = some "StartService" ∷ some "DoneService" ∷ none ∷ [];
  };
  threads = serving 1 ∷ [];
  completed = 0 ∷ [];
}

runs_done : execute up.graphs.heap no_skip request (0 ∷ 0 ∷ 0 ∷ 0 ∷ 0 ∷ []) ≡ some at_done
unfolding execute step turn main init_graph_frame init_clients new_client init_nodes_graphs
    init_nodes is_resolved lookup insert_new init_graphs init_next init add_nodes registry
    add_output
runs_done = refl

started : run up.graphs.heap graph1 ≡ running request
unfolding echo run fill_context get_graph main init_graph_frame init_clients new_client
    init_nodes_graphs init_nodes is_resolved lookup insert_new init_graphs init_next init add_nodes
    registry add_output
started = refl

edge : 0 < count 1 (up.graphs.heap 0).out_nodes
unfolding main init_graph_frame init_clients new_client init_nodes_graphs init_nodes is_resolved
    lookup insert_new init_graphs init_next init add_nodes registry add_output
edge = omega arith

first-IsStart : IsStart (up.graphs.heap 0)
unfolding IsStart main init_graph_frame init_clients new_client init_nodes_graphs init_nodes
    is_resolved lookup insert_new init_graphs init_next init add_nodes registry add_output
first-IsStart = refl

done_not_start : IsStart (up.graphs.heap 1) → ⊥
unfolding IsStart main init_graph_frame init_clients new_client init_nodes_graphs init_nodes
    is_resolved lookup insert_new init_graphs init_next init add_nodes registry add_output
done_not_start e = cc

only_start : (v : ℕ) → 0 < count v graph1.all_nodes → IsStart (up.graphs.heap v) → 0 ≡ v
only_start v m starts = elim (ℕ_discrete v 0) [
  | yes start ↦ sym start
  | no later ↦
      let done : v ≡ 1 = ground arith in
      absurd (done_not_start (subst (λ w. IsStart (up.graphs.heap w)) done starts))
]

start_not_done : (up.graphs.heap 0).class == "DoneService" ≡ true → ⊥
unfolding main init_graph_frame init_clients new_client init_nodes_graphs init_nodes is_resolved
    lookup insert_new init_graphs init_next init add_nodes registry add_output
start_not_done e = cc

all_behind :
    (v : ℕ)
    → 0 < count v graph1.all_nodes
    → (up.graphs.heap v).class == "DoneService" ≡ true
    → 0 < count v (up.graphs.heap 0).out_nodes
all_behind v m is = elim (ℕ_discrete v 0) [
  | yes start ↦
      absurd
        (start_not_done (subst (λ w. (up.graphs.heap w).class == "DoneService" ≡ true) start is))
  | no later ↦
      let done : 1 ≡ v = ground arith in
      subst (λ w. 0 < count w (up.graphs.heap 0).out_nodes) done edge
]

done_do_service-reads_example :
    (context : RequestData) × (serve_nodes no_skip up.graphs.heap
        (0 ∷ [])
        (new_data 7 request.context)
      ≡ some context)
    × (done_do_service context ≡ some (append (up.graphs.heap 0).name " set request_id"))
done_do_service-reads_example =
    done_do_service-reads up.graphs.heap no_skip graph1
      (init_graph_frame-IsAccepted 4 services str conf nothing up "graph1" graph1 refl begins
        graph1_found).0
      (IsReady-of up.graphs.heap graph1 _
        (init_graph_frame-IsAccepted 4 services str conf nothing up "graph1" graph1 refl begins
          graph1_found).1
        small)
      request at_done (0 ∷ 0 ∷ 0 ∷ 0 ∷ 0 ∷ []) [] [] 0 1 7 started runs_done refl (omega arith) edge
      first-IsStart refl only_start all_behind
