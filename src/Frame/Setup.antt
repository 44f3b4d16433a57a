-- ===== src/Frame/Setup.antt =====
-- The start of the frame: the managers for redis clients, transports, nodes and graphs, and init_graph_frame
-- (src/frame/graph_manager.cpp, src/frame/node_manager.cpp, src/frame/gtransport_manager.cpp,
-- src/frame/client/redis/redis_client_manager.cpp, src/frame/register.cpp). Configurations are taken as parsed.
pub mod EachNode
pub mod EachGraph
pub mod Ready
pub mod Accepted
pub mod Transports
mod Examples
use Prim.Native.String.{String}
use text.Mathlib.Text.{◌==◌}
use graphize.Common.{
  ℕ, List, [], ◌∷◌, ◌||◌, Option, none, some, Bool, true, false, if◌then◌else◌, ℤ, is_zero, ◌>>=◌,
}
use graphize.Common.Maps.{lookup, insert_new}
use graphize.Frame.Node.{Kind, Heap}
use graphize.Frame.Graph.{Graph, InitResult, init}
use graphize.Frame.Manager.{NodeConf, Registry, Strings, Builder, add_nodes, new_builder}
use graphize.Redis.Client.{Env, Answer, RedisClient, new_client}

-- A node of the configuration of NodeManager; `downstream` is "" where it is absent.
pub record NodeEntry : Type 0 where
  pub class : String
  pub downstream : String

-- What the loop over the graphs changes; `nodes` is the number of node objects so far.
pub record Graphs : Type 0 where
  pub graph_map : List (String × Graph)
  pub heap : Heap
  pub nodes : ℕ

-- The maps of the managers. A channel is a number.
pub record Managers : Type 0 where
  pub client_map : List (String × RedisClient)
  pub downstream_map : List (String × ℕ)
  pub nodes_map : List (String × NodeEntry)
  pub graphs : Graphs

-- RedisClientManager::init: the clients of the names, with what each meets outside; `none`: a constructor ends the
-- process.
unfoldable pub init_clients :
    List (String × Env × Answer)
    → List (String × RedisClient)
    → Option (List (String × RedisClient))
init_clients [] client_map = some client_map
init_clients ((name, env, answer) ∷ confs) client_map = do
  client ← new_client env answer
  init_clients confs (insert_new name client client_map)

-- RedisClientManager::get_client
unfoldable pub get_client : String → Managers → Option RedisClient
get_client id m = lookup id m.client_map

-- GtransportManager::init: the channels of the names; `none` is one that cannot be initialised.
unfoldable pub init_transports :
    List (String × Option ℕ) → List (String × ℕ) → Bool × List (String × ℕ)
init_transports [] downstream_map = (true, downstream_map)
init_transports ((name, none) ∷ confs) downstream_map = (false, downstream_map)
init_transports ((name, some channel) ∷ confs) downstream_map =
    init_transports confs (insert_new name channel downstream_map)

-- GtransportManager::get_transport
unfoldable pub get_transport : String → Managers → Option ℕ
get_transport name m = lookup name m.downstream_map

abbrev pub is_there {ℓ} : {A : Type ℓ} → Option A → Bool
is_there none = false
is_there (some a) = true

-- The downstream of a node is a transport or a redis client, if it has one.
unfoldable pub is_resolved : Managers → NodeEntry → Bool
unfolding get_client get_transport
is_resolved m node =
    node.downstream == ""
    || (is_there (get_transport node.downstream m) || is_there (get_client node.downstream m))

-- NodeManager::init: a node is inserted, also the one at which the loop ends with false.
unfoldable pub init_nodes : List (String × NodeEntry) → Managers → Bool × Managers
init_nodes [] m = (true, m)
init_nodes ((name, node) ∷ confs) m =
    let m' = record m { nodes_map = insert_new name node m.nodes_map } in
    if is_resolved m node then init_nodes confs m' else (false, m')

-- NodeManager::get_node_info
unfoldable pub get_node_info : String → Managers → Option NodeEntry
get_node_info node_name m = lookup node_name m.nodes_map

-- GET_SERVICE_FACTORY, over the classes that are registered: `none` is one that is not, which meets LOG(FATAL).
unfoldable pub get_service_factory : String → List (String × Kind) → Option Kind
get_service_factory name global_service_map = lookup name global_service_map

abbrev class_name : Option NodeEntry → Option String
class_name none = none
class_name (some node) = some node.class

-- What GraphManager finds by the names of nodes and classes.
unfoldable pub registry : Managers → List (String × Kind) → Registry
unfolding get_node_info get_service_factory
registry m global_service_map = record {
  class_of = λ name. class_name (get_node_info name m);
  kind_of = λ name. get_service_factory name global_service_map;
}

-- The end of a round of GraphManager::init; `none`: Graph::init does not end, or reads through a null root.
unfoldable pub add_graph : String → Builder → Option InitResult → Graphs → Option (Bool × Graphs)
add_graph name b none graphs = none
add_graph name b (some InitResult.null_root) graphs = none
add_graph name b (some (InitResult.returned valid graph heap)) graphs = some (
  valid,
  record {
    graph_map = if valid then insert_new name graph graphs.graph_map else graphs.graph_map;
    heap = heap;
    nodes = b.allocated;
  },
)

unfoldable pub init_next :
    ℕ → Registry → Strings → String → List NodeConf → Graphs → Option (Bool × Graphs)
unfolding add_graph
init_next fuel reg str name confs graphs =
    let (b, root) = add_nodes reg str confs (new_builder graphs.heap graphs.nodes []) none in
    add_graph name b (init fuel b.heap b.node_id_gen root) graphs

-- GraphManager::init; `false` stands for the LOG(FATAL) before `return false`.
unfoldable pub init_graphs :
    ℕ → Registry → Strings → List (String × List NodeConf) → Graphs → Option (Bool × Graphs)
init_graphs fuel reg str [] graphs = some (true, graphs)
init_graphs fuel reg str ((name, confs) ∷ more) graphs = do
  (valid, graphs') ← init_next fuel reg str name confs graphs
  if valid then init_graphs fuel reg str more graphs' else some (false, graphs')

-- GraphManager::get_graph
unfoldable pub get_graph : String → Managers → Option Graph
get_graph topo_name m = lookup topo_name m.graphs.graph_map

-- What the files say that init_graph_frame reads; `cache_status` is what the cache returns.
pub record FrameConf : Type 0 where
  pub has_graph_frame : Bool
  pub cache_status : ℤ
  pub clients : List (String × Env × Answer)
  pub nodes : List (String × NodeEntry)
  pub graphs : List (String × List NodeConf)

with_graphs : Managers → Bool × Graphs → Option (Bool × Managers)
with_graphs m (valid, graphs) = if valid then some (true, record m { graphs = graphs }) else none

-- The part of init_graph_frame behind the redis clients.
unfoldable pub init_nodes_graphs :
    ℕ → List (String × Kind) → Strings → FrameConf → Managers → Option (Bool × Managers)
unfolding with_graphs
init_nodes_graphs fuel global_service_map str conf m =
    let (suc, m') = init_nodes conf.nodes m in
    if suc
    then init_graphs fuel (registry m' global_service_map) str conf.graphs m'.graphs
      >>= with_graphs m'
    else none

-- init_graph_frame: what it returns, and the maps; `none`: it does not come to its end, by LOG(FATAL) where a part of
-- the start fails, before the `return false` behind it. An error of the cache is only logged.
unfoldable pub init_graph_frame :
    ℕ → List (String × Kind) → Strings → FrameConf → Managers → Option (Bool × Managers)
init_graph_frame fuel global_service_map str conf m =
    if conf.has_graph_frame
    then init_clients conf.clients m.client_map >>= (λ clients.
      init_nodes_graphs fuel global_service_map str conf (record m { client_map = clients }))
    else none
