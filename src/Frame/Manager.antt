-- ===== src/Frame/Manager.antt =====
-- src/frame/graph_manager.cpp, GraphManager::init: the nodes and edges of a graph from its
-- configuration. The configuration is taken as parsed (by hocon, which is not part of the
-- repository).
pub mod Built
pub mod Created
pub mod Loops
pub mod Ready
pub mod Accepted
mod Examples
use Prim.Native.String.{String}
use text.Mathlib.Text
use graphize.Common.{
  ℕ, zero, suc, List, [], ◌∷◌, ◌++◌, Option, none, some, Bool, true, false, if◌then◌else◌, ℤ, pos,
}
use graphize.Common.Bag.{contains}
use graphize.Frame.Node.{Kind, Node, Heap, update, add_output}
use graphize.Frame.Graph.{InitResult, init}

-- An object of the configuration of a graph. An absent attribute is "", or false for `root`.
pub record NodeConf : Type 0 where
  pub node_name : String
  pub root : Bool
  pub children : String
  pub parents : String

-- boost::trim, and boost::split at commas.
pub record Strings : Type 0 where
  pub trim : String → String
  pub split : String → List String

-- NodeManager::get_node_info as far as the class, and what a registered factory of a class creates.
pub record Registry : Type 0 where
  pub class_of : String → Option String
  pub kind_of : String → Option Kind

-- The state of the loop over the nodes of one graph. `allocated` is the next Node*.
pub record Builder : Type 0 where
  pub heap : Heap
  pub allocated : ℕ
  pub nodes_map : List (String × ℕ)
  pub node_id_gen : ℕ
  pub graph_node_vec : List (String × String)

unfoldable pub find : String → List (String × ℕ) → Option ℕ
find name [] = none
find name ((key, p) ∷ nodes_map) =
    let rest = find name nodes_map in if Text.◌==◌ name key then some p else rest

-- The node that a factory creates, named and numbered.
unfoldable pub create : Builder → String → String → Kind → Builder × Option ℕ
create b name clazz kind = (
  record {
    heap = update b.heap b.allocated (record {
      name = name;
      class = clazz;
      id = b.node_id_gen;
      kind = kind;
      input_num = pos 0;
      input_num_4_check = pos 0;
      out_nodes = [];
    });
    allocated = suc b.allocated;
    nodes_map = (name, b.allocated) ∷ b.nodes_map;
    node_id_gen = suc b.node_id_gen;
    graph_node_vec = b.graph_node_vec ++ (name, clazz) ∷ [];
  },
  some b.allocated,
)

create_kind : String → String → Builder → Option Kind → Builder × Option ℕ
unfolding create
create_kind name clazz b none = (b, none)
create_kind name clazz b (some kind) = create b name clazz kind

create_class : Registry → String → Builder → Option String → Builder × Option ℕ
unfolding create_kind
create_class reg name b none = (b, none)
create_class reg name b (some clazz) = create_kind name clazz b (reg.kind_of clazz)

create_new : Registry → String → Builder → Option ℕ → Builder × Option ℕ
unfolding create_class
create_new reg name b (some p) = (b, some p)
create_new reg name b none = create_class reg name b (reg.class_of name)

-- `create_service_if_not_exist`
unfoldable pub create_service_if_not_exist : Registry → String → Builder → Builder × Option ℕ
unfolding create_new find
create_service_if_not_exist reg name b = create_new reg name b (find name b.nodes_map)

-- An edge is added unless it is there.
unfoldable pub connect : ℕ → ℕ → Builder → Builder
connect p child b =
    if contains child (b.heap p).out_nodes then b else record b { heap = add_output b.heap p child }

connect_child : ℕ → Builder × Option ℕ → Builder
unfolding connect
connect_child service (b, none) = b
connect_child service (b, some child) = connect service child b

connect_parent : ℕ → Builder × Option ℕ → Builder
unfolding connect
connect_parent service (b, none) = b
connect_parent service (b, some p_node) = connect p_node service b

-- The loop over the children: an empty piece is passed over.
unfoldable pub add_children : Registry → Strings → ℕ → List String → Builder → Builder
unfolding connect_child create_service_if_not_exist
add_children reg str service [] b = b
add_children reg str service (c ∷ child_vec) b = add_children reg str service child_vec (
    if Text.◌==◌ c ""
    then b
    else connect_child service (create_service_if_not_exist reg (str.trim c) b))

unfoldable pub add_parents : Registry → Strings → ℕ → List String → Builder → Builder
unfolding connect_parent create_service_if_not_exist
add_parents reg str service [] b = b
add_parents reg str service (p ∷ p_vec) b =
    add_parents reg str service p_vec
      (connect_parent service (create_service_if_not_exist reg (str.trim p) b))

pieces : Strings → String → List String
pieces str text = if Text.◌==◌ (str.trim text) "" then [] else str.split (str.trim text)

unfoldable pub add_edges : Registry → Strings → NodeConf → ℕ → Builder → Builder
unfolding add_children add_parents pieces
add_edges reg str conf service b =
    add_parents reg str service (pieces str conf.parents)
      (add_children reg str service (pieces str conf.children) b)

-- The loop over the nodes: a node that cannot be created ends it.
unfoldable pub add_nodes :
    Registry → Strings → List NodeConf → Builder → Option ℕ → Builder × Option ℕ
unfolding create_service_if_not_exist add_edges
add_nodes reg str [] b root = (b, root)
add_nodes reg str (conf ∷ confs) b root =
    let (b', made) = create_service_if_not_exist reg conf.node_name b in
    elim made [
      | none ↦ (b', root)
      | some service ↦
          add_nodes reg str confs (add_edges reg str conf service b')
            (if conf.root then some service else root)
    ]

-- The state before the first node of a graph.
abbrev pub new_builder : Heap → ℕ → List (String × String) → Builder
new_builder heap allocated graph_node_vec = record {
  heap = heap;
  allocated = allocated;
  nodes_map = [];
  node_id_gen = 0;
  graph_node_vec = graph_node_vec;
}

-- One graph of GraphManager::init: `max_node_id` is the number of the nodes that were created.
unfoldable pub init_graph : ℕ → Registry → Strings → List NodeConf → Builder → Option InitResult
unfolding add_nodes
init_graph fuel reg str confs b =
    let (b', root) = add_nodes reg str confs b none in init fuel b'.heap b'.node_id_gen root
