-- ===== src/Frame/Graph.antt =====
-- src/frame/graph.h, class Graph: the nodes of a graph are collected breadth first from its root
-- (`bfs`, the loop of Graph::init), and the graph is accepted if removing nodes without inputs
-- empties it (Graph::check).
pub mod Edges
pub mod Bfs
pub mod Check
pub mod Kept
pub mod Outside
pub mod Acyclic
pub mod Verdict
use graphize.Common.{
  ℕ, zero, suc, ◌+◌, ◌++◌, List, [], ◌∷◌, if◌then◌else◌, ℤ, decrement, is_zero, Option, none, some,
  Bool, true, false, ◌&&◌, length,
}
use graphize.Common.Bag.{contains}
use graphize.Frame.Node.{Node, Heap, update}

pub record Graph : Type 0 where
  pub root_node : Option ℕ
  pub all_nodes : List ℕ
  pub max_node_id : ℕ

-- The `while(!q.empty())` loop of Graph::init. The local `set` holds what `all_nodes` holds.
-- `none`: out of fuel.
unfoldable pub bfs : ℕ → Heap → List ℕ → List ℕ → Option (List ℕ)
bfs fuel h [] all_nodes = some all_nodes
bfs zero h (cur ∷ q) all_nodes = none
bfs (suc fuel) h (cur ∷ q) all_nodes =
    let seen = contains cur all_nodes in
    bfs fuel h (if seen then q else q ++ (h cur).out_nodes)
      (if seen then all_nodes else all_nodes ++ cur ∷ [])

-- The `for` loop over the outputs of a removed node in Graph::check.
unfoldable pub remove_edges : Heap → List ℕ → List ℕ → Heap × List ℕ
remove_edges h [] zero_input_node = (h, zero_input_node)
remove_edges h (n ∷ ns) zero_input_node =
    let left = decrement (h n).input_num_4_check in
    remove_edges (update h n (record (h n) { input_num_4_check = left })) ns
      (if is_zero left then zero_input_node ++ n ∷ [] else zero_input_node)

-- The `while` loop of Graph::check. `deleted` holds the nodes whose flag in `del_flag_map` is true,
-- the last one first. `none`: out of fuel.
unfoldable pub remove_nodes : ℕ → Heap → List ℕ → List ℕ → Option (Heap × List ℕ)
unfolding remove_edges
remove_nodes fuel h [] deleted = some (h, deleted)
remove_nodes zero h (r ∷ zero_input_node) deleted = none
remove_nodes (suc fuel) h (r ∷ zero_input_node) deleted =
    let (h', zero_input_node') = remove_edges h (h r).out_nodes zero_input_node in
    remove_nodes fuel h' zero_input_node' (r ∷ deleted)

-- No node of the graph kept the flag false, so the message of the cyclic nodes is empty.
unfoldable pub all_deleted : List ℕ → List ℕ → Bool
all_deleted [] deleted = true
all_deleted (n ∷ ns) deleted = contains n deleted && all_deleted ns deleted

-- What follows the loop of Graph::check. `false` stands for the LOG(FATAL) before `return false`, as in check_root.
unfoldable pub verdict : Graph → Option (Heap × List ℕ) → Option (Bool × Heap)
unfolding all_deleted
verdict g none = none
verdict g (some (h, deleted)) = some (all_deleted g.all_nodes deleted, h)

unfoldable pub check_root : Heap → Graph → Option ℕ → Option (Bool × Heap)
unfolding verdict remove_nodes
check_root h g none = some (false, h)
check_root h g (some root) =
    if is_zero (h root).input_num_4_check
    then verdict g (remove_nodes (length g.all_nodes) h (root ∷ []) [])
    else some (false, h)

-- Graph::check. The fuel of the loop is the number of nodes.
unfoldable pub check : Heap → Graph → Option (Bool × Heap)
unfolding check_root
check h g = check_root h g g.root_node

-- How Graph::init ends: with a return value (true for 0, false for -1), or by reading the output
-- nodes of a root that is null.
pub data InitResult : Type 0 where
  null_root : InitResult
  returned : Bool → Graph → Heap → InitResult

unfoldable pub finish_init : Graph → Option (Bool × Heap) → Option InitResult
finish_init g none = none
finish_init g (some (valid, h)) = some (returned valid g h)

unfoldable pub check_nodes : Heap → ℕ → ℕ → Option (List ℕ) → Option InitResult
unfolding finish_init check
check_nodes h max_node_id root none = none
check_nodes h max_node_id root (some nodes) =
    let g : Graph = record {
      root_node = some root;
      all_nodes = nodes;
      max_node_id = max_node_id;
    } in
    finish_init g (check h g)

-- Graph::init(Node* node, name), after GraphManager has set `max_node_id`.
unfoldable pub init : ℕ → Heap → ℕ → Option ℕ → Option InitResult
unfolding check_nodes bfs
init fuel h max_node_id none = some null_root
init fuel h max_node_id (some root) = check_nodes h max_node_id root (bfs fuel h (root ∷ []) [])
