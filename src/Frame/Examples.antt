-- ===== src/Frame/Examples.antt =====
-- The graph of unittest/graph_frame/conf/graph.conf, `start` to `mid1` and `mid2` and these to
-- `done`, on which the theorems about src/frame/graph.h and src/frame/graph.cpp are run.
use graphize.Common.{
  ℕ, ◌+◌, ◌≤◌, ◌<◌, ◌≡◌, refl, sym, ap, subst, ◌↔◌, List, [], ◌∷◌, arith, ℤ, pos, negsuc, Bool,
  true, false, some, none, ◌==◌, ==_iff, ◌∙◌, length, some-injective,
}
use graphize.Common.Bag.{count, contains, total, all, all_sound, IsNodup}
use graphize.Frame.Node.{Node, Heap, cpu, add_output}
use graphize.Frame.Graph.{Graph, bfs, check, init, returned}
use graphize.Frame.Graph.Edges.{edges, IsOrdered}
use graphize.Frame.Graph.Bfs.{IsClosed, IsReachable, bfs-IsReachable}
use graphize.Frame.Graph.Verdict.{IsCounted, IsDag, check-IsDag}
use graphize.Frame.Graph.Acyclic.{IsAcyclic}
use graphize.Frame.Run.{System, Thread, run, running, execute, step}
use graphize.Frame.Run.Start.{IsReady}
use graphize.Frame.Run.Schedule.{
  execute_progress, execute-IsOrdered, execute_inputs, execute_bounded, execute_complete,
}

abbrev plain : ℕ → Node
plain n = record {
  name = "node";
  class = "StartService";
  id = n;
  kind = cpu;
  input_num = pos 0;
  input_num_4_check = pos 0;
  out_nodes = [];
}

pub diamond : Heap
unfolding add_output
diamond = add_output (add_output (add_output (add_output plain 0 1) 0 2) 1 3) 2 3

abbrev nodes : List ℕ
nodes = 0 ∷ 1 ∷ 2 ∷ 3 ∷ []

abbrev graph1 : Graph
graph1 = record { root_node = some 0; all_nodes = nodes; max_node_id = 4 }

init-diamond : (h : Heap) × (init 10 diamond 4 (some 0) ≡ some (returned true graph1 h))
unfolding init diamond
init-diamond = (_, refl)

closed_by_test :
    (out : ℕ → List ℕ) (us : List ℕ)
    → all (λ v. all (λ w. contains w us) (out v)) us ≡ true
    → IsClosed out us
closed_by_test out us h v w m e =
    let inner = all_sound (λ x. all (λ y. contains y us) (out x)) us v h m in
    let found = all_sound (λ y. contains y us) (out v) w inner e in ground arith

diamond-IsClosed : IsClosed (λ v. (diamond v).out_nodes) nodes
unfolding diamond all
diamond-IsClosed = closed_by_test (λ v. (diamond v).out_nodes) nodes refl

bfs-diamond : bfs 10 diamond (0 ∷ []) [] ≡ some nodes
unfolding diamond bfs
bfs-diamond = refl

diamond-room : 1 + total (λ u. length (diamond u).out_nodes) nodes ≤ 10
unfolding diamond total
diamond-room = omega arith

diamond-IsReachable : IsReachable (λ v. (diamond v).out_nodes) 0 nodes
diamond-IsReachable =
    let (found, e, r) =
      bfs-IsReachable diamond nodes 0 10 diamond-IsClosed (omega arith) diamond-room in
    subst (IsReachable (λ v. (diamond v).out_nodes) 0) (some-injective (sym e ∙ bfs-diamond)) r

-- The counter shows the number.
shows : ℤ → ℕ → Bool
shows (pos k) n = k == n
shows (negsuc k) n = false

shows_sound : (z : ℤ) (n : ℕ) → shows z n ≡ true → z ≡ pos n
unfolding shows
shows_sound (pos k) n h = ground arith
shows_sound (negsuc k) n h = cc

abbrev inputs : ℕ → ℕ
inputs v = edges (λ u. (diamond u).out_nodes) nodes v

diamond-IsCounted : IsCounted diamond nodes inputs
unfolding diamond total all shows
diamond-IsCounted = record {
  counter = λ v m.
      shows_sound (diamond v).input_num_4_check (inputs v)
        (all_sound (λ x. shows (diamond x).input_num_4_check (inputs x)) nodes v refl m);
  enough = λ v. omega arith;
}

check-IsDag_example :
    (valid : Bool) × (h' : Heap) × (check diamond graph1 ≡ some (valid, h'))
    × ((valid ≡ true) ↔ IsDag (λ v. (diamond v).out_nodes) nodes inputs)
check-IsDag_example = check-IsDag diamond graph1 0 inputs diamond-IsCounted diamond-IsReachable refl

check-diamond : (h : Heap) × (check diamond graph1 ≡ some (true, h))
unfolding check diamond
check-diamond = (_, refl)

diamond-IsAcyclic : IsAcyclic (λ v. (diamond v).out_nodes) nodes
diamond-IsAcyclic =
    let (valid, h', e, iff) = check-IsDag_example in
    let same_result = some-injective (sym e ∙ check-diamond.1) in
    (iff.0 (ap (λ r. r.0) same_result)).acyclic

diamond-id : (v : ℕ) → 0 < count v nodes → (diamond v).id ≡ v
unfolding diamond all
diamond-id v m = (==_iff (diamond v).id v).0 (all_sound (λ x. (diamond x).id == x) nodes v refl m)

diamond-IsReady : IsReady diamond graph1 0
unfolding diamond total all shows
diamond-IsReady = record {
  rooted = refl;
  reachable = diamond-IsReachable;
  acyclic = diamond-IsAcyclic;
  counted = λ v m.
      shows_sound (diamond v).input_num (inputs v)
        (all_sound (λ x. shows (diamond x).input_num (inputs x)) nodes v refl m);
  numbered = record {
    distinct = λ v w m m' e. sym (diamond-id v m) ∙ e ∙ diamond-id w m';
    small = λ v m. rw (diamond-id v m) (ground arith);
  };
  room = omega arith;
}

abbrev no_skip : ℕ → Bool
no_skip n = false

-- The request as Graph::run leaves it, with the root about to run.
abbrev request : System
request = record {
  context = record {
    node_input_num_map = some (pos 0) ∷ some (pos 1) ∷ some (pos 1) ∷ some (pos 2) ∷ [];
    node_service_context_vec =
        some "StartService"
        ∷ some "StartService"
        ∷ some "StartService"
        ∷ some "StartService"
        ∷ none
        ∷ [];
  };
  threads = Thread.entering 0 ∷ [];
  completed = [];
}

request_starts : run diamond graph1 ≡ running request
unfolding run diamond
request_starts = refl

-- The root runs and notifies both outputs, and `mid1` enters its service.
abbrev early : List ℕ
early = 0 ∷ 0 ∷ 0 ∷ 0 ∷ 0 ∷ []

abbrev whole : List ℕ
whole = 0 ∷ 0 ∷ 0 ∷ 0 ∷ 1 ∷ 0 ∷ 1 ∷ 0 ∷ 1 ∷ 0 ∷ 1 ∷ 0 ∷ 0 ∷ 0 ∷ 0 ∷ 0 ∷ []

abbrev finished : System
finished = record request {
  context = record request.context {
    node_input_num_map = some (pos 0) ∷ some (pos 0) ∷ some (pos 0) ∷ some (pos 0) ∷ [];
  };
  threads = [];
  completed = 3 ∷ 2 ∷ 1 ∷ 0 ∷ [];
}

whole_runs : execute diamond no_skip request whole ≡ some finished
unfolding execute diamond
whole_runs = refl

-- The root is done, `mid1` is in its service and `mid2` is ready.
abbrev halfway : System
halfway = record request {
  context = record request.context {
    node_input_num_map = some (pos 0) ∷ some (pos 0) ∷ some (pos 0) ∷ some (pos 2) ∷ [];
  };
  threads = Thread.serving 1 ∷ Thread.notifying [] (some 2) ∷ [];
  completed = 0 ∷ [];
}

early_runs : execute diamond no_skip request early ≡ some halfway
unfolding execute diamond
early_runs = refl

execute_progress_example : (s : System) × (step diamond no_skip halfway 1 ≡ some s)
execute_progress_example =
    execute_progress diamond no_skip graph1 0 diamond-IsReady request halfway early request_starts
      early_runs 1 (omega arith)

execute-IsOrdered_example :
    IsNodup (3 ∷ 2 ∷ 1 ∷ 0 ∷ []) × IsOrdered (λ v. (diamond v).out_nodes) nodes (3 ∷ 2 ∷ 1 ∷ 0 ∷ [])
execute-IsOrdered_example =
    execute-IsOrdered diamond no_skip graph1 0 diamond-IsReady request finished whole request_starts
      whole_runs

input_of_1 : 0 < count 1 (diamond 0).out_nodes
unfolding diamond
input_of_1 = omega arith

execute_inputs_example : 0 < count 0 (0 ∷ [])
execute_inputs_example =
    execute_inputs diamond no_skip graph1 0 diamond-IsReady request halfway early request_starts
      early_runs [] (Thread.notifying [] (some 2) ∷ []) 1 refl 0 (omega arith) input_of_1

execute_bounded_example : length whole ≤ total (λ n. length (diamond n).out_nodes + 4) nodes
execute_bounded_example =
    execute_bounded diamond no_skip graph1 0 diamond-IsReady request finished whole request_starts
      whole_runs

execute_complete_example : count 3 (3 ∷ 2 ∷ 1 ∷ 0 ∷ []) ≡ count 3 nodes
execute_complete_example =
    execute_complete diamond no_skip graph1 0 diamond-IsReady request finished whole request_starts
      whole_runs refl 3
