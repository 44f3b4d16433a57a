-- ===== src/Server/Serves.antt =====
-- From main to the end of a request (src/main.cpp, src/server/server_impl.cpp): what was configured runs.
use Prim.Native.String.{String}
use graphize.Common.{
  ℕ, ◌+◌, ◌≤◌, ◌<◌, ◌≡◌, refl, sym, ap, subst, ◌∙◌, List, [], ◌∷◌, ◌++◌, none, some, none≢some,
  some-injective, some_of_bind, Bool, true, false, arith, inl, inr, pos, get_elem?, Bool-cases,
  length, dec_lt, ◌>>=◌,
}
use graphize.Common.Bag.{count, total}
use graphize.Common.Maps.{lookup, IsIn}
use graphize.Frame.Node.{Kind, Heap}
use graphize.Frame.Graph.{Graph}
use graphize.Frame.Graph.Edges.{IsOrdered}
use graphize.Frame.Run.{System, Thread, running, entering, run, step, execute}
use graphize.Frame.Run.Start.{run-starts}
use graphize.Frame.Run.Finish.{execute-append, execute_finishes}
use graphize.Frame.Run.Schedule.{
  execute_progress, execute-IsOrdered, execute_bounded, execute_complete,
}
use graphize.Frame.Manager.{NodeConf, Strings}
use graphize.Frame.Manager.Accepted.{IsAccepted, HasSmallIds, IsReady-of}
use graphize.Frame.Setup.{
  Graphs, Managers, FrameConf, init_clients, init_nodes, get_graph, init_nodes_graphs,
  init_graph_frame,
}
use graphize.Frame.Setup.EachNode.{init_nodes-SameMaps}
use graphize.Frame.Setup.EachGraph.{init_graphs-true}
use graphize.Frame.Setup.Ready.{init_nodes_graphs-true}
use graphize.Frame.Setup.Accepted.{AreKept, init_graphs-AreKept}
use graphize.Server.{Outside, exit_code, main, echo}

-- What init_graph_frame has done with the graphs when it returns true.
record Begun (conf : FrameConf) (m' : Managers) : Type 0 where
  kept : AreKept m'.graphs
  each :
      (i : ℕ) (name : String) (nodes : List NodeConf)
      → get_elem? conf.graphs i ≡ some (name, nodes)
      → IsIn name m'.graphs.graph_map

no_graph : (graphs : Graphs) → graphs.graph_map ≡ [] → AreKept graphs
unfolding lookup
no_graph graphs empty name g found = absurd (none≢some (ap (lookup name) (sym empty) ∙ found))

init_nodes_graphs-Begun :
    (fuel : ℕ) (services : List (String × Kind)) (str : Strings) (conf : FrameConf)
    (m m' : Managers)
    → m.graphs.graph_map ≡ []
    → init_nodes_graphs fuel services str conf m ≡ some (true, m')
    → Begun conf m'
init_nodes_graphs-Begun fuel services str conf m m' empty e =
    let (reg, suc_nodes, graphs, built, same) =
      init_nodes_graphs-true fuel services str conf m m' e in
    let before = (init_nodes conf.nodes m).1.graphs in
    let none_before : AreKept before =
      no_graph before (ap (λ x. x.graph_map) (init_nodes-SameMaps conf.nodes m).graphs ∙ empty) in
    subst (Begun conf) (sym same) (record {
      kept = init_graphs-AreKept fuel reg str conf.graphs before graphs built none_before;
      each = λ i name nodes at_graph.
          init_graphs-true fuel reg str conf.graphs before graphs i name nodes built at_graph;
    })

init_graph_frame-Begun :
    (fuel : ℕ) (services : List (String × Kind)) (str : Strings) (conf : FrameConf)
    (m m' : Managers)
    → m.graphs.graph_map ≡ []
    → init_graph_frame fuel services str conf m ≡ some (true, m')
    → Begun conf m'
unfolding init_graph_frame init_nodes_graphs
init_graph_frame-Begun fuel services str conf m m' empty e =
    elim (Bool-cases conf.has_graph_frame) [
      | inr absent ↦ absurd (none≢some (rw absent at e))
      | inl present ↦
          let (clients, made, rest) =
            some_of_bind (init_clients conf.clients m.client_map) _ (rw present at e) in
          init_nodes_graphs-Begun fuel services str conf (record m { client_map = clients }) m'
            empty rest
    ]

-- If no graph was there before and init_graph_frame returns true, then every graph that get_graph finds
-- has the nodes that its root reaches, no cycle, counters that count the edges among its nodes, and ids
-- that are all different, so that the graphs that were read behind it have changed nothing of that.
pub init_graph_frame-IsAccepted :
    (fuel : ℕ) (services : List (String × Kind)) (str : Strings) (conf : FrameConf)
    (m m' : Managers) (name : String) (g : Graph)
    → m.graphs.graph_map ≡ []
    → init_graph_frame fuel services str conf m ≡ some (true, m')
    → get_graph name m' ≡ some g
    → (root : ℕ) × IsAccepted m'.graphs.heap g root
unfolding get_graph
init_graph_frame-IsAccepted fuel services str conf m m' name g empty e found =
    let k = (init_graph_frame-Begun fuel services str conf m m' empty e).kept name g found in
    (k.root, k.accepted)

exit_code-zero : (suc : Bool) (server : Outside) → exit_code suc server ≡ pos 0 → suc ≡ true
unfolding exit_code
exit_code-zero true server e = refl
exit_code-zero false server e = absurd (cc)

main-Begun :
    (fuel : ℕ) (services : List (String × Kind)) (str : Strings) (conf : FrameConf)
    (server : Outside) (m m' : Managers)
    → m.graphs.graph_map ≡ []
    → main fuel services str conf server m ≡ some (pos 0, m')
    → Begun conf m'
unfolding main
main-Begun fuel services str conf server m m' empty e =
    let ((valid, m1), made, rest) = some_of_bind (init_graph_frame fuel services str conf m) _ e in
    let good : valid ≡ true = exit_code-zero valid server (ap (λ r. r.0) (some-injective rest)) in
    subst (Begun conf) (ap (λ r. r.1) (some-injective rest)) (
      init_graph_frame-Begun fuel services str conf m m1 empty (made ∙ ap (λ v. some (v, m1)) good))

-- If no graph was there before, main returns 0, graph1 is configured, and the ids of its nodes are less
-- than their number, then each request finds graph1 and starts it.
pub echo_starts :
    (fuel : ℕ) (services : List (String × Kind)) (str : Strings) (conf : FrameConf)
    (server : Outside) (m m' : Managers) (i : ℕ) (nodes : List NodeConf)
    → m.graphs.graph_map ≡ []
    → main fuel services str conf server m ≡ some (pos 0, m')
    → get_elem? conf.graphs i ≡ some ("graph1", nodes)
    → ((g : Graph) → get_graph "graph1" m' ≡ some g → HasSmallIds m'.graphs.heap g)
    → (g : Graph) × (s : System) × (get_graph "graph1" m' ≡ some g) × (echo m' ≡ some (running s))
unfolding echo get_graph
echo_starts fuel services str conf server m m' i nodes empty e at_graph small =
    let begun = main-Begun fuel services str conf server m m' empty e in
    let (g, found) = begun.each i "graph1" nodes at_graph in
    let k = begun.kept "graph1" g found in
    let ready = IsReady-of m'.graphs.heap g k.root k.accepted (small g found) in
    let (c, starts, _) = run-starts m'.graphs.heap g k.root ready in
    let s : System = record { context = c; threads = entering k.root ∷ []; completed = [] } in
    (g, s, found, ap (λ o. o >>= (λ x. some (run m'.graphs.heap x))) found ∙ ap some starts)

empty_of_length : (ts : List Thread) → length ts ≤ 0 → ts ≡ []
empty_of_length [] h = refl
empty_of_length (t ∷ ts) h = absurd (omega arith)

-- No bthread is left where the first one cannot make a step.
at_end :
    (h : Heap) (skips : ℕ → Bool) (s : System)
    → ((k : ℕ) → k < length s.threads → (s' : System) × (step h skips s k ≡ some s'))
    → step h skips s 0 ≡ none
    → s.threads ≡ []
at_end h skips s progress stuck = elim (dec_lt 0 (length s.threads)) [
  | yes left ↦ let (s', e) = progress 0 left in absurd (none≢some (sym stuck ∙ e))
  | no done ↦ empty_of_length s.threads (omega arith)
]

-- If no graph was there before and main returned 0, then for a request to graph1, in which the ids of the
-- nodes are less than their number, that has come to a state in which its first bthread cannot make a step,
-- under any interleaving and with any answers of `skip`: each node of graph1 has completed exactly once and
-- no other node has, each behind its inputs, in no more steps than four for each node and one for each edge.
pub echo_complete :
    (fuel : ℕ) (services : List (String × Kind)) (str : Strings) (conf : FrameConf)
    (server : Outside) (m m' : Managers) (g : Graph) (skips : ℕ → Bool) (s s' : System)
    (schedule : List ℕ)
    → m.graphs.graph_map ≡ []
    → main fuel services str conf server m ≡ some (pos 0, m')
    → get_graph "graph1" m' ≡ some g
    → HasSmallIds m'.graphs.heap g
    → echo m' ≡ some (running s)
    → execute m'.graphs.heap skips s schedule ≡ some s'
    → step m'.graphs.heap skips s' 0 ≡ none
    → ((v : ℕ) → count v s'.completed ≡ count v g.all_nodes)
      × IsOrdered (λ v. (m'.graphs.heap v).out_nodes) g.all_nodes s'.completed
      × (length schedule ≤ total (λ n. length (m'.graphs.heap n).out_nodes + 4) g.all_nodes)
unfolding echo get_graph
echo_complete fuel services str conf server m m' g skips s s' schedule empty e found small echoed
      runs stuck =
    let h = m'.graphs.heap in
    let begun = main-Begun fuel services str conf server m m' empty e in
    let k = begun.kept "graph1" g found in
    let ready = IsReady-of h g k.root k.accepted small in
    let begins : run h g ≡ running s = some-injective (rw found at echoed) in
    let ended =
      at_end h skips s' (execute_progress h skips g k.root ready s s' schedule begins runs) stuck in
    (
      execute_complete h skips g k.root ready s s' schedule begins runs ended,
      (execute-IsOrdered h skips g k.root ready s s' schedule begins runs).1,
      execute_bounded h skips g k.root ready s s' schedule begins runs,
    )

-- If no graph was there before and main returned 0, then from every state that a request to graph1, in
-- which the ids of the nodes are less than their number, has come to, under any interleaving and with any
-- answers of `skip`, some interleaving goes on to the end of the request, with each node of graph1 completed
-- exactly once and no other node.
pub echo_finishes :
    (fuel : ℕ) (services : List (String × Kind)) (str : Strings) (conf : FrameConf)
    (server : Outside) (m m' : Managers) (g : Graph) (skips : ℕ → Bool) (s s' : System)
    (schedule : List ℕ)
    → m.graphs.graph_map ≡ []
    → main fuel services str conf server m ≡ some (pos 0, m')
    → get_graph "graph1" m' ≡ some g
    → HasSmallIds m'.graphs.heap g
    → echo m' ≡ some (running s)
    → execute m'.graphs.heap skips s schedule ≡ some s'
    → (rest : List ℕ) × (s'' : System) × (execute m'.graphs.heap skips s' rest ≡ some s'')
      × (s''.threads ≡ [])
      × ((v : ℕ) → count v s''.completed ≡ count v g.all_nodes)
unfolding echo get_graph
echo_finishes fuel services str conf server m m' g skips s s' schedule empty e found small echoed
      runs =
    let h = m'.graphs.heap in
    let begun = main-Begun fuel services str conf server m m' empty e in
    let k = begun.kept "graph1" g found in
    let ready = IsReady-of h g k.root k.accepted small in
    let begins : run h g ≡ running s = some-injective (rw found at echoed) in
    let (rest, s'', goes_on, ended) =
      execute_finishes h skips g k.root ready s s' schedule begins runs in
    (
      rest,
      s'',
      goes_on,
      ended,
      execute_complete h skips g k.root ready s s'' (schedule ++ rest) begins
          (execute-append h skips s s' schedule rest runs ∙ goes_on) ended,
    )
