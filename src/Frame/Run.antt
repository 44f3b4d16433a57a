-- ===== src/Frame/Run.antt =====
-- Graph::run of src/frame/graph.h, Node::run, Node::notify and Node::run_output_nodes_if_ready of
-- src/frame/graph.cpp, and the GraphContext that they share (src/frame/graph_context.h).
-- A schedule says which bthread makes the next step; the atomic steps are the calls of `notify`.
pub mod Ledger
pub mod Threads
pub mod Turn
pub mod Start
pub mod Invariant
pub mod Schedule
pub mod Finish
pub mod Contexts
use Prim.Native.String.{String}
use graphize.Common.{
  ℕ, zero, suc, ◌+◌, ◌++◌, List, [], ◌∷◌, if◌then◌else◌, ℤ, decrement, is_one, Option, none, some,
  Bool, true, false, length, get_elem?, set, replicate, ltb,
}
use graphize.Frame.Node.{Heap, cpu, io}
use graphize.Frame.Graph.{Graph}

-- class GraphContext: the counters of one request, and the contexts of its nodes (here the class
-- whose factory made them). `none` is a null pointer.
pub record Context : Type 0 where
  pub node_input_num_map : List (Option ℤ)
  pub node_service_context_vec : List (Option String)

-- The loop of Graph::run over `all_nodes`. `none`: an id past the end of the counters, which meets LOG(FATAL),
-- or of the contexts, which is written to.
unfoldable pub fill_context : Heap → List ℕ → Context → Option Context
fill_context h [] c = some c
fill_context h (n ∷ ns) c =
    let rest = fill_context h ns (record c {
      node_input_num_map = set c.node_input_num_map (h n).id (some (h n).input_num);
      node_service_context_vec = set c.node_service_context_vec (h n).id (some (h n).class);
    }) in
    if ltb (h n).id (length c.node_input_num_map)
    then (if ltb (h n).id (length c.node_service_context_vec) then rest else none)
    else none

-- Both vectors after `resize`.
abbrev pub empty_context : Graph → Context
empty_context g = record {
  node_input_num_map = replicate (length g.all_nodes) none;
  node_service_context_vec = replicate (g.max_node_id + 1) none;
}

-- A bthread: at the head of Node::run; in `do_service`; an io node whose callback is still to come;
-- or the loop of run_output_nodes_if_ready, with the outputs to come and `last_ready_node`.
pub data Thread : Type 0 where
  entering : ℕ → Thread
  serving : ℕ → Thread
  waiting : ℕ → Thread
  notifying : (rest : List ℕ) → (last_ready_node : Option ℕ) → Thread

-- The context, the bthreads that run, and the nodes whose service is done, the last one first.
pub record System : Type 0 where
  pub context : Context
  pub threads : List Thread
  pub completed : List ℕ

-- Graph::run: the return value -1 without a root, else 0 with the root about to run.
pub data RunResult : Type 0 where
  no_root : RunResult
  bad_id : RunResult
  running : System → RunResult

unfoldable pub start_root : ℕ → Option Context → RunResult
start_root root none = bad_id
start_root root (some c) =
    running (record { context = c; threads = entering root ∷ []; completed = [] })

unfoldable pub run_from : Heap → Graph → Option ℕ → RunResult
unfolding start_root fill_context
run_from h g none = no_root
run_from h g (some root) = start_root root (fill_context h g.all_nodes (empty_context g))

unfoldable pub run : Heap → Graph → RunResult
unfolding run_from
run h g = run_from h g g.root_node

-- `fetch_sub(1)` through the pointer at the node's id, and whether the old value was 1.
-- `none`: the pointer is null, or the id is past the end, which ends the process.
unfoldable pub fetch_sub : Context → ℕ → Option (Option ℤ) → Option (Context × Bool)
fetch_sub c id none = none
fetch_sub c id (some none) = none
fetch_sub c id (some (some old)) = some (
  record c { node_input_num_map = set c.node_input_num_map id (some (decrement old)) },
  is_one old,
)

-- Node::notify, in which an id past the end meets LOG(FATAL).
unfoldable pub notify : Heap → Context → ℕ → Option (Context × Bool)
unfolding fetch_sub
notify h c n = fetch_sub c (h n).id (get_elem? c.node_input_num_map (h n).id)

-- The rest of the loop body after `notify`: a node that was ready before gets a bthread of its own.
unfoldable pub after_notify : ℕ → List ℕ → Option ℕ → Bool → List Thread
after_notify n rest last false = notifying rest last ∷ []
after_notify n rest none true = notifying rest (some n) ∷ []
after_notify n rest (some last) true = entering last ∷ notifying rest (some n) ∷ []

-- What one step of a bthread leaves: the context, the bthreads in its place, the node it completed.
abbrev pub Turn : Type 0
Turn = Option (Context × List Thread × List ℕ)

after_output : ℕ → List ℕ → Option ℕ → Option (Context × Bool) → Turn
unfolding after_notify
after_output n rest last none = none
after_output n rest last (some (c, ready)) = some (c, after_notify n rest last ready, [])

-- One step of a bthread. The service of a cpu node is followed by the loop over its outputs, that
-- of an io node leaves this loop to its callback. `skips` is what `skip` answers for a node in this request.
unfoldable pub turn : Heap → (ℕ → Bool) → Context → Thread → Turn
unfolding after_output notify
turn h skips c (entering n) =
    if skips n
    then some (c, notifying (h n).out_nodes none ∷ [], n ∷ [])
    else some (c, serving n ∷ [], [])
turn h skips c (serving n) = elim (h n).kind [
  | cpu ↦ some (c, notifying (h n).out_nodes none ∷ [], n ∷ [])
  | io ↦ some (c, waiting n ∷ [], [])
]
turn h skips c (waiting n) = some (c, notifying (h n).out_nodes none ∷ [], n ∷ [])
turn h skips c (notifying (n ∷ rest) last) = after_output n rest last (notify h c n)
turn h skips c (notifying [] (some last)) = some (c, entering last ∷ [], [])
turn h skips c (notifying [] none) = some (c, [], [])

-- The bthread at a position, with those before and behind it.
unfoldable pub select : ℕ → List Thread → Option (List Thread × Thread × List Thread)
select i [] = none
select zero (t ∷ ts) = some ([], t, ts)
select (suc i) (t ∷ ts) = elim (select i ts) [
  | none ↦ none
  | some (before, u, after) ↦ some (t ∷ before, u, after)
]

resume : System → List Thread → List Thread → Turn → Option System
resume s before after none = none
resume s before after (some (c, ts, done)) =
    some
      (record { context = c; threads = before ++ (ts ++ after); completed = done ++ s.completed })

step_selected :
    Heap → (ℕ → Bool) → System → Option (List Thread × Thread × List Thread) → Option System
unfolding resume turn
step_selected h skips s none = none
step_selected h skips s (some (before, t, after)) = resume s before after (turn h skips s.context t)

-- The bthread at a position makes a step. `none`: there is none there, or the step is a fault.
unfoldable pub step : Heap → (ℕ → Bool) → System → ℕ → Option System
unfolding step_selected select
step h skips s i = step_selected h skips s (select i s.threads)

-- A whole execution: the positions of the bthreads that make its steps.
unfoldable pub execute : Heap → (ℕ → Bool) → System → List ℕ → Option System
unfolding step
execute h skips s [] = some s
execute h skips s (i ∷ schedule) = elim (step h skips s i) [
  | none ↦ none
  | some s' ↦ execute h skips s' schedule
]
