-- ===== src/Service/Start.antt =====
-- The services StartService and DoneService (src/service/start_service.cpp, src/service/done.cpp), with the
-- contexts of the nodes that they share (src/frame/graph_context.h, src/common/context.h).
pub mod Reads
use Prim.Native.String.{String}
use text.Mathlib.Text.{◌==◌}
use graphize.Common.{
  ℕ, List, [], ◌∷◌, ◌++◌, Option, none, some, Bool, true, false, if◌then◌else◌, ◌&&◌, get_elem?,
  set, map, ◌>>=◌,
}
use graphize.Frame.Node.{Node, Heap}
use graphize.Frame.Run.{Context}

-- Of the Context of a request: `start_context`, and the context of each node by its id, of which the
-- services use `request_id`. `none` is a null pointer.
pub record RequestData : Type 0 where
  pub start_context : ℕ
  pub node_service_context_vec : List (Option String)

abbrev pub created : Option String → Option String
created none = none
created (some class) = some ""

-- The contexts as Graph::run makes them; the member `start_context` is not initialised.
abbrev pub new_data : ℕ → Context → RequestData
new_data start_context c = record {
  start_context = start_context;
  node_service_context_vec = map created c.node_service_context_vec;
}

-- GraphContext::get_context; `none`: an id past the end, which ends the process.
unfoldable pub get_context : RequestData → ℕ → Option (Option String)
get_context context node_id = get_elem? context.node_service_context_vec node_id

unfoldable pub append : String → String → String
append String.[] text = text
append (String.◌∷◌ c name) text = String.◌∷◌ c (append name text)

write_context : Node → RequestData → Option String → Option RequestData
write_context node context none = none
write_context node context (some request_id) = some (record context {
  start_context = node.id;
  node_service_context_vec =
      set context.node_service_context_vec node.id (some (append node.name " set request_id"));
})

-- StartService::do_service; `none`: a write through a null pointer.
unfoldable pub start_do_service : Node → RequestData → Option RequestData
unfolding get_context write_context append
start_do_service node context = do
  start_service_context ← get_context context node.id
  if node.name == "start" then write_context node context start_service_context else some context

-- DoneService::do_service, with the text that it reads; `none`: a read through a null pointer.
unfoldable pub done_do_service : RequestData → Option String
unfolding get_context
done_do_service context = do
  start_service_context ← get_context context context.start_context
  start_service_context

-- The service of a node on the request: a DoneService changes nothing, but reads; `none` is a fault of one of the
-- two. Other classes are taken not to touch what these two use.
unfoldable pub serve_node : (ℕ → Bool) → Heap → ℕ → RequestData → Option RequestData
unfolding start_do_service done_do_service
serve_node skips h n context =
    if skips n
    then some context
    else if (h n).class == "StartService"
    then start_do_service (h n) context
    else if (h n).class == "DoneService"
    then done_do_service context >>= (λ request_id. some context)
    else some context

-- The request behind the runs of nodes, the last one first.
unfoldable pub serve_nodes : (ℕ → Bool) → Heap → List ℕ → RequestData → Option RequestData
unfolding serve_node
serve_nodes skips h [] context = some context
serve_nodes skips h (n ∷ ns) context = do
  context' ← serve_nodes skips h ns context
  serve_node skips h n context'
