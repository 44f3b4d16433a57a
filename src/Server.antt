-- ===== src/Server.antt =====
-- The server: main (src/main.cpp) and EchoServiceImpl::Echo (src/server/server_impl.cpp). What the command
-- line, the configuration files and the log directory hold is taken as read.
pub mod Serves
mod Examples
use Prim.Native.String.{String}
use graphize.Common.{
  ℕ, List, Option, none, some, Bool, if◌then◌else◌, ℤ, pos, negsuc, is_zero, ◌>>=◌,
}
use graphize.Frame.Node.{Kind}
use graphize.Frame.Graph.{Graph}
use graphize.Frame.Run.{RunResult, run}
use graphize.Frame.Manager.{Strings}
use graphize.Frame.Setup.{FrameConf, Managers, init_graph_frame, get_graph}

-- What brpc::Server returns from AddService and from Start.
pub record Outside : Type 0 where
  pub add_service : ℤ
  pub start : ℤ

-- What main returns behind init_graph: it serves requests until it is asked to quit if it returns 0.
unfoldable pub exit_code : Bool → Outside → ℤ
exit_code suc server =
    if suc
    then (if is_zero server.add_service
        then (if is_zero server.start then pos 0 else negsuc 0)
        else negsuc 0)
    else negsuc 0

-- main: what it returns, and the maps that the requests meet; `none`: init_graph does not come to its end.
unfoldable pub main :
    ℕ → List (String × Kind) → Strings → FrameConf → Outside → Managers → Option (ℤ × Managers)
unfolding exit_code
main fuel global_service_map str conf server m = do
  (suc, m') ← init_graph_frame fuel global_service_map str conf m
  some (exit_code suc server, m')

-- EchoServiceImpl::Echo: the graph of the name "graph1" runs; `none`: get_graph gives a null pointer.
unfoldable pub echo : Managers → Option RunResult
echo m = do graph ← get_graph "graph1" m; some (run m.graphs.heap graph)
