-- ===== src/Service/Rpc/Unsent.antt =====
-- What services can send behind the start of the frame (src/frame/graph_manager.cpp,
-- src/service/base/brpc_service.cpp, src/service/base/http_service.cpp).
use Prim.Native.String.{String}
use graphize.Common.{ℕ, ◌≡◌, ap, ◌∙◌, List, [], ◌∷◌, Option, none, some, Bool, negsuc}
use graphize.Common.Maps.{lookup}
use graphize.Frame.Node.{Kind}
use graphize.Frame.Manager.{Strings}
use graphize.Frame.Setup.{Managers, FrameConf, get_transport, init_graph_frame}
use graphize.Frame.Setup.Transports.{init_graph_frame-transports}
use graphize.Service.Rpc.{
  Effect, outputs_run, Called, brpc_do_service, http_do_service, with_channel, http_with_channel,
}

-- What a service does that has no channel.
abbrev pub given_up : Called
given_up = record { effects = outputs_run ∷ []; callback = none; code = negsuc 0 }

-- Since init_graph_frame does not call GtransportManager::init, no channel is there when it returns, if none was
-- before, whatever is configured: no service of the two classes, whatever its
-- call_rpc_method, sends a request. Each do_service returns -1, having run its outputs and done nothing else.
pub do_service_unsent :
    (fuel : ℕ) (services : List (String × Kind)) (str : Strings) (conf : FrameConf)
    (m m' : Managers) (suc : Bool)
    (call_rpc_method : Option ℕ → List Effect → List Effect × Option (List Effect))
    (transport_name : String)
    → m.downstream_map ≡ []
    → init_graph_frame fuel services str conf m ≡ some (suc, m')
    → (brpc_do_service call_rpc_method transport_name m' ≡ given_up)
      × (http_do_service transport_name m' ≡ given_up)
unfolding brpc_do_service http_do_service with_channel http_with_channel get_transport lookup
do_service_unsent fuel services str conf m m' suc call_rpc_method transport_name empty e =
    let none_there : m'.downstream_map ≡ [] =
      init_graph_frame-transports fuel services str conf m m' suc e ∙ empty in
    let not_found : get_transport transport_name m' ≡ none =
      ap (λ channels. lookup transport_name channels) none_there in
    (ap (λ c. with_channel call_rpc_method c) not_found, ap http_with_channel not_found)
