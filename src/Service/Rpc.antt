-- ===== src/Service/Rpc.antt =====
-- BrpcService and HttpService (src/service/base/brpc_service.cpp, src/service/base/http_service.cpp), and
-- the call of a method on a channel (src/frame/call_mothod_util.h). Of a service that derives from them
-- the parts are marks in a list of what is done; a channel is a number.
pub mod Unsent
mod Examples
use Prim.Native.String.{String}
use graphize.Common.{ℕ, List, [], ◌∷◌, Option, none, some, ℤ, pos, negsuc}
use graphize.Frame.Setup.{Managers, get_transport}

-- What is done, in its order: make_uri, a request on a channel, process_response, `delete` of the
-- controller and of the response, run_output_nodes_if_ready.
pub data Effect : Type 0 where
  uri : Effect
  sent : (channel : ℕ) → Effect
  processed : Effect
  cntl_deleted : Effect
  response_deleted : Effect
  outputs_run : Effect

-- What a call of do_service leaves: what it did, what is done when the rpc has ended (`none`: there is no
-- rpc), and what it returned.
pub record Called : Type 0 where
  pub effects : List Effect
  pub callback : Option (List Effect)
  pub code : ℤ

-- BrpcService::service_cb and HttpService::service_cb.
abbrev pub brpc_service_cb : List Effect
brpc_service_cb = processed ∷ cntl_deleted ∷ response_deleted ∷ outputs_run ∷ []

abbrev pub http_service_cb : List Effect
http_service_cb = processed ∷ cntl_deleted ∷ outputs_run ∷ []

-- handle_response: an rpc that failed is logged, and the callback follows all the same.
abbrev pub handle_response : List Effect → List Effect
handle_response service_cb = service_cb

-- call_method, with what is done when the rpc has ended.
unfoldable pub call_method : Option ℕ → List Effect → List Effect × Option (List Effect)
call_method none cb = ([], none)
call_method (some channel) cb = (sent channel ∷ [], some (handle_response cb))

-- BrpcService::call_rpc_method, where no service overrides it.
unfoldable pub call_rpc_method : Option ℕ → List Effect → List Effect × Option (List Effect)
call_rpc_method channel service_cb = ([], none)

with_channel : (Option ℕ → List Effect → List Effect × Option (List Effect)) → Option ℕ → Called
with_channel call none = record { effects = outputs_run ∷ []; callback = none; code = negsuc 0 }
with_channel call (some channel) =
    let (effects, callback) = call (some channel) brpc_service_cb in
    record { effects = effects; callback = callback; code = pos 0 }

-- BrpcService::do_service, with the call_rpc_method of the service.
unfoldable pub brpc_do_service :
    (Option ℕ → List Effect → List Effect × Option (List Effect)) → String → Managers → Called
unfolding with_channel
brpc_do_service call transport_name m = with_channel call (get_transport transport_name m)

http_with_channel : Option ℕ → Called
http_with_channel none = record { effects = outputs_run ∷ []; callback = none; code = negsuc 0 }
http_with_channel (some channel) = record {
  effects = uri ∷ sent channel ∷ [];
  callback = some http_service_cb;
  code = pos 0;
}

-- HttpService::do_service
unfoldable pub http_do_service : String → Managers → Called
unfolding http_with_channel
http_do_service transport_name m = http_with_channel (get_transport transport_name m)
