-- ===== src/Service/Callback.antt =====
-- src/service/base/redis_service.cpp, RedisService::do_service: the loop over the requests of one fetch and
-- the callback of a request, but for what the callback that takes the last counter down does behind it, which is
-- `finish` of Service/DoService. Behind make_up_fetch_info_vec each fetch has an id of its own, so that its
-- vector of results is its own, too.
pub mod Places
pub mod Batch
pub mod Filled
pub mod AnyOrder
use graphize.Common.{
  ℕ, ◌+◌, ◌-◌, ◌/◌, min, List, [], ◌∷◌, ◌++◌, Option, none, some, Bool, false, if◌then◌else◌,
  length, get_elem?, set, replicate, ◌>>=◌,
}
use graphize.Service.Fetch.{FetchInfo}
use graphize.Service.Batches.{items}
use graphize.Service.Latch.{Latch, deep_cond_finish}
use graphize.Service.Reply.{Reply, Code, Message, RedisResultItem, check_suc_rpc_response}
use graphize.Service.Parse.{Call, parse_redis_response}

-- What a callback is called with: Controller::Failed, and the response, which may be null.
pub record RpcAnswer : Type 0 where
  pub failed : Bool
  pub response : Option (List Reply)

-- `none` in the vector is an item as `resize` makes it. `parsed` has what the callbacks called of the
-- parse functions, callback by callback; `none` is a call of `keys.at` that throws.
pub record FetchProgress : Type 0 where
  pub redis_result_item_vec : List (Option RedisResultItem)
  pub latch : Latch
  pub parsed : List (Option (List Call))

-- `redis_result_item_vec.resize`
unfoldable pub resized_items : Bool → ℕ → ℕ → List (Option RedisResultItem)
unfolding items
resized_items multi_get size batch_size = replicate (items multi_get size batch_size) none

-- The vector of a fetch before the first request ends.
unfoldable pub new_progress : Bool → ℕ → ℕ → Latch → FetchProgress
unfolding resized_items
new_progress multi_get size batch_size latch = record {
  redis_result_item_vec = resized_items multi_get size batch_size;
  latch = latch;
  parsed = [];
}

-- The item that a callback writes to, once it has its fetch.
unfoldable pub item_for : FetchInfo → Option RedisResultItem → RedisResultItem
item_for fetch none = record {
  fetch_info_ptr = fetch;
  start_index = 0;
  m_get_size = 0;
  code = Code.other_error;
  error_msg = Message.no_message;
  result_str_vec = [];
  result_str_len_vec = [];
  total_result_str_size = 0;
  result_guard = false;
}
item_for fetch (some item) = record item { fetch_info_ptr = fetch }

module _ (step : ℕ) (fetch : FetchInfo) where
  -- The item behind the answer to the request from `i` on; `none` as for check_suc_rpc_response.
  unfoldable pub answered : ℕ → RpcAnswer → Option RedisResultItem → Option RedisResultItem
  unfolding item_for
  answered i answer place =
      let item : RedisResultItem = record (item_for fetch place) {
        m_get_size = min (i + step) (length fetch.keys) - i;
        start_index = i;
      } in
      if answer.failed
      then some (record item { error_msg = Message.rpc_error; code = Code.rpc_failed })
      else check_suc_rpc_response answer.response item

module _ (uncompress : Option (List ℕ) → List ℕ) (enable_paral_parse : Bool) (step j : ℕ)
    (fetch : FetchInfo) where
  -- The end of the callback: the item is in its place, its results are parsed, the counter goes down.
  unfoldable pub parsed_back : ℕ → FetchProgress → RedisResultItem → FetchProgress
  parsed_back i p item = record {
    redis_result_item_vec = set p.redis_result_item_vec (i / step) (some item);
    latch = deep_cond_finish j p.latch;
    parsed =
        p.parsed
        ++ (if enable_paral_parse
            then parse_redis_response uncompress (i / step) (length p.redis_result_item_vec) item
            else some [])
          ∷ [];
  }

  unfoldable pub callback_at :
      ℕ → RpcAnswer → FetchProgress → Option (Option RedisResultItem) → Option FetchProgress
  unfolding parsed_back answered
  -- `at` throws, and what catches it takes the counter down.
  callback_at i answer p none = some (record p { latch = deep_cond_finish j p.latch })
  callback_at i answer p (some place) = do
    item ← answered step fetch i answer place
    some (parsed_back i p item)

  -- The callback of the request from `i` on, for the fetch at position `j`.
  unfoldable pub callback : ℕ → RpcAnswer → FetchProgress → Option FetchProgress
  unfolding callback_at
  callback i answer p = callback_at i answer p (get_elem? p.redis_result_item_vec (i / step))

  -- What comes of a request: the client returns -1, or it calls back.
  unfoldable pub request_ends : ℕ → Option RpcAnswer → FetchProgress → Option FetchProgress
  unfolding callback
  request_ends i none p = some (record p { latch = deep_cond_finish j p.latch })
  request_ends i (some answer) p = callback i answer p

  -- The requests from the places of a list, in the order in which they end.
  unfoldable pub requests_end :
      (ℕ → Option RpcAnswer) → List ℕ → FetchProgress → Option FetchProgress
  unfolding request_ends
  requests_end answer_of [] p = some p
  requests_end answer_of (i ∷ is) p = do
    p' ← request_ends i (answer_of i) p
    requests_end answer_of is p'
