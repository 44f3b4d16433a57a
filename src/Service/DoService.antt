-- ===== src/Service/DoService.antt =====
-- src/service/base/redis_service.cpp, RedisService::do_service as a whole, behind make_up_fetch_info_vec: the
-- requests of all fetches, whose ends come in any order, the two counters, the cached data, and the one that
-- takes the last counter down, which merges the results into the cache, waits for the cached data to be parsed,
-- and calls process_response and run_output_nodes_if_ready. The fetches are taken to have different ids, so that
-- the vectors of result_map are numbered like the fetches. `none` stands for a fault.
pub mod Trace
pub mod Phase
pub mod Steps
pub mod Merged
pub mod Quiet
pub mod Responds
pub mod Answers
mod Examples
use Prim.Native.String.{String}
use graphize.Common.{
  ℕ, zero, suc, ◌+◌, List, [], ◌∷◌, ◌++◌, Option, none, some, Bool, true, false, not, ◌==◌,
  if◌then◌else◌, length, get_elem?, map, ◌>>=◌,
}
use graphize.Frame.Cache.{ShmCache, ObjectCache}
use graphize.Service.Fetch.{FetchInfo, CacheDataItem}
use graphize.Service.Batches.{step}
use graphize.Service.Latch.{Latch, cond_finish, new_latch, is_skipped}
use graphize.Service.Reply.{RedisResultItem}
use graphize.Service.Parse.{Call, parse_cached_data}
use graphize.Service.CacheData.{merge_vec}
use graphize.Service.Callback.{RpcAnswer, FetchProgress, resized_items, request_ends}

-- Members of RedisService.
pub record Members : Type 0 where
  pub enable_paral_parse : Bool
  pub enable_multi_get : Bool
  pub batch_size : ℕ

-- What is met outside: the clients of RedisClientManager, what comes of the request of the fetch at a position
-- from a key on (`none`: the client returns -1), the order in which result_map is gone through, the time, and
-- butil::snappy::Uncompress.
pub record Outside : Type 0 where
  pub has_client : String → Bool
  pub answer_of : ℕ → ℕ → Option RpcAnswer
  pub order : List ℕ
  pub now : ℕ
  pub uncompress : Option (List ℕ) → List ℕ

-- `cond_finish_func(false)` for a fetch without client or keys; the end of a request; the end of the thread of
-- do_service, behind all that it does itself.
pub data Event : Type 0 where
  skipped : (j : ℕ) → Event
  ended : (j i : ℕ) → Event
  tail : Event

-- What process_response finds: the vectors of results, by the position of their fetch, and the calls of the
-- parse functions for cached data so far.
pub record Response : Type 0 where
  pub result_map : ℕ → List (Option RedisResultItem)
  pub cached_calls : List Call

-- `promised` says whether there is a promise, `promise` whether it is kept, `waiting` whether a callback waits
-- for it. `responses` has the calls of process_response, each followed by run_output_nodes_if_ready.
pub record Serving (shm : ShmCache) : Type 0 where
  pub result_map : ℕ → List (Option RedisResultItem)
  pub latch : Latch
  pub parsed : List (Option (List Call))
  pub cache_data_vec : List CacheDataItem
  pub cached_calls : List Call
  pub promised : Bool
  pub promise : Bool
  pub waiting : Bool
  pub cache : ObjectCache shm
  pub responses : List Response

-- The items of a vector that were written.
unfoldable pub written : List (Option RedisResultItem) → List RedisResultItem
written [] = []
written (none ∷ vec) = written vec
written (some item ∷ vec) = item ∷ written vec

abbrev pub is_empty {ℓ} : {A : Type ℓ} → List A → Bool
is_empty [] = true
is_empty (x ∷ xs) = false

module _ (shm : ShmCache) (members : Members) (env : Outside)
    (fetch_info_vec : List FetchInfo) where
  -- merge_cache_data for one vector: `none` where the first item was not written, since its fetch is a null
  -- pointer, and as for merge_vec. A later one that was not written has no results.
  unfoldable pub merge_written :
      List (Option RedisResultItem) → ObjectCache shm → Option (ObjectCache shm)
  unfolding written
  merge_written [] c = some c
  merge_written (none ∷ vec) c = none
  merge_written (some item ∷ vec) c = merge_vec shm env.now (item ∷ written vec) c

  unfoldable pub merge_all :
      (ℕ → List (Option RedisResultItem)) → List ℕ → ObjectCache shm → Option (ObjectCache shm)
  unfolding merge_written
  merge_all result_map [] c = some c
  merge_all result_map (j ∷ js) c = do
    c' ← merge_written (result_map j) c
    merge_all result_map js c'

  -- process_response and run_output_nodes_if_ready.
  unfoldable pub respond : Serving shm → Serving shm
  respond s = record s {
    waiting = false;
    responses =
        s.responses ++ record { result_map = s.result_map; cached_calls = s.cached_calls } ∷ [];
  }

  -- parse_cached_data, which keeps the promise.
  unfoldable pub parse_cached : Serving shm → Serving shm
  parse_cached s =
      let (calls, left) = parse_cached_data env.uncompress fetch_info_vec s.cache_data_vec in
      record s { cached_calls = s.cached_calls ++ calls; cache_data_vec = left; promise = true }

  -- `get_future().get()`, and what is behind it.
  unfoldable pub wait_respond : Serving shm → Serving shm
  unfolding respond
  wait_respond s = if s.promise then respond s else record s { waiting = true }

  -- What is done behind the last counter.
  unfoldable pub finish : Bool → Serving shm → Option (Serving shm)
  unfolding respond parse_cached wait_respond merge_all
  finish send_rpc s = do
    c ← merge_all s.result_map env.order s.cache
    let merged = record s { cache = c }
    some (
        if s.promised
        then wait_respond (if send_rpc then merged else parse_cached merged)
        else respond merged)

  -- The end of a request: its callback, or a return of -1.
  unfoldable pub end_request : ℕ → ℕ → Serving shm → Option FetchInfo → Option (Serving shm)
  end_request j i s none = some s
  end_request j i s (some fetch) = do
    p ←
        request_ends env.uncompress members.enable_paral_parse
          (step members.enable_multi_get (length fetch.keys) members.batch_size) j fetch i
          (env.answer_of j i)
          (record { redis_result_item_vec = s.result_map j; latch = s.latch; parsed = s.parsed })
    some (record s {
      result_map = λ k. if j == k then p.redis_result_item_vec else s.result_map k;
      latch = p.latch;
      parsed = p.parsed;
    })

  is_sent : Option RpcAnswer → Bool
  is_sent none = false
  is_sent (some answer) = true

  -- The counters that an event takes down, and whether it is behind a request that was sent.
  unfoldable pub count_down : Event → Serving shm → Option (Serving shm)
  unfolding end_request
  count_down (skipped j) s = some (record s { latch = cond_finish s.latch })
  count_down (ended j i) s = end_request j i s (get_elem? fetch_info_vec j)
  count_down tail s = some s

  unfoldable pub sends_rpc : Event → Bool
  unfolding is_sent
  sends_rpc (skipped j) = false
  sends_rpc (ended j i) = is_sent (env.answer_of j i)
  sends_rpc tail = false

  -- The end of do_service: the cached data is parsed, unless that is done, and who waits for it goes on.
  unfoldable pub end_thread : Serving shm → Serving shm
  unfolding parse_cached respond
  end_thread s =
      if is_empty s.cache_data_vec
      then s
      else (let s' = parse_cached s in if s'.waiting then respond s' else s')

  -- An event; if it takes the last counter down, then what is behind it.
  unfoldable pub serve_counted : Event → Serving shm → Serving shm → Option (Serving shm)
  unfolding finish sends_rpc
  serve_counted e s s' =
      if s.latch.finished == s'.latch.finished then some s' else finish (sends_rpc e) s'

  unfoldable pub serve : Event → Serving shm → Option (Serving shm)
  unfolding count_down serve_counted end_thread
  serve (skipped j) s = do s' ← count_down (skipped j) s; serve_counted (skipped j) s s'
  serve (ended j i) s = do s' ← count_down (ended j i) s; serve_counted (ended j i) s s'
  serve tail s = some (end_thread s)

  unfoldable pub serve_all : List Event → Serving shm → Option (Serving shm)
  unfolding serve
  serve_all [] s = some s
  serve_all (e ∷ es) s = do s' ← serve e s; serve_all es s'

  unfoldable pub vec_of : ℕ → Option FetchInfo → List (Option RedisResultItem)
  unfolding resized_items
  vec_of j none = []
  vec_of j (some fetch) =
      if is_skipped env.has_client fetch_info_vec j
      then []
      else resized_items members.enable_multi_get (length fetch.keys) members.batch_size

  -- Before the first request, with the vectors as `resize` makes them.
  unfoldable pub serving_start : List CacheDataItem → ObjectCache shm → Serving shm
  unfolding vec_of
  serving_start cache_data_vec c = record {
    result_map = λ j. vec_of j (get_elem? fetch_info_vec j);
    latch = new_latch members.enable_multi_get members.batch_size fetch_info_vec;
    parsed = [];
    cache_data_vec = cache_data_vec;
    cached_calls = [];
    promised = not (is_empty cache_data_vec);
    promise = false;
    waiting = false;
    cache = c;
    responses = [];
  }

  -- do_service, with its events in the order in which they happen. Without fetches it responds at once.
  unfoldable pub do_service :
      List CacheDataItem → ObjectCache shm → List Event → Option (Serving shm)
  unfolding serving_start serve_all respond
  do_service cache_data_vec c events =
      let start = serving_start cache_data_vec c in
      if is_empty fetch_info_vec then some (respond start) else serve_all events start
