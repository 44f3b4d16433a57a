-- ===== src/Service/DoService/Answers.antt =====
-- RedisService::do_service calls process_response once, behind everything that it waits for
-- (src/service/base/redis_service.cpp).
use graphize.Common.{ℕ, ◌<◌, ◌≢◌, List, Option, none, Bool, if◌then◌else◌, length}
use graphize.Frame.Cache.{ShmCache, ObjectCache}
use graphize.Service.Fetch.{FetchInfo, CacheDataItem}
use graphize.Service.Reply.{RedisResultItem}
use graphize.Service.Latch.{Latch}
use graphize.Service.Parse.{Call}
use graphize.Service.Callback.Filled.{IsAnswered}
use graphize.Service.DoService.{
  Event, Members, Outside, Serving, serving_start, wait_respond, respond, parse_cached, end_thread,
}
use graphize.Service.DoService.Phase.{Phase}
use graphize.Service.DoService.Merged.{HaveRoom}
use graphize.Service.DoService.Responds.{HasResponded, EndRun}

module _ (shm : ShmCache) (members : Members) (env : Outside) (fetch_info_vec : List FetchInfo)
    (some_fetch : 0 < length fetch_info_vec) (some_size : 0 < members.batch_size)
    (replied : (j i : ℕ) → IsAnswered (env.answer_of j i))
    (first_sent : (j : ℕ) → env.answer_of j 0 ≢ none)
    (room : HaveRoom shm members env fetch_info_vec) where
  abbrev start : List CacheDataItem → ObjectCache shm → Serving shm
  start = serving_start shm members env fetch_info_vec

  abbrev Run : Event → List Event → Serving shm → Type 0
  Run = EndRun shm members env fetch_info_vec some_fetch some_size replied first_sent room

  abbrev Ends : List CacheDataItem → Serving shm → Type 0
  Ends = HasResponded shm members env fetch_info_vec

  -- What is done behind the last counter, for who took it down.
  abbrev went_on : Bool → Bool → Serving shm → Serving shm
  went_on promised sends merged =
      if promised
      then wait_respond shm members env fetch_info_vec
          (if sends then merged else parse_cached shm members env fetch_info_vec merged)
      else respond shm members env fetch_info_vec merged

  module _ (cached : List CacheDataItem) (c : ObjectCache shm)
      (rm : ℕ → List (Option RedisResultItem)) (l : Latch)
      (parses : List (Option (List Call))) where
    -- The state when the thread has ended before the last counter is down.
    abbrev at_tail : Serving shm
    at_tail =
        end_thread shm members env fetch_info_vec
          (record (start cached c) { result_map = rm; latch = l; parsed = parses })
