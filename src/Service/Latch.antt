-- ===== src/Service/Latch.antt =====
-- src/service/base/redis_service.cpp, RedisService::do_service: the two counters, and when the last of them is
-- taken down. What the code does then, merge_cache_data, the wait for the cached data and process_response, is
-- not part of this file, but `finish` of Service/DoService. `fetch_info_vec` is taken as make_up_fetch_info_vec
-- leaves it.
pub mod Once
pub mod Finish
use Prim.Native.String.{String}
use graphize.Common.{
  ℕ, zero, suc, List, [], ◌∷◌, Option, none, some, Bool, true, false, not, ◌||◌, ◌==◌,
  if◌then◌else◌, length, get_elem?, ℤ, pos, decrement, is_one,
}
use graphize.Service.Fetch.{FetchInfo}
use graphize.Service.Batches.{items, starts}

pub record Latch : Type 0 where
  pub cond : ℤ
  pub item_size_cond : ℕ → ℤ  -- by the position of the fetch in `fetch_info_vec`
  pub finished : ℕ  -- how often the last counter was found at 1, and what is behind it begun

-- The counter of cond_finish_func, and whether the code goes on behind it.
unfoldable pub cond_finish : Latch → Latch
cond_finish l = record l {
  cond = decrement l.cond;
  finished = if is_one l.cond then suc l.finished else l.finished;
}

-- The two counters of deep_cond_finish_func of the fetch at position `j`.
unfoldable pub deep_cond_finish : ℕ → Latch → Latch
unfolding cond_finish
deep_cond_finish j l =
    let l1 = record l {
      item_size_cond = λ k. if j == k then decrement (l.item_size_cond j) else l.item_size_cond k;
    } in
    if is_one (l.item_size_cond j) then cond_finish l1 else l1

-- No request is sent for a fetch without a client or without keys. `has_client` says which clients
-- RedisClientManager has.
unfoldable pub skips : (String → Bool) → FetchInfo → Bool
skips has_client fetch = not (has_client fetch.redis_client_id) || length fetch.keys == 0

skips_at : (String → Bool) → Option FetchInfo → Bool
unfolding skips
skips_at has_client none = false
skips_at has_client (some fetch) = skips has_client fetch

unfoldable pub is_skipped : (String → Bool) → List FetchInfo → ℕ → Bool
unfolding skips_at
is_skipped has_client fetch_info_vec j = skips_at has_client (get_elem? fetch_info_vec j)

-- How often a counter is taken down for a fetch: once if it is skipped; if not, once for each round
-- of the loop over the keys, at once if the client returns -1 and in the callback if it does not.
unfoldable pub releases : (String → Bool) → Bool → ℕ → FetchInfo → ℕ
unfolding skips starts
releases has_client enable_multi_get batch_size fetch =
    if skips has_client fetch
    then 1
    else length (starts enable_multi_get (length fetch.keys) batch_size)

releases_at : (String → Bool) → Bool → ℕ → Option FetchInfo → ℕ
unfolding releases
releases_at has_client enable_multi_get batch_size none = 0
releases_at has_client enable_multi_get batch_size (some fetch) =
    releases has_client enable_multi_get batch_size fetch

unfoldable pub expected : (String → Bool) → Bool → ℕ → List FetchInfo → ℕ → ℕ
unfolding releases_at
expected has_client enable_multi_get batch_size fetch_info_vec j =
    releases_at has_client enable_multi_get batch_size (get_elem? fetch_info_vec j)

items_at : Bool → ℕ → Option FetchInfo → ℤ
unfolding items
items_at enable_multi_get batch_size none = pos 0
items_at enable_multi_get batch_size (some fetch) =
    pos (items enable_multi_get (length fetch.keys) batch_size)

-- The counters as do_service sets them.
unfoldable pub new_latch : Bool → ℕ → List FetchInfo → Latch
unfolding items_at
new_latch enable_multi_get batch_size fetch_info_vec = record {
  cond = pos (length fetch_info_vec);
  item_size_cond = λ j. items_at enable_multi_get batch_size (get_elem? fetch_info_vec j);
  finished = 0;
}

-- One release, for the fetch at position `j`, and releases in the order in which they happen.
unfoldable pub release : (ℕ → Bool) → ℕ → Latch → Latch
unfolding cond_finish deep_cond_finish
release skipped j l = if skipped j then cond_finish l else deep_cond_finish j l

unfoldable pub release_all : (ℕ → Bool) → List ℕ → Latch → Latch
unfolding release
release_all skipped [] l = l
release_all skipped (j ∷ js) l = release_all skipped js (release skipped j l)
