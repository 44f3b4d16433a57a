-- ===== src/Service/CacheData.antt =====
-- src/service/base/redis_service.cpp, RedisResult::merge_cache_data: the results of redis go into the cache.
pub mod Recall
pub mod RoundTrip
mod Examples
use graphize.Common.{
  ℕ, zero, suc, ◌+◌, ◌-◌, ◌%◌, ◌^◌, List, [], ◌∷◌, Option, none, some, Bool, true, false, ltb,
  if◌then◌else◌, take, get_elem?, ℤ, pos, negsuc, ◌>>=◌,
}
use graphize.Frame.Cache.{ShmCache, ObjectCache, manager_set}
use graphize.Service.Fetch.{FetchInfo}
use graphize.Service.Reply.{RedisResultItem}

-- A uint64_t as an int.
abbrev pub to_int : ℕ → ℤ
to_int n = let low = n % 2 ^ 32 in if ltb low (2 ^ 31) then pos low else negsuc (2 ^ 32 - 1 - low)

-- What is stored of a result: a single space for nil.
unfoldable pub stored : Option (List ℕ) → ℕ → List ℕ
stored none len = b' ' ∷ []
stored (some text) len = take len text

module _ (shm : ShmCache) (now : ℕ) where
  -- The loop over the results of an item, from `i`; `none`: `keys.at` throws. A result without a length is
  -- left out.
  unfoldable pub merge_results :
      ℤ → RedisResultItem → ℕ → List (Option (List ℕ)) → ObjectCache shm → Option (ObjectCache shm)
  unfolding stored
  merge_results expire item i [] c = some c
  merge_results expire item i (value ∷ values) c = elim (get_elem? item.result_str_len_vec i) [
    | none ↦ merge_results expire item (suc i) values c
    | some len ↦ elim (get_elem? item.fetch_info_ptr.keys (item.start_index + i)) [
      | none ↦ none
      | some key ↦
          merge_results expire item (suc i) values
            (manager_set shm c now key (stored value len) expire).0
    ]
  ]

  unfoldable pub merge_items : ℤ → List RedisResultItem → ObjectCache shm → Option (ObjectCache shm)
  unfolding merge_results
  merge_items expire [] c = some c
  merge_items expire (item ∷ items) c = do
    c' ← merge_results expire item 0 item.result_str_vec c
    merge_items expire items c'

  -- The items of one fetch; the first says whether and how long they are kept.
  unfoldable pub merge_vec : List RedisResultItem → ObjectCache shm → Option (ObjectCache shm)
  unfolding merge_items
  merge_vec [] c = some c
  merge_vec (item ∷ items) c =
      if item.fetch_info_ptr.use_cache
      then merge_items (to_int item.fetch_info_ptr.expire_time) (item ∷ items) c
      else some c

  unfoldable pub merge_map :
      List (List RedisResultItem) → ObjectCache shm → Option (ObjectCache shm)
  unfolding merge_vec
  merge_map [] c = some c
  merge_map (vec ∷ vecs) c = do c' ← merge_vec vec c; merge_map vecs c'

  -- merge_cache_data, with the members of result_map in the order in which they are gone through; `none` for the map
  -- is a null pointer.
  unfoldable pub merge_cache_data :
      Option (List (List RedisResultItem)) → ObjectCache shm → Option (ObjectCache shm)
  unfolding merge_map
  merge_cache_data none c = some c
  merge_cache_data (some result_map) c = merge_map result_map c
