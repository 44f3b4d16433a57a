-- ===== src/Service/CacheData/RoundTrip.antt =====
-- A result that merge_cache_data stored is found by get_from_cache (src/service/base/redis_service.cpp).
use graphize.Common.{
  same_text, if◌then◌else◌, ◌∙◌, arith, ℕ, ◌+◌, ◌<◌, ◌≡◌, refl, ap, List, [], ◌∷◌, Option, none,
  some, get_elem?, pos,
}
use graphize.Frame.Cache.{ShmCache, ObjectCache, manager_get, manager_set}
use graphize.Frame.Cache.Recall.{Keeps, manager_get-manager_set}
use graphize.Service.Fetch.{look_up, read_cached}
use graphize.Service.Reply.{RedisResultItem}
use graphize.Service.Reply.Results.{size_of}
use graphize.Service.CacheData.{stored, merge_results}
use graphize.Service.Parse.Keys.{take-length}

-- What is read back of a result: nothing for nil, and nothing for a single space.
abbrev pub shown : Option (List ℕ) → List ℕ
shown none = []
shown (some text) = if same_text text (b' ' ∷ []) then [] else text

-- Only a single space is read back as nothing.
read_cached-text : (text : List ℕ) → read_cached text ≡ shown (some text)
unfolding read_cached same_text
read_cached-text [] = refl
read_cached-text (a ∷ []) = ground arith
read_cached-text (a ∷ b ∷ text) = ground arith

read_cached-stored :
    (result : Option (List ℕ)) → read_cached (stored result (size_of result)) ≡ shown result
unfolding stored size_of read_cached
read_cached-stored none = refl
read_cached-stored (some text) = ap read_cached (take-length text) ∙ read_cached-text text

-- If the set of a result under its key returned 0, then until its time is over get_from_cache finds the key, with the
-- result, or with an empty text if the result is nil or a single space.
pub look_up-merge_results :
    (shm : ShmCache) (c c' : ObjectCache shm) (now later ttl i : ℕ) (item : RedisResultItem)
    (result : Option (List ℕ)) (key : List ℕ)
    → Keeps shm
    → get_elem? item.result_str_len_vec i ≡ some (size_of result)
    → get_elem? item.fetch_info_ptr.keys (item.start_index + i) ≡ some key
    → manager_set shm c now key (stored result (size_of result)) (pos ttl) ≡ (c', pos 0)
    → later < now + ttl
    → (merge_results shm now (pos ttl) item i (result ∷ []) c ≡ some c')
      × (look_up (manager_get shm c' later) (key ∷ []) [] ≡ ((key, shown result) ∷ [], []))
unfolding merge_results look_up
look_up-merge_results shm c c' now later ttl i item result key keeps len at_key set fresh =
    let value = stored result (size_of result) in
    let found = manager_get-manager_set shm c c' now later key value ttl keeps set fresh in
    (rw (len, at_key, set, merge_results) refl, rw (found, read_cached-stored result, look_up) refl)
