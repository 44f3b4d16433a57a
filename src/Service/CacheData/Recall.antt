-- ===== src/Service/CacheData/Recall.antt =====
-- What get_from_cache finds of the results that merge_cache_data stored (src/service/base/redis_service.cpp).
use graphize.Common.{
  ℕ, suc, ◌+◌, ◌≡◌, refl, sym, ap, ◌∙◌, ◌⊎◌, inl, inr, List, [], ◌∷◌, ◌++◌, Option, none, some,
  none≢some, some-injective, get_elem?, ℤ, Bool-cases, Option-cases, some_of_bind,
}
use graphize.Frame.Cache.{ShmCache, ObjectCache, manager_get, manager_set}
use graphize.Service.Reply.{RedisResultItem}
use graphize.Service.CacheData.{
  stored, merge_results, merge_items, merge_vec, merge_map, merge_cache_data, to_int,
}
use graphize.Frame.Cache.Found.{OnlySets, manager_set_found}

-- The pair of a key and a value is in the list.
unfoldable pub IsAmong : List ℕ → List ℕ → List (List ℕ × List ℕ) → Type 0
IsAmong k v [] = ⊥
IsAmong k v ((key, value) ∷ pairs) = ((k ≡ key) × (v ≡ value)) ⊎ IsAmong k v pairs

abbrev pair_of :
    Option ℕ → Option (List ℕ) → Option (List ℕ) → List (List ℕ × List ℕ) → List (List ℕ × List ℕ)
pair_of (some len) (some key) value rest = (key, stored value len) ∷ rest
pair_of (some len) none value rest = rest
pair_of none key value rest = rest

-- The pairs of keys and values that go into the cache, of the results from `i` on.
unfoldable pub result_pairs : RedisResultItem → ℕ → List (Option (List ℕ)) → List (List ℕ × List ℕ)
result_pairs item i [] = []
result_pairs item i (value ∷ values) =
    let rest = result_pairs item (suc i) values in
    pair_of (get_elem? item.result_str_len_vec i)
      (get_elem? item.fetch_info_ptr.keys (item.start_index + i)) value rest

unfoldable pub items_pairs : List RedisResultItem → List (List ℕ × List ℕ)
unfolding result_pairs
items_pairs [] = []
items_pairs (item ∷ items) = result_pairs item 0 item.result_str_vec ++ items_pairs items

unfoldable pub map_pairs : List (List RedisResultItem) → List (List ℕ × List ℕ)
unfolding items_pairs
map_pairs [] = []
map_pairs (vec ∷ vecs) = items_pairs vec ++ map_pairs vecs

IsAmong-left :
    (k v : List ℕ) (xs ys : List (List ℕ × List ℕ)) → IsAmong k v xs → IsAmong k v (xs ++ ys)
unfolding IsAmong
IsAmong-left k v [] ys h = absurd h
IsAmong-left k v (x ∷ xs) ys (inl e) = inl e
IsAmong-left k v (x ∷ xs) ys (inr h) = inr (IsAmong-left k v xs ys h)

IsAmong-right :
    (k v : List ℕ) (xs ys : List (List ℕ × List ℕ)) → IsAmong k v ys → IsAmong k v (xs ++ ys)
unfolding IsAmong
IsAmong-right k v [] ys h = h
IsAmong-right k v (x ∷ xs) ys h = inr (IsAmong-right k v xs ys h)

module _ (shm : ShmCache) (only : OnlySets shm) (now later : ℕ) (k v : List ℕ) where
  merge_results_found :
      (values : List (Option (List ℕ))) (ttl : ℤ) (item : RedisResultItem) (i : ℕ)
      (c c' : ObjectCache shm)
      → merge_results shm now ttl item i values c ≡ some c'
      → manager_get shm c' later k ≡ some v
      → IsAmong k v (result_pairs item i values) ⊎ (manager_get shm c later k ≡ some v)
  unfolding IsAmong result_pairs merge_results
  merge_results_found [] ttl item i c c' e found =
      inr (ap (λ x. manager_get shm x later k) (some-injective e) ∙ found)
  merge_results_found (value ∷ values) ttl item i c c' e found =
      elim (Option-cases (get_elem? item.result_str_len_vec i)) [
        | inl no_len ↦ rw no_len (
            merge_results_found values ttl item (suc i) c c' (rw (no_len, merge_results) at e)
              found)
        | inr (len, some_len) ↦
            elim (Option-cases (get_elem? item.fetch_info_ptr.keys (item.start_index + i))) [
              | inl no_key ↦ absurd (none≢some (rw (some_len, no_key, merge_results) at e))
              | inr (key, some_key) ↦
                  let c1 = (manager_set shm c now key (stored value len) ttl).0 in
                  let rest : merge_results shm now ttl item (suc i) values c1 ≡ some c' =
                    rw (some_len, some_key, merge_results) at e in
                  rw (some_len, some_key)
                    (elim (merge_results_found values ttl item (suc i) c1 c' rest found) [
                      | inl later_one ↦ inl (inr later_one)
                      | inr before ↦
                          elim (manager_set_found shm only c now later key (stored value len) k v
                            ttl before) [ inl this ↦ inl (inl this) | inr old ↦ inr old ]
                    ])
            ]
      ]

  -- What a chain of two steps finds: in the pairs of the first, in those of the second, or before.
  either_pairs :
      (xs ys : List (List ℕ × List ℕ)) (c c1 : ObjectCache shm)
      → IsAmong k v ys ⊎ (manager_get shm c1 later k ≡ some v)
      → (manager_get shm c1 later k ≡ some v
          → IsAmong k v xs ⊎ (manager_get shm c later k ≡ some v))
      → IsAmong k v (xs ++ ys) ⊎ (manager_get shm c later k ≡ some v)
  either_pairs xs ys c c1 (inl here) first = inl (IsAmong-right k v xs ys here)
  either_pairs xs ys c c1 (inr before) first = elim (first before) [
    | inl here ↦ inl (IsAmong-left k v xs ys here)
    | inr old ↦ inr old
  ]

  merge_items_found :
      (items : List RedisResultItem) (ttl : ℤ) (c c' : ObjectCache shm)
      → merge_items shm now ttl items c ≡ some c'
      → manager_get shm c' later k ≡ some v
      → IsAmong k v (items_pairs items) ⊎ (manager_get shm c later k ≡ some v)
  unfolding merge_items items_pairs
  merge_items_found [] ttl c c' e found =
      inr (ap (λ x. manager_get shm x later k) (some-injective e) ∙ found)
  merge_items_found (item ∷ items) ttl c c' e found =
      let (c1, one, rest) =
        some_of_bind (merge_results shm now ttl item 0 item.result_str_vec c) _ e in
      either_pairs (result_pairs item 0 item.result_str_vec) (items_pairs items) c c1
        (merge_items_found items ttl c1 c' rest found)
        (merge_results_found item.result_str_vec ttl item 0 c c1 one)

  merge_vec_found :
      (vec : List RedisResultItem) (c c' : ObjectCache shm)
      → merge_vec shm now vec c ≡ some c'
      → manager_get shm c' later k ≡ some v
      → IsAmong k v (items_pairs vec) ⊎ (manager_get shm c later k ≡ some v)
  unfolding merge_vec
  merge_vec_found [] c c' e found =
      inr (ap (λ x. manager_get shm x later k) (some-injective e) ∙ found)
  merge_vec_found (item ∷ items) c c' e found = elim (Bool-cases item.fetch_info_ptr.use_cache) [
    | inr no_cache ↦
        let same : c ≡ c' = some-injective (sym (rw no_cache refl) ∙ e) in
        inr (ap (λ x. manager_get shm x later k) same ∙ found)
    | inl cache ↦
        merge_items_found (item ∷ items) (to_int item.fetch_info_ptr.expire_time) c c'
          (sym (rw cache refl) ∙ e) found
  ]

  merge_map_found :
      (vecs : List (List RedisResultItem)) (c c' : ObjectCache shm)
      → merge_map shm now vecs c ≡ some c'
      → manager_get shm c' later k ≡ some v
      → IsAmong k v (map_pairs vecs) ⊎ (manager_get shm c later k ≡ some v)
  unfolding merge_map map_pairs
  merge_map_found [] c c' e found =
      inr (ap (λ x. manager_get shm x later k) (some-injective e) ∙ found)
  merge_map_found (vec ∷ vecs) c c' e found =
      let (c1, one, rest) = some_of_bind (merge_vec shm now vec c) _ e in
      either_pairs (items_pairs vec) (map_pairs vecs) c c1 (merge_map_found vecs c1 c' rest found)
        (merge_vec_found vec c c1 one)

-- When merge_cache_data ends, a value that CacheManager::Get finds for a key is a result of that key, with a space for nil, or
-- was there before; nothing else comes into the cache.
pub merge_cache_data_found :
    (shm : ShmCache) (now later : ℕ) (vecs : List (List RedisResultItem)) (c c' : ObjectCache shm)
    (k v : List ℕ)
    → OnlySets shm
    → merge_cache_data shm now (some vecs) c ≡ some c'
    → manager_get shm c' later k ≡ some v
    → IsAmong k v (map_pairs vecs) ⊎ (manager_get shm c later k ≡ some v)
unfolding merge_cache_data
merge_cache_data_found shm now later vecs c c' k v only e found =
    merge_map_found shm only now later k v vecs c c' e found
