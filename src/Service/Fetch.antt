-- ===== src/Service/Fetch.antt =====
-- src/service/base/redis_service.cpp: the fetches of a RedisService, RedisService::init, get_from_cache and
-- make_up_fetch_info_vec. Keys and values are bytes.
pub mod Groups
pub mod MakeUp
pub mod OneSlot
mod Examples
use Prim.Native.String.{String}
use graphize.Common.{
  ℕ, zero, suc, ◌+◌, ◌^◌, List, [], ◌∷◌, ◌++◌, Option, none, some, Bool, true, false, ◌&&◌, ◌==◌,
  if◌then◌else◌, length, get_or, ℤ, pos, negsuc, map, same_text,
}
use graphize.Redis.NodeText.{to_unsigned, decimal}

-- struct FetchInfo
pub record FetchInfo : Type 0 where
  pub prefix : String
  pub postfix : String
  pub compress : String
  pub key_gen_func : String
  pub redis_client_id : String
  pub key : String
  pub response_func : String
  pub use_cache : Bool
  pub expire_time : ℕ  -- uint64_t
  pub keys : List (List ℕ)
  pub id : List ℕ

-- A member of `fetch_infos` in the configuration.
pub record FetchConf : Type 0 where
  pub prefix : String
  pub postfix : String
  pub redis_client_id : String
  pub key_gen_func : String
  pub response_func : String
  pub compress : String
  pub use_cache : Option Bool
  pub expire_time_s : Option ℤ

abbrev or_else {ℓ} : {A : Type ℓ} → Option A → A → A
or_else none d = d
or_else (some a) d = a

read_conf : FetchConf → FetchInfo
unfolding to_unsigned
read_conf conf = record {
  prefix = conf.prefix;
  postfix = conf.postfix;
  compress = conf.compress;
  key_gen_func = conf.key_gen_func;
  redis_client_id = conf.redis_client_id;
  key = "";
  response_func = conf.response_func;
  use_cache = or_else conf.use_cache false;
  expire_time = to_unsigned (2 ^ 64) (or_else conf.expire_time_s (pos 0));
  keys = [];
  id = [];
}

-- RedisService::init: the fetches behind those that are there.
unfoldable pub init_fetches : List FetchConf → List FetchInfo → List FetchInfo
unfolding read_conf
init_fetches confs fetch_info_vec = fetch_info_vec ++ map read_conf confs

-- class CacheDataItem: values by key, and the position of the fetch.
pub record CacheDataItem : Type 0 where
  pub data_map : List (List ℕ × List ℕ)
  pub fetch_info_ptr : ℕ

-- `data_map[key] = value`
unfoldable pub put : List ℕ → List ℕ → List (List ℕ × List ℕ) → List (List ℕ × List ℕ)
put key value [] = (key, value) ∷ []
put key value ((k, v) ∷ m) = if same_text k key then (k, value) ∷ m else (k, v) ∷ put key value m

-- A single space stands for no value.
unfoldable pub read_cached : List ℕ → List ℕ
read_cached value = if length value == 1 && get_or value 0 0 == b' ' then [] else value

-- The loop of get_from_cache: what is found, and the keys that are not.
unfoldable pub look_up :
    (List ℕ → Option (List ℕ))
    → List (List ℕ)
    → List (List ℕ × List ℕ)
    → List (List ℕ × List ℕ) × List (List ℕ)
unfolding put read_cached
look_up cached [] data_map = (data_map, [])
look_up cached (key ∷ keys) data_map = elim (cached key) [
  | none ↦ let (found, missed) = look_up cached keys data_map in (found, key ∷ missed)
  | some value ↦ look_up cached keys (put key (read_cached value) data_map)
]

-- get_from_cache, of the fetch at a position: the keys that are missed, and `cache_data_vec`.
unfoldable pub get_from_cache :
    (List ℕ → Option (List ℕ))
    → List (List ℕ)
    → List CacheDataItem
    → ℕ
    → List (List ℕ) × List CacheDataItem
unfolding look_up
get_from_cache cached keys cache_data_vec fetch_info_ptr =
    let (data_map, miss_keys) = look_up cached keys [] in
    (
      miss_keys,
      if length data_map == 0
          then cache_data_vec
          else cache_data_vec
            ++ record { data_map = data_map; fetch_info_ptr = fetch_info_ptr } ∷ [],
    )

-- `slot_keys_map[slot].push_back(key)`
unfoldable pub push_key : ℕ → List ℕ → List (ℕ × List (List ℕ)) → List (ℕ × List (List ℕ))
push_key slot key [] = (slot, key ∷ []) ∷ []
push_key slot key ((s, keys) ∷ m) =
    if s == slot then (s, keys ++ key ∷ []) ∷ m else (s, keys) ∷ push_key slot key m

unfoldable pub slot_keys_map :
    (List ℕ → ℕ) → List (List ℕ) → List (ℕ × List (List ℕ)) → List (ℕ × List (List ℕ))
unfolding push_key
slot_keys_map slot_of [] m = m
slot_keys_map slot_of (key ∷ keys) m = slot_keys_map slot_of keys (push_key (slot_of key) key m)

-- The fetches of the groups: the first stays in its place, the others are added.
unfoldable pub spread : FetchInfo → List (ℕ × List (List ℕ)) → FetchInfo × List FetchInfo
spread fetch [] = (fetch, [])
spread fetch ((slot, keys) ∷ groups) =
    (record fetch { keys = keys }, map (λ group. record fetch { keys = group.1; id = [] }) groups)

-- What make_up_fetch_info_vec takes from outside: the key functions that are registered, which clients
-- RedisClientManager has, what the cache holds, the slot of a key, and the order in which an unordered_map is
-- gone through.
pub record Sources : Type 0 where
  pub key_func_map : String → Option (List (List ℕ) → String → String → List (List ℕ))
  pub has_client : String → Bool
  pub cached : List ℕ → Option (List ℕ)
  pub slot_of : List ℕ → ℕ
  pub iterate : List (ℕ × List (List ℕ)) → List (ℕ × List (List ℕ))

module _ (sources : Sources) where
  -- The end of a round of make_up_fetch_info_vec: the keys by their slots.
  unfoldable pub split_slots : FetchInfo → FetchInfo × List FetchInfo
  unfolding slot_keys_map spread
  split_slots fetch =
      if length fetch.keys == 0
      then (fetch, [])
      else if sources.has_client fetch.redis_client_id
      then spread fetch (sources.iterate (slot_keys_map sources.slot_of fetch.keys []))
      else (fetch, [])

  with_keys : ℕ → FetchInfo → List CacheDataItem → (FetchInfo × List FetchInfo) × List CacheDataItem
  with_keys i fetch cache_data_vec =
      let (miss_keys, cache_data_vec') =
        get_from_cache sources.cached fetch.keys cache_data_vec i in
      if length fetch.keys == 0
      then ((fetch, []), cache_data_vec)
      else if fetch.use_cache
      then (split_slots (record fetch { keys = miss_keys }), cache_data_vec')
      else (split_slots fetch, cache_data_vec)

  -- One round of the first loop of make_up_fetch_info_vec.
  unfoldable pub make_up_fetch :
      ℕ → FetchInfo → List CacheDataItem → (FetchInfo × List FetchInfo) × List CacheDataItem
  unfolding with_keys
  make_up_fetch i fetch cache_data_vec = elim (sources.key_func_map fetch.key_gen_func) [
    | none ↦ ((fetch, []), cache_data_vec)
    | some generate ↦
        with_keys i (record fetch { keys = generate fetch.keys fetch.prefix fetch.postfix })
          cache_data_vec
  ]

  unfoldable pub make_up_fetches :
      ℕ
      → List FetchInfo
      → List CacheDataItem
      → (List FetchInfo × List FetchInfo) × List CacheDataItem
  unfolding make_up_fetch
  make_up_fetches i [] cache_data_vec = (([], []), cache_data_vec)
  make_up_fetches i (fetch ∷ fetches) cache_data_vec =
      let ((first, added), items) = make_up_fetch i fetch cache_data_vec in
      let ((rest, more), all_items) = make_up_fetches (suc i) fetches items in
      ((first ∷ rest, added ++ more), all_items)

-- The last loop: the ids are the positions.
unfoldable pub number : ℕ → List FetchInfo → List FetchInfo
number i [] = []
number i (fetch ∷ fetches) = record fetch { id = decimal i } ∷ number (suc i) fetches

-- make_up_fetch_info_vec: `fetch_info_vec` and `cache_data_vec`.
unfoldable pub make_up_fetch_info_vec :
    Sources → List FetchInfo → List CacheDataItem → List FetchInfo × List CacheDataItem
unfolding make_up_fetches number
make_up_fetch_info_vec sources fetch_info_vec cache_data_vec =
    let ((fetches, added), items) = make_up_fetches sources 0 fetch_info_vec cache_data_vec in
    (number 0 (fetches ++ added), items)
