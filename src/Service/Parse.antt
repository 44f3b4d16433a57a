-- ===== src/Service/Parse.antt =====
-- src/service/base/redis_service.cpp, parse_redis_response and parse_cached_data: the calls of the parse
-- functions. What the functions do is left to the subclasses; butil::snappy::Uncompress is a parameter.
pub mod Keys
use Prim.Native.String.{String}
use text.Mathlib.Text.{◌==◌}
use graphize.Common.{
  ℕ, zero, suc, ◌+◌, List, [], ◌∷◌, ◌++◌, Option, none, some, Bool, true, false, if◌then◌else◌,
  take, get_elem?, ◌>>=◌,
}
use graphize.Service.Fetch.{FetchInfo, CacheDataItem}
use graphize.Service.Reply.{RedisResultItem}

-- A call of the function that is registered for `response_func`, or of the one that returns 1. `none` for the data is a
-- null pointer.
pub record Call : Type 0 where
  pub response_func : String
  pub key : List ℕ
  pub text : Option (List ℕ)
  pub index : ℕ
  pub size : ℕ
  pub from_cache : Bool

-- The first `len` bytes.
abbrev pub first_bytes : ℕ → Option (List ℕ) → Option (List ℕ)
first_bytes len none = none
first_bytes len (some text) = some (take len text)

module _ (uncompress : Option (List ℕ) → List ℕ) where
  -- What is handed on of a result.
  unfoldable pub decoded : FetchInfo → Option (List ℕ) → Option (List ℕ)
  decoded fetch result = if fetch.compress == "snappy" then some (uncompress result) else result

  -- The loop over the results, from `i`; `none`: `keys.at` throws, or there is no length.
  unfoldable pub parse_results :
      RedisResultItem → ℕ → ℕ → ℕ → List (Option (List ℕ)) → Option (List Call)
  unfolding decoded
  parse_results item index size i [] = some []
  parse_results item index size i (result ∷ results) = do
    len ← get_elem? item.result_str_len_vec i
    key ← get_elem? item.fetch_info_ptr.keys (item.start_index + i)
    calls ← parse_results item index size (suc i) results
    some (
        record {
          response_func = item.fetch_info_ptr.response_func;
          key = key;
          text = decoded item.fetch_info_ptr (first_bytes len result);
          index = index;
          size = size;
          from_cache = false;
        }
        ∷ calls)

  -- parse_redis_response
  unfoldable pub parse_redis_response : ℕ → ℕ → RedisResultItem → Option (List Call)
  unfolding parse_results
  parse_redis_response redis_item_index redis_item_size item =
      parse_results item redis_item_index redis_item_size 0 item.result_str_vec

  parse_pairs : FetchInfo → List (List ℕ × List ℕ) → List Call
  unfolding decoded
  parse_pairs fetch [] = []
  parse_pairs fetch ((key, value) ∷ pairs) =
      record {
        response_func = fetch.response_func;
        key = key;
        text = decoded fetch (some value);
        index = 0;
        size = 1;
        from_cache = true;
      }
      ∷ parse_pairs fetch pairs

  parse_item : Option FetchInfo → List (List ℕ × List ℕ) → List Call
  unfolding parse_pairs
  parse_item none pairs = []
  parse_item (some fetch) pairs = if fetch.use_cache then parse_pairs fetch pairs else []

  parse_items : List FetchInfo → List CacheDataItem → List Call
  unfolding parse_item
  parse_items fetch_info_vec [] = []
  parse_items fetch_info_vec (item ∷ items) =
      parse_item (get_elem? fetch_info_vec item.fetch_info_ptr) item.data_map
      ++ parse_items fetch_info_vec items

  -- parse_cached_data: the calls, and what is left of `cache_data_vec`.
  unfoldable pub parse_cached_data :
      List FetchInfo → List CacheDataItem → List Call × List CacheDataItem
  unfolding parse_items
  parse_cached_data fetch_info_vec cache_data_vec = (parse_items fetch_info_vec cache_data_vec, [])
