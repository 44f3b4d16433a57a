-- ===== src/Service/CacheData/Examples.antt =====
-- A cache that keeps everything until its time is over, and a batch of two results.
use graphize.Common.{
  ℕ, ◌≡◌, refl, sym, ap, ◌∙◌, ◌⊎◌, inl, inr, List, [], ◌∷◌, arith, Option, none, some, Bool, true,
  false, ltb, same_text, same_text_iff, if◌then◌else◌, length, ℤ, pos, negsuc, Bool-cases, map,
  lt→ltb,
}
use graphize.Common.Bag.{total}
use graphize.Frame.Cache.{ShmCache, ObjectCache, manager_get, manager_set}
use graphize.Frame.Cache.Recall.{Keeps}
use graphize.Service.Fetch.{FetchInfo, look_up}
use graphize.Service.Reply.{RedisResultItem, Code, Message}
use graphize.Service.Reply.Results.{IsAligned, size_of}
use graphize.Service.Batches.{slice}
use graphize.Service.CacheData.{merge_results, merge_cache_data, stored}
use graphize.Frame.Cache.Found.{OnlySets}
use graphize.Service.CacheData.Recall.{IsAmong, map_pairs, merge_cache_data_found}
use graphize.Service.CacheData.RoundTrip.{shown, look_up-merge_results}
use graphize.Service.Parse.{Call, decoded, parse_redis_response}
use graphize.Service.Parse.Keys.{parse_redis_response-slice}

abbrev Store : Type 0
Store = List ℕ → Option (List ℕ × ℤ)

abbrev is_before : ℕ → ℤ → Bool
is_before now (pos ends) = ltb now ends
is_before now (negsuc n) = false

found_at : ℕ → Option (List ℕ × ℤ) → ℤ × List ℕ
found_at now none = (pos 2, [])
found_at now (some (value, ends)) = if is_before now ends then (pos 0, value) else (pos 2, [])

abbrev shm : ShmCache
shm = record {
  Context = Store;
  init_from_file = λ file. (λ key. none, pos 0);
  set_ex = λ s key value ends. (λ k. if same_text k key then some (value, ends) else s k, pos 0);
  get = λ s key now. found_at now (s key);
}

keeps : Keeps shm
unfolding found_at
keeps s s' key value ends now set fresh =
    let same : same_text key key ≡ true = (same_text_iff key key).1 refl in
    let here : s' key ≡ some (value, pos ends) = ap (λ p. p.0 key) (sym set) ∙ rw same refl in
    rw (here, lt→ltb now ends fresh) refl

value_of :
    (value : List ℕ) (ends : ℤ) (now : ℕ) (v : List ℕ)
    → found_at now (some (value, ends)) ≡ (pos 0, v)
    → v ≡ value
unfolding found_at
value_of value ends now v e = elim (Bool-cases (is_before now ends)) [
  | inl before ↦ ap (λ p. p.1) (sym (rw before at e))
  | inr past ↦ let f = rw past at e in absurd (ground (arith, ap (λ p. p.0) f))
]

only : OnlySets shm
only s key value ends k v now found = elim (Bool-cases (same_text k key)) [
  | inr other ↦ inr (rw other at found)
  | inl same ↦ inl ((same_text_iff k key).0 same, value_of value ends now v (rw same at found))
]

abbrev fetch : FetchInfo
fetch = record {
  prefix = "p";
  postfix = "";
  compress = "";
  key_gen_func = "gen";
  redis_client_id = "a";
  key = "";
  response_func = "parse";
  use_cache = true;
  expire_time = 60;
  keys = (1 ∷ []) ∷ (2 ∷ []) ∷ (3 ∷ []) ∷ [];
  id = [];
}

-- The batch of the last two keys: nil, and a text.
abbrev item : RedisResultItem
item = record {
  fetch_info_ptr = fetch;
  start_index = 1;
  m_get_size = 2;
  code = Code.success;
  error_msg = Message.no_message;
  result_str_vec = none ∷ some (7 ∷ 8 ∷ []) ∷ [];
  result_str_len_vec = 0 ∷ 2 ∷ [];
  total_result_str_size = 2;
  result_guard = true;
}

item-IsAligned : IsAligned item
unfolding size_of total
item-IsAligned = record { lengths = refl; sum = refl }

as_many : length item.result_str_vec ≡ length (slice 2 fetch.keys 1)
unfolding slice
as_many = refl

abbrev plain : Option (List ℕ) → List ℕ
plain text = []

parse_redis_response-slice_example :
    (calls : List Call) × (parse_redis_response plain 0 1 item ≡ some calls)
    × (map (λ c. c.key) calls ≡ slice 2 fetch.keys 1)
    × (map (λ c. c.text) calls ≡ map (decoded plain fetch) item.result_str_vec)
parse_redis_response-slice_example =
    parse_redis_response-slice plain item 0 1 2 item-IsAligned (omega arith) as_many

abbrev empty : ObjectCache shm
empty = record { ctx = λ key. none; init_status = pos 0 }

-- Behind the set of one key.
abbrev after_set : List ℕ → List ℕ → ObjectCache shm → ObjectCache shm
after_set key value c = record {
  ctx = λ k. if same_text k key then some (value, pos 160) else c.ctx k;
  init_status = c.init_status;
}

set_nil :
    manager_set shm empty 100 (2 ∷ []) (stored none 0) (pos 60)
    ≡ (after_set (2 ∷ []) (b' ' ∷ []) empty, pos 0)
unfolding manager_set stored
set_nil = refl

look_up-merge_results_example :
    (merge_results shm 100 (pos 60) item 0 (none ∷ []) empty
      ≡ some (after_set (2 ∷ []) (b' ' ∷ []) empty))
    × (look_up (manager_get shm (after_set (2 ∷ []) (b' ' ∷ []) empty) 120) ((2 ∷ []) ∷ []) []
        ≡ (((2 ∷ []), shown none) ∷ [], []))
unfolding size_of
look_up-merge_results_example =
    look_up-merge_results shm empty (after_set (2 ∷ []) (b' ' ∷ []) empty) 100 120 60 0 item none
      (2 ∷ []) keeps refl refl set_nil (omega arith)

abbrev merged : ObjectCache shm
merged = after_set (3 ∷ []) (7 ∷ 8 ∷ []) (after_set (2 ∷ []) (b' ' ∷ []) empty)

merging : merge_cache_data shm 100 (some ((item ∷ []) ∷ [])) empty ≡ some merged
unfolding merge_cache_data manager_set
merging = refl

finding : manager_get shm merged 120 (3 ∷ []) ≡ some (7 ∷ 8 ∷ [])
unfolding manager_get found_at same_text
finding = refl

merge_cache_data_found_example :
    IsAmong (3 ∷ []) (7 ∷ 8 ∷ []) (map_pairs ((item ∷ []) ∷ []))
    ⊎ (manager_get shm empty 120 (3 ∷ []) ≡ some (7 ∷ 8 ∷ []))
merge_cache_data_found_example =
    merge_cache_data_found shm 100 120 ((item ∷ []) ∷ []) empty merged (3 ∷ []) (7 ∷ 8 ∷ []) only
      merging finding
