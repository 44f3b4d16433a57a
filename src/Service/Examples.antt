-- ===== src/Service/Examples.antt =====
-- Two fetches: one of seven keys in batches of at most three, one without a client.
use Prim.Native.String.{String}
use graphize.Common.{
  ℕ, some, none, false, ◌≡◌, ◌∷◌, refl, List, [], Bool, true, arith, length, zero, suc,
  if◌then◌else◌, ◌==◌, ◌++◌,
}
use graphize.Common.Bag.{count}
use graphize.Service.Reply.{Reply, Code, Message, RedisResultItem}
use graphize.Service.Concurrent.{Slices, start_slices, step_slice, step_phase, run_slices}
use graphize.Service.Concurrent.Merge.{Progress, run_slices-Progress}
use graphize.Service.Batches.{batch_count, step, starts, starts_from, div_up, requested}
use graphize.Service.Batches.Slices.{requested-eq}
use graphize.Service.Fetch.{FetchInfo}
use graphize.Service.Latch.{expected, releases, skips, is_skipped, new_latch, release_all}
use graphize.Service.Latch.Finish.{finish_once}

-- Three batches of three, three and one.
seven : starts true 7 3 ≡ 0 ∷ 3 ∷ 6 ∷ []
unfolding starts starts_from step batch_count div_up
seven = refl

abbrev keys : List ℕ
keys = 10 ∷ 11 ∷ 12 ∷ 13 ∷ 14 ∷ 15 ∷ 16 ∷ []

requested-eq_example : requested true keys 3 ≡ keys
requested-eq_example = requested-eq true keys 3 (omega arith) (omega arith)

abbrev has_client : String → Bool
has_client id = true

abbrev fetch_of : List (List ℕ) → FetchInfo
fetch_of keys = record {
  prefix = "";
  postfix = "";
  compress = "";
  key_gen_func = "";
  redis_client_id = "a";
  key = "";
  response_func = "";
  use_cache = false;
  expire_time = 0;
  keys = keys;
  id = [];
}

abbrev fetches : List FetchInfo
fetches = fetch_of ((1 ∷ []) ∷ (2 ∷ []) ∷ (3 ∷ []) ∷ []) ∷ fetch_of [] ∷ []

-- The first batch of the first fetch comes back, then the fetch without keys is passed over.
abbrev early : List ℕ
early = 0 ∷ 1 ∷ []

abbrev late : List ℕ
late = 0 ∷ []

in_order : (j : ℕ) → count j (early ++ late) ≡ expected has_client true 2 fetches j
unfolding expected releases skips starts starts_from step batch_count div_up
in_order zero = refl
in_order (suc zero) = refl
in_order (suc (suc j)) = ground arith

finish_once_example :
    (release_all (is_skipped has_client fetches) early (new_latch true 2 fetches)).finished
    ≡ (if length late == 0 then 1 else 0)
finish_once_example =
    finish_once has_client true 2 fetches early late (omega arith) (omega arith) in_order

-- An array of which the second member is nil.
abbrev replied : Reply
replied = Reply.array (some (104 ∷ 105 ∷ []) ∷ none ∷ [])

abbrev new_item : RedisResultItem
new_item = record {
  code = Code.other_error;
  error_msg = Message.no_message;
  result_str_vec = [];
  result_str_len_vec = [];
  total_result_str_size = 0;
  fetch_info_ptr = fetch_of [];
  start_index = 0;
  m_get_size = 0;
  result_guard = false;
}

-- Two slices that take turns.
abbrev turns : List ℕ
turns = 0 ∷ 1 ∷ 1 ∷ 0 ∷ []

ran : (s : Slices) × (run_slices 2 turns (start_slices 2) ≡ some s)
unfolding run_slices start_slices step_slice step_phase
ran = (_, refl)

run_slices-Progress_example : Progress 2 ran.0
run_slices-Progress_example = run_slices-Progress 2 turns ran.0 (omega arith) ran.1
