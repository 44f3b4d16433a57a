-- ===== src/Service/Reply.antt =====
-- src/service/base/redis_service.cpp, RedisService::check_suc_rpc_response: what is taken from the
-- reply of a request that did not fail.
pub mod Results
use graphize.Common.{
  ℕ, zero, ◌+◌, ◌%◌, ◌^◌, List, [], ◌∷◌, ◌++◌, Option, none, some, Bool, true, false, length,
}
use graphize.Service.Fetch.{FetchInfo}

-- brpc::RedisReply: nil, a string, an array of which each member is nil or has data, or another type.
pub data Reply : Type 0 where
  nil : Reply
  string : List ℕ → Reply
  array : List (Option (List ℕ)) → Reply
  other : Reply

-- The codes of RedisResultItem.
pub data Code : Type 0 where
  success rpc_failed other_error : Code

-- Which of the texts `error_msg` is.
pub data Message : Type 0 where
  no_message null_response empty_response nil_reply wrong_type rpc_error : Message

-- class RedisResultItem. `none` in `result_str_vec` is a null pointer; `result_guard` says whether the
-- response is kept.
pub record RedisResultItem : Type 0 where
  pub fetch_info_ptr : FetchInfo
  pub start_index : ℕ
  pub m_get_size : ℕ
  pub code : Code
  pub error_msg : Message
  pub result_str_vec : List (Option (List ℕ))
  pub result_str_len_vec : List ℕ
  pub total_result_str_size : ℕ  -- uint64_t
  pub result_guard : Bool

-- One result: the pointer, the length, and the sum of the lengths.
unfoldable pub push_result : Option (List ℕ) → RedisResultItem → RedisResultItem
push_result none item = record item {
  result_str_vec = item.result_str_vec ++ none ∷ [];
  result_str_len_vec = item.result_str_len_vec ++ 0 ∷ [];
}
push_result (some text) item = record item {
  result_str_vec = item.result_str_vec ++ some text ∷ [];
  result_str_len_vec = item.result_str_len_vec ++ length text ∷ [];
  total_result_str_size = (item.total_result_str_size + length text) % 2 ^ 64;
}

-- The loop over the members of an array.
unfoldable pub push_results : List (Option (List ℕ)) → RedisResultItem → RedisResultItem
unfolding push_result
push_results [] item = item
push_results (sub_reply ∷ reply) item = push_results reply (push_result sub_reply item)

unfoldable pub check_reply : Reply → RedisResultItem → RedisResultItem
unfolding push_result push_results
check_reply nil item = push_result none (record item { error_msg = nil_reply; code = Code.success })
check_reply other item = record item { error_msg = wrong_type; code = other_error }
check_reply (string text) item =
    record (push_result (some text) (record item { code = Code.success })) { result_guard = true }
check_reply (array reply) item = record (push_results reply (record item { code = Code.success })) {
  result_guard = true;
}

-- check_suc_rpc_response: the replies, if the response is not null. `none`: a response without replies
-- is reset and then read.
unfoldable pub check_suc_rpc_response :
    Option (List Reply) → RedisResultItem → Option RedisResultItem
unfolding check_reply
check_suc_rpc_response none item =
    some (record item { error_msg = null_response; code = other_error })
check_suc_rpc_response (some []) item = none
check_suc_rpc_response (some (reply ∷ replies)) item = some (check_reply reply item)
