-- ===== src/Service/Callback/Batch.antt =====
-- What a callback leaves in its item (src/service/base/redis_service.cpp, RedisService::do_service and
-- check_suc_rpc_response).
use graphize.Common.{
  ℕ, ◌+◌, ◌-◌, ◌≡◌, refl, sym, ap, ◌∙◌, List, [], ◌∷◌, Option, none, some, Bool, true, false, arith,
  length, drop, min, length-take, length-drop, some-injective,
}
use graphize.Common.Bag.{total}
use graphize.Service.Fetch.{FetchInfo}
use graphize.Service.Batches.{slice}
use graphize.Service.Reply.{
  Reply, nil, string, array, other, Code, RedisResultItem, push_result, push_results, check_reply,
  check_suc_rpc_response,
}
use graphize.Service.Reply.Results.{IsAligned, results, check_suc_rpc_response-Extended}
use graphize.Service.Callback.{RpcAnswer, item_for, answered}

-- If the request did not fail, a response that is there has a reply.
unfoldable pub HasReply : Bool → Option (List Reply) → Type 0
HasReply true response = Unit
HasReply false none = Unit
HasReply false (some []) = ⊥
HasReply false (some (reply ∷ replies)) = Unit

first_results : Bool → Option (List Reply) → List (Option (List ℕ))
first_results true response = []
first_results false none = []
first_results false (some []) = []
first_results false (some (reply ∷ replies)) = results reply

-- The results that an answer holds: none if the request failed or the response is null.
unfoldable pub results_of : RpcAnswer → List (Option (List ℕ))
unfolding first_results
results_of answer = first_results answer.failed answer.response

-- The item of the request for the keys from `i` on.
pub record IsBatch (step : ℕ) (fetch : FetchInfo) (i : ℕ) (answer : RpcAnswer)
    (item : RedisResultItem) : Type 0 where
  pub fetch_info : item.fetch_info_ptr ≡ fetch
  pub start : item.start_index ≡ i
  pub keys : item.m_get_size ≡ length (slice step fetch.keys i)
  pub strs : item.result_str_vec ≡ results_of answer
  pub aligned : IsAligned item

record Kept (item item' : RedisResultItem) : Type 0 where
  fetch_info : item'.fetch_info_ptr ≡ item.fetch_info_ptr
  start : item'.start_index ≡ item.start_index
  keys : item'.m_get_size ≡ item.m_get_size

push_result-Kept : (r : Option (List ℕ)) (item : RedisResultItem) → Kept item (push_result r item)
unfolding push_result
push_result-Kept none item = record { fetch_info = refl; start = refl; keys = refl }
push_result-Kept (some text) item = record { fetch_info = refl; start = refl; keys = refl }

push_results-Kept :
    (reply : List (Option (List ℕ))) (item : RedisResultItem) → Kept item (push_results reply item)
unfolding push_results
push_results-Kept [] item = record { fetch_info = refl; start = refl; keys = refl }
push_results-Kept (r ∷ reply) item =
    let one = push_result-Kept r item in
    let rest = push_results-Kept reply (push_result r item) in
    record {
      fetch_info = rest.fetch_info ∙ one.fetch_info;
      start = rest.start ∙ one.start;
      keys = rest.keys ∙ one.keys;
    }

check_reply-Kept : (reply : Reply) (item : RedisResultItem) → Kept item (check_reply reply item)
unfolding check_reply push_result
check_reply-Kept nil item = record { fetch_info = refl; start = refl; keys = refl }
check_reply-Kept other item = record { fetch_info = refl; start = refl; keys = refl }
check_reply-Kept (string text) item = record { fetch_info = refl; start = refl; keys = refl }
check_reply-Kept (array reply) item =
    let k = push_results-Kept reply (record item { code = Code.success }) in
    record { fetch_info = k.fetch_info; start = k.start; keys = k.keys }

module _ (step : ℕ) (fetch : FetchInfo) (i : ℕ) where
  -- The item as the callback finds it behind `resize`, with its fetch and its keys.
  abbrev fresh : RedisResultItem
  fresh = record (item_for fetch none) {
    m_get_size = min (i + step) (length fetch.keys) - i;
    start_index = i;
  }

  fresh-keys : fresh.m_get_size ≡ length (slice step fetch.keys i)
  unfolding slice item_for
  fresh-keys = omega (
    arith,
    length-take (min (i + step) (length fetch.keys) - i) (drop i fetch.keys),
    length-drop i fetch.keys,
  )

  fresh-IsAligned : IsAligned fresh
  unfolding item_for total
  fresh-IsAligned = record { lengths = refl; sum = omega arith }

  answered-by :
      (failed : Bool) (response : Option (List Reply))
      → HasReply failed response
      → (let answer : RpcAnswer = record { failed = failed; response = response } in
          (item : RedisResultItem) × (answered step fetch i answer none ≡ some item)
          × IsBatch step fetch i answer item)
  unfolding answered item_for HasReply results_of first_results check_suc_rpc_response
  answered-by true response h = (
    _,
    refl,
    record {
      fetch_info = refl;
      start = refl;
      keys = fresh-keys;
      strs = refl;
      aligned = record { lengths = fresh-IsAligned.lengths; sum = fresh-IsAligned.sum };
    },
  )
  answered-by false none h = (
    _,
    refl,
    record {
      fetch_info = refl;
      start = refl;
      keys = fresh-keys;
      strs = refl;
      aligned = record { lengths = fresh-IsAligned.lengths; sum = fresh-IsAligned.sum };
    },
  )
  answered-by false (some []) h = absurd h
  answered-by false (some (reply ∷ replies)) h =
      let (item, e, x) = check_suc_rpc_response-Extended reply replies fresh fresh-IsAligned in
      let k = check_reply-Kept reply fresh in
      let same : check_reply reply fresh ≡ item = some-injective e in
      (
        item,
        e,
        record {
          fetch_info = ap (λ y. y.fetch_info_ptr) (sym same) ∙ k.fetch_info;
          start = ap (λ y. y.start_index) (sym same) ∙ k.start;
          keys = ap (λ y. y.m_get_size) (sym same) ∙ k.keys ∙ fresh-keys;
          strs = x.strs;
          aligned = x.aligned;
        },
      )

  -- A callback on a place that was not written fills it.
  pub answered-IsBatch :
      (answer : RpcAnswer)
      → HasReply answer.failed answer.response
      → (item : RedisResultItem) × (answered step fetch i answer none ≡ some item)
        × IsBatch step fetch i answer item
  answered-IsBatch answer h = answered-by answer.failed answer.response h
