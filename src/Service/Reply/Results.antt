-- ===== src/Service/Reply/Results.antt =====
-- The results of a reply and their lengths (src/service/base/redis_service.cpp).
use graphize.Common.{
  ℕ, ◌%◌, ◌^◌, ◌≡◌, refl, ap, sym, ◌∙◌, List, [], ◌∷◌, ◌++◌, Option, none, some, arith, length, map,
  append-nil, append_assoc,
}
use graphize.Common.Bag.{total, total-append}
use graphize.Service.Reply.{
  Reply, nil, string, array, other, Code, RedisResultItem, push_result, push_results, check_reply,
  check_suc_rpc_response,
}

-- What a reply holds: one result for nil or a string, and one for each member of an array.
unfoldable pub results : Reply → List (Option (List ℕ))
results nil = none ∷ []
results (string text) = some text ∷ []
results (array reply) = reply
results other = []

unfoldable pub size_of : Option (List ℕ) → ℕ
size_of none = 0
size_of (some text) = length text

-- Each result has its length, and the sum is that of the lengths, in 64 bits.
pub record IsAligned (item : RedisResultItem) : Type 0 where
  pub lengths : item.result_str_len_vec ≡ map size_of item.result_str_vec
  pub sum : item.total_result_str_size ≡ total (λ n. n) item.result_str_len_vec % 2 ^ 64

-- The item has so many results more, and is aligned.
pub record Extended (before after : RedisResultItem) (more : List (Option (List ℕ))) : Type 0 where
  pub strs : after.result_str_vec ≡ before.result_str_vec ++ more
  pub aligned : IsAligned after

map-append :
    (xs ys : List (Option (List ℕ))) → map size_of (xs ++ ys) ≡ map size_of xs ++ map size_of ys
map-append [] ys = refl
map-append (x ∷ xs) ys = ap (◌∷◌ (size_of x)) (map-append xs ys)

push_result-Extended :
    (r : Option (List ℕ)) (item : RedisResultItem)
    → IsAligned item
    → Extended item (push_result r item) (r ∷ [])
unfolding push_result size_of total
push_result-Extended none item a = record {
  strs = refl;
  aligned = record {
    lengths = ap (λ ns. ns ++ 0 ∷ []) a.lengths ∙ sym (map-append item.result_str_vec (none ∷ []));
    sum = omega (arith, a.sum, total-append (λ n. n) item.result_str_len_vec (0 ∷ []));
  };
}
push_result-Extended (some text) item a = record {
  strs = refl;
  aligned = record {
    lengths =
        ap (λ ns. ns ++ length text ∷ []) a.lengths
        ∙ sym (map-append item.result_str_vec (some text ∷ []));
    sum = omega (arith, a.sum, total-append (λ n. n) item.result_str_len_vec (length text ∷ []));
  };
}

push_results-Extended :
    (reply : List (Option (List ℕ))) (item : RedisResultItem)
    → IsAligned item
    → Extended item (push_results reply item) reply
unfolding push_results
push_results-Extended [] item a = record {
  strs = sym (append-nil item.result_str_vec);
  aligned = a;
}
push_results-Extended (r ∷ reply) item a =
    let one = push_result-Extended r item a in
    let rest = push_results-Extended reply (push_result r item) one.aligned in
    record {
      strs =
          rest.strs
          ∙ ap (λ xs. xs ++ reply) one.strs
          ∙ append_assoc item.result_str_vec (r ∷ []) reply;
      aligned = rest.aligned;
    }

recoded :
    (item item' : RedisResultItem)
    → item'.result_str_vec ≡ item.result_str_vec
    → item'.result_str_len_vec ≡ item.result_str_len_vec
    → item'.total_result_str_size ≡ item.total_result_str_size
    → IsAligned item
    → IsAligned item'
recoded item item' s l t a = record {
  lengths = l ∙ a.lengths ∙ ap (map size_of) (sym s);
  sum = t ∙ a.sum ∙ ap (λ ns. total (λ n. n) ns % 2 ^ 64) (sym l);
}

pub check_suc_rpc_response-Extended :
    (reply : Reply) (replies : List Reply) (item : RedisResultItem)
    → IsAligned item
    → (item' : RedisResultItem) × (check_suc_rpc_response (some (reply ∷ replies)) item
        ≡ some item')
      × Extended item item' (results reply)
unfolding check_suc_rpc_response check_reply results
check_suc_rpc_response-Extended nil replies item a =
    let e = push_result-Extended none item a in
    (
      _,
      refl,
      record {
        strs = e.strs;
        aligned = recoded (push_result none item) _ refl refl refl e.aligned;
      },
    )
check_suc_rpc_response-Extended other replies item a = (
  _,
  refl,
  record { strs = sym (append-nil item.result_str_vec); aligned = recoded item _ refl refl refl a },
)
check_suc_rpc_response-Extended (string text) replies item a =
    let i : RedisResultItem = record item { code = Code.success } in
    let e = push_result-Extended (some text) i (recoded item i refl refl refl a) in
    (
      _,
      refl,
      record {
        strs = e.strs;
        aligned = recoded (push_result (some text) i) _ refl refl refl e.aligned;
      },
    )
check_suc_rpc_response-Extended (array reply) replies item a =
    let i : RedisResultItem = record item { code = Code.success } in
    let e = push_results-Extended reply i (recoded item i refl refl refl a) in
    (
      _,
      refl,
      record { strs = e.strs; aligned = recoded (push_results reply i) _ refl refl refl e.aligned },
    )
