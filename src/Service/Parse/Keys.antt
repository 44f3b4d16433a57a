-- ===== src/Service/Parse/Keys.antt =====
-- Which key a result is parsed with (parse_redis_response in src/service/base/redis_service.cpp).
use graphize.Common.{
  ℕ, zero, suc, ◌+◌, ◌-◌, ◌≤◌, ◌<◌, ◌≡◌, refl, sym, ap, ◌∙◌, List, [], ◌∷◌, arith, Option, none,
  some, length, take, drop, map, get_elem?, min, length-take, length-drop, none≢some, false,
}
use graphize.Service.Batches.{slice}
use graphize.Service.Reply.{RedisResultItem}
use graphize.Service.Reply.Results.{IsAligned, size_of}
use graphize.Service.Parse.{Call, decoded, first_bytes, parse_results, parse_redis_response}

some_of_lt {ℓ} :
    {A : Type ℓ} (xs : List A) (i : ℕ) → i < length xs → (a : A) × (get_elem? xs i ≡ some a)
some_of_lt [] i h = absurd (omega arith)
some_of_lt (x ∷ xs) zero h = (x, refl)
some_of_lt (x ∷ xs) (suc i) h = some_of_lt xs i (omega arith)

drop_at {ℓ} :
    {A : Type ℓ} (xs : List A) (i : ℕ) {a : A}
    → get_elem? xs i ≡ some a
    → drop i xs ≡ a ∷ drop (suc i) xs
drop_at [] i e = absurd (none≢some e)
drop_at (x ∷ xs) zero e = cc
drop_at (x ∷ xs) (suc i) e = drop_at xs i e

head_of_drop {ℓ} :
    {A : Type ℓ} (xs : List A) (i : ℕ) {a : A} {ys : List A}
    → drop i xs ≡ a ∷ ys
    → (get_elem? xs i ≡ some a) × (drop (suc i) xs ≡ ys)
head_of_drop [] zero e = absurd (cc)
head_of_drop [] (suc i) e = absurd (cc)
head_of_drop (x ∷ xs) zero e = (cc, cc)
head_of_drop (x ∷ xs) (suc i) e = head_of_drop xs i e

pub take-length : (text : List ℕ) → take (length text) text ≡ text
take-length [] = refl
take-length (c ∷ text) = ap (◌∷◌ c) (take-length text)

first_bytes-size_of : (r : Option (List ℕ)) → first_bytes (size_of r) r ≡ r
unfolding size_of
first_bytes-size_of none = refl
first_bytes-size_of (some text) = ap some (take-length text)

module _ (uncompress : Option (List ℕ) → List ℕ) (item : RedisResultItem) (index size : ℕ) where
  -- The calls from the result at `i` on.
  record Parsed (i : ℕ) (results : List (Option (List ℕ))) : Type 0 where
    calls : List Call
    ends : parse_results uncompress item index size i results ≡ some calls
    keys :
        map (λ c. c.key) calls
        ≡ take (length results) (drop (item.start_index + i) item.fetch_info_ptr.keys)
    texts : map (λ c. c.text) calls ≡ map (decoded uncompress item.fetch_info_ptr) results

  parse_results-Parsed :
      (i : ℕ) (results : List (Option (List ℕ)))
      → drop i item.result_str_len_vec ≡ map size_of results
      → item.start_index + i + length results ≤ length item.fetch_info_ptr.keys
      → Parsed i results
  unfolding parse_results
  parse_results-Parsed i [] lens room = record {
    calls = [];
    ends = refl;
    keys = refl;
    texts = refl;
  }
  parse_results-Parsed i (r ∷ results) lens room =
      let (key, at_key) =
        some_of_lt item.fetch_info_ptr.keys (item.start_index + i) (omega arith) in
      let (len, later) = head_of_drop item.result_str_len_vec i lens in
      let rest = parse_results-Parsed (suc i) results later (omega arith) in
      record {
        calls =
            record {
              response_func = item.fetch_info_ptr.response_func;
              key = key;
              text = decoded uncompress item.fetch_info_ptr (first_bytes (size_of r) r);
              index = index;
              size = size;
              from_cache = false;
            }
            ∷ rest.calls;
        ends = rw (len, at_key, rest.ends) refl;
        keys =
            ap (◌∷◌ key) (
              rest.keys
              ∙ ap (λ n. take (length results) (drop n item.fetch_info_ptr.keys))
                  {y = suc (item.start_index + i)} (omega arith))
            ∙ ap (take (suc (length results)))
                (sym (drop_at item.fetch_info_ptr.keys (item.start_index + i) at_key));
        texts =
            cc (rest.texts, ap (decoded uncompress item.fetch_info_ptr) (first_bytes-size_of r));
      }

-- When a batch starts within the keys, and its results, with their lengths, are as many as its keys, then parse_redis_response calls the
-- parse function once for each of them, in their order, with the key of its place in the batch.
pub parse_redis_response-slice :
    (uncompress : Option (List ℕ) → List ℕ) (item : RedisResultItem) (index size step : ℕ)
    → IsAligned item
    → item.start_index ≤ length item.fetch_info_ptr.keys
    → length item.result_str_vec ≡ length (slice step item.fetch_info_ptr.keys item.start_index)
    → (calls : List Call) × (parse_redis_response uncompress index size item ≡ some calls)
      × (map (λ c. c.key) calls ≡ slice step item.fetch_info_ptr.keys item.start_index)
      × (map (λ c. c.text) calls ≡ map (decoded uncompress item.fetch_info_ptr) item.result_str_vec)
unfolding parse_redis_response slice
parse_redis_response-slice uncompress item index size step aligned within as_many =
    let keys = item.fetch_info_ptr.keys in
    let start = item.start_index in
    let part = min (start + step) (length keys) - start in
    let counted : length item.result_str_vec ≡ part =
      omega (arith, as_many, length-take part (drop start keys), length-drop start keys) in
    let all =
      parse_results-Parsed uncompress item index size 0 item.result_str_vec aligned.lengths
        (omega (arith, counted)) in
    (
      all.calls,
      all.ends,
      all.keys
          ∙ ap (λ n. take n (drop (start + 0) keys)) counted
          ∙ ap (λ n. take part (drop n keys)) (omega arith),
      all.texts,
    )
