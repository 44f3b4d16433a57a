-- ===== src/Service/Batches.antt =====
-- src/service/base/redis_service.cpp, RedisService::do_service: how the keys of one fetch are cut
-- into batches for mget, and the counter that waits for the batches.
pub mod Count
pub mod Slices
use graphize.Common.{
  ℕ, zero, suc, ◌+◌, ◌-◌, ◌/◌, ◌%◌, List, [], ◌∷◌, ◌++◌, Bool, ltb, ◌==◌, if◌then◌else◌, min, take,
  drop, length,
}

-- `q = a / b; if (a % b != 0) ++q;`
unfoldable pub div_up : ℕ → ℕ → ℕ
div_up a b = if a % b == 0 then a / b else a / b + 1

unfoldable pub batch_count : ℕ → ℕ → ℕ
batch_count size batch_size = div_up size batch_size

unfoldable pub step : Bool → ℕ → ℕ → ℕ
step multi_get size batch_size = if multi_get then div_up size (batch_count size batch_size) else 1

-- `item_size_cond`: how many results are waited for, the size of the result vector too.
unfoldable pub items : Bool → ℕ → ℕ → ℕ
items multi_get size batch_size = if multi_get then batch_count size batch_size else size

-- `for (i = start; i < size; i += step)`: the values of `i`.
unfoldable pub starts_from : ℕ → ℕ → ℕ → ℕ → List ℕ
starts_from zero i step size = []
starts_from (suc fuel) i step size =
    let rest = starts_from fuel (i + step) step size in if ltb i size then i ∷ rest else []

unfoldable pub starts : Bool → ℕ → ℕ → List ℕ
unfolding starts_from
starts multi_get size batch_size = starts_from size 0 (step multi_get size batch_size) size

-- The keys of one request: RedisClient::multi_fetch is given the range from `start` up to `start + step`, which
-- it ends at the end of the keys; RedisClient::fetch is given one key.
unfoldable pub slice {ℓ} : {A : Type ℓ} → ℕ → List A → ℕ → List A
slice step keys start = take (min (start + step) (length keys) - start) (drop start keys)

-- The ranges of all requests, put together in the order of the loop.
unfoldable pub slices {ℓ} : {A : Type ℓ} → ℕ → List A → List ℕ → List A
unfolding slice
slices step keys [] = []
slices step keys (start ∷ more) = slice step keys start ++ slices step keys more

unfoldable pub requested {ℓ} : {A : Type ℓ} → Bool → List A → ℕ → List A
unfolding slices starts
requested multi_get keys batch_size =
    slices (step multi_get (length keys) batch_size) keys
      (starts multi_get (length keys) batch_size)
