-- ===== src/Service/Callback/Places.antt =====
-- The places of the vector of results, one for each request of a fetch (src/service/base/redis_service.cpp).
use native.Mathlib.Nat.{mul-le-mul_left, mul-suc, mul_comm, mul-div_cancel, lt_of_mul-lt-mul_left}
use graphize.Common.{
  ℕ, zero, suc, ◌+◌, ◌*◌, ◌/◌, ◌≤◌, ◌<◌, ◌≡◌, subst, List, ◌∷◌, Bool, arith, ltb, Bool-cases, true,
  false, inl, inr, ℕ_discrete,
}
use graphize.Common.Bag.{count}
use graphize.Service.Batches.{step, items, starts_from, starts, batch_count}
use graphize.Service.Batches.Count.{Step-Step}

-- A start is one of the multiples, behind the first one.
starts_from-only :
    (fuel i s size v : ℕ)
    → 0 < count v (starts_from fuel i s size)
    → (k : ℕ) × (v ≡ i + k * s) × (v < size)
unfolding starts_from
starts_from-only zero i s size v m = absurd (omega arith)
starts_from-only (suc fuel) i s size v m = elim (Bool-cases (ltb i size)) [
  | inr past ↦ absurd (omega (arith, rw past at m))
  | inl inside ↦
      let here : 0 < count v (i ∷ starts_from fuel (i + s) s size) = rw inside at m in
      elim (ℕ_discrete v i) [
        | yes e ↦ (0, omega (arith, e), ground arith)
        | no ne ↦
            let (k, at_k, lt) = starts_from-only fuel (i + s) s size v (ground arith) in
            (suc k, omega (arith, at_k, mul-suc s k, mul_comm s k, mul_comm s (suc k)), lt)
      ]
]

starts_from-past : (fuel i s size v : ℕ) → v < i → count v (starts_from fuel i s size) ≡ 0
starts_from-past fuel i s size v lt = elim (ℕ_discrete (count v (starts_from fuel i s size)) 0) [
  | yes e ↦ e
  | no ne ↦
      let (k, at_k, l) = starts_from-only fuel i s size v (omega arith) in absurd (omega arith)
]

starts_from-once :
    (fuel i s size k : ℕ)
    → 0 < s
    → size ≤ i + fuel
    → i + k * s < size
    → count (i + k * s) (starts_from fuel i s size) ≡ 1
unfolding starts_from
starts_from-once zero i s size k h e l = absurd (omega arith)
starts_from-once (suc fuel) i s size zero h e l =
    ground (arith, starts_from-past fuel (i + s) s size i)
starts_from-once (suc fuel) i s size (suc k) h e l =
    let next : i + suc k * s ≡ i + s + k * s =
      omega (arith, mul-suc s k, mul_comm s k, mul_comm s (suc k)) in
    let rest = starts_from-once fuel (i + s) s size k h (omega arith) (omega arith) in
    rw next (ground arith)

-- The requests of a fetch: each start is the first key of one place.
pub record ArePlaces (order : List ℕ) (s n : ℕ) : Type 0 where
  pub positive : 0 < s
  pub once : (k : ℕ) → k < n → count (k * s) order ≡ 1
  pub only : (v : ℕ) → 0 < count v order → (k : ℕ) × (v ≡ k * s) × (k < n)

places :
    (size s n : ℕ)
    → 0 < s
    → 0 < size
    → size ≤ s * n
    → s * n < size + s
    → ArePlaces (starts_from size 0 s size) s n
places size s n h some_key above below = record {
  positive = h;
  once = λ k lt.
      subst (λ v. count v (starts_from size 0 s size) ≡ 1) {x = 0 + k * s} (omega arith)
        (starts_from-once size 0 s size k h (omega arith) (within k lt));
  only = λ v m.
      let (k, at_k, lt) = starts_from-only size 0 s size v m in
      (k, omega (arith, at_k), lt_of_mul-lt-mul_left s (omega (arith, mul_comm s k)));
}
  where
    within : (k : ℕ) → k < n → 0 + k * s < size
    within k lt = omega (arith, mul-le-mul_left {m = suc k} {n = n} s lt, mul-suc s k, mul_comm s k)

pub starts-ArePlaces :
    (multi_get : Bool) (size batch_size : ℕ)
    → 0 < size
    → 0 < batch_size
    → ArePlaces
        (starts multi_get size batch_size)
        (step multi_get size batch_size)
        (items multi_get size batch_size)
unfolding starts step items batch_count
starts-ArePlaces true size batch_size some_key some_size =
    let s = Step-Step size batch_size some_key some_size in
    places size _ _ s.step_positive some_key s.above s.below
starts-ArePlaces false size batch_size some_key some_size =
    places size 1 size (omega arith) some_key (omega arith) (omega arith)

-- The place of a start.
pub place-of : (k s : ℕ) → 0 < s → k * s / s ≡ k
place-of k s h = mul-div_cancel k h
