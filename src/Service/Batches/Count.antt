-- ===== src/Service/Batches/Count.antt =====
-- How many batches a fetch has, and how long they are
-- (src/service/base/redis_service.cpp, RedisService::do_service).
use native.Mathlib.Nat.{
  div-add-mod, mod-lt, lt_of_mul-lt-mul_left, mul-le-mul_left, mul_comm, mul-suc, mul-add,
}
use graphize.Common.{
  ℕ, zero, suc, ◌+◌, ◌-◌, ◌*◌, ◌/◌, ◌%◌, ◌≤◌, ◌<◌, ◌≡◌, Bool, arith, subst, ltb, ◌==◌, length,
  Bool-cases, true, false, inl, inr,
}
use graphize.Service.Batches.{div_up, batch_count, step, items, starts_from, starts}

div_up-bounds : (a b : ℕ) → 0 < b → (a ≤ b * div_up a b) × (b * div_up a b < a + b)
unfolding div_up
div_up-bounds a b h = elim (Bool-cases (a % b == 0)) [
  | inl even ↦ rw even (ground (arith, div-add-mod a b, mod-lt a h))
  | inr odd ↦ rw odd (ground (arith, div-add-mod a b, mod-lt a h, mul-add b (a / b) 1))
]

starts_from-length :
    (fuel i s size : ℕ)
    → 0 < s
    → i < size + s
    → size ≤ i + fuel
    → (size ≤ i + s * length (starts_from fuel i s size))
      × (i + s * length (starts_from fuel i s size) < size + s)
unfolding starts_from
starts_from-length zero i s size h l e = ground arith
starts_from-length (suc fuel) i s size h l e = elim (Bool-cases (ltb i size)) [
  | inl inside ↦
      let rest = starts_from-length fuel (i + s) s size h (ground arith) (omega arith) in
      rw inside (omega (arith, rest, mul-suc s (length (starts_from fuel (i + s) s size))))
  | inr past ↦ rw past (ground arith)
]

-- Two counts between the same multiples of a step are the same.
count_unique :
    (s size j k : ℕ) → size ≤ s * j → s * j < size + s → size ≤ s * k → s * k < size + s → j ≡ k
count_unique s size j k jl ju kl ku =
    let a : j < suc k = lt_of_mul-lt-mul_left s (omega (arith, mul-suc s k)) in
    let b : k < suc j = lt_of_mul-lt-mul_left s (omega (arith, mul-suc s j)) in omega arith

pub record Step (size batch_size n s : ℕ) : Type 0 where
  pub above : size ≤ s * n
  pub below : s * n < size + s
  pub step_positive : 0 < s
  pub step_le : s ≤ batch_size

last_batch :
    (m s batch_size size : ℕ)
    → s ≤ batch_size
    → batch_size * suc m < size + batch_size
    → s * suc m < size + s
last_batch m s batch_size size h l = omega (
  arith,
  mul-suc s m,
  mul-suc batch_size m,
  mul-le-mul_left m h,
  mul_comm m s,
  mul_comm m batch_size,
)

-- The batches are no longer than asked for.
pub Step-Step :
    (size batch_size : ℕ)
    → 0 < size
    → 0 < batch_size
    → Step size batch_size (div_up size batch_size) (div_up size (div_up size batch_size))
Step-Step size batch_size some_key some_size =
    let n = div_up size batch_size in
    let s = div_up size n in
    let count = div_up-bounds size batch_size some_size in
    let positive : 0 < n = lt_of_mul-lt-mul_left batch_size (omega (arith, count.0)) in
    let len = div_up-bounds size n positive in
    let small : s < suc batch_size =
      lt_of_mul-lt-mul_left n
        (omega (arith, len.1, count.0, mul-suc n batch_size, mul_comm n batch_size)) in
    record {
      above = omega (arith, len.0, mul_comm n s);
      below =
          subst (λ k. s * k < size + s) (omega arith)
            (last_batch (n - 1) s batch_size size (omega arith)
              (subst (λ k. batch_size * k < size + batch_size) (omega arith) count.1));
      step_positive = lt_of_mul-lt-mul_left n (omega (arith, len.0));
      step_le = omega arith;
    }

-- As many requests are made as results are waited for, so that the counter of a fetch comes to 0: the
-- number of batches is computed from the batch size, the length of a batch from their number.
pub length-starts :
    (multi_get : Bool) (size batch_size : ℕ)
    → 0 < size
    → 0 < batch_size
    → length (starts multi_get size batch_size) ≡ items multi_get size batch_size
unfolding starts step items batch_count
length-starts true size batch_size some_key some_size =
    let s = Step-Step size batch_size some_key some_size in
    let loop =
      starts_from-length size 0 (step true size batch_size) size s.step_positive
        (omega (arith, s.step_positive)) (omega arith) in
    count_unique (step true size batch_size) size _ _ (omega (arith, loop.0))
      (omega (arith, loop.1)) s.above s.below
length-starts false size batch_size some_key some_size =
    omega (arith, starts_from-length size 0 1 size (omega arith) (omega arith) (omega arith))
