-- ===== src/Service/Batches/Slices.antt =====
-- The requests of a fetch cover its keys (src/service/base/redis_service.cpp).
use graphize.Common.{
  ℕ, zero, suc, ◌+◌, ◌-◌, ◌≤◌, ◌<◌, ◌≡◌, refl, ap, sym, ◌∙◌, List, [], ◌∷◌, ◌++◌, Bool, arith, ltb,
  length, take, drop, length-drop, min, Bool-cases, true, false, inl, inr,
}
use graphize.Service.Batches.{batch_count, step, starts_from, starts, slice, slices, requested}
use graphize.Service.Batches.Count.{Step-Step}

module _ {ℓ} {A : Type ℓ} where
  drop_all : (n : ℕ) (xs : List A) → length xs ≤ n → drop n xs ≡ []
  drop_all zero [] h = refl
  drop_all zero (x ∷ xs) h = absurd (omega arith)
  drop_all (suc n) [] h = refl
  drop_all (suc n) (x ∷ xs) h = drop_all n xs (omega arith)

  drop_nil : (n : ℕ) → drop {A = A} n [] ≡ []
  drop_nil zero = refl
  drop_nil (suc n) = refl

  drop-drop : (i s : ℕ) (xs : List A) → drop (i + s) xs ≡ drop s (drop i xs)
  drop-drop zero s xs = let e : 0 + s ≡ s = omega arith in rw e refl
  drop-drop (suc i) s [] = drop_nil (suc i + s) ∙ sym (drop_nil s)
  drop-drop (suc i) s (x ∷ xs) =
      let e : suc i + s ≡ suc (i + s) = omega arith in rw e (drop-drop i s xs)

  take_clamped : (n s : ℕ) (xs : List A) → n ≡ min s (length xs) → take n xs ++ drop s xs ≡ xs
  take_clamped zero zero xs h = refl
  take_clamped zero (suc s) [] h = refl
  take_clamped zero (suc s) (x ∷ xs) h = absurd (omega arith)
  take_clamped (suc n) zero xs h = absurd (omega arith)
  take_clamped (suc n) (suc s) [] h = absurd (omega arith)
  take_clamped (suc n) (suc s) (x ∷ xs) h = ap (◌∷◌ x) (take_clamped n s xs (omega arith))

  -- A slice and what stands behind it.
  slice-append-drop :
      (s : ℕ) (keys : List A) (i : ℕ) → slice s keys i ++ drop (i + s) keys ≡ drop i keys
  unfolding slice
  slice-append-drop s keys i =
      ap (◌++◌ (slice s keys i)) (drop-drop i s keys)
      ∙ take_clamped (min (i + s) (length keys) - i) s (drop i keys)
          (omega (arith, length-drop i keys))

  slices-eq-drop :
      (fuel i s : ℕ) (keys : List A)
      → 0 < s
      → length keys ≤ i + fuel
      → slices s keys (starts_from fuel i s (length keys)) ≡ drop i keys
  unfolding slices starts_from
  slices-eq-drop zero i s keys h e = sym (drop_all i keys (omega arith))
  slices-eq-drop (suc fuel) i s keys h e = elim (Bool-cases (ltb i (length keys))) [
    | inl inside ↦ rw inside (
        ap (◌++◌ (slice s keys i)) (slices-eq-drop fuel (i + s) s keys h (omega arith))
        ∙ slice-append-drop s keys i)
    | inr past ↦ rw past (sym (drop_all i keys (ground arith)))
  ]

  -- For at least one key and a positive batch size, the ranges of keys that do_service gives to the client for the
  -- requests of a fetch are, put together in the order of the loop, exactly its keys: none is left out, or in two.
  pub requested-eq :
      (multi_get : Bool) (keys : List A) (batch_size : ℕ)
      → 0 < length keys
      → 0 < batch_size
      → requested multi_get keys batch_size ≡ keys
  unfolding requested starts step batch_count
  requested-eq true keys batch_size some_key some_size =
      let s = Step-Step (length keys) batch_size some_key some_size in
      slices-eq-drop (length keys) 0 _ keys s.step_positive (omega arith)
  requested-eq false keys batch_size some_key some_size =
      slices-eq-drop (length keys) 0 1 keys (omega arith) (omega arith)
