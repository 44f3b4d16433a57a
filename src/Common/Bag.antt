-- ===== src/Common/Bag.antt =====
-- Lists of numbers compared by how often each number occurs in them, and sums over lists.
use Prim.Native.Nat.{ℕ, zero, suc, ◌+◌, ◌≤◌, ◌<◌}
use mathlib.Core.Path.{◌≡◌, refl, sym, subst, ap}
use mathlib.Core.Logic.{inl, inr, ◌≢◌}
use mathlib.Core.Bool.{Bool, true, ◌&&◌}
use mathlib.Core.List.{List, [], ◌∷◌, ◌++◌}
use native.Mathlib.Omega.{arith}
use native.Mathlib.Decide.{ℕ_discrete}
use graphize.Common.Tests.{◌==◌, ltb, if◌then◌else◌, Bool-cases, ==_iff}
use graphize.Common.Lists.{length}

-- 1 if the two numbers are the same, 0 if not.
abbrev pub same : ℕ → ℕ → ℕ
same a b = if a == b then 1 else 0

abbrev pub count : ℕ → List ℕ → ℕ
count a [] = 0
count a (x ∷ xs) = same a x + count a xs

abbrev pub contains : ℕ → List ℕ → Bool
contains a xs = ltb 0 (count a xs)

pub count-append :
    (v : ℕ) (front back : List ℕ) → count v (front ++ back) ≡ count v front + count v back
count-append v [] back = ground arith
count-append v (head ∷ front) back = ground (arith, count-append v front back)

-- Without the first occurrence of a number.
unfoldable pub erase : ℕ → List ℕ → List ℕ
erase a [] = []
erase a (x ∷ xs) = if a == x then xs else x ∷ erase a xs

-- Without the items of the first list.
unfoldable pub diff : List ℕ → List ℕ → List ℕ
diff [] ys = ys
diff (x ∷ xs) ys = diff xs (erase x ys)

-- Every number occurs in the second list at least as often.
abbrev pub IsWithin : List ℕ → List ℕ → Type 0
IsWithin xs ys = (a : ℕ) → count a xs ≤ count a ys

abbrev pub IsNodup : List ℕ → Type 0
IsNodup xs = (a : ℕ) → count a xs ≤ 1

-- The sum of a weight over a list.
unfoldable pub total : (ℕ → ℕ) → List ℕ → ℕ
total w [] = 0
total w (x ∷ xs) = w x + total w xs

pub count-erase :
    (a b : ℕ) (xs : List ℕ) → 0 < count b xs → count a (erase b xs) + same a b ≡ count a xs
unfolding erase
count-erase a b [] h = absurd (omega arith)
count-erase a b (x ∷ xs) h = ground (arith, count-erase a b xs)

pub total-erase :
    (w : ℕ → ℕ) (b : ℕ) (xs : List ℕ) → 0 < count b xs → total w (erase b xs) + w b ≡ total w xs
unfolding erase total
total-erase w b [] h = absurd (omega arith)
total-erase w b (x ∷ xs) h = ground (arith, total-erase w b xs)

IsWithin-head : (x : ℕ) (xs ys : List ℕ) → IsWithin (x ∷ xs) ys → 0 < count x ys
IsWithin-head x xs ys h = ground (arith, h x)

IsWithin-erase : (x : ℕ) (xs ys : List ℕ) → IsWithin (x ∷ xs) ys → IsWithin xs (erase x ys)
IsWithin-erase x xs ys h a = omega (arith, h a, count-erase a x ys (IsWithin-head x xs ys h))

pub count-diff :
    (a : ℕ) (xs ys : List ℕ) → IsWithin xs ys → count a (diff xs ys) + count a xs ≡ count a ys
unfolding diff
count-diff a [] ys h = omega arith
count-diff a (x ∷ xs) ys h = omega (
  arith,
  count-diff a xs (erase x ys) (IsWithin-erase x xs ys h),
  count-erase a x ys (IsWithin-head x xs ys h),
)

pub total-diff :
    (w : ℕ → ℕ) (xs ys : List ℕ) → IsWithin xs ys → total w (diff xs ys) + total w xs ≡ total w ys
unfolding diff total
total-diff w [] ys h = omega arith
total-diff w (x ∷ xs) ys h = omega (
  arith,
  total-diff w xs (erase x ys) (IsWithin-erase x xs ys h),
  total-erase w x ys (IsWithin-head x xs ys h),
)

pub total-append : (w : ℕ → ℕ) (xs ys : List ℕ) → total w (xs ++ ys) ≡ total w xs + total w ys
unfolding total
total-append w [] ys = omega arith
total-append w (x ∷ xs) ys = omega (arith, total-append w xs ys)

pub total-one : (w : ℕ → ℕ) (x : ℕ) → total w (x ∷ []) ≡ w x
unfolding total
total-one w x = omega arith

-- One item with a positive weight, from a positive sum.
pub total_pos : (w : ℕ → ℕ) (xs : List ℕ) → 0 < total w xs → (x : ℕ) × (0 < count x xs) × (0 < w x)
unfolding total
total_pos w [] h = absurd (omega arith)
total_pos w (x ∷ xs) h = elim (Bool-cases (ltb 0 (w x))) [
  | inl here ↦ (x, ground arith, ground arith)
  | inr no_weight ↦ let (y, m, p) = total_pos w xs (ground arith) in (y, omega arith, p)
]

pub le-total : (w : ℕ → ℕ) (x : ℕ) (xs : List ℕ) → 0 < count x xs → w x ≤ total w xs
le-total w x xs h = omega (arith, total-erase w x xs h)

pub length-eq-total : (xs : List ℕ) → length xs ≡ total (λ _. 1) xs
unfolding total
length-eq-total [] = refl
length-eq-total (x ∷ xs) = omega (arith, length-eq-total xs)

pub length-le : (xs ys : List ℕ) → IsWithin xs ys → length xs ≤ length ys
length-le xs ys h =
    omega (arith, length-eq-total xs, length-eq-total ys, total-diff (λ _. 1) xs ys h)

-- A list without repetitions lies within every list that has its items.
pub IsNodup-IsWithin :
    (xs ys : List ℕ) → IsNodup xs → ((a : ℕ) → 0 < count a xs → 0 < count a ys) → IsWithin xs ys
IsNodup-IsWithin xs ys once sub a = ground (arith, once a, sub a)

-- A test on every item.
unfoldable pub all : (ℕ → Bool) → List ℕ → Bool
all p [] = true
all p (x ∷ xs) = p x && all p xs

pub all_sound : (p : ℕ → Bool) (xs : List ℕ) (v : ℕ) → all p xs ≡ true → 0 < count v xs → p v ≡ true
unfolding all
all_sound p [] v h m = absurd (omega arith)
all_sound p (x ∷ xs) v h m = elim (Bool-cases (v == x)) [
  | inl hit ↦ subst (λ w. p w ≡ true) (sym ((==_iff v x).0 hit)) (ground arith)
  | inr miss ↦ all_sound p xs v (ground arith) (ground arith)
]

pub total_same :
    (w w' : ℕ → ℕ) (x : ℕ) (us : List ℕ)
    → ((j : ℕ) → x ≢ j → w j ≡ w' j)
    → count x us ≡ 0
    → total w us ≡ total w' us
unfolding total
total_same w w' x [] h e = refl
total_same w w' x (u ∷ us) h e = elim (ℕ_discrete x u) [
  | yes at_u ↦ absurd (ground arith)
  | no ne ↦ omega (arith, h u ne, total_same w w' x us h (ground arith))
]

-- Two weights that differ at one place.
pub total_differ :
    (w w' : ℕ → ℕ) (x : ℕ) (us : List ℕ)
    → ((j : ℕ) → x ≢ j → w j ≡ w' j)
    → count x us ≡ 1
    → total w us + w' x ≡ total w' us + w x
unfolding total
total_differ w w' x [] h e = absurd (omega arith)
total_differ w w' x (u ∷ us) h e = elim (ℕ_discrete x u) [
  | yes at_u ↦ omega (arith, ap w at_u, ap w' at_u, total_same w w' x us h (ground arith))
  | no ne ↦ omega (arith, h u ne, total_differ w w' x us h (ground arith))
]

pub total-cong :
    (w w' : ℕ → ℕ) (us : List ℕ)
    → ((u : ℕ) → 0 < count u us → w u ≡ w' u)
    → total w us ≡ total w' us
unfolding total
total-cong w w' [] h = refl
total-cong w w' (u ∷ us) h =
    omega (arith, h u (ground arith), total-cong w w' us (λ v m. h v (omega arith)))

-- The positions below a number.
unfoldable pub below : ℕ → List ℕ
below zero = []
below (suc n) = n ∷ below n

pub count-below : (n j : ℕ) → count j (below n) ≡ (if ltb j n then 1 else 0)
unfolding below
count-below zero j = ground arith
count-below (suc n) j = ground (arith, count-below n j)

pub total-all-one : (n : ℕ) (w : ℕ → ℕ) → ((j : ℕ) → j < n → w j ≡ 1) → total w (below n) ≡ n
unfolding total below
total-all-one zero w h = refl
total-all-one (suc n) w h =
    omega (arith, h n (omega arith), total-all-one n w (λ j l. h j (omega arith)))
