-- ===== src/Service/Latch/Once.antt =====
-- A service finishes once, behind its last request (src/service/base/redis_service.cpp).
use graphize.Common.{
  ℕ, zero, suc, ◌+◌, ◌-◌, ◌≤◌, ◌<◌, ◌≡◌, refl, ap, sym, ◌∙◌, List, [], ◌∷◌, ◌++◌, Bool, true, false,
  arith, ltb, ◌==◌, if◌then◌else◌, pos, decrement, is_one, Bool-cases, inl, inr, ℕ_discrete, ==_iff,
  length,
}
use graphize.Common.Bag.{count, total, total_differ, le-total, below, count-below, total-all-one}
use graphize.Service.Latch.{Latch, cond_finish, deep_cond_finish, release, release_all}

-- 1 for a fetch that more releases are to come for.
pending : List ℕ → ℕ → ℕ
pending zs j = if ltb 0 (count j zs) then 1 else 0

left_open : ℕ → List ℕ → ℕ
unfolding pending
left_open n zs = total (pending zs) (below n)

left_open_step :
    (n z : ℕ) (zs : List ℕ)
    → z < n
    → left_open n (z ∷ zs) ≡ left_open n zs + (if count z zs == 0 then 1 else 0)
unfolding left_open
left_open_step n z zs h = ground (
  arith,
  total_differ (pending (z ∷ zs)) (pending zs) z (below n) (λ j ne. ground arith)
      (ground (arith, count-below n z)),
)

-- The latch while the releases of `zs` are to come.
record Inv (skipped : ℕ → Bool) (n : ℕ) (zs : List ℕ) (l : Latch) : Type 0 where
  cond_open : l.cond ≡ pos (left_open n zs)
  items_left : (j : ℕ) → skipped j ≡ false → 0 < count j zs → l.item_size_cond j ≡ pos (count j zs)
  skipped_once : (j : ℕ) → skipped j ≡ true → count j zs ≤ 1
  within : (j : ℕ) → 0 < count j zs → j < n
  finished_last : l.finished ≡ (if left_open n zs == 0 then 1 else 0)

-- `cond` was taken down from `suc k`.
cond_finish-count :
    (k : ℕ) (l : Latch)
    → l.cond ≡ pos (suc k)
    → l.finished ≡ 0
    → ((cond_finish l).cond ≡ pos k) × ((cond_finish l).finished ≡ (if k == 0 then 1 else 0))
unfolding cond_finish
cond_finish-count zero l c f = rw (c, f) (refl, refl)
cond_finish-count (suc k) l c f = rw (c, f) (refl, ground arith)

-- The last release of a fetch takes `cond` down.
last-count :
    (skipped : ℕ → Bool) (n z : ℕ) (zs : List ℕ) (l : Latch)
    → Inv skipped n (z ∷ zs) l
    → count z zs ≡ 0
    → ((cond_finish l).cond ≡ pos (left_open n zs))
      × ((cond_finish l).finished ≡ (if left_open n zs == 0 then 1 else 0))
last-count skipped n z zs l i e =
    let closing : left_open n (z ∷ zs) ≡ suc (left_open n zs) =
      ground (arith, left_open_step n z zs, i.within z) in
    cond_finish-count (left_open n zs) l (i.cond_open ∙ ap pos closing)
      (i.finished_last ∙ ground arith)

-- A fetch that is not skipped: what its counter says, and that it is not the last release if others
-- of it are to come.
item_waits :
    (skipped : ℕ → Bool) (n z : ℕ) (zs : List ℕ) (l : Latch)
    → Inv skipped n (z ∷ zs) l
    → skipped z ≡ false
    → l.item_size_cond z ≡ pos (suc (count z zs))
item_waits skipped n z zs l i is_not = i.items_left z is_not (ground arith) ∙ ap pos (ground arith)

deep_cond_finish-item :
    (z j : ℕ) (l : Latch)
    → (deep_cond_finish z l).item_size_cond j
      ≡ (if z == j then decrement (l.item_size_cond z) else l.item_size_cond j)
unfolding deep_cond_finish cond_finish
deep_cond_finish-item z j l = elim (Bool-cases (is_one (l.item_size_cond z))) [
  | inl one ↦ rw one refl
  | inr more ↦ rw more refl
]

release-items :
    (skipped : ℕ → Bool) (n z : ℕ) (zs : List ℕ) (l : Latch)
    → Inv skipped n (z ∷ zs) l
    → (j : ℕ) → skipped j ≡ false
    → 0 < count j zs
    → (release skipped z l).item_size_cond j ≡ pos (count j zs)
unfolding release cond_finish
release-items skipped n z zs l i j kept more = elim (ℕ_discrete z j) [
  | yes e ↦
      let kept_z : skipped z ≡ false = ap skipped e ∙ kept in
      let waits = item_waits skipped n z zs l i kept_z in
      rw kept_z (
        deep_cond_finish-item z j l
        ∙ rw ((==_iff z j).1 e) (ap decrement waits)
        ∙ ap (λ k. pos (count k zs)) e)
  | no ne ↦
      let waits : l.item_size_cond j ≡ pos (count j zs) =
        i.items_left j kept (omega arith) ∙ ap pos (ground arith) in
      elim (Bool-cases (skipped z)) [
        | inl is ↦ rw is waits
        | inr is_not ↦ rw is_not (deep_cond_finish-item z j l ∙ ground (arith, waits))
      ]
]

release-count :
    (skipped : ℕ → Bool) (n z : ℕ) (zs : List ℕ) (l : Latch)
    → Inv skipped n (z ∷ zs) l
    → ((release skipped z l).cond ≡ pos (left_open n zs))
      × ((release skipped z l).finished ≡ (if left_open n zs == 0 then 1 else 0))
unfolding release deep_cond_finish cond_finish
release-count skipped n z zs l i = elim (Bool-cases (skipped z)) [
  | inl is ↦ rw is (last-count skipped n z zs l i (ground (arith, i.skipped_once z is)))
  | inr is_not ↦
      let waits = item_waits skipped n z zs l i is_not in
      elim (ℕ_discrete (count z zs) 0) [
        | yes none_left ↦
            let one = waits ∙ ap (λ c. pos (suc c)) none_left in
            rw (is_not, one) (last-count skipped n z zs l i none_left)
        | no more ↦
            let same_open : left_open n (z ∷ zs) ≡ left_open n zs =
              ground (arith, left_open_step n z zs, i.within z) in
            let two : l.item_size_cond z ≡ pos (suc (suc (count z zs - 1))) =
              waits ∙ ap pos (omega arith) in
            rw (is_not, two)
              (
                i.cond_open ∙ ap pos same_open,
                i.finished_last ∙ ap (λ c. if c == 0 then 1 else 0) same_open,
              )
      ]
]

release-Inv :
    (skipped : ℕ → Bool) (n z : ℕ) (zs : List ℕ) (l : Latch)
    → Inv skipped n (z ∷ zs) l
    → Inv skipped n zs (release skipped z l)
release-Inv skipped n z zs l i = record {
  cond_open = (release-count skipped n z zs l i).0;
  items_left = release-items skipped n z zs l i;
  skipped_once = λ j is. ground (arith, i.skipped_once j is);
  within = λ j some. ground (arith, i.within j);
  finished_last = (release-count skipped n z zs l i).1;
}

release_all-Inv :
    (skipped : ℕ → Bool) (n : ℕ) (ys zs : List ℕ) (l : Latch)
    → Inv skipped n (ys ++ zs) l
    → Inv skipped n zs (release_all skipped ys l)
unfolding release_all
release_all-Inv skipped n [] zs l i = i
release_all-Inv skipped n (y ∷ ys) zs l i =
    release_all-Inv skipped n ys zs (release skipped y l) (release-Inv skipped n y (ys ++ zs) l i)

-- What is expected of each fetch.
pub record Wanted (skipped : ℕ → Bool) (n : ℕ) (l : Latch) (xs : List ℕ) : Type 0 where
  pub all_fetches : l.cond ≡ pos n
  pub some_each : (j : ℕ) → j < n → 0 < count j xs
  pub no_other : (j : ℕ) → 0 < count j xs → j < n
  pub items_each :
      (j : ℕ) → skipped j ≡ false → 0 < count j xs → l.item_size_cond j ≡ pos (count j xs)
  pub skipped_each : (j : ℕ) → skipped j ≡ true → count j xs ≤ 1
  pub not_finished : l.finished ≡ 0
  pub some_fetch : 0 < n

Wanted-Inv :
    (skipped : ℕ → Bool) (n : ℕ) (l : Latch) (xs : List ℕ)
    → Wanted skipped n l xs
    → Inv skipped n xs l
unfolding left_open
Wanted-Inv skipped n l xs w =
    let every : left_open n xs ≡ n =
      total-all-one n (pending xs) (λ j h. ground (arith, w.some_each j h)) in
    record {
      cond_open = w.all_fetches ∙ ap pos (sym every);
      items_left = w.items_each;
      skipped_once = w.skipped_each;
      within = w.no_other;
      finished_last = w.not_finished ∙ ground (arith, every, w.some_fetch);
    }

left_open_pos : (n z : ℕ) (zs : List ℕ) → z < n → 0 < left_open n (z ∷ zs)
unfolding left_open
left_open_pos n z zs h = ground (arith, le-total (pending (z ∷ zs)) z (below n), count-below n z)

left_open_none : (n : ℕ) → left_open n [] ≡ 0
unfolding left_open total below
left_open_none zero = refl
left_open_none (suc n) = ground (arith, left_open_none n)

-- While releases are to come nothing is finished; behind the last one the service is, once.
pub release_all-finished :
    (skipped : ℕ → Bool) (n : ℕ) (l : Latch) (ys zs : List ℕ)
    → Wanted skipped n l (ys ++ zs)
    → (release_all skipped ys l).finished ≡ (if length zs == 0 then 1 else 0)
release_all-finished skipped n l ys [] w =
    let i = release_all-Inv skipped n ys [] l (Wanted-Inv skipped n l (ys ++ []) w) in
    i.finished_last ∙ ap (λ k. if k == 0 then 1 else 0) (left_open_none n)
release_all-finished skipped n l ys (z ∷ zs) w =
    let i = release_all-Inv skipped n ys (z ∷ zs) l (Wanted-Inv skipped n l (ys ++ z ∷ zs) w) in
    i.finished_last ∙ ground (arith, left_open_pos n z zs, i.within z)
