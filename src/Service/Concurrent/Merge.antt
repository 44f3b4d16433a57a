-- ===== src/Service/Concurrent/Merge.antt =====
-- The slices of a service are merged once, behind the last (src/service/base/concurrent_service.cpp).
use graphize.Common.{
  ℕ, zero, suc, ◌+◌, ◌<◌, ◌≡◌, ◌≢◌, refl, ap, sym, subst, ◌∙◌, List, [], ◌∷◌, none, some, arith,
  ltb, ◌==◌, if◌then◌else◌, pos, decrement, is_one, Bool-cases, inl, inr, ℕ_discrete, ==_iff,
  Option-cases, some-injective, none≢some,
}
use graphize.Common.Bag.{count, total, total_differ, le-total, below, count-below, total-all-one}
use graphize.Service.Concurrent.{
  Phase, processing, releasing, ended, Slices, start_slices, advance, step_phase, step_slice,
  run_slices,
}

-- 1 for a slice that is to release the counter, and for one that is processed.
unfoldable pub live : Phase → ℕ
live processing = 1
live releasing = 1
live ended = 0

unfoldable pub passed : Phase → ℕ
passed processing = 0
passed releasing = 1
passed ended = 1

-- How many slices have not ended.
unfoldable pub left : ℕ → Slices → ℕ
left n s = total (λ j. live (s.phase j)) (below n)

-- What has been processed, and that `merge` was called once if no slice is left and not if one is.
pub record Progress (n : ℕ) (s : Slices) : Type 0 where
  pub process_once : (j : ℕ) → count j s.processed ≡ passed (s.phase j)
  pub merge_last : s.merged ≡ (if left n s == 0 then s.processed ∷ [] else [])

record SlicesInv (n : ℕ) (s : Slices) : Type 0 where
  counted : s.count_cnd ≡ pos (left n s)
  progress : Progress n s

live_pos : (n i : ℕ) (s : Slices) → i < n → live (s.phase i) ≡ 1 → 0 < left n s
unfolding left
live_pos n i s h l = ground (arith, le-total (λ j. live (s.phase j)) i (below n), count-below n i)

phase_at : (i : ℕ) (p : Phase) (s : Slices) → (advance i p s).phase i ≡ p
phase_at i p s = rw ((==_iff i i).1 refl) refl

phase_past : (i j : ℕ) (p : Phase) (s : Slices) → i ≢ j → (advance i p s).phase j ≡ s.phase j
phase_past i j p s ne = ground arith

left-advance :
    (n i : ℕ) (p : Phase) (s : Slices)
    → i < n
    → left n (advance i p s) + live (s.phase i) ≡ left n s + live p
unfolding left
left-advance n i p s h =
    total_differ (λ j. live ((advance i p s).phase j)) (λ j. live (s.phase j)) i (below n)
      (λ j ne. ap live (phase_past i j p s ne)) (ground (arith, count-below n i))
    ∙ ap (λ x. total (λ j. live (s.phase j)) (below n) + live x) (phase_at i p s)

-- The phases behind a step, slice by slice.
passed-advance :
    (i : ℕ) (p : Phase) (s : Slices) (k : ℕ) (more : ℕ → ℕ)
    → more i ≡ k
    → ((j : ℕ) → i ≢ j → more j ≡ passed (s.phase j))
    → k ≡ passed p
    → (j : ℕ) → more j ≡ passed ((advance i p s).phase j)
passed-advance i p s k more here others now j = elim (ℕ_discrete i j) [
  | yes e ↦
      ap more (sym e)
      ∙ here
      ∙ now
      ∙ ap passed (sym (phase_at i p s))
      ∙ ap (λ x. passed ((advance i p s).phase x)) e
  | no ne ↦ others j ne ∙ ap passed (sym (phase_past i j p s ne))
]

process-SlicesInv :
    (n i : ℕ) (s : Slices)
    → i < n
    → s.phase i ≡ processing
    → SlicesInv n s
    → SlicesInv n (record (advance i releasing s) { processed = i ∷ s.processed })
unfolding live passed left
process-SlicesInv n i s h e inv =
    let same_left : left n (advance i releasing s) ≡ left n s =
      omega (arith, left-advance n i releasing s h, ap live e) in
    let some_left = live_pos n i s h (ap live e) in
    record {
      counted = inv.counted ∙ ap pos (sym same_left);
      progress = record {
        process_once =
            passed-advance i releasing s 1 (λ j. count j (i ∷ s.processed))
              (ground (arith, inv.progress.process_once i, ap passed e))
              (λ j ne. ground (arith, inv.progress.process_once j)) refl;
        merge_last = inv.progress.merge_last ∙ ground (arith, same_left, some_left);
      };
    }

merge_count :
    (k : ℕ) (s : Slices)
    → s.count_cnd ≡ pos (suc k)
    → s.merged ≡ []
    → (decrement s.count_cnd ≡ pos k)
      × ((if is_one s.count_cnd then s.processed ∷ s.merged else s.merged)
          ≡ (if k == 0 then s.processed ∷ [] else []))
merge_count zero s c m = rw (c, m) (refl, refl)
merge_count (suc k) s c m = rw (c, m) (refl, ground arith)

release-SlicesInv :
    (n i : ℕ) (s : Slices)
    → i < n
    → s.phase i ≡ releasing
    → SlicesInv n s
    → SlicesInv n (record (advance i ended s) {
      count_cnd = decrement s.count_cnd;
      merged = if is_one s.count_cnd then s.processed ∷ s.merged else s.merged;
    })
unfolding live passed left
release-SlicesInv n i s h e inv =
    let one_less : left n s ≡ suc (left n (advance i ended s)) =
      omega (arith, left-advance n i ended s h, ap live e) in
    let unmerged : s.merged ≡ [] =
      inv.progress.merge_last
      ∙ ap (λ k. if k == 0 then s.processed ∷ [] else []) one_less
      ∙ ground arith in
    let (counted, merged) =
      merge_count (left n (advance i ended s)) s (inv.counted ∙ ap pos one_less) unmerged in
    record {
      counted = counted;
      progress = record {
        process_once =
            passed-advance i ended s 1 (λ j. count j s.processed)
              (inv.progress.process_once i ∙ ap passed e) (λ j ne. inv.progress.process_once j)
              refl;
        merge_last = merged;
      };
    }

phase-SlicesInv :
    (n i : ℕ) (p : Phase) (s s' : Slices)
    → i < n
    → s.phase i ≡ p
    → step_phase i p s ≡ some s'
    → SlicesInv n s
    → SlicesInv n s'
unfolding step_phase
phase-SlicesInv n i processing s s' h e f inv =
    subst (SlicesInv n) (some-injective f) (process-SlicesInv n i s h e inv)
phase-SlicesInv n i releasing s s' h e f inv =
    subst (SlicesInv n) (some-injective f) (release-SlicesInv n i s h e inv)
phase-SlicesInv n i ended s s' h e f inv = absurd (none≢some f)

step-SlicesInv :
    (n i : ℕ) (s s' : Slices) → step_slice n i s ≡ some s' → SlicesInv n s → SlicesInv n s'
unfolding step_slice
step-SlicesInv n i s s' e inv = elim (Bool-cases (ltb i n)) [
  | inl inside ↦
      phase-SlicesInv n i (s.phase i) s s' (ground arith) refl
        (ap (λ t. if t then step_phase i (s.phase i) s else none) (sym inside) ∙ e) inv
  | inr past ↦
      absurd (none≢some (ap (λ t. if t then step_phase i (s.phase i) s else none) (sym past) ∙ e))
]

run-SlicesInv :
    (n : ℕ) (is : List ℕ) (s s' : Slices)
    → run_slices n is s ≡ some s'
    → SlicesInv n s
    → SlicesInv n s'
unfolding run_slices
run-SlicesInv n [] s s' e inv = subst (SlicesInv n) (some-injective e) inv
run-SlicesInv n (i ∷ is) s s' e inv = elim (Option-cases (step_slice n i s)) [
  | inl stuck ↦
      absurd (
        none≢some (ap (λ o. elim o [ none ↦ none | some s1 ↦ run_slices n is s1 ]) (sym stuck) ∙ e))
  | inr (s1, f) ↦
      run-SlicesInv n is s1 s'
        (ap (λ o. elim o [ none ↦ none | some s2 ↦ run_slices n is s2 ]) (sym f) ∙ e)
        (step-SlicesInv n i s s1 f inv)
]

start-SlicesInv : (n : ℕ) → 0 < n → SlicesInv n (start_slices n)
unfolding start_slices live passed left
start-SlicesInv n some_slice =
    let all_left : left n (start_slices n) ≡ n = total-all-one n (λ j. 1) (λ j h. refl) in
    record {
      counted = ap pos (sym all_left);
      progress = record {
        process_once = λ j. refl;
        merge_last = ground (arith, all_left, some_slice);
      };
    }

-- With at least one slice and under any interleaving no slice is processed twice, and `merge` is
-- called once, with every slice processed, when the last slice has ended, and not before.
pub run_slices-Progress :
    (slice_num : ℕ) (is : List ℕ) (s : Slices)
    → 0 < slice_num
    → run_slices slice_num is (start_slices slice_num) ≡ some s
    → Progress slice_num s
run_slices-Progress slice_num is s some_slice runs =
    (run-SlicesInv slice_num is (start_slices slice_num) s runs
      (start-SlicesInv slice_num some_slice)).progress
