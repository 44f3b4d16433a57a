-- ===== src/Service/Concurrent.antt =====
-- src/service/base/concurrent_service.cpp, ConcurrentService::do_service: slices in bthreads of their
-- own, and a counter behind which the last of them merges.
pub mod Merge
use graphize.Common.{
  ℕ, zero, suc, List, [], ◌∷◌, Option, none, some, ltb, ◌==◌, if◌then◌else◌, ℤ, pos, decrement,
  is_one,
}

-- A bthread before `process`, before `fetch_sub`, and at its end.
pub data Phase : Type 0 where
  processing releasing ended : Phase

pub record Slices : Type 0 where
  pub count_cnd : ℤ
  pub phase : ℕ → Phase
  pub processed : List ℕ  -- the last one first
  pub merged : List (List ℕ)  -- for each call of `merge`, what had been processed

-- Behind the loop of do_service, for what prepare_sub_requests returned.
unfoldable pub start_slices : ℕ → Slices
start_slices slice_num = record {
  count_cnd = pos slice_num;
  phase = λ i. processing;
  processed = [];
  merged = [];
}

abbrev pub advance : ℕ → Phase → Slices → Slices
advance i p s = record s { phase = λ j. if i == j then p else s.phase j }

-- One step of the bthread of slice `i`. The merge is followed by run_output_nodes_if_ready.
unfoldable pub step_phase : ℕ → Phase → Slices → Option Slices
step_phase i processing s = some (record (advance i releasing s) { processed = i ∷ s.processed })
step_phase i releasing s = some (record (advance i ended s) {
  count_cnd = decrement s.count_cnd;
  merged = if is_one s.count_cnd then s.processed ∷ s.merged else s.merged;
})
step_phase i ended s = none

unfoldable pub step_slice : ℕ → ℕ → Slices → Option Slices
unfolding step_phase
step_slice slice_num i s = if ltb i slice_num then step_phase i (s.phase i) s else none

-- The steps of an execution, given by the slices that make them.
unfoldable pub run_slices : ℕ → List ℕ → Slices → Option Slices
unfolding step_slice
run_slices slice_num [] s = some s
run_slices slice_num (i ∷ is) s = elim (step_slice slice_num i s) [
  | none ↦ none
  | some s' ↦ run_slices slice_num is s'
]
