-- ===== src/Service/Latch/Finish.antt =====
-- RedisService::do_service goes on behind its last counter once, whatever the order in which requests come back
-- (src/service/base/redis_service.cpp).
use Prim.Native.String.{String}
use graphize.Common.{
  ℕ, zero, suc, ◌≤◌, ◌<◌, ◌≡◌, refl, ap, sym, ◌∙◌, List, [], ◌∷◌, ◌++◌, none, Bool, true, false,
  arith, ◌==◌, if◌then◌else◌, length, get_elem?, pos, inl, inr, Option-cases, lt_of_get_elem?,
}
use graphize.Common.Bag.{count}
use graphize.Service.Batches.{items, starts, starts_from}
use graphize.Service.Batches.Count.{length-starts}
use graphize.Service.Fetch.{FetchInfo}
use graphize.Service.Latch.{skips, is_skipped, releases, expected, new_latch, release_all}
use graphize.Service.Latch.Once.{Wanted, release_all-finished}

length_of_none : (infos : List FetchInfo) (j : ℕ) → get_elem? infos j ≡ none → length infos ≤ j
length_of_none [] j h = omega arith
length_of_none (f ∷ infos) zero h = absurd cc
length_of_none (f ∷ infos) (suc j) h = omega (arith, length_of_none infos j h)

starts_pos :
    (multi : Bool) (size batch_size : ℕ) → 0 < size → 0 < length (starts multi size batch_size)
unfolding starts starts_from
starts_pos multi zero batch_size h = absurd (omega arith)
starts_pos multi (suc size) batch_size h = ground arith

releases_pos :
    (has_client : String → Bool) (multi : Bool) (batch_size : ℕ) (fetch : FetchInfo)
    → 0 < releases has_client multi batch_size fetch
unfolding releases skips
releases_pos has_client multi batch_size fetch =
    ground (arith, starts_pos multi (length fetch.keys) batch_size)

releases-items :
    (has_client : String → Bool) (multi : Bool) (batch_size : ℕ) (fetch : FetchInfo)
    → 0 < batch_size
    → skips has_client fetch ≡ false
    → releases has_client multi batch_size fetch ≡ items multi (length fetch.keys) batch_size
unfolding releases skips
releases-items has_client multi batch_size fetch h is_not =
    rw is_not (length-starts multi (length fetch.keys) batch_size (ground arith) h)

releases_skipped :
    (has_client : String → Bool) (multi : Bool) (batch_size : ℕ) (fetch : FetchInfo)
    → skips has_client fetch ≡ true
    → releases has_client multi batch_size fetch ≤ 1
unfolding releases skips
releases_skipped has_client multi batch_size fetch is = rw is (omega arith)

module _ (has_client : String → Bool) (multi : Bool) (batch_size : ℕ) (infos : List FetchInfo) where
  -- What is expected of one position.
  record IsExpected (j : ℕ) : Type 0 where
    some_in : j < length infos → 0 < expected has_client multi batch_size infos j
    only_in : 0 < expected has_client multi batch_size infos j → j < length infos
    as_items :
        is_skipped has_client infos j ≡ false
        → 0 < expected has_client multi batch_size infos j
        → (new_latch multi batch_size infos).item_size_cond j
          ≡ pos (expected has_client multi batch_size infos j)
    as_skipped :
        is_skipped has_client infos j ≡ true → expected has_client multi batch_size infos j ≤ 1

  each_IsExpected : 0 < batch_size → (j : ℕ) → IsExpected j
  unfolding expected is_skipped new_latch
  each_IsExpected some_size j = elim (Option-cases (get_elem? infos j)) [
    | inl e ↦
        let past = length_of_none infos j e in
        record {
          some_in = λ h. absurd (omega arith);
          only_in = rw e (λ h. absurd (omega arith));
          as_items = rw e (λ is_not h. absurd (omega arith));
          as_skipped = rw e (λ is. omega arith);
        }
    | inr (fetch, e) ↦ record {
      some_in = λ h. rw e (releases_pos has_client multi batch_size fetch);
      only_in = λ h. lt_of_get_elem? infos j e;
      as_items = rw e (λ is_not h.
          ap pos (sym (releases-items has_client multi batch_size fetch some_size is_not)));
      as_skipped = rw e (λ is. releases_skipped has_client multi batch_size fetch is);
    }
  ]

  order_Wanted :
      (xs : List ℕ)
      → 0 < length infos
      → 0 < batch_size
      → ((j : ℕ) → count j xs ≡ expected has_client multi batch_size infos j)
      → Wanted (is_skipped has_client infos) (length infos) (new_latch multi batch_size infos) xs
  unfolding new_latch
  order_Wanted xs some_fetch some_size order =
      let each = each_IsExpected some_size in
      record {
        all_fetches = refl;
        some_each = λ j h. omega (arith, (each j).some_in h, order j);
        no_other = λ j h. (each j).only_in (omega (arith, order j));
        items_each = λ j is_not h.
            (each j).as_items is_not (omega (arith, order j)) ∙ ap pos (sym (order j));
        skipped_each = λ j is. omega (arith, (each j).as_skipped is, order j);
        not_finished = refl;
        some_fetch = some_fetch;
      }

-- With at least one fetch and a positive batch size: when a part of the releases has happened that do_service makes
-- for its fetches, one for each fetch that is skipped and one for each request of the others, in any order, then the
-- code has gone on behind the last counter exactly once if no release is left, and not at all if one is.
pub finish_once :
    (has_client : String → Bool) (enable_multi_get : Bool) (batch_size : ℕ)
    (fetch_info_vec : List FetchInfo) (ys zs : List ℕ)
    → 0 < length fetch_info_vec
    → 0 < batch_size
    → ((j : ℕ)
        → count j (ys ++ zs) ≡ expected has_client enable_multi_get batch_size fetch_info_vec j)
    → (release_all
        (is_skipped has_client fetch_info_vec)
        ys
        (new_latch enable_multi_get batch_size fetch_info_vec)).finished
      ≡ (if length zs == 0 then 1 else 0)
finish_once has_client multi batch_size infos ys zs some_fetch some_size order =
    release_all-finished (is_skipped has_client infos) (length infos)
      (new_latch multi batch_size infos) ys zs
      (order_Wanted has_client multi batch_size infos (ys ++ zs) some_fetch some_size order)
