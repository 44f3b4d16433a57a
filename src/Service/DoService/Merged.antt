-- ===== src/Service/DoService/Merged.antt =====
-- When all requests have ended, merge_cache_data meets neither a missing key nor a null fetch
-- (src/service/base/redis_service.cpp).
use graphize.Common.{
  ℕ, zero, suc, ◌+◌, ◌*◌, ◌≤◌, ◌<◌, ◌≡◌, ◌≢◌, refl, sym, ap, subst, ◌∙◌, List, [], ◌∷◌, Option,
  none, some, arith, length, get_elem?, Bool-cases, inl, inr, none≢some, some-injective,
  Option-cases, lt_of_get_elem?, ℤ,
}
use graphize.Common.Bag.{count}
use graphize.Frame.Cache.{ShmCache, ObjectCache, manager_set}
use graphize.Service.Fetch.{FetchInfo}
use graphize.Service.Latch.{Latch, is_skipped}
use graphize.Service.Reply.{RedisResultItem}
use graphize.Service.CacheData.{stored, merge_results, merge_items, merge_vec, to_int}
use graphize.Service.Callback.{RpcAnswer}
use graphize.Service.Callback.Batch.{results_of, IsBatch}
use graphize.Service.Callback.Filled.{IsPlaced}
use graphize.Service.Callback.Places.{starts-ArePlaces, place-of}
use graphize.Service.DoService.{Members, Outside, written, merge_written, merge_all}
use graphize.Service.DoService.Trace.{starts_of, IsAsked}
use graphize.Service.DoService.Phase.{step_of, starts_in, items_in, FetchPhase, Phase, some_key}

-- The keys of an item are enough for its results.
pub HasKeys : RedisResultItem → Type 0
HasKeys item = item.start_index + length item.result_str_vec ≤ length item.fetch_info_ptr.keys

HaveKeys : List RedisResultItem → Type 0
HaveKeys [] = Unit {0}
HaveKeys (item ∷ items) = HasKeys item × HaveKeys items

at_of_lt {ℓ} :
    {A : Type ℓ} (xs : List A) (k : ℕ) → k < length xs → (a : A) × (get_elem? xs k ≡ some a)
at_of_lt [] k h = absurd (omega arith)
at_of_lt (x ∷ xs) zero h = (x, refl)
at_of_lt (x ∷ xs) (suc k) h = at_of_lt xs k (omega arith)

module _ (shm : ShmCache) (now : ℕ) where
  merge_results-some :
      (values : List (Option (List ℕ))) (expire : ℤ) (item : RedisResultItem) (i : ℕ)
      (c : ObjectCache shm)
      → item.start_index + i + length values ≤ length item.fetch_info_ptr.keys
      → (c' : ObjectCache shm) × (merge_results shm now expire item i values c ≡ some c')
  unfolding merge_results
  merge_results-some [] expire item i c room = (c, refl)
  merge_results-some (value ∷ values) expire item i c room =
      elim (Option-cases (get_elem? item.result_str_len_vec i)) [
        | inl no_len ↦
            rw (no_len, merge_results)
              (merge_results-some values expire item (suc i) c (omega arith))
        | inr (len, some_len) ↦
            let (key, at_key) =
              at_of_lt item.fetch_info_ptr.keys (item.start_index + i) (omega arith) in
            rw (some_len, at_key, merge_results)
              (merge_results-some values expire item (suc i)
                (manager_set shm c now key (stored value len) expire).0 (omega arith))
      ]

  merge_items-some :
      (items : List RedisResultItem) (expire : ℤ) (c : ObjectCache shm)
      → HaveKeys items
      → (c' : ObjectCache shm) × (merge_items shm now expire items c ≡ some c')
  unfolding merge_items HaveKeys HasKeys
  merge_items-some [] expire c h = (c, refl)
  merge_items-some (item ∷ items) expire c (h, hs) =
      let (c1, e1) = merge_results-some item.result_str_vec expire item 0 c (omega (arith, h)) in
      let (c2, e2) = merge_items-some items expire c1 hs in (c2, rw e1 e2)

  merge_vec-some :
      (item : RedisResultItem) (items : List RedisResultItem) (c : ObjectCache shm)
      → HaveKeys (item ∷ items)
      → (c' : ObjectCache shm) × (merge_vec shm now (item ∷ items) c ≡ some c')
  unfolding merge_vec
  merge_vec-some item items c h = elim (Bool-cases item.fetch_info_ptr.use_cache) [
    | inl cached ↦
        rw cached (merge_items-some (item ∷ items) (to_int item.fetch_info_ptr.expire_time) c h)
    | inr not_cached ↦ rw not_cached (c, refl)
  ]

written-HaveKeys :
    (vec : List (Option RedisResultItem))
    → ((k : ℕ) (item : RedisResultItem) → get_elem? vec k ≡ some (some item) → HasKeys item)
    → HaveKeys (written vec)
unfolding written HaveKeys
written-HaveKeys [] h = tt
written-HaveKeys (none ∷ vec) h = written-HaveKeys vec (λ k item e. h (suc k) item e)
written-HaveKeys (some item ∷ vec) h =
    (h 0 item refl, written-HaveKeys vec (λ k it e. h (suc k) it e))

placed_item :
    (s : ℕ) (fetch : FetchInfo) (i : ℕ) (answer : Option RpcAnswer) (place : Option RedisResultItem)
    (item : RedisResultItem)
    → place ≡ some item
    → IsPlaced s fetch i answer place
    → (a : RpcAnswer) × (answer ≡ some a) × IsBatch s fetch i a item
unfolding IsPlaced
placed_item s fetch i none place item e placed = absurd (none≢some (sym placed ∙ e))
placed_item s fetch i (some a) place item e (item', e', b) =
    (a, refl, subst (IsBatch s fetch i a) (some-injective (sym e' ∙ e)) b)

placed_sent :
    (s : ℕ) (fetch : FetchInfo) (i : ℕ) (answer : Option RpcAnswer) (place : Option RedisResultItem)
    → answer ≢ none
    → IsPlaced s fetch i answer place
    → (item : RedisResultItem) × (place ≡ some item)
unfolding IsPlaced
placed_sent s fetch i none place sent placed = absurd (sent refl)
placed_sent s fetch i (some a) place sent (item, e, b) = (item, e)

-- A vector is empty, or its first item is written and all written ones have their keys.
record IsMergeable (vec : List (Option RedisResultItem)) : Type 0 where
  first : 0 < length vec → (item : RedisResultItem) × (get_elem? vec 0 ≡ some (some item))
  keys : (k : ℕ) (item : RedisResultItem) → get_elem? vec k ≡ some (some item) → HasKeys item

empty-IsMergeable : (vec : List (Option RedisResultItem)) → vec ≡ [] → IsMergeable vec
empty-IsMergeable vec e =
    subst IsMergeable (sym e)
      (record { first = λ h. absurd (omega arith); keys = λ k item f. absurd (none≢some f) })

module _ (shm : ShmCache) (members : Members) (env : Outside)
    (fetch_info_vec : List FetchInfo) where
  merge_written-some :
      (vec : List (Option RedisResultItem)) (c : ObjectCache shm)
      → IsMergeable vec
      → (c' : ObjectCache shm) × (merge_written shm members env fetch_info_vec vec c ≡ some c')
  unfolding merge_written HaveKeys
  merge_written-some [] c m = (c, refl)
  merge_written-some (none ∷ vec) c m =
      let (item, e) = m.first (omega arith) in absurd (none≢some (some-injective e))
  merge_written-some (some item ∷ vec) c m =
      merge_vec-some shm env.now item (written vec) c
        (m.keys 0 item refl, written-HaveKeys vec (λ k it e. m.keys (suc k) it e))

  merge_all-some :
      (js : List ℕ) (result_map : ℕ → List (Option RedisResultItem)) (c : ObjectCache shm)
      → ((j : ℕ) → IsMergeable (result_map j))
      → (c' : ObjectCache shm) × (merge_all shm members env fetch_info_vec result_map js c
          ≡ some c')
  unfolding merge_all
  merge_all-some [] result_map c m = (c, refl)
  merge_all-some (j ∷ js) result_map c m =
      let (c1, e1) = merge_written-some (result_map j) c (m j) in
      let (c2, e2) = merge_all-some js result_map c1 m in (c2, rw e1 e2)

  -- Each place of a fetch, when its requests have ended.
  pub place_at :
      (j : ℕ) (fetch : FetchInfo) (vec : List (Option RedisResultItem)) (k : ℕ)
      → 0 < members.batch_size
      → IsAsked members env fetch_info_vec j fetch
      → FetchPhase shm members env fetch_info_vec j fetch [] vec
      → k < items_in shm members env fetch_info_vec fetch
      → (let s = step_of shm members env fetch_info_vec fetch in
          (0 < count (k * s) (starts_in shm members env fetch_info_vec fetch))
          × (place : Option RedisResultItem) × (get_elem? vec k ≡ some place)
          × IsPlaced s fetch (k * s) (env.answer_of j (k * s)) place)
  unfolding starts_of
  place_at j fetch vec k some_size asked f lt =
      let s = step_of shm members env fetch_info_vec fetch in
      let a =
        starts-ArePlaces members.enable_multi_get (length fetch.keys) members.batch_size
          (some_key shm members env fetch_info_vec j fetch asked) some_size in
      let m : 0 < count (k * s) (starts_in shm members env fetch_info_vec fetch) =
        omega (arith, a.once k lt) in
      let (place, at_place, placed) = f.filled (k * s) m refl in
      (m, place, ap (get_elem? vec) (sym (place-of k s a.positive)) ∙ at_place, placed)

  -- No reply has more results than keys are left from its first key on.
  abbrev pub HaveRoom : Type 0
  HaveRoom =
      (j : ℕ) (fetch : FetchInfo) (i : ℕ) (answer : RpcAnswer)
      → IsAsked members env fetch_info_vec j fetch
      → 0 < count i (starts_in shm members env fetch_info_vec fetch)
      → env.answer_of j i ≡ some answer
      → i + length (results_of answer) ≤ length fetch.keys

  module _ (some_size : 0 < members.batch_size) (first_sent : (j : ℕ) → env.answer_of j 0 ≢ none)
      (room : HaveRoom) where
    asked-IsMergeable :
        (j : ℕ) (fetch : FetchInfo) (vec : List (Option RedisResultItem))
        → IsAsked members env fetch_info_vec j fetch
        → FetchPhase shm members env fetch_info_vec j fetch [] vec
        → IsMergeable vec
    unfolding HasKeys
    asked-IsMergeable j fetch vec asked f = record {
      first = λ h.
          let (m, place, at_place, placed) = at_k 0 (omega (arith, h, f.size)) in
          let (item, e) =
            placed_sent s fetch (0 * s) (env.answer_of j (0 * s)) place
              (subst (λ i. env.answer_of j i ≢ none) (omega arith) (first_sent j)) placed in
          (item, at_place ∙ ap some e);
      keys = λ k item e.
          let (m, place, at_place, placed) =
            at_k k (omega (arith, lt_of_get_elem? vec k e, f.size)) in
          let (answer, is_answer, b) =
            placed_item s fetch (k * s) (env.answer_of j (k * s)) place item
              (some-injective (sym at_place ∙ e)) placed in
          omega (
            arith,
            room j fetch (k * s) answer asked m is_answer,
            b.start,
            ap length b.strs,
            ap (λ x. length x.keys) b.fetch_info,
          );
    }
      where
        s : ℕ
        s = step_of shm members env fetch_info_vec fetch

        at_k :
            (k : ℕ)
            → k < items_in shm members env fetch_info_vec fetch
            → (0 < count (k * s) (starts_in shm members env fetch_info_vec fetch))
              × (place : Option RedisResultItem) × (get_elem? vec k ≡ some place)
              × IsPlaced s fetch (k * s) (env.answer_of j (k * s)) place
        at_k k lt = place_at j fetch vec k some_size asked f lt

    -- merge_cache_data comes to its end behind the last request.
    pub merge_all-ends :
        (js : List ℕ) (result_map : ℕ → List (Option RedisResultItem)) (latch : Latch)
        (c : ObjectCache shm)
        → Phase shm members env fetch_info_vec [] result_map latch
        → (c' : ObjectCache shm) × (merge_all shm members env fetch_info_vec result_map js c
            ≡ some c')
    merge_all-ends js result_map latch c p = merge_all-some js result_map c (λ j.
        elim (Option-cases (get_elem? fetch_info_vec j)) [
          | inl past ↦ empty-IsMergeable (result_map j) (p.past j past)
          | inr (fetch, there) ↦ elim (Bool-cases (is_skipped env.has_client fetch_info_vec j)) [
            | inl is ↦ empty-IsMergeable (result_map j) (p.empty j is)
            | inr is_not ↦
                let asked : IsAsked members env fetch_info_vec j fetch = record {
                  at_position = there;
                  not_skipped = is_not;
                } in
                asked-IsMergeable j fetch (result_map j) asked (p.each j fetch asked)
          ]
        ])
