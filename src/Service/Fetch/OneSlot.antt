-- ===== src/Service/Fetch/OneSlot.antt =====
-- Behind make_up_fetch_info_vec each fetch asks one slot (src/service/base/redis_service.cpp).
use mathlib.Core.List.{Permᴰ}
use mathlib.Core.List.Permᴰ
use Prim.Native.String.{String}
use graphize.Common.{
  ℕ, suc, ◌≡◌, ◌≢◌, refl, sym, ap, ◌∙◌, subst, List, [], ◌∷◌, ◌++◌, arith, true, false, ◌==◌,
  ==_iff, map, Bool-cases, inl, inr, length, length-append, some,
}
use graphize.Service.Fetch.{
  FetchInfo, Sources, CacheDataItem, get_from_cache, slot_keys_map, spread, split_slots, with_keys,
  make_up_fetch, make_up_fetches, number, make_up_fetch_info_vec,
}
use graphize.Service.Fetch.Groups.{
  keys_of, keys_of-Permᴰ, slot_keys_map-Permᴰ, HaveSlot, AreSorted, slot_keys_map-AreSorted,
  AreSorted-Permᴰ,
}
use graphize.Service.Fetch.MakeUp.{Permᴰ-length, nil_of_length}

-- Each fetch has a key function that is registered, and a client.
unfoldable pub AreKnown : Sources → List FetchInfo → Type 0
AreKnown sources [] = Unit {0}
AreKnown sources (fetch ∷ fetches) =
    ((generate : List (List ℕ) → String → String → List (List ℕ)) × (sources.key_func_map
          fetch.key_gen_func
        ≡ some generate)
      × (sources.has_client fetch.redis_client_id ≡ true))
    × AreKnown sources fetches

module _ (sources : Sources) where
  -- All keys of the fetch have the same slot.
  abbrev pub IsInOneSlot : FetchInfo → Type 0
  IsInOneSlot fetch = (slot : ℕ) × HaveSlot sources.slot_of slot fetch.keys

  unfoldable pub AreInOneSlot : List FetchInfo → Type 0
  AreInOneSlot [] = Unit {0}
  AreInOneSlot (fetch ∷ fetches) = IsInOneSlot fetch × AreInOneSlot fetches

  AreInOneSlot-append :
      (xs ys : List FetchInfo) → AreInOneSlot xs → AreInOneSlot ys → AreInOneSlot (xs ++ ys)
  unfolding AreInOneSlot
  AreInOneSlot-append [] ys h g = g
  AreInOneSlot-append (x ∷ xs) ys (h, hs) g = (h, AreInOneSlot-append xs ys hs g)

  AreInOneSlot-number : (i : ℕ) (xs : List FetchInfo) → AreInOneSlot xs → AreInOneSlot (number i xs)
  unfolding AreInOneSlot number
  AreInOneSlot-number i [] h = tt
  AreInOneSlot-number i (x ∷ xs) (h, hs) = (h, AreInOneSlot-number (suc i) xs hs)

  no_keys-IsInOneSlot : (fetch : FetchInfo) → fetch.keys ≡ [] → IsInOneSlot fetch
  unfolding HaveSlot
  no_keys-IsInOneSlot fetch e = (0, subst (HaveSlot sources.slot_of 0) (sym e) tt)

  added-AreInOneSlot :
      (fetch : FetchInfo) (groups : List (ℕ × List (List ℕ)))
      → AreSorted sources.slot_of groups
      → AreInOneSlot (map (λ group. record fetch { keys = group.1; id = [] }) groups)
  unfolding AreInOneSlot AreSorted
  added-AreInOneSlot fetch [] h = tt
  added-AreInOneSlot fetch ((slot, keys) ∷ groups) (h, rest) =
      ((slot, h), added-AreInOneSlot fetch groups rest)

module _ (sources : Sources)
    (shuffles : (m : List (ℕ × List (List ℕ))) → Permᴰ (sources.iterate m) m) where
  -- What is said of the fetch that stays in its place, and of those that are added.
  abbrev BothInOneSlot : FetchInfo × List FetchInfo → Type 0
  BothInOneSlot (first, added) = IsInOneSlot sources first × AreInOneSlot sources added

  spread-BothInOneSlot :
      (fetch : FetchInfo) (groups : List (ℕ × List (List ℕ)))
      → keys_of groups ≢ []
      → AreSorted sources.slot_of groups
      → BothInOneSlot (spread fetch groups)
  unfolding spread keys_of AreSorted
  spread-BothInOneSlot fetch [] some_key h = absurd (some_key refl)
  spread-BothInOneSlot fetch ((slot, keys) ∷ groups) some_key (h, rest) =
      ((slot, h), added-AreInOneSlot sources fetch groups rest)

  split_slots-BothInOneSlot :
      (fetch : FetchInfo)
      → sources.has_client fetch.redis_client_id ≡ true
      → BothInOneSlot (split_slots sources fetch)
  unfolding split_slots AreInOneSlot AreSorted keys_of
  split_slots-BothInOneSlot fetch client = elim (Bool-cases (length fetch.keys == 0)) [
    | inl empty ↦ rw empty (
      no_keys-IsInOneSlot sources fetch
          (nil_of_length fetch.keys ((==_iff (length fetch.keys) 0).0 empty)),
      tt,
    )
    | inr some_key ↦
        let m = slot_keys_map sources.slot_of fetch.keys [] in
        let all =
          Permᴰ-length (keys_of-Permᴰ (shuffles m))
          ∙ Permᴰ-length (slot_keys_map-Permᴰ sources.slot_of fetch.keys []) in
        let sorted =
          AreSorted-Permᴰ sources.slot_of (Permᴰ.symm (shuffles m))
            (slot_keys_map-AreSorted sources.slot_of fetch.keys [] tt) in
        rw (some_key, client)
          (spread-BothInOneSlot fetch (sources.iterate m)
            (λ e. ground (arith, all, ap length e, length-append fetch.keys [])) sorted)
  ]

  with_keys-BothInOneSlot :
      (i : ℕ) (fetch : FetchInfo) (items : List CacheDataItem)
      → sources.has_client fetch.redis_client_id ≡ true
      → BothInOneSlot (with_keys sources i fetch items).0
  unfolding with_keys AreInOneSlot
  with_keys-BothInOneSlot i fetch items client = elim (Bool-cases (length fetch.keys == 0)) [
    | inl empty ↦ rw empty (
      no_keys-IsInOneSlot sources fetch
          (nil_of_length fetch.keys ((==_iff (length fetch.keys) 0).0 empty)),
      tt,
    )
    | inr some_key ↦ rw some_key (elim (Bool-cases fetch.use_cache) [
      | inr no_cache ↦
          rw no_cache (split_slots-BothInOneSlot (record fetch { use_cache = false }) client)
      | inl cache ↦ rw cache (
          split_slots-BothInOneSlot
            (record fetch {
              use_cache = true;
              keys = (get_from_cache sources.cached fetch.keys items i).0;
            })
            client)
    ])
  ]

  make_up_fetch-BothInOneSlot :
      (i : ℕ) (fetch : FetchInfo) (items : List CacheDataItem)
      → (generate : List (List ℕ) → String → String → List (List ℕ)) × (sources.key_func_map
            fetch.key_gen_func
          ≡ some generate)
        × (sources.has_client fetch.redis_client_id ≡ true)
      → BothInOneSlot (make_up_fetch sources i fetch items).0
  unfolding make_up_fetch
  make_up_fetch-BothInOneSlot i fetch items (generate, e, client) =
      rw (e, make_up_fetch)
        (with_keys-BothInOneSlot i
          (record fetch { keys = generate fetch.keys fetch.prefix fetch.postfix }) items client)

  make_up_fetches-AreInOneSlot :
      (i : ℕ) (fetches : List FetchInfo) (items : List CacheDataItem)
      → AreKnown sources fetches
      → AreInOneSlot sources (make_up_fetches sources i fetches items).0.0
        × AreInOneSlot sources (make_up_fetches sources i fetches items).0.1
  unfolding make_up_fetches AreInOneSlot AreKnown
  make_up_fetches-AreInOneSlot i [] items known = (tt, tt)
  make_up_fetches-AreInOneSlot i (fetch ∷ fetches) items (known, all_known) =
      let (first, added) = make_up_fetch-BothInOneSlot i fetch items known in
      let (others, more) =
        make_up_fetches-AreInOneSlot (suc i) fetches (make_up_fetch sources i fetch items).1
          all_known in
      (
        (first, others),
        AreInOneSlot-append sources (make_up_fetch sources i fetch items).0.1 _ added more,
      )

-- If each fetch has a key function and a client, then behind make_up_fetch_info_vec each fetch has keys of one slot only,
-- whatever the order in which the slots are gone through.
pub make_up_fetch_info_vec-AreInOneSlot :
    (sources : Sources) (fetch_info_vec : List FetchInfo) (items : List CacheDataItem)
    → ((m : List (ℕ × List (List ℕ))) → Permᴰ (sources.iterate m) m)
    → AreKnown sources fetch_info_vec
    → AreInOneSlot sources (make_up_fetch_info_vec sources fetch_info_vec items).0
unfolding make_up_fetch_info_vec
make_up_fetch_info_vec-AreInOneSlot sources fetch_info_vec items shuffles known =
    let made = make_up_fetches sources 0 fetch_info_vec items in
    let (kept, added) =
      make_up_fetches-AreInOneSlot sources shuffles 0 fetch_info_vec items known in
    AreInOneSlot-number sources 0 (made.0.0 ++ made.0.1)
      (AreInOneSlot-append sources made.0.0 made.0.1 kept added)
