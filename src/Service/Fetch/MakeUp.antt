-- ===== src/Service/Fetch/MakeUp.antt =====
-- The keys that make_up_fetch_info_vec asks for (src/service/base/redis_service.cpp).
use mathlib.Core.List.{Permᴰ}
use mathlib.Core.List.Permᴰ
use graphize.Common.{
  ℕ, suc, ◌≡◌, ◌≢◌, refl, sym, ap, ◌∙◌, subst, List, [], ◌∷◌, ◌++◌, append_assoc, append-nil, arith,
  true, false, ◌==◌, ==_iff, if◌then◌else◌, Bool-cases, inl, inr, length, Option, none, some,
  Option-cases,
}
use graphize.Service.Fetch.{
  FetchInfo, Sources, CacheDataItem, put, read_cached, look_up, get_from_cache, slot_keys_map,
  spread, split_slots, with_keys, make_up_fetch, make_up_fetches, number, make_up_fetch_info_vec,
}
use graphize.Service.Fetch.Groups.{
  append_comm, keys_of, all_keys, keys_of-Permᴰ, slot_keys_map-Permᴰ, spread-keys,
}

-- The keys that the cache does not have.
unfoldable pub missed : (List ℕ → Option (List ℕ)) → List (List ℕ) → List (List ℕ)
missed cached [] = []
missed cached (key ∷ keys) =
    let rest = missed cached keys in elim (cached key) [ none ↦ key ∷ rest | some value ↦ rest ]

pub look_up-missed :
    (cached : List ℕ → Option (List ℕ)) (keys : List (List ℕ)) (data_map : List (List ℕ × List ℕ))
    → (look_up cached keys data_map).1 ≡ missed cached keys
unfolding look_up missed
look_up-missed cached [] data_map = refl
look_up-missed cached (key ∷ keys) data_map = elim (Option-cases (cached key)) [
  | inl e ↦ rw (e, look_up, missed) (ap (◌∷◌ key) (look_up-missed cached keys data_map))
  | inr (value, e) ↦
      rw (e, look_up, missed) (look_up-missed cached keys (put key (read_cached value) data_map))
]

pub nil_of_length : (xs : List (List ℕ)) → length xs ≡ 0 → xs ≡ []
nil_of_length [] e = refl
nil_of_length (x ∷ xs) e = absurd (omega arith)

pub Permᴰ-length : {xs ys : List (List ℕ)} → Permᴰ xs ys → length xs ≡ length ys
Permᴰ-length Permᴰ.nil = refl
Permᴰ-length (Permᴰ.cons _ p) = ap suc (Permᴰ-length p)
Permᴰ-length (Permᴰ.swap _ _) = refl
Permᴰ-length (Permᴰ.trans p q) = Permᴰ-length p ∙ Permᴰ-length q

Permᴰ-eq : {xs ys : List (List ℕ)} → xs ≡ ys → Permᴰ xs ys
Permᴰ-eq {xs} e = subst (Permᴰ xs) e (Permᴰ.refl xs)

interleave :
    (ws bs cs ds : List (List ℕ)) → Permᴰ ((ws ++ bs) ++ (cs ++ ds)) ((ws ++ cs) ++ (bs ++ ds))
interleave ws bs cs ds = Permᴰ.trans (Permᴰ-eq (append_assoc ws bs (cs ++ ds))) (
    Permᴰ.trans (Permᴰ.append_left ws (append_comm bs cs ds))
      (Permᴰ-eq (sym (append_assoc ws cs (bs ++ ds)))))

all_keys-append : (xs ys : List FetchInfo) → all_keys (xs ++ ys) ≡ all_keys xs ++ all_keys ys
unfolding all_keys
all_keys-append [] ys = refl
all_keys-append (x ∷ xs) ys =
    ap (◌++◌ x.keys) (all_keys-append xs ys) ∙ sym (append_assoc x.keys (all_keys xs) (all_keys ys))

all_keys-number : (i : ℕ) (xs : List FetchInfo) → all_keys (number i xs) ≡ all_keys xs
unfolding all_keys number
all_keys-number i [] = refl
all_keys-number i (x ∷ xs) = ap (◌++◌ x.keys) (all_keys-number (suc i) xs)

-- The keys that a fetch stands for: those of its key function, without those that the cache has if it is used.
unfoldable pub wanted : Sources → FetchInfo → List (List ℕ)
unfolding missed
wanted sources fetch = elim (sources.key_func_map fetch.key_gen_func) [
  | none ↦ fetch.keys
  | some generate ↦
      let keys = generate fetch.keys fetch.prefix fetch.postfix in
      if fetch.use_cache then missed sources.cached keys else keys
]

unfoldable pub all_wanted : Sources → List FetchInfo → List (List ℕ)
all_wanted sources [] = []
all_wanted sources (fetch ∷ fetches) = wanted sources fetch ++ all_wanted sources fetches

module _ (sources : Sources)
    (shuffles : (m : List (ℕ × List (List ℕ))) → Permᴰ (sources.iterate m) m) where
  spread-Permᴰ :
      (fetch : FetchInfo) (m : List (ℕ × List (List ℕ)))
      → length (keys_of m) ≢ 0
      → Permᴰ
          ((spread fetch (sources.iterate m)).0.keys
            ++ all_keys (spread fetch (sources.iterate m)).1)
          (keys_of m)
  spread-Permᴰ fetch m some_key =
      let same = keys_of-Permᴰ (shuffles m) in
      Permᴰ.trans
        (Permᴰ-eq (
          spread-keys fetch (sources.iterate m)
            (λ e. some_key (sym (Permᴰ-length same) ∙ ap length e))))
        same

  split_slots-Permᴰ :
      (fetch : FetchInfo)
      → Permᴰ
          ((split_slots sources fetch).0.keys ++ all_keys (split_slots sources fetch).1)
          fetch.keys
  unfolding split_slots all_keys keys_of
  split_slots-Permᴰ fetch = elim (Bool-cases (length fetch.keys == 0)) [
    | inl empty ↦ rw empty (Permᴰ-eq (append-nil fetch.keys))
    | inr some_key ↦ rw some_key (elim (Bool-cases (sources.has_client fetch.redis_client_id)) [
      | inr no_client ↦ rw no_client (Permᴰ-eq (append-nil fetch.keys))
      | inl client ↦
          let m = slot_keys_map sources.slot_of fetch.keys [] in
          let grouped : Permᴰ (keys_of m) fetch.keys =
            subst (λ x. Permᴰ (keys_of m) x) (append-nil fetch.keys)
              (slot_keys_map-Permᴰ sources.slot_of fetch.keys []) in
          rw client
            (Permᴰ.trans (spread-Permᴰ fetch m (λ e. ground (arith, Permᴰ-length grouped))) grouped)
    ])
  ]

  -- The keys that are asked for, of a fetch whose keys are generated.
  uncached : FetchInfo → List (List ℕ)
  uncached fetch = if fetch.use_cache then missed sources.cached fetch.keys else fetch.keys

  uncached_nil : (fetch : FetchInfo) → fetch.keys ≡ [] → uncached fetch ≡ []
  unfolding uncached missed
  uncached_nil fetch e = elim (Bool-cases fetch.use_cache) [
    | inl cache ↦ rw cache (ap (missed sources.cached) e)
    | inr no_cache ↦ rw no_cache e
  ]

  with_keys-uncached :
      (i : ℕ) (fetch : FetchInfo) (items : List CacheDataItem)
      → Permᴰ
          ((with_keys sources i fetch items).0.0.keys
            ++ all_keys (with_keys sources i fetch items).0.1)
          (uncached fetch)
  unfolding with_keys uncached all_keys get_from_cache
  with_keys-uncached i fetch items = elim (Bool-cases (length fetch.keys == 0)) [
    | inl empty ↦
        let nil : fetch.keys ≡ [] =
          nil_of_length fetch.keys ((==_iff (length fetch.keys) 0).0 empty) in
        rw empty (Permᴰ-eq (append-nil fetch.keys ∙ nil ∙ sym (uncached_nil fetch nil)))
    | inr some_key ↦ rw some_key (elim (Bool-cases fetch.use_cache) [
      | inr no_cache ↦ rw no_cache (split_slots-Permᴰ (record fetch { use_cache = false }))
      | inl cache ↦
          rw (cache, look_up-missed sources.cached fetch.keys [])
            (split_slots-Permᴰ
              (record fetch { use_cache = true; keys = missed sources.cached fetch.keys }))
    ])
  ]

  make_up_fetch-wanted :
      (i : ℕ) (fetch : FetchInfo) (items : List CacheDataItem)
      → Permᴰ
          ((make_up_fetch sources i fetch items).0.0.keys
            ++ all_keys (make_up_fetch sources i fetch items).0.1)
          (wanted sources fetch)
  unfolding make_up_fetch wanted all_keys uncached
  make_up_fetch-wanted i fetch items =
      elim (Option-cases (sources.key_func_map fetch.key_gen_func)) [
        | inl e ↦ rw (e, make_up_fetch, wanted) (Permᴰ-eq (append-nil fetch.keys))
        | inr (generate, e) ↦
            rw (e, make_up_fetch, wanted)
              (with_keys-uncached i
                (record fetch { keys = generate fetch.keys fetch.prefix fetch.postfix }) items)
      ]

  make_up_fetches-all_wanted :
      (i : ℕ) (fetches : List FetchInfo) (items : List CacheDataItem)
      → Permᴰ
          (all_keys (make_up_fetches sources i fetches items).0.0
            ++ all_keys (make_up_fetches sources i fetches items).0.1)
          (all_wanted sources fetches)
  unfolding make_up_fetches all_keys all_wanted
  make_up_fetches-all_wanted i [] items = Permᴰ.nil
  make_up_fetches-all_wanted i (fetch ∷ fetches) items =
      let one = make_up_fetch-wanted i fetch items in
      let rest =
        make_up_fetches-all_wanted (suc i) fetches (make_up_fetch sources i fetch items).1 in
      let (first, added) = (make_up_fetch sources i fetch items).0 in
      let (others, more) =
        (make_up_fetches sources (suc i) fetches (make_up_fetch sources i fetch items).1).0 in
      Permᴰ.trans
        (Permᴰ-eq (ap (◌++◌ (first.keys ++ all_keys others)) (all_keys-append added more)))
        (Permᴰ.trans (interleave first.keys (all_keys others) (all_keys added) (all_keys more)) (
          Permᴰ.trans (Permᴰ.append_right (all_keys others ++ all_keys more) one)
            (Permᴰ.append_left (wanted sources fetch) rest)))

-- Whatever the order in which the slots are gone through: the keys of all fetches behind make_up_fetch_info_vec are, up to
-- their order, those that the fetches before stand for, less those that the cache has where it is used.
pub make_up_fetch_info_vec-all_wanted :
    (sources : Sources) (fetch_info_vec : List FetchInfo) (items : List CacheDataItem)
    → ((m : List (ℕ × List (List ℕ))) → Permᴰ (sources.iterate m) m)
    → Permᴰ
        (all_keys (make_up_fetch_info_vec sources fetch_info_vec items).0)
        (all_wanted sources fetch_info_vec)
unfolding make_up_fetch_info_vec
make_up_fetch_info_vec-all_wanted sources fetch_info_vec items shuffles =
    let made = make_up_fetches sources 0 fetch_info_vec items in
    Permᴰ.trans
      (Permᴰ-eq (all_keys-number 0 (made.0.0 ++ made.0.1) ∙ all_keys-append made.0.0 made.0.1))
      (make_up_fetches-all_wanted sources shuffles 0 fetch_info_vec items)
