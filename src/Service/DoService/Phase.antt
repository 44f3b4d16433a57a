-- ===== src/Service/DoService/Phase.antt =====
-- What holds while the requests of RedisService::do_service end, and that each end keeps it
-- (src/service/base/redis_service.cpp).
use graphize.Common.{
  ℕ, ◌+◌, ◌*◌, ◌/◌, ◌≤◌, ◌<◌, ◌≡◌, ◌≢◌, refl, sym, ap, subst, ◌∙◌, List, [], ◌∷◌, ◌++◌, Option,
  none, some, true, arith, length, get_elem?, ℕ_discrete, ==_iff,
}
use graphize.Common.Bag.{count}
use graphize.Frame.Cache.{ShmCache}
use graphize.Service.Fetch.{FetchInfo}
use graphize.Service.Batches.{step, items, starts}
use graphize.Service.Latch.{Latch, skips, is_skipped, expected, new_latch, release_all}
use graphize.Service.Reply.{RedisResultItem}
use graphize.Service.Callback.{FetchProgress}
use graphize.Service.Callback.Filled.{IsPlaced, Ended}
use graphize.Service.Callback.Places.{ArePlaces, starts-ArePlaces}
use graphize.Service.Callback.AnyOrder.{placed_once, placed_at}
use graphize.Service.DoService.{Event, ended, Members, Outside}
use graphize.Service.DoService.Trace.{positions, starts_of, IsAsked, AreEvents, is_skips}

module _ (shm : ShmCache) (members : Members) (env : Outside)
    (fetch_info_vec : List FetchInfo) where
  abbrev pub step_of : FetchInfo → ℕ
  step_of fetch = step members.enable_multi_get (length fetch.keys) members.batch_size

  abbrev pub starts_in : FetchInfo → List ℕ
  starts_in fetch = starts members.enable_multi_get (length fetch.keys) members.batch_size

  abbrev pub items_in : FetchInfo → ℕ
  items_in fetch = items members.enable_multi_get (length fetch.keys) members.batch_size

  -- The vector of a fetch when the requests of `es` are still to end.
  pub record FetchPhase (j : ℕ) (fetch : FetchInfo) (es : List Event)
      (vec : List (Option RedisResultItem)) : Type 0 where
    pub left : (v : ℕ) → count v (starts_of j es) ≤ count v (starts_in fetch)
    pub free :
        (v : ℕ) → 0 < count v (starts_of j es) → get_elem? vec (v / step_of fetch) ≡ some none
    pub filled :
        (v : ℕ)
        → 0 < count v (starts_in fetch)
        → count v (starts_of j es) ≡ 0
        → (place : Option RedisResultItem) × (get_elem? vec (v / step_of fetch) ≡ some place)
          × IsPlaced (step_of fetch) fetch v (env.answer_of j v) place
    pub size : length vec ≡ items_in fetch

  pub record Phase (es : List Event) (result_map : ℕ → List (Option RedisResultItem))
      (latch : Latch) : Type 0 where
    pub done : List ℕ
    pub released :
        latch
        ≡ release_all
            (is_skipped env.has_client fetch_info_vec)
            done
            (new_latch members.enable_multi_get members.batch_size fetch_info_vec)
    pub counts :
        (j : ℕ)
        → count j (done ++ positions es)
          ≡ expected env.has_client members.enable_multi_get members.batch_size fetch_info_vec j
    pub events : AreEvents members env fetch_info_vec es
    pub each :
        (j : ℕ) (fetch : FetchInfo)
        → IsAsked members env fetch_info_vec j fetch
        → FetchPhase j fetch es (result_map j)
    pub empty : (j : ℕ) → is_skipped env.has_client fetch_info_vec j ≡ true → result_map j ≡ []
    pub past : (j : ℕ) → get_elem? fetch_info_vec j ≡ none → result_map j ≡ []

  pub some_key :
      (j : ℕ) (fetch : FetchInfo)
      → IsAsked members env fetch_info_vec j fetch
      → 0 < length fetch.keys
  unfolding skips
  some_key j fetch a =
      let asks = is_skips members env fetch_info_vec j fetch a.at_position ∙ a.not_skipped in
      ground (arith, asks)

  module _ (j i : ℕ) (es : List Event) where
    pub own_starts : starts_of j (ended j i ∷ es) ≡ i ∷ starts_of j es
    unfolding starts_of
    own_starts = rw ((==_iff j j).1 refl) refl

    pub other_starts : (k : ℕ) → j ≢ k → starts_of k (ended j i ∷ es) ≡ starts_of k es
    unfolding starts_of
    other_starts k ne = ground arith

    -- A request of the fetch ends: its place is what its answer says, the others are as they were.
    pub fetch_step :
        (fetch : FetchInfo) (p p' : FetchProgress)
        → 0 < length fetch.keys
        → 0 < members.batch_size
        → FetchPhase j fetch (ended j i ∷ es) p.redis_result_item_vec
        → Ended env.uncompress members.enable_paral_parse
            (step_of fetch)
            j
            fetch
            i
            (env.answer_of j i)
            p
            p'
        → FetchPhase j fetch es p'.redis_result_item_vec
    fetch_step fetch p p' some_keys some_size f one = record {
      left = λ v. omega (arith, f.left v, own v);
      free = λ v m.
          one.others (v / step_of fetch) (
            apart v (omega (arith, f.left v, own v))
              (λ e. omega (arith, twice v, own v, f.left v, same_one v e, m)))
          ∙ f.free v (omega (arith, own v));
      filled = λ v m n. elim (ℕ_discrete i v) [
        | yes here ↦
            subst
              (λ w.
                (place : Option RedisResultItem) × (get_elem? p'.redis_result_item_vec
                    (w / step_of fetch)
                  ≡ some place)
                × IsPlaced (step_of fetch) fetch w (env.answer_of j w) place)
              here (one.place, one.at_place, one.placed)
        | no ne ↦
            let (place, at_place, placed) = f.filled v m (ground (arith, own v)) in
            (place, one.others (v / step_of fetch) (apart v m ne) ∙ at_place, placed)
      ];
      size = one.same_length ∙ f.size;
    }
      where
        a : ArePlaces (starts_in fetch) (step_of fetch) (items_in fetch)
        a =
            starts-ArePlaces members.enable_multi_get (length fetch.keys) members.batch_size
              some_keys some_size

        own : (v : ℕ) → count v (starts_of j (ended j i ∷ es)) ≡ count v (i ∷ starts_of j es)
        own v = ap (count v) own_starts

        twice : (v : ℕ) → count v (starts_in fetch) ≤ 1
        twice = placed_once (starts_in fetch) (step_of fetch) (items_in fetch) a

        same_one : (v : ℕ) → i ≡ v → count v (i ∷ starts_of j es) ≡ 1 + count v (starts_of j es)
        same_one v e = ground arith

        here : 0 < count i (starts_in fetch)
        here = ground (arith, f.left i, own i)

        apart :
            (v : ℕ) → 0 < count v (starts_in fetch) → i ≢ v → i / step_of fetch ≢ v / step_of fetch
        apart v m ne e = ne (
            (placed_at (starts_in fetch) (step_of fetch) (items_in fetch) a i here).0
            ∙ ap (λ q. q * step_of fetch) e
            ∙ sym (placed_at (starts_in fetch) (step_of fetch) (items_in fetch) a v m).0)

  -- The vector of another fetch.
  pub same_phase :
      (k : ℕ) (fetch : FetchInfo) (es es' : List Event) (vec vec' : List (Option RedisResultItem))
      → starts_of k es ≡ starts_of k es'
      → vec ≡ vec'
      → FetchPhase k fetch es vec
      → FetchPhase k fetch es' vec'
  same_phase k fetch es es' vec vec' starts_same vec_same f =
      let counted : (v : ℕ) → count v (starts_of k es) ≡ count v (starts_of k es') =
        λ v. ap (count v) starts_same in
      record {
        left = λ v. omega (arith, f.left v, counted v);
        free = λ v m.
            subst (λ x. get_elem? x (v / step_of fetch) ≡ some none) vec_same
              (f.free v (omega (arith, counted v)));
        filled = λ v m n.
            let (place, at_place, placed) = f.filled v m (omega (arith, counted v)) in
            (
              place,
              subst (λ x. get_elem? x (v / step_of fetch) ≡ some place) vec_same at_place,
              placed,
            );
        size = ap length (sym vec_same) ∙ f.size;
      }
