-- ===== src/Service/Callback/AnyOrder.antt =====
-- All requests of a fetch, in any order (src/service/base/redis_service.cpp, RedisService::do_service).
use graphize.Common.{
  ℕ, zero, suc, ◌*◌, ◌/◌, ◌≤◌, ◌<◌, ◌≡◌, refl, sym, ap, subst, ◌∙◌, List, Option, none, some, Bool,
  false, arith, length, get_elem?, map, replicate, dec_lt,
}
use graphize.Common.Bag.{count, IsNodup}
use graphize.Service.Fetch.{FetchInfo}
use graphize.Service.Latch.{Latch, release_all}
use graphize.Service.Batches.{step, items, starts}
use graphize.Service.Reply.{RedisResultItem}
use graphize.Service.Callback.{RpcAnswer, FetchProgress, resized_items, new_progress, requests_end}
use graphize.Service.Callback.Places.{ArePlaces, starts-ArePlaces, place-of}
use graphize.Service.Callback.Filled.{IsAnswered, IsPlaced, AreFree, requests_end-AllEnded}

pub get_elem?-replicate {ℓ} :
    {A : Type ℓ} (n k : ℕ) (a : A) → k < n → get_elem? (replicate n a) k ≡ some a
get_elem?-replicate zero k a h = absurd (omega arith)
get_elem?-replicate (suc n) zero a h = refl
get_elem?-replicate (suc n) (suc k) a h = get_elem?-replicate n k a (omega arith)

module _ (order : List ℕ) (s n : ℕ) (a : ArePlaces order s n) where
  pub placed_once : IsNodup order
  placed_once v = elim (dec_lt 0 (count v order)) [
    | yes m ↦
        let (k, at_k, lt) = a.only v m in
        subst (λ w. count w order ≤ 1) (sym at_k) (omega (arith, a.once k lt))
    | no empty ↦ omega arith
  ]

  pub placed_at : (v : ℕ) → 0 < count v order → (v ≡ v / s * s) × (v / s < n)
  placed_at v m =
      let (k, at_k, lt) = a.only v m in
      let back : v / s ≡ k = ap (λ w. w / s) at_k ∙ place-of k s a.positive in
      (at_k ∙ ap (λ q. q * s) (sym back), subst (λ q. q < n) (sym back) lt)

-- For a fetch with keys and a positive batch size, if responses that did not fail are null or have a
-- reply, and as long as nothing throws behind the last counter: in whatever order its requests end, by a
-- callback or because the client returned -1, no callback meets a fault up to its counters, these go down
-- once for each request, and the place k of the results stays empty if the request of batch k was not sent, and if it was has the item with the fetch, start
-- and number of keys of batch k and the results of its answer.
requests_end-IsPlaced :
    (uncompress : Option (List ℕ) → List ℕ) (enable_paral_parse multi_get : Bool) (batch_size j : ℕ)
    (fetch : FetchInfo) (answer_of : ℕ → Option RpcAnswer) (order : List ℕ) (latch : Latch) (k : ℕ)
    → 0 < length fetch.keys
    → 0 < batch_size
    → ((v : ℕ) → count v order ≡ count v (starts multi_get (length fetch.keys) batch_size))
    → ((i : ℕ) → IsAnswered (answer_of i))
    → k < items multi_get (length fetch.keys) batch_size
    → (let size = length fetch.keys in
        let s = step multi_get size batch_size in
        (p : FetchProgress) × (requests_end uncompress enable_paral_parse s j fetch answer_of order
            (new_progress multi_get size batch_size latch)
          ≡ some p)
        × (p.latch ≡ release_all (λ v. false) (map (λ i. j) order) latch)
        × (place : Option RedisResultItem) × (get_elem? p.redis_result_item_vec k ≡ some place)
        × IsPlaced s fetch (k * s) (answer_of (k * s)) place)
unfolding new_progress resized_items
requests_end-IsPlaced uncompress enable_paral_parse multi_get batch_size j fetch answer_of order
      latch k some_key some_size permuted replied lt =
    let size = length fetch.keys in
    let s = step multi_get size batch_size in
    let n = items multi_get size batch_size in
    let a0 = starts-ArePlaces multi_get size batch_size some_key some_size in
    let a : ArePlaces order s n = record {
      positive = a0.positive;
      once = λ m l. permuted (m * s) ∙ a0.once m l;
      only = λ v m. a0.only v (subst (λ c. 0 < c) (permuted v) m);
    } in
    let free : AreFree uncompress enable_paral_parse s j fetch answer_of replied order
        (new_progress multi_get size batch_size latch) =
      record {
        once = placed_once order s n a;
        apart = λ v w m l e.
            (placed_at order s n a v m).0 ∙ ap (λ q. q * s) e ∙ sym (placed_at order s n a w l).0;
        free = λ v m. get_elem?-replicate n (v / s) none (placed_at order s n a v m).1;
      } in
    let (p, e, all) =
      requests_end-AllEnded uncompress enable_paral_parse s j fetch answer_of replied order _
        free in
    let (place, at_place, placed) = all.filled (k * s) (omega (arith, a.once k lt)) in
    (
      p,
      e,
      all.latch,
      place,
      ap (get_elem? p.redis_result_item_vec) (sym (place-of k s a.positive)) ∙ at_place,
      placed,
    )
