-- ===== src/Service/Callback/Filled.antt =====
-- The vector of results of a fetch, whatever the order in which its requests end
-- (src/service/base/redis_service.cpp, RedisService::do_service).
use graphize.Common.{
  ℕ, ◌/◌, ◌<◌, ◌≡◌, ◌≢◌, refl, sym, ap, subst, ◌∙◌, List, [], ◌∷◌, Option, none, some, Bool, false,
  arith, get_elem?, length, map, get_elem?-set_self, length-set, get_elem?-set_ne, lt_of_get_elem?,
  ℕ_discrete,
}
use graphize.Common.Bag.{count, IsNodup}
use graphize.Service.Fetch.{FetchInfo}
use graphize.Service.Latch.{deep_cond_finish, release, release_all}
use graphize.Service.Reply.{RedisResultItem}
use graphize.Service.Callback.{
  RpcAnswer, FetchProgress, parsed_back, callback_at, callback, request_ends, requests_end,
}
use graphize.Service.Callback.Batch.{HasReply, IsBatch, answered-IsBatch}

-- A client that returned -1 does not call back; a response that did not fail has a reply.
unfoldable pub IsAnswered : Option RpcAnswer → Type 0
unfolding HasReply
IsAnswered none = Unit
IsAnswered (some answer) = HasReply answer.failed answer.response

-- The place of a request: not written if the client returned -1, or the item of its answer.
unfoldable pub IsPlaced : ℕ → FetchInfo → ℕ → Option RpcAnswer → Option RedisResultItem → Type 0
IsPlaced step fetch i none place = place ≡ none
IsPlaced step fetch i (some answer) place =
    (item : RedisResultItem) × (place ≡ some item) × IsBatch step fetch i answer item

module _ (uncompress : Option (List ℕ) → List ℕ) (enable_paral_parse : Bool) (step j : ℕ)
    (fetch : FetchInfo) where
  pub record Ended (i : ℕ) (answer : Option RpcAnswer) (p p' : FetchProgress) : Type 0 where
    pub place : Option RedisResultItem
    pub at_place : get_elem? p'.redis_result_item_vec (i / step) ≡ some place
    pub placed : IsPlaced step fetch i answer place
    pub latch : p'.latch ≡ deep_cond_finish j p.latch
    pub others :
        (k : ℕ)
        → i / step ≢ k
        → get_elem? p'.redis_result_item_vec k ≡ get_elem? p.redis_result_item_vec k
    pub same_length : length p'.redis_result_item_vec ≡ length p.redis_result_item_vec

  pub request_ends-Ended :
      (i : ℕ) (answer : Option RpcAnswer) (p : FetchProgress)
      → IsAnswered answer
      → get_elem? p.redis_result_item_vec (i / step) ≡ some none
      → (p' : FetchProgress) × (request_ends uncompress enable_paral_parse step j fetch i answer p
          ≡ some p')
        × Ended i answer p p'
  unfolding IsAnswered IsPlaced request_ends callback callback_at parsed_back
  request_ends-Ended i none p h free = (
    record p { latch = deep_cond_finish j p.latch },
    refl,
    record {
      place = none;
      at_place = free;
      placed = refl;
      latch = refl;
      others = λ k ne. refl;
      same_length = refl;
    },
  )
  request_ends-Ended i (some answer) p h free =
      let (item, e, b) = answered-IsBatch step fetch i answer h in
      (
        parsed_back uncompress enable_paral_parse step j fetch i p item,
        rw (free, e) refl,
        record {
          place = some item;
          at_place =
              get_elem?-set_self p.redis_result_item_vec (i / step) (some item)
                (lt_of_get_elem? p.redis_result_item_vec (i / step) free);
          placed = (item, refl, b);
          latch = refl;
          others = λ k ne. get_elem?-set_ne p.redis_result_item_vec (some item) ne;
          same_length = length-set p.redis_result_item_vec (i / step) (some item);
        },
      )

  module _ (answer_of : ℕ → Option RpcAnswer) (replied : (i : ℕ) → IsAnswered (answer_of i)) where
    pub record AllEnded (order : List ℕ) (p p' : FetchProgress) : Type 0 where
      pub filled :
          (i : ℕ)
          → 0 < count i order
          → (place : Option RedisResultItem) × (get_elem? p'.redis_result_item_vec (i / step)
              ≡ some place)
            × IsPlaced step fetch i (answer_of i) place
      pub latch : p'.latch ≡ release_all (λ v. false) (map (λ i. j) order) p.latch
      pub others :
          (k : ℕ)
          → ((i : ℕ) → 0 < count i order → i / step ≢ k)
          → get_elem? p'.redis_result_item_vec k ≡ get_elem? p.redis_result_item_vec k

    -- The requests have places of their own, which are free.
    pub record AreFree (order : List ℕ) (p : FetchProgress) : Type 0 where
      pub once : IsNodup order
      pub apart : (v w : ℕ) → 0 < count v order → 0 < count w order → v / step ≡ w / step → v ≡ w
      pub free :
          (v : ℕ) → 0 < count v order → get_elem? p.redis_result_item_vec (v / step) ≡ some none

    first_apart :
        (i : ℕ) (order : List ℕ) (p : FetchProgress)
        → AreFree (i ∷ order) p
        → (v : ℕ) → 0 < count v order
        → i / step ≢ v / step
    first_apart i order p a v m e =
        let clash : i ≡ v = a.apart i v (ground arith) (ground arith) e in
        ground (arith, a.once v, clash)

    AreFree-rest :
        (i : ℕ) (order : List ℕ) (p p' : FetchProgress)
        → AreFree (i ∷ order) p
        → Ended i (answer_of i) p p'
        → AreFree order p'
    AreFree-rest i order p p' a one = record {
      once = λ v. ground (arith, a.once v);
      apart = λ v w m n e. a.apart v w (ground arith) (ground arith) e;
      free = λ v m. one.others (v / step) (first_apart i order p a v m) ∙ a.free v (ground arith);
    }

    pub requests_end-AllEnded :
        (order : List ℕ) (p : FetchProgress)
        → AreFree order p
        → (p' : FetchProgress) × (requests_end uncompress enable_paral_parse step j fetch answer_of
              order p
            ≡ some p')
          × AllEnded order p p'
    unfolding requests_end release_all release
    requests_end-AllEnded [] p a = (
      p,
      refl,
      record { filled = λ i m. absurd (omega arith); latch = refl; others = λ k ne. refl },
    )
    requests_end-AllEnded (i ∷ order) p a =
        let (p1, e1, one) =
          request_ends-Ended i (answer_of i) p (replied i) (a.free i (ground arith)) in
        let (p', e, rest) = requests_end-AllEnded order p1 (AreFree-rest i order p p1 a one) in
        (
          p',
          rw (e1, e) refl,
          record {
            filled = λ v m. elim (ℕ_discrete v i) [
              | yes same_one ↦
                  subst
                    (λ w.
                      (place : Option RedisResultItem) × (get_elem? p'.redis_result_item_vec
                          (w / step)
                        ≡ some place)
                      × IsPlaced step fetch w (answer_of w) place)
                    (sym same_one)
                    (
                      one.place,
                      rest.others (i / step) (λ w n f. first_apart i order p a w n (sym f))
                          ∙ one.at_place,
                      one.placed,
                    )
              | no ne ↦ rest.filled v (ground arith)
            ];
            latch = rest.latch ∙ ap (release_all (λ v. false) (map (λ i. j) order)) one.latch;
            others = λ k ne.
                rest.others k (λ v m. ne v (ground arith)) ∙ one.others k (ne i (ground arith));
          },
        )
