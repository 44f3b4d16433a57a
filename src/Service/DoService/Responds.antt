-- ===== src/Service/DoService/Responds.antt =====
-- RedisService::do_service from its start to the call of process_response, whatever the order of its events
-- (src/service/base/redis_service.cpp).
use graphize.Common.{
  ℕ, ◌/◌, ◌<◌, ◌≡◌, ◌≢◌, refl, sym, ap, subst, ◌∙◌, List, [], ◌∷◌, ◌++◌, Option, none, some, true,
  arith, if◌then◌else◌, length, get_elem?, inl, inr, Option-cases, ◌>>=◌, length-replicate,
}
use graphize.Frame.Cache.{ShmCache, ObjectCache}
use graphize.Service.Fetch.{FetchInfo, CacheDataItem}
use graphize.Service.Latch.{Latch, release_all}
use graphize.Service.Reply.{RedisResultItem}
use graphize.Service.Parse.{Call, parse_cached_data}
use graphize.Service.Callback.{resized_items}
use graphize.Service.Callback.Filled.{IsAnswered}
use graphize.Service.Callback.Places.{starts-ArePlaces}
use graphize.Service.Callback.AnyOrder.{get_elem?-replicate, placed_at}
use graphize.Service.DoService.{
  Event, Members, Outside, Serving, serve, serve_all, serving_start, vec_of, sends_rpc,
  wait_respond, respond, parse_cached,
}
use graphize.Service.DoService.Trace.{IsAsked, IsComplete, count-expected}
use graphize.Service.DoService.Phase.{FetchPhase, Phase, some_key, step_of, starts_in, items_in}
use graphize.Service.DoService.Merged.{HaveRoom}
use graphize.Service.DoService.Quiet.{counted, quiet_run, last_step}

snoc :
    (e : Event) (es : List Event)
    → (front : List Event) × (last : Event) × (e ∷ es ≡ front ++ (last ∷ []))
snoc e [] = ([], e, refl)
snoc e (x ∷ es) = let (front, last, same) = snoc x es in (e ∷ front, last, ap (◌∷◌ e) same)

module _ (shm : ShmCache) (members : Members) (env : Outside)
    (fetch_info_vec : List FetchInfo) where
  pub serve_all-append :
      (xs ys : List Event) (s : Serving shm)
      → serve_all shm members env fetch_info_vec (xs ++ ys) s ≡ (
          serve_all shm members env fetch_info_vec xs s
          >>= serve_all shm members env fetch_info_vec ys)
  unfolding serve_all
  serve_all-append [] ys s = refl
  serve_all-append (x ∷ xs) ys s = elim (Option-cases (serve shm members env fetch_info_vec x s)) [
    | inl stuck ↦ rw stuck refl
    | inr (s', e) ↦ rw e (serve_all-append xs ys s')
  ]

  -- Each event is the end of a request that was sent.
  unfoldable pub AreCallbacks : List Event → Type 0
  AreCallbacks [] = Unit {0}
  AreCallbacks (e ∷ es) = (sends_rpc shm members env fetch_info_vec e ≡ true) × AreCallbacks es

  pub last-callback :
      (front : List Event) (last : Event)
      → AreCallbacks (front ++ (last ∷ []))
      → sends_rpc shm members env fetch_info_vec last ≡ true
  unfolding AreCallbacks
  last-callback [] last (e, rest) = e
  last-callback (x ∷ front) last (e, rest) = last-callback front last rest

  module _ (some_size : 0 < members.batch_size) (es : List Event)
      (complete : IsComplete members env fetch_info_vec es) where
    vec-asked :
        (j : ℕ) (fetch : FetchInfo)
        → IsAsked members env fetch_info_vec j fetch
        → vec_of shm members env fetch_info_vec j (get_elem? fetch_info_vec j)
          ≡ resized_items members.enable_multi_get (length fetch.keys) members.batch_size
    unfolding vec_of
    vec-asked j fetch a = rw (a.at_position, a.not_skipped) refl

    start_phase :
        (j : ℕ) (fetch : FetchInfo)
        → IsAsked members env fetch_info_vec j fetch
        → FetchPhase shm members env fetch_info_vec j fetch es
            (resized_items members.enable_multi_get (length fetch.keys) members.batch_size)
    unfolding resized_items
    start_phase j fetch asked =
        let s = step_of shm members env fetch_info_vec fetch in
        let n = items_in shm members env fetch_info_vec fetch in
        let a =
          starts-ArePlaces members.enable_multi_get (length fetch.keys) members.batch_size
            (some_key shm members env fetch_info_vec j fetch asked) some_size in
        record {
          left = λ v. omega (arith, complete.each j fetch asked v);
          free = λ v m.
              get_elem?-replicate n (v / s) none
                (placed_at (starts_in shm members env fetch_info_vec fetch) s n a v
                  (omega (arith, complete.each j fetch asked v, m))).1;
          filled = λ v m none_left. absurd (omega (arith, complete.each j fetch asked v));
          size = length-replicate n none;
        }

    pub start-Phase :
        (cached : List CacheDataItem) (c : ObjectCache shm)
        → (let s = serving_start shm members env fetch_info_vec cached c in
            Phase shm members env fetch_info_vec es s.result_map s.latch)
    unfolding serving_start vec_of release_all
    start-Phase cached c = record {
      done = [];
      released = refl;
      counts = λ j. count-expected members env fetch_info_vec es j complete;
      events = complete.events;
      each = λ j fetch a.
          subst (FetchPhase shm members env fetch_info_vec j fetch es) (sym (vec-asked j fetch a))
            (start_phase j fetch a);
      empty = λ j is. elim (Option-cases (get_elem? fetch_info_vec j)) [
        | inl past ↦ rw past refl
        | inr (fetch, there) ↦ rw (there, is) refl
      ];
      past = λ j past. rw past refl;
    }

  -- process_response was called once, behind all requests and with all calls for the cached data made.
  pub record HasResponded (cache_data_vec : List CacheDataItem) (s : Serving shm) : Type 0 where
    pub result_map : ℕ → List (Option RedisResultItem)
    pub latch : Latch
    pub once :
        s.responses
        ≡ record {
          result_map = result_map;
          cached_calls = (parse_cached_data env.uncompress fetch_info_vec cache_data_vec).0;
        }
          ∷ []
    pub phase : Phase shm members env fetch_info_vec [] result_map latch
    pub none_cached : s.cache_data_vec ≡ []

  module _ (some_fetch : 0 < length fetch_info_vec) (some_size : 0 < members.batch_size)
      (replied : (j i : ℕ) → IsAnswered (env.answer_of j i))
      (first_sent : (j : ℕ) → env.answer_of j 0 ≢ none)
      (room : HaveRoom shm members env fetch_info_vec) where
    abbrev pub outcome : Event → Serving shm → Serving shm → Serving shm
    outcome last s merged =
        if s.promised
        then wait_respond shm members env fetch_info_vec (
            if sends_rpc shm members env fetch_info_vec last
            then merged
            else parse_cached shm members env fetch_info_vec merged)
        else respond shm members env fetch_info_vec merged

    -- The events to the last one, which finishes.
    pub record EndRun (e : Event) (es : List Event) (s : Serving shm) : Type 0 where
      pub front : List Event
      pub last : Event
      pub at_end : e ∷ es ≡ front ++ (last ∷ [])
      pub result_map : ℕ → List (Option RedisResultItem)
      pub latch : Latch
      pub parsed : List (Option (List Call))
      pub cache : ObjectCache shm
      pub served :
          serve_all shm members env fetch_info_vec (e ∷ es) s
          ≡ some (
              outcome last s (record s {
                result_map = result_map;
                latch = latch;
                parsed = parsed;
                cache = cache;
              }))
      pub phase : Phase shm members env fetch_info_vec [] result_map latch

    pub end_run :
        (e : Event) (es : List Event) (s : Serving shm)
        → Phase shm members env fetch_info_vec (e ∷ es) s.result_map s.latch
        → EndRun e es s
    unfolding serve_all
    end_run e es s p =
        let (front, last, same) = snoc e es in
        let (rm, l, parses, runs, left) =
          quiet_run shm members env fetch_info_vec some_fetch some_size replied front last [] s
            (subst (λ x. Phase shm members env fetch_info_vec x s.result_map s.latch) same p) in
        let s1 = counted shm members env fetch_info_vec some_fetch some_size s rm l parses in
        let (rm', l', parses', c, (serves, phase)) =
          last_step shm members env fetch_info_vec some_fetch some_size replied first_sent room last
            s1 left in
        record {
          front = front;
          last = last;
          at_end = same;
          result_map = rm';
          latch = l';
          parsed = parses';
          cache = c;
          served =
              ap (λ x. serve_all shm members env fetch_info_vec x s) same
              ∙ serve_all-append front (last ∷ []) s
              ∙ rw (runs, serves) refl;
          phase = phase;
        }
