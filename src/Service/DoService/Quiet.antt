-- ===== src/Service/DoService/Quiet.antt =====
-- RedisService::do_service up to the last counter: nothing but the vectors and the counters change
-- (src/service/base/redis_service.cpp).
use graphize.Common.{
  ℕ, ◌<◌, ◌≡◌, ◌≢◌, refl, ap, ◌∙◌, List, [], ◌∷◌, ◌++◌, Option, none, some, true, false, arith,
  ◌==◌, if◌then◌else◌, length, ◌>>=◌,
}
use graphize.Frame.Cache.{ShmCache, ObjectCache}
use graphize.Service.Fetch.{FetchInfo}
use graphize.Service.Latch.{Latch}
use graphize.Service.Latch.Finish.{finish_once}
use graphize.Service.Reply.{RedisResultItem}
use graphize.Service.Parse.{Call}
use graphize.Service.Callback.Filled.{IsAnswered}
use graphize.Service.DoService.{
  Event, skipped, ended, tail, Members, Outside, Serving, count_down, serve, serve_counted,
  serve_all, finish, sends_rpc, wait_respond, respond, parse_cached,
}
use graphize.Service.DoService.Trace.{positions, AreEvents, IsEvent}
use graphize.Service.DoService.Phase.{Phase}
use graphize.Service.DoService.Steps.{count_down_step}
use graphize.Service.DoService.Merged.{HaveRoom, merge_all-ends}

module _ (shm : ShmCache) (members : Members) (env : Outside) (fetch_info_vec : List FetchInfo)
    (some_fetch : 0 < length fetch_info_vec) (some_size : 0 < members.batch_size) where
  abbrev pub Left : List Event → Serving shm → Type 0
  Left es s = Phase shm members env fetch_info_vec es s.result_map s.latch

  -- The state with other vectors and counters.
  abbrev pub counted :
      Serving shm
      → (ℕ → List (Option RedisResultItem))
      → Latch
      → List (Option (List Call))
      → Serving shm
  counted s rm l parses = record s { result_map = rm; latch = l; parsed = parses }

  -- The last counter is down when no event is left.
  pub finished_when :
      (es : List Event) (s : Serving shm)
      → Left es s
      → s.latch.finished ≡ (if length (positions es) == 0 then 1 else 0)
  finished_when es s p =
      ap (λ l. l.finished) p.released
      ∙ finish_once env.has_client members.enable_multi_get members.batch_size fetch_info_vec p.done
          (positions es) some_fetch some_size p.counts

  not_finished :
      (e : Event) (es : List Event) (s : Serving shm) → Left (e ∷ es) s → s.latch.finished ≡ 0
  unfolding positions AreEvents IsEvent
  not_finished (skipped j) es s p = finished_when (skipped j ∷ es) s p ∙ ground arith
  not_finished (ended j i) es s p = finished_when (ended j i ∷ es) s p ∙ ground arith
  not_finished tail es s p = absurd p.events.0

  all_finished : (s : Serving shm) → Left [] s → s.latch.finished ≡ 1
  unfolding positions
  all_finished s p = finished_when [] s p

  serve_event :
      (e : Event) (s : Serving shm)
      → IsEvent members env fetch_info_vec e
      → serve shm members env fetch_info_vec e s ≡ (
          count_down shm members env fetch_info_vec e s
          >>= (λ s'. serve_counted shm members env fetch_info_vec e s s'))
  unfolding serve IsEvent
  serve_event (skipped j) s is = refl
  serve_event (ended j i) s is = refl
  serve_event tail s is = absurd is

  module _ (replied : (j i : ℕ) → IsAnswered (env.answer_of j i)) where
    quiet_step :
        (e e' : Event) (es : List Event) (s : Serving shm)
        → Left (e ∷ e' ∷ es) s
        → (rm : ℕ → List (Option RedisResultItem)) × (l : Latch) × (parses : List
            (Option (List Call)))
          × (serve shm members env fetch_info_vec e s ≡ some (counted s rm l parses))
          × Left (e' ∷ es) (counted s rm l parses)
    unfolding serve_counted AreEvents
    quiet_step e e' es s p =
        let (rm, l, parses, counts, next) =
          count_down_step shm members env fetch_info_vec some_size replied e (e' ∷ es) s p in
        let before = not_finished e (e' ∷ es) s p in
        let after = not_finished e' es (counted s rm l parses) next in
        let same : (s.latch.finished == l.finished) ≡ true = ground (arith, before, after) in
        (
          rm,
          l,
          parses,
          serve_event e s p.events.0
              ∙ ap (λ o. o >>= (λ s'. serve_counted shm members env fetch_info_vec e s s')) counts
              ∙ rw same refl,
          next,
        )

    -- Events of which none is the last.
    pub quiet_run :
        (es : List Event) (e : Event) (rest : List Event) (s : Serving shm)
        → Left (es ++ (e ∷ rest)) s
        → (rm : ℕ → List (Option RedisResultItem)) × (l : Latch) × (parses : List
            (Option (List Call)))
          × (serve_all shm members env fetch_info_vec es s ≡ some (counted s rm l parses))
          × Left (e ∷ rest) (counted s rm l parses)
    unfolding serve_all
    quiet_run [] e rest s p = (s.result_map, s.latch, s.parsed, refl, p)
    quiet_run (x ∷ []) e rest s p =
        let (rm, l, parses, served, next) = quiet_step x e rest s p in
        (rm, l, parses, rw served refl, next)
    quiet_run (x ∷ y ∷ es) e rest s p =
        let (rm, l, parses, served, next) = quiet_step x y (es ++ (e ∷ rest)) s p in
        let (rm', l', parses', runs, left) =
          quiet_run (y ∷ es) e rest (counted s rm l parses) next in
        (rm', l', parses', rw served runs, left)

    module _ (first_sent : (j : ℕ) → env.answer_of j 0 ≢ none)
        (room : HaveRoom shm members env fetch_info_vec) where
      -- The last event: the results are merged, and who took the last counter down goes on.
      pub last_step :
          (e : Event) (s : Serving shm)
          → Left (e ∷ []) s
          → (rm : ℕ → List (Option RedisResultItem)) × (l : Latch) × (parses : List
              (Option (List Call)))
            × (c : ObjectCache shm) × (let merged = record s {
              result_map = rm;
              latch = l;
              parsed = parses;
              cache = c;
            } in
                (serve shm members env fetch_info_vec e s
                  ≡ some (
                      if s.promised
                      then wait_respond shm members env fetch_info_vec (
                          if sends_rpc shm members env fetch_info_vec e
                          then merged
                          else parse_cached shm members env fetch_info_vec merged)
                      else respond shm members env fetch_info_vec merged))
                × Left [] merged)
      unfolding serve_counted AreEvents finish
      last_step e s p =
          let (rm, l, parses, counts, next) =
            count_down_step shm members env fetch_info_vec some_size replied e [] s p in
          let before = not_finished e [] s p in
          let after = all_finished (counted s rm l parses) next in
          let differ : (s.latch.finished == l.finished) ≡ false = ground (arith, before, after) in
          let (c, merges) =
            merge_all-ends shm members env fetch_info_vec some_size first_sent room env.order rm l
              s.cache next in
          (
            rm,
            l,
            parses,
            c,
            (
              serve_event e s p.events.0
                  ∙ ap (λ o. o >>= (λ s'. serve_counted shm members env fetch_info_vec e s s'))
                      counts
                  ∙ rw (differ, merges) refl,
              next,
            ),
          )
