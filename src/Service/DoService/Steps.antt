-- ===== src/Service/DoService/Steps.antt =====
-- Each event of RedisService::do_service keeps what Phase says (src/service/base/redis_service.cpp).
use graphize.Common.{
  ℕ, ◌<◌, ◌≡◌, ◌≢◌, refl, sym, ap, subst, ◌∙◌, List, [], ◌∷◌, ◌++◌, Option, some, Bool, arith, ◌==◌,
  if◌then◌else◌, get_elem?, none≢some, some-injective, ℕ_discrete, ==_iff, not_both, append_assoc,
}
use graphize.Common.Bag.{count}
use graphize.Frame.Cache.{ShmCache}
use graphize.Service.Fetch.{FetchInfo}
use graphize.Service.Latch.{Latch, is_skipped, new_latch, cond_finish, release, release_all}
use graphize.Service.Parse.{Call}
use graphize.Service.Reply.{RedisResultItem}
use graphize.Service.Callback.{FetchProgress}
use graphize.Service.Callback.Filled.{IsAnswered, request_ends-Ended}
use graphize.Service.DoService.{
  Event, skipped, ended, tail, Members, Outside, Serving, end_request, count_down,
}
use graphize.Service.DoService.Trace.{positions, starts_of, IsEvent, AreEvents}
use graphize.Service.DoService.Phase.{
  FetchPhase, Phase, some_key, step_of, own_starts, other_starts, fetch_step, same_phase,
}

release_all-snoc :
    (skip : ℕ → Bool) (js : List ℕ) (j : ℕ) (l : Latch)
    → release_all skip (js ++ j ∷ []) l ≡ release skip j (release_all skip js l)
unfolding release_all
release_all-snoc skip [] j l = refl
release_all-snoc skip (k ∷ js) j l = release_all-snoc skip js j (release skip k l)

module _ (shm : ShmCache) (members : Members) (env : Outside)
    (fetch_info_vec : List FetchInfo) where
  -- One counter down, in the books.
  released_next :
      (j : ℕ) (done : List ℕ) (latch : Latch)
      → latch
        ≡ release_all
            (is_skipped env.has_client fetch_info_vec)
            done
            (new_latch members.enable_multi_get members.batch_size fetch_info_vec)
      → release (is_skipped env.has_client fetch_info_vec) j latch
        ≡ release_all
            (is_skipped env.has_client fetch_info_vec)
            (done ++ j ∷ [])
            (new_latch members.enable_multi_get members.batch_size fetch_info_vec)
  released_next j done latch e =
      ap (release (is_skipped env.has_client fetch_info_vec) j) e
      ∙ sym (release_all-snoc (is_skipped env.has_client fetch_info_vec) done j _)

  -- A fetch is skipped.
  skipped_step :
      (j : ℕ) (es : List Event) (result_map : ℕ → List (Option RedisResultItem)) (latch : Latch)
      → Phase shm members env fetch_info_vec (skipped j ∷ es) result_map latch
      → Phase shm members env fetch_info_vec es result_map (cond_finish latch)
  unfolding positions starts_of AreEvents IsEvent release
  skipped_step j es result_map latch p =
      let is = p.events.0 in
      record {
        done = p.done ++ j ∷ [];
        released = sym (rw is refl) ∙ released_next j p.done latch p.released;
        counts = λ k. ap (count k) (append_assoc p.done (j ∷ []) (positions es)) ∙ p.counts k;
        events = p.events.1;
        each = λ k fetch a.
            let f = p.each k fetch a in
            record { left = f.left; free = f.free; filled = f.filled; size = f.size };
        empty = p.empty;
        past = p.past;
      }

  module _ (some_size : 0 < members.batch_size)
      (replied : (j i : ℕ) → IsAnswered (env.answer_of j i)) where
    ended_step :
        (j i : ℕ) (es : List Event) (s : Serving shm)
        → Phase shm members env fetch_info_vec (ended j i ∷ es) s.result_map s.latch
        → (rm : ℕ → List (Option RedisResultItem)) × (l : Latch) × (parses : List
            (Option (List Call)))
          × (count_down shm members env fetch_info_vec (ended j i) s
              ≡ some (record s { result_map = rm; latch = l; parsed = parses }))
          × Phase shm members env fetch_info_vec es rm l
    unfolding count_down end_request AreEvents IsEvent positions release
    ended_step j i es s p =
        let (fetch, asked) = p.events.0 in
        let f = p.each j fetch asked in
        let before : FetchProgress = record {
          redis_result_item_vec = s.result_map j;
          latch = s.latch;
          parsed = s.parsed;
        } in
        let (p', e, one) =
          request_ends-Ended env.uncompress members.enable_paral_parse
            (step_of shm members env fetch_info_vec fetch) j fetch i (env.answer_of j i) before
            (replied j i)
            (f.free i
              (ground (arith, ap (count i) (own_starts shm members env fetch_info_vec j i es)))) in
        let rm : ℕ → List (Option RedisResultItem) =
          λ k. if j == k then p'.redis_result_item_vec else s.result_map k in
        let at_j : rm j ≡ p'.redis_result_item_vec = rw ((==_iff j j).1 refl) refl in
        let stepped : FetchPhase shm members env fetch_info_vec j fetch es (rm j) =
          subst (FetchPhase shm members env fetch_info_vec j fetch es) (sym at_j) (
            fetch_step shm members env fetch_info_vec j i es fetch before p'
              (some_key shm members env fetch_info_vec j fetch asked) some_size f one) in
        let past_j : (k : ℕ) → j ≢ k → s.result_map k ≡ rm k = λ k ne. ground arith in
        (
          rm,
          p'.latch,
          p'.parsed,
          rw (asked.at_position, e) refl,
          record {
            done = p.done ++ j ∷ [];
            released =
                one.latch
                ∙ sym (rw asked.not_skipped refl)
                ∙ released_next j p.done s.latch p.released;
            counts = λ k. ap (count k) (append_assoc p.done (j ∷ []) (positions es)) ∙ p.counts k;
            events = p.events.1;
            each = λ k fetch' a. elim (ℕ_discrete j k) [
              | yes here ↦
                  let same_fetch : fetch ≡ fetch' =
                    some-injective (
                      sym asked.at_position ∙ ap (get_elem? fetch_info_vec) here ∙ a.at_position) in
                  subst (λ k'. FetchPhase shm members env fetch_info_vec k' fetch' es (rm k')) here
                    (subst (λ x. FetchPhase shm members env fetch_info_vec j x es (rm j)) same_fetch
                      stepped)
              | no ne ↦
                  same_phase shm members env fetch_info_vec k fetch' (ended j i ∷ es) es
                    (s.result_map k) (rm k)
                    (other_starts shm members env fetch_info_vec j i es k ne) (past_j k ne)
                    (p.each k fetch' a)
            ];
            empty = λ k is.
                sym (
                  past_j k (λ e'.
                    not_both is
                      (ap (is_skipped env.has_client fetch_info_vec) (sym e') ∙ asked.not_skipped)))
                ∙ p.empty k is;
            past = λ k out.
                sym (
                  past_j k (λ e'.
                    none≢some
                      (sym out ∙ ap (get_elem? fetch_info_vec) (sym e') ∙ asked.at_position)))
                ∙ p.past k out;
          },
        )

    -- An event, in the phase before it.
    pub count_down_step :
        (e : Event) (es : List Event) (s : Serving shm)
        → Phase shm members env fetch_info_vec (e ∷ es) s.result_map s.latch
        → (rm : ℕ → List (Option RedisResultItem)) × (l : Latch) × (parses : List
            (Option (List Call)))
          × (count_down shm members env fetch_info_vec e s
              ≡ some (record s { result_map = rm; latch = l; parsed = parses }))
          × Phase shm members env fetch_info_vec es rm l
    unfolding count_down AreEvents IsEvent
    count_down_step (skipped j) es s p = (
      s.result_map,
      cond_finish s.latch,
      s.parsed,
      refl,
      skipped_step j es s.result_map s.latch p,
    )
    count_down_step (ended j i) es s p = ended_step j i es s p
    count_down_step tail es s p = absurd p.events.0
