-- ===== src/Service/DoService/Trace.antt =====
-- The events of RedisService::do_service (src/service/base/redis_service.cpp): which there are, whatever their
-- order, and how often they take the counters down.
use graphize.Common.{
  ℕ, ◌≡◌, refl, sym, ap, ◌∙◌, List, [], ◌∷◌, ◌++◌, none, some, true, false, arith, ◌==◌,
  if◌then◌else◌, length, get_elem?, Bool-cases, inl, inr, none≢some, ℕ_discrete, Option-cases,
  not_both,
}
use graphize.Common.Bag.{count, length-le}
use graphize.Service.Fetch.{FetchInfo}
use graphize.Service.Batches.{starts}
use graphize.Service.Latch.{skips, is_skipped, releases, expected}
use graphize.Service.DoService.{Event, skipped, ended, tail, Members, Outside}

-- The fetches of the events.
unfoldable pub positions : List Event → List ℕ
positions [] = []
positions (skipped j ∷ es) = j ∷ positions es
positions (ended j i ∷ es) = j ∷ positions es
positions (tail ∷ es) = positions es

-- The requests of a fetch that end.
unfoldable pub starts_of : ℕ → List Event → List ℕ
starts_of j [] = []
starts_of j (skipped k ∷ es) = starts_of j es
starts_of j (ended k i ∷ es) = let rest = starts_of j es in if k == j then i ∷ rest else rest
starts_of j (tail ∷ es) = starts_of j es

pub positions-append : (es fs : List Event) → positions (es ++ fs) ≡ positions es ++ positions fs
unfolding positions
positions-append [] fs = refl
positions-append (skipped j ∷ es) fs = ap (◌∷◌ j) (positions-append es fs)
positions-append (ended j i ∷ es) fs = ap (◌∷◌ j) (positions-append es fs)
positions-append (tail ∷ es) fs = positions-append es fs

-- Two lists in which each number occurs equally often.
same_length : (xs ys : List ℕ) → ((v : ℕ) → count v xs ≡ count v ys) → length xs ≡ length ys
same_length xs ys same = omega (
  arith,
  length-le xs ys (λ v. omega (arith, same v)),
  length-le ys xs (λ v. omega (arith, same v)),
)

module _ (members : Members) (env : Outside) (fetch_info_vec : List FetchInfo) where
  -- The fetch at the position is not skipped.
  pub record IsAsked (j : ℕ) (fetch : FetchInfo) : Type 0 where
    pub at_position : get_elem? fetch_info_vec j ≡ some fetch
    pub not_skipped : is_skipped env.has_client fetch_info_vec j ≡ false

  -- A fetch is skipped, or asks; the thread has one end only.
  unfoldable pub IsEvent : Event → Type 0
  IsEvent (skipped j) = is_skipped env.has_client fetch_info_vec j ≡ true
  IsEvent (ended j i) = (fetch : FetchInfo) × IsAsked j fetch
  IsEvent tail = ⊥

  unfoldable pub AreEvents : List Event → Type 0
  AreEvents [] = Unit {0}
  AreEvents (e ∷ es) = IsEvent e × AreEvents es

  -- Each fetch is skipped once, or each of its requests ends once, and there is no other event.
  pub record IsComplete (es : List Event) : Type 0 where
    pub events : AreEvents es
    pub once :
        (j : ℕ) → is_skipped env.has_client fetch_info_vec j ≡ true → count j (positions es) ≡ 1
    pub each :
        (j : ℕ) (fetch : FetchInfo)
        → IsAsked j fetch
        → (v : ℕ)
        → count v (starts_of j es)
          ≡ count v (starts members.enable_multi_get (length fetch.keys) members.batch_size)

  -- Of a fetch that is not skipped only requests end.
  count-positions :
      (j : ℕ) (es : List Event)
      → is_skipped env.has_client fetch_info_vec j ≡ false
      → AreEvents es
      → count j (positions es) ≡ length (starts_of j es)
  unfolding positions starts_of AreEvents IsEvent
  count-positions j [] is_not a = refl
  count-positions j (skipped k ∷ es) is_not (e, a) = elim (ℕ_discrete j k) [
    | yes here ↦
        absurd (not_both e (ap (is_skipped env.has_client fetch_info_vec) (sym here) ∙ is_not))
    | no other ↦ ground (arith, count-positions j es is_not a)
  ]
  count-positions j (ended k i ∷ es) is_not (e, a) = ground (arith, count-positions j es is_not a)
  count-positions j (tail ∷ es) is_not (e, a) = absurd e

  not_there :
      (j : ℕ)
      → get_elem? fetch_info_vec j ≡ none
      → is_skipped env.has_client fetch_info_vec j ≡ false
  unfolding is_skipped
  not_there j past = rw past refl

  no_position :
      (j : ℕ) (es : List Event)
      → get_elem? fetch_info_vec j ≡ none
      → AreEvents es
      → count j (positions es) ≡ 0
  unfolding positions AreEvents IsEvent
  no_position j [] past a = refl
  no_position j (skipped k ∷ es) past (e, a) = elim (ℕ_discrete j k) [
    | yes here ↦
        absurd
          (not_both (ap (is_skipped env.has_client fetch_info_vec) here ∙ e) (not_there j past))
    | no other ↦ ground (arith, no_position j es past a)
  ]
  no_position j (ended k i ∷ es) past ((fetch, asked), a) = elim (ℕ_discrete j k) [
    | yes here ↦
        absurd (none≢some (sym past ∙ ap (get_elem? fetch_info_vec) here ∙ asked.at_position))
    | no other ↦ ground (arith, no_position j es past a)
  ]
  no_position j (tail ∷ es) past (e, a) = absurd e

  pub is_skips :
      (j : ℕ) (fetch : FetchInfo)
      → get_elem? fetch_info_vec j ≡ some fetch
      → skips env.has_client fetch ≡ is_skipped env.has_client fetch_info_vec j
  unfolding is_skipped
  is_skips j fetch there = rw there refl

  -- Each counter goes down as often as it has to.
  pub count-expected :
      (es : List Event) (j : ℕ)
      → IsComplete es
      → count j (positions es)
        ≡ expected env.has_client members.enable_multi_get members.batch_size fetch_info_vec j
  unfolding expected releases
  count-expected es j c = elim (Option-cases (get_elem? fetch_info_vec j)) [
    | inl past ↦ no_position j es past c.events ∙ rw past refl
    | inr (fetch, there) ↦ elim (Bool-cases (is_skipped env.has_client fetch_info_vec j)) [
      | inl is ↦ c.once j is ∙ rw (there, is_skips j fetch there ∙ is) refl
      | inr is_not ↦
          count-positions j es is_not c.events
          ∙ same_length (starts_of j es) _
              (c.each j fetch (record { at_position = there; not_skipped = is_not }))
          ∙ rw (there, is_skips j fetch there ∙ is_not) refl
    ]
  ]
