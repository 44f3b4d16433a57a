-- ===== src/Frame/Run/Threads.antt =====
-- What the bthreads of a request owe and hold, and the one that runs next (src/frame/graph.h).
use graphize.Common.{
  ℕ, zero, suc, ◌+◌, ◌++◌, ◌≤◌, ◌<◌, ◌≡◌, refl, ap, List, [], ◌∷◌, arith, none, some, length,
}
use graphize.Common.Bag.{count, total, count-append, total-append}
use graphize.Frame.Run.{Thread, select}
use graphize.Frame.Run.{entering, serving, waiting, notifying}

-- The notifications that a bthread has still to make.
abbrev pub owed_of : Thread → List ℕ
owed_of (entering n) = []
owed_of (serving n) = []
owed_of (waiting n) = []
owed_of (notifying rest last) = rest

-- The node that a bthread runs, or keeps ready.
abbrev pub held_of : Thread → List ℕ
held_of (entering n) = n ∷ []
held_of (serving n) = n ∷ []
held_of (waiting n) = n ∷ []
held_of (notifying rest none) = []
held_of (notifying rest (some last)) = last ∷ []

abbrev pub owed_by : List Thread → List ℕ
owed_by [] = []
owed_by (t ∷ ts) = owed_of t ++ owed_by ts

abbrev pub held_by : List Thread → List ℕ
held_by [] = []
held_by (t ∷ ts) = held_of t ++ held_by ts

pub select-append :
    (i : ℕ) (ts : List Thread)
    → i < length ts
    → (before : List Thread) × (t : Thread) × (after : List Thread) × (select i ts
        ≡ some (before, t, after))
      × (ts ≡ before ++ (t ∷ after))
unfolding select
select-append i [] h = absurd (omega arith)
select-append zero (t ∷ ts) h = ([], t, ts, refl, refl)
select-append (suc i) (t ∷ ts) h =
    let (before, u, after, e, e') = select-append i ts (omega arith) in
    (t ∷ before, u, after, rw e, ap (◌∷◌ t) e')

pub select-past : (i : ℕ) (ts : List Thread) → length ts ≤ i → select i ts ≡ none
unfolding select
select-past i [] h = refl
select-past zero (t ∷ ts) h = absurd (omega arith)
select-past (suc i) (t ∷ ts) h = rw (select-past i ts (omega arith))

pub owed-append :
    (v : ℕ) (xs ys : List Thread)
    → count v (owed_by (xs ++ ys)) ≡ count v (owed_by xs) + count v (owed_by ys)
owed-append v [] ys = omega arith
owed-append v (t ∷ ts) ys = omega (
  arith,
  owed-append v ts ys,
  count-append v (owed_of t) (owed_by (ts ++ ys)),
  count-append v (owed_of t) (owed_by ts),
)

pub held-append :
    (v : ℕ) (xs ys : List Thread)
    → count v (held_by (xs ++ ys)) ≡ count v (held_by xs) + count v (held_by ys)
held-append v [] ys = omega arith
held-append v (t ∷ ts) ys = omega (
  arith,
  held-append v ts ys,
  count-append v (held_of t) (held_by (ts ++ ys)),
  count-append v (held_of t) (held_by ts),
)

pub total-held-append :
    (w : ℕ → ℕ) (xs ys : List Thread)
    → total w (held_by (xs ++ ys)) ≡ total w (held_by xs) + total w (held_by ys)
unfolding total
total-held-append w [] ys = omega arith
total-held-append w (t ∷ ts) ys = omega (
  arith,
  total-held-append w ts ys,
  total-append w (held_of t) (held_by (ts ++ ys)),
  total-append w (held_of t) (held_by ts),
)
