-- ===== src/Redis/ConnectPool/Ownership.antt =====
-- Whose connection it is: no connection is lent twice at a time
-- (src/frame/client/redis/connect_pool.h).
use graphize.Common.{
  ℕ, zero, suc, ◌+◌, ◌≤◌, ◌≡◌, refl, List, [], ◌∷◌, ◌++◌, arith, Option, none, some, Bool,
  if◌then◌else◌, List-cases, inl, inr,
}
use graphize.Common.Bag.{count, contains, erase, count-append, count-erase}
use graphize.Redis.ConnectPool.{Pool, build_all, create, borrow, release}

-- What a client does: it gives back only what it has borrowed.
pub data Use : Type 0 where
  borrows : Use
  returns : ℕ → Use

-- The pool and the connections that are lent.
pub record Shared : Type 0 where
  pub pool : Pool
  pub lent : List ℕ

lend : Pool × Option ℕ → List ℕ → Shared
lend (p, none) lent = record { pool = p; lent = lent }
lend (p, some conn) lent = record { pool = p; lent = conn ∷ lent }

unfoldable pub use_once : (ℕ → Bool) → Shared → Use → Shared
unfolding lend
use_once builds s borrows = lend (borrow builds s.pool) s.lent
use_once builds s (returns conn) =
    if contains conn s.lent
    then record { pool = (release s.pool (some conn)).0; lent = erase conn s.lent }
    else s

unfoldable pub use_all : (ℕ → Bool) → Shared → List Use → Shared
unfolding use_once
use_all builds s [] = s
use_all builds s (u ∷ us) = use_all builds (use_once builds s u) us

-- Each connection is lent or kept, once, and was built.
record Owned (conn : ℕ) (s : Shared) : Type 0 where
  once : count conn s.lent + count conn s.pool.conn_list ≤ 1
  known : s.pool.built ≤ conn → count conn s.lent + count conn s.pool.conn_list ≡ 0

borrow-Owned :
    (builds : ℕ → Bool) (conn : ℕ) (s : Shared)
    → Owned conn s
    → Owned conn (use_once builds s borrows)
unfolding use_once borrow
borrow-Owned builds conn s o = ground arith

release-Owned :
    (builds : ℕ → Bool) (conn c : ℕ) (s : Shared)
    → Owned conn s
    → Owned conn (use_once builds s (returns c))
unfolding use_once release
release-Owned builds conn c s o =
    ground (arith, count-append conn s.pool.conn_list (c ∷ []), count-erase conn c s.lent)

use_all-Owned :
    (builds : ℕ → Bool) (conn : ℕ) (us : List Use) (s : Shared)
    → Owned conn s
    → Owned conn (use_all builds s us)
unfolding use_all
use_all-Owned builds conn [] s o = o
use_all-Owned builds conn (borrows ∷ us) s o =
    use_all-Owned builds conn us (use_once builds s borrows) (borrow-Owned builds conn s o)
use_all-Owned builds conn (returns c ∷ us) s o =
    use_all-Owned builds conn us (use_once builds s (returns c)) (release-Owned builds conn c s o)

build_all-Owned :
    (builds : ℕ → Bool) (conn n : ℕ) (p : Pool)
    → Owned conn (record { pool = p; lent = [] })
    → Owned conn (record { pool = build_all builds n p; lent = [] })
unfolding build_all
build_all-Owned builds conn zero p o = o
build_all-Owned builds conn (suc n) p o =
    build_all-Owned builds conn n
      (record p {
        conn_list = if builds p.built then p.conn_list ++ p.built ∷ [] else p.conn_list;
        built = suc p.built;
      })
      (ground (arith, count-append conn p.conn_list (p.built ∷ [])))

create-Owned :
    (builds : ℕ → Bool) (pool_size max_size conn : ℕ) (p : Pool)
    → create builds pool_size max_size ≡ some p
    → Owned conn (record { pool = p; lent = [] })
unfolding create
create-Owned builds pool_size max_size conn p e = ground (
  arith,
  build_all-Owned builds conn pool_size
      (record {
        pool_size = pool_size;
        max_size = max_size;
        borrow_size = 0;
        busy = 0;
        conn_list = [];
        built = 0;
      })
      (record { once = omega arith; known = λ h. refl }),
)

-- A connection comes out of the list, or is new.
taken-Owned :
    (builds : ℕ → Bool) (s : Shared) (conn : ℕ) (p' : Pool)
    → Owned conn s
    → borrow builds s.pool ≡ (p', some conn)
    → (count conn s.lent ≡ 0) × (count conn p'.conn_list ≡ 0)
unfolding borrow
taken-Owned builds s conn p' o got = elim (List-cases s.pool.conn_list) [
  | inl e ↦ ground arith
  | inr (c, rest, e) ↦ ground arith
]

-- What clients do with a pool that nobody has borrowed from.
abbrev pub used : (ℕ → Bool) → Pool → List Use → Shared
used builds p us = use_all builds (record { pool = p; lent = [] }) us

-- Whatever clients borrow from a pool that was created and give back to it, a connection is in one
-- place: what `borrow` returns next is lent to nobody, and the pool does not keep it any more.
pub borrow_fresh :
    (builds : ℕ → Bool) (pool_size max_size : ℕ) (p : Pool) (us : List Use) (conn : ℕ) (p' : Pool)
    → create builds pool_size max_size ≡ some p
    → borrow builds (used builds p us).pool ≡ (p', some conn)
    → (count conn (used builds p us).lent ≡ 0) × (count conn p'.conn_list ≡ 0)
borrow_fresh builds pool_size max_size p us conn p' made got =
    let start = create-Owned builds pool_size max_size conn p made in
    let now = use_all-Owned builds conn us (record { pool = p; lent = [] }) start in
    taken-Owned builds (used builds p us) conn p' now got
