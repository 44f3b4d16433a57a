-- ===== src/Redis/ConnectPool/Bounds.antt =====
-- How many connections a ConnectPool keeps (src/frame/client/redis/connect_pool.h).
use graphize.Common.{
  ℕ, zero, suc, ◌+◌, ◌-◌, ◌≤◌, ◌<◌, ◌≡◌, refl, ap, ◌∙◌, List, [], ◌∷◌, ◌++◌, arith, Option, none,
  some, Bool, length, length-append, if◌then◌else◌, inl, inr, List-cases,
}
use graphize.Redis.ConnectPool.{Pool, build_all, create, borrow, release}

-- A call on the pool; what is given back may be null.
pub data Call : Type 0 where
  borrows : Call
  releases : Option ℕ → Call

unfoldable pub call : (ℕ → Bool) → Pool → Call → Pool
call builds p borrows = (borrow builds p).0
call builds p (releases conn) = (release p conn).0

unfoldable pub calls : (ℕ → Bool) → Pool → List Call → Pool
unfolding call
calls builds p [] = p
calls builds p (c ∷ cs) = calls builds (call builds p c) cs

pub record IsBounded (max_size : ℕ) (p : Pool) : Type 0 where
  pub fits : length p.conn_list ≤ p.max_size
  pub max : p.max_size ≡ max_size

borrow-IsBounded :
    (builds : ℕ → Bool) (m : ℕ) (p : Pool) → IsBounded m p → IsBounded m (borrow builds p).0
unfolding borrow
borrow-IsBounded builds m p b = ground arith

release-IsBounded :
    (m : ℕ) (p : Pool) (conn : Option ℕ) → IsBounded m p → IsBounded m (release p conn).0
unfolding release
release-IsBounded m p none b = b
release-IsBounded m p (some conn) b = ground (arith, length-append p.conn_list (conn ∷ []))

calls-IsBounded :
    (builds : ℕ → Bool) (m : ℕ) (cs : List Call) (p : Pool)
    → IsBounded m p
    → IsBounded m (calls builds p cs)
unfolding calls
calls-IsBounded builds m [] p b = b
calls-IsBounded builds m (borrows ∷ cs) p b =
    calls-IsBounded builds m cs (borrow builds p).0 (borrow-IsBounded builds m p b)
calls-IsBounded builds m (releases conn ∷ cs) p b =
    calls-IsBounded builds m cs (release p conn).0 (release-IsBounded m p conn b)

build_all-length :
    (builds : ℕ → Bool) (n : ℕ) (p : Pool)
    → (length (build_all builds n p).conn_list ≤ length p.conn_list + n)
      × ((build_all builds n p).max_size ≡ p.max_size)
unfolding build_all
build_all-length builds zero p = (omega arith, refl)
build_all-length builds (suc n) p =
    let p' : Pool = record p {
      conn_list = if builds p.built then p.conn_list ++ p.built ∷ [] else p.conn_list;
      built = suc p.built;
    } in
    ground (arith, build_all-length builds n p', length-append p.conn_list (p.built ∷ []))

-- Whatever is called on a pool that was created, it never keeps more than `max_size` connections.
pub create-calls-le :
    (builds : ℕ → Bool) (pool_size max_size : ℕ) (p : Pool) (cs : List Call)
    → create builds pool_size max_size ≡ some p
    → length (calls builds p cs).conn_list ≤ max_size
unfolding create
create-calls-le builds pool_size max_size p cs e =
    let b : IsBounded max_size p = ground (
      arith,
      build_all-length builds pool_size (record {
        pool_size = pool_size;
        max_size = max_size;
        borrow_size = 0;
        busy = 0;
        conn_list = [];
        built = 0;
      }),
    ) in
    let after = calls-IsBounded builds max_size cs p b in omega (arith, after.fits, after.max)

-- One connection is borrowed and given back.
unfoldable pub cycle : (ℕ → Bool) → Pool → Pool
cycle builds p = let (p', conn) = borrow builds p in (release p' conn).0

cycles : (ℕ → Bool) → ℕ → Pool → Pool
unfolding cycle
cycles builds zero p = p
cycles builds (suc n) p = cycles builds n (cycle builds p)

-- Nothing is lent, and the pool holds its size or more.
record IsIdle (p : Pool) : Type 0 where
  pub none_lent : p.borrow_size ≡ 0
  pub some_size : 0 < p.pool_size
  pub order : p.pool_size ≤ p.max_size
  pub full : p.pool_size ≤ length p.conn_list
  pub fits : length p.conn_list ≤ p.max_size

record Shrinks (n : ℕ) (p p' : Pool) : Type 0 where
  pub idle : IsIdle p'
  pub same_size : p'.pool_size ≡ p.pool_size
  pub length_after : length p'.conn_list ≡ p.pool_size + (length p.conn_list - n - p.pool_size)

-- Borrowing from a pool that holds `conn` and then `rest`.
cycle_from :
    (builds : ℕ → Bool) (p : Pool) (conn : ℕ) (rest : List ℕ)
    → IsIdle p
    → p.conn_list ≡ conn ∷ rest
    → Shrinks 1 p (cycle builds p)
unfolding cycle borrow release
cycle_from builds p conn rest i e = ground (arith, length-append rest (conn ∷ []))

cycle-Shrinks : (builds : ℕ → Bool) (p : Pool) → IsIdle p → Shrinks 1 p (cycle builds p)
cycle-Shrinks builds p i = elim (List-cases p.conn_list) [
  | inl e ↦ absurd (omega (arith, i.full, i.some_size, ap length e))
  | inr (conn, rest, e) ↦ cycle_from builds p conn rest i e
]

-- The pool comes back to its size: each time that a connection is borrowed from an idle pool and
-- given back, one of those beyond `pool_size` is dropped, until none is left.
cycles-Shrinks : (builds : ℕ → Bool) (n : ℕ) (p : Pool) → IsIdle p → Shrinks n p (cycles builds n p)
unfolding cycles
cycles-Shrinks builds zero p i = record {
  idle = i;
  same_size = refl;
  length_after = omega (arith, i.full);
}
cycles-Shrinks builds (suc n) p i =
    let one = cycle-Shrinks builds p i in
    let rest = cycles-Shrinks builds n (cycle builds p) one.idle in
    record {
      idle = rest.idle;
      same_size = rest.same_size ∙ one.same_size;
      length_after = omega (arith, rest.length_after, one.length_after, one.same_size);
    }
