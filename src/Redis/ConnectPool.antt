-- ===== src/Redis/ConnectPool.antt =====
-- src/frame/client/redis/connect_pool.h: class ConnectPool. A connection is the number of the call
-- of the build function that made it; `builds` says which calls of it do not return null.
pub mod Bounds
pub mod Ownership
use graphize.Common.{
  ℕ, zero, suc, ◌+◌, ◌-◌, ◌%◌, ◌^◌, ◌++◌, List, [], ◌∷◌, Option, none, some, Bool, true, false, ltb,
  leb, ◌==◌, if◌then◌else◌, length,
}

pub record Pool : Type 0 where
  pub pool_size : ℕ  -- uint32_t
  pub max_size : ℕ  -- uint32_t
  pub borrow_size : ℕ  -- uint32_t
  pub busy : ℕ  -- uint32_t
  pub conn_list : List ℕ
  pub built : ℕ  -- calls of the build function so far

-- `++x` and `--x` on a uint32_t.
abbrev pub up : ℕ → ℕ
up x = (x + 1) % 2 ^ 32

abbrev pub down : ℕ → ℕ
down x = (x + 2 ^ 32 - 1) % 2 ^ 32

-- The loop of the constructor: a connection that is null is left out.
unfoldable pub build_all : (ℕ → Bool) → ℕ → Pool → Pool
build_all builds zero p = p
build_all builds (suc n) p = build_all builds n (record p {
  conn_list = if builds p.built then p.conn_list ++ p.built ∷ [] else p.conn_list;
  built = suc p.built;
})

-- The constructor. `none`: it throws (and so ends the process, being noexcept).
unfoldable pub create : (ℕ → Bool) → ℕ → ℕ → Option Pool
unfolding build_all
create builds pool_size max_size =
    if ltb max_size pool_size
    then none
    else some (
        build_all builds pool_size (record {
          pool_size = pool_size;
          max_size = max_size;
          borrow_size = 0;
          busy = 0;
          conn_list = [];
          built = 0;
        }))

-- The end of `borrow`: the pool is busy while more is lent than it holds.
unfoldable pub mark_busy : Pool → Pool
mark_busy p = record p { busy = if ltb p.pool_size p.borrow_size then up p.busy else 0 }

take_connection : (ℕ → Bool) → Pool → List ℕ → Pool × Option ℕ
take_connection builds p [] = (
  record p { borrow_size = up p.borrow_size; built = suc p.built },
  if builds p.built then some p.built else none,
)
take_connection builds p (conn ∷ rest) =
    (record p { conn_list = rest; borrow_size = up p.borrow_size }, some conn)

-- ConnectPool::borrow
unfoldable pub borrow : (ℕ → Bool) → Pool → Pool × Option ℕ
unfolding take_connection mark_busy
borrow builds p = let (p', conn) = take_connection builds p p.conn_list in (mark_busy p', conn)

-- ConnectPool::release behind the test for null, with the count taken down.
unfoldable pub give_back : Pool → ℕ → Pool × Bool
give_back p conn =
    let kept = record p { conn_list = p.conn_list ++ conn ∷ [] } in
    if leb p.max_size (length p.conn_list)
    then (p, false)
    else if ltb (length p.conn_list) p.pool_size
    then (kept, true)
    else if ltb 0 p.busy
    then (kept, true)
    else (p, true)

-- ConnectPool::release
unfoldable pub release : Pool → Option ℕ → Pool × Bool
unfolding give_back
release p none = (p, false)
release p (some conn) = give_back (record p { borrow_size = down p.borrow_size }) conn

-- ConnectPool::size, which returns a bool.
unfoldable pub size : Pool → Bool
size p = if length p.conn_list == 0 then false else true
