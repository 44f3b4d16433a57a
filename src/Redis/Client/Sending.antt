-- ===== src/Redis/Client/Sending.antt =====
-- A request of RedisClient::fetch on a node that has channels (src/frame/client/redis/redis_client.cpp).
use graphize.Common.{
  ℕ, zero, suc, get_elem?-set_self, ◌<◌, ◌≡◌, refl, sym, ap, List, [], ◌∷◌, Bool, true, Option,
  some, length, get_elem?, set, lt_of_get_elem?, pos,
}
use graphize.Redis.Slots.{get_key_node_index}
use graphize.Redis.ConnectPool.{Pool, borrow, release}
use graphize.Redis.ConnectPool.Bounds.{cycle}
use graphize.Redis.Client.{
  Env, Endpoint, ChannelPool, RedisClient, set_channel_pool, get_cur_channel_pool,
}
use graphize.Redis.Client.Channels.{borrow_built}
use graphize.Redis.Client.Fetch.{send_to, get_connection, free_connection, lent}

set-set {ℓ} : {A : Type ℓ} (xs : List A) (i : ℕ) (v w : A) → set (set xs i v) i w ≡ set xs i w
set-set [] i v w = refl
set-set (x ∷ xs) zero v w = refl
set-set (x ∷ xs) (suc i) v w = ap (◌∷◌ x) (set-set xs i v w)

-- The pool of channels at an index.
abbrev pub with_endpoint : ChannelPool → ℕ → Endpoint → ChannelPool
with_endpoint p idx e = record p { m_channel_list = set p.m_channel_list idx (some e) }

release-cycle :
    (builds : ℕ → Bool) (p : Pool) (conn : ℕ)
    → (borrow builds p).1 ≡ some conn
    → (release (borrow builds p).0 (some conn)).0 ≡ cycle builds p
unfolding cycle
release-cycle builds p conn b = ap (λ o. (release (borrow builds p).0 o).0) (sym b)

module _ (env : Env) where
  get_connection-lent :
      (p : ChannelPool) (idx : ℕ) (e : Endpoint) (conn : ℕ)
      → get_elem? p.m_channel_list idx ≡ some (some e)
      → (borrow (env.builds e.ip_port) e.pool).1 ≡ some conn
      → get_connection env p idx ≡ (
        with_endpoint p idx (record e { pool = (borrow (env.builds e.ip_port) e.pool).0 }),
        lent e.ip_port conn,
      )
  unfolding get_connection
  get_connection-lent p idx e conn at b = rw (at, b) refl

  free_connection-set :
      (p : ChannelPool) (idx : ℕ) (e : Endpoint) (conn : Option ℕ)
      → idx < length p.m_channel_list
      → free_connection (with_endpoint p idx e) conn idx
        ≡ with_endpoint p idx (record e { pool = (release e.pool conn).0 })
  unfolding free_connection
  free_connection-set p idx e conn l =
      rw
        (
          get_elem?-set_self p.m_channel_list idx (some e) l,
          set-set p.m_channel_list idx (some e)
              (some (record e { pool = (release e.pool conn).0 })),
        )
        refl

  -- The client behind a request on an endpoint of the pool in use: one of its channels was borrowed and given back.
  abbrev pub used_once : RedisClient → ℕ → Endpoint → RedisClient
  used_once c idx e = set_channel_pool c c.pool_index (
      with_endpoint (get_cur_channel_pool c) idx
        (record e { pool = cycle (env.builds e.ip_port) e.pool }))

  pub send_to_endpoint :
      (c : RedisClient) (key : List ℕ) (words : List (List ℕ)) (e : Endpoint) (idx : ℕ)
      → get_key_node_index (get_cur_channel_pool c).slot_ipport_index_vec (some key) ≡ idx
      → get_elem? (get_cur_channel_pool c).m_channel_list idx ≡ some (some e)
      → ((k : ℕ) → env.builds e.ip_port k ≡ true)
      → (conn : ℕ) × (send_to env c key words
          ≡ some (
            used_once c idx e,
            pos 0,
            some (record { ip_port = e.ip_port; channel = conn; words = words }),
          ))
  unfolding send_to
  send_to_endpoint c key words e idx at_key at builds =
      let p = get_cur_channel_pool c in
      let (conn, b) = borrow_built (env.builds e.ip_port) e.pool builds in
      let inside = lt_of_get_elem? p.m_channel_list idx at in
      (
        conn,
        rw
            (
              at_key,
              get_connection-lent p idx e conn at b,
              free_connection-set p idx
                  (record e { pool = (borrow (env.builds e.ip_port) e.pool).0 }) (some conn) inside,
              release-cycle (env.builds e.ip_port) e.pool conn b,
            )
            refl,
      )
