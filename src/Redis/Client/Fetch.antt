-- ===== src/Redis/Client/Fetch.antt =====
-- RedisClient::fetch and multi_fetch (src/frame/client/redis/redis_client.cpp), with
-- ChannelPool::GetConnection and FreeConnection (src/frame/client/redis/channel_pool.cpp).
use graphize.Common.{
  ℕ, ◌-◌, List, [], ◌∷◌, Option, none, some, Bool, true, false, ℤ, pos, negsuc, length, get_elem?,
  get_or, map, set, take, drop, min,
}
use graphize.Redis.Slots.{get_key_node_index}
use graphize.Redis.ConnectPool.{borrow, release}
use graphize.Redis.Client.{
  Env, Endpoint, ChannelPool, RedisClient, set_channel_pool, get_cur_channel_pool,
}

-- What GetConnection gives: null, a channel to an address, or a call through a null pointer.
pub data Connection : Type 0 where
  refused : Connection
  lent : List ℕ → ℕ → Connection
  null_pool : Connection

abbrev connection_of : List ℕ → Option ℕ → Connection
connection_of ip_port none = refused
connection_of ip_port (some conn) = lent ip_port conn

-- What a request goes out on: the address, the channel and the words of the command.
pub record Request : Type 0 where
  pub ip_port : List ℕ
  pub channel : ℕ
  pub words : List (List ℕ)

-- response_handler: what the callback is given of the message.
unfoldable pub response_handler {ℓ} : {A : Type ℓ} → Bool → Option A → Option A
response_handler true msg = none
response_handler false msg = msg

abbrev pub get_word : List ℕ
get_word = b'G' ∷ b'E' ∷ b'T' ∷ []

abbrev pub mget_word : List ℕ
mget_word = b'M' ∷ b'G' ∷ b'E' ∷ b'T' ∷ []

give_to : ChannelPool → Option ℕ → ℕ → Option (Option Endpoint) → ChannelPool
give_to p conn index (some (some e)) = record p {
  m_channel_list = set p.m_channel_list index (some (record e { pool = (release e.pool conn).0 }));
}
give_to p conn index none = p
give_to p conn index (some none) = p

-- FreeConnection, on an index at which there is a pool.
unfoldable pub free_connection : ChannelPool → Option ℕ → ℕ → ChannelPool
unfolding give_to
free_connection p conn index = give_to p conn index (get_elem? p.m_channel_list index)

module _ (env : Env) where
  get_from : ChannelPool → ℕ → Option (Option Endpoint) → ChannelPool × Connection
  get_from p idx none = (p, refused)
  get_from p idx (some none) = (p, null_pool)
  get_from p idx (some (some e)) =
      let (pool, conn) = borrow (env.builds e.ip_port) e.pool in
      (
        record p { m_channel_list = set p.m_channel_list idx (some (record e { pool = pool })) },
        connection_of e.ip_port conn,
      )

  -- GetConnection
  unfoldable pub get_connection : ChannelPool → ℕ → ChannelPool × Connection
  unfolding get_from
  get_connection p idx = get_from p idx (get_elem? p.m_channel_list idx)

  -- The channel is given back as soon as the call is under way, before its reply is there.
  abbrev send :
      RedisClient
      → ℕ
      → List (List ℕ)
      → ChannelPool × Connection
      → Option (RedisClient × ℤ × Option Request)
  send c index words (p, null_pool) = none
  send c index words (p, refused) = some (set_channel_pool c c.pool_index p, negsuc 0, none)
  send c index words (p, lent ip_port conn) = some (
    set_channel_pool c c.pool_index (free_connection p (some conn) index),
    pos 0,
    some (record { ip_port = ip_port; channel = conn; words = words }),
  )

  -- The common end of fetch and multi_fetch: the command goes to the node of a key. The client behind the
  -- call, what it returns and the request; `none` is a call through a null pointer.
  unfoldable pub send_to :
      RedisClient → List ℕ → List (List ℕ) → Option (RedisClient × ℤ × Option Request)
  unfolding get_connection free_connection
  send_to c key words =
      let p = get_cur_channel_pool c in
      let index = get_key_node_index p.slot_ipport_index_vec (some key) in
      send c index words (get_connection p index)

  -- fetch
  unfoldable pub fetch : RedisClient → List ℕ → Option (RedisClient × ℤ × Option Request)
  unfolding send_to
  fetch c key = send_to c key (get_word ∷ key ∷ [])

  -- multi_fetch, with `start_index` within the keys. The command is made when the copies of the keys that its words point
  -- to are destroyed; `freed` is what is found where the copy of a key was.
  unfoldable pub multi_fetch :
      (List ℕ → List ℕ)
      → RedisClient
      → List (List ℕ)
      → ℕ
      → ℕ
      → Option (RedisClient × ℤ × Option Request)
  unfolding send_to
  multi_fetch freed c keys start_index end_index =
      let size = min end_index (length keys) - start_index in
      send_to c (get_or keys start_index [])
        (mget_word ∷ map freed (take size (drop start_index keys)))
