-- ===== src/Redis/Client.antt =====
-- class RedisClient (src/frame/client/redis/redis_client.cpp) with the two ChannelPools that it holds, and
-- ChannelPool::GetConnection and FreeConnection (src/frame/client/redis/channel_pool.cpp). Texts
-- are bytes. boost, brpc::Channel::Init and the reply of the server are parameters.
pub mod Changed
pub mod Rounds
pub mod Masters
pub mod Switching
pub mod Sending
pub mod Channels
pub mod Ending
pub mod Routes
mod Examples
pub mod Fetch
use graphize.Common.{
  ℕ, zero, suc, ◌+◌, ◌∷◌, ◌++◌, List, [], Option, none, some, Bool, true, false, not, ◌&&◌, ◌||◌,
  ltb, ◌==◌, if◌then◌else◌, ℤ, length, get_elem?, get_or, set, take, drop, replicate, ◌-◌, map,
  ◌>>=◌,
}
use graphize.Redis.Slots.{slots_end, NodeInfo, init_slot_node_map, get_key_node_index}
use graphize.Redis.NodeText.{decimal, parse_node_string, parse_slot_string}
use graphize.Redis.ConnectPool.{Pool, create, borrow, release}
use graphize.Redis.NodeLine.{line_changed, field, is_valid, parse_slots, host_of, address}

-- A ConnectPool of channels to one address, which is bound in its build function.
pub record Endpoint : Type 0 where
  pub ip_port : List ℕ
  pub pool : Pool

-- class ChannelPool; `none` in m_channel_list is a null pointer.
pub record ChannelPool : Type 0 where
  pub m_channel_list : List (Option Endpoint)
  pub slot_ipport_index_vec : List ℤ
  pub valid_lines : List (List ℕ)

-- `pool_index` is `false` for 0 and `true` for 1.
pub record RedisClient : Type 0 where
  pub channel_pool0 : ChannelPool
  pub channel_pool1 : ChannelPool
  pub pool_index : Bool

-- What the client takes from outside: boost::trim, boost::split with token_compress_on by the
-- separator that is given, whether the n-th channel to an address is initialised, the port of a NodeInfo
-- that was not written yet, and the size of the connection pools.
pub record Env : Type 0 where
  pub trim : List ℕ → List ℕ
  pub split : ℕ → List ℕ → List (List ℕ)
  pub builds : List ℕ → ℕ → Bool
  pub unset_port : List ℕ → ℕ
  pub pool_size : ℕ

-- How the call of `cluster nodes` ends. `other_reply` is one that is neither an error nor a text, on which
-- RedisReply::data() fails a CHECK.
pub data Answer : Type 0 where
  init_failed : Answer
  rpc_failed : Answer
  error_reply : Answer
  other_reply : Answer
  data_reply : List ℕ → Answer

abbrev pub channel_pool : RedisClient → Bool → ChannelPool
channel_pool c false = c.channel_pool0
channel_pool c true = c.channel_pool1

abbrev pub set_channel_pool : RedisClient → Bool → ChannelPool → RedisClient
set_channel_pool c false p = record c { channel_pool0 = p }
set_channel_pool c true p = record c { channel_pool1 = p }

-- get_cur_channel_pool
abbrev pub get_cur_channel_pool : RedisClient → ChannelPool
get_cur_channel_pool c = channel_pool c c.pool_index

resize_list : List (Option Endpoint) → ℕ → List (Option Endpoint)
resize_list vec n = take n vec ++ replicate (n - length vec) none

-- m_channel_list is resized unless it has the size.
unfoldable pub resized : List (Option Endpoint) → ℕ → List (Option Endpoint)
unfolding resize_list
resized list cnt = if length list == cnt then list else resize_list list cnt

-- A ChannelPool as it is made.
abbrev pub no_pool : ChannelPool
no_pool = record { m_channel_list = []; slot_ipport_index_vec = []; valid_lines = [] }

module _ (env : Env) where
  unfoldable pub lines_changed : List (List ℕ) → List (List ℕ) → Bool
  unfolding line_changed
  lines_changed (line_0 ∷ lines_0) (line_1 ∷ lines_1) =
      line_changed (env.split b' ' line_0) (env.split b' ' line_1) || lines_changed lines_0 lines_1
  lines_changed lines_0 lines_1 = false

  -- is_channel_pool_changed
  unfoldable pub is_channel_pool_changed : RedisClient → Bool
  unfolding lines_changed
  is_channel_pool_changed c =
      let lines_0 = c.channel_pool0.valid_lines in
      let lines_1 = c.channel_pool1.valid_lines in
      if length lines_0 == length lines_1 then lines_changed lines_0 lines_1 else true

  -- The node of a line that is kept.
  unfoldable pub read_node : List ℕ → NodeInfo
  unfolding parse_slots
  read_node line =
      let nodeinfo = env.split b' ' line in
      let node : NodeInfo = record {
        strinfo = line;
        id = field nodeinfo 0;
        ip = [];
        port = env.unset_port line;
        slots = [];
      } in
      parse_slots (parse_node_string node (field nodeinfo 1)).0 (drop 8 nodeinfo)

  unfoldable pub kept_lines : List (List ℕ) → List (List ℕ)
  unfolding is_valid
  kept_lines [] = []
  kept_lines (line ∷ lines) =
      if is_valid (env.split b' ' line) then line ∷ kept_lines lines else kept_lines lines

  -- InitChannel; `none`: the constructor of ConnectPool throws, which ends the process.
  unfoldable pub init_channel :
      List (Option Endpoint) → ℕ → NodeInfo → Option (List (Option Endpoint))
  unfolding address host_of
  init_channel list idx node =
      if length (host_of node) == 0
      then some list
      else elim (create (env.builds (address node)) env.pool_size 100) [
        | none ↦ none
        | some pool ↦ some (set list idx (some (record { ip_port = address node; pool = pool })))
      ]

  -- The last loop of init_channel_pool, from `idx`.
  unfoldable pub init_channels :
      List (Option Endpoint) → ℕ → List NodeInfo → Option (List (Option Endpoint))
  unfolding init_channel
  init_channels list idx [] = some list
  init_channels list idx (node ∷ nodes) = do
    list' ← init_channel list idx node
    init_channels list' (suc idx) nodes

  -- The lines of a reply that are kept, with the empty ones that split leaves.
  unfoldable pub reply_lines : List ℕ → List (List ℕ)
  unfolding kept_lines
  reply_lines text = kept_lines (env.split b'\n' (env.trim text))

  -- The end of init_channel_pool: the slots and the connections of the nodes; `none` also if a loop over the slots
  -- has no end.
  unfoldable pub build_pool : ChannelPool → List NodeInfo → Option ChannelPool
  unfolding init_channels resized slots_end
  build_pool p nodes =
      if slots_end nodes
      then init_channels (resized p.m_channel_list (length nodes)) 0 nodes >>= (λ list.
        some (record p {
          m_channel_list = list;
          slot_ipport_index_vec = init_slot_node_map p.slot_ipport_index_vec nodes;
        }))
      else none

  unfoldable pub refill : RedisClient → Bool → List NodeInfo → Option RedisClient
  unfolding build_pool
  refill c side nodes = do
    p ← build_pool (channel_pool c side) nodes
    some (set_channel_pool c side p)

  -- init_channel_pool with the reply of the server; `none`: the process ends, or init_channel_pool does not. A channel that is not
  -- initialised throws a string, which no handler for std::exception takes.
  unfoldable pub init_channel_pool : RedisClient → Bool → Answer → Option RedisClient
  unfolding is_channel_pool_changed reply_lines read_node refill
  init_channel_pool c side init_failed = none
  init_channel_pool c side rpc_failed = some c
  init_channel_pool c side error_reply = some c
  init_channel_pool c side other_reply = none
  init_channel_pool c side (data_reply text) =
      let valid_lines = reply_lines text in
      let c' =
        set_channel_pool c side (record (channel_pool c side) { valid_lines = valid_lines }) in
      if is_channel_pool_changed c' then refill c' side (map read_node valid_lines) else some c'

  -- The constructor of RedisClient.
  unfoldable pub new_client : Answer → Option RedisClient
  unfolding init_channel_pool
  new_client answer =
      let c : RedisClient = record {
        channel_pool0 = no_pool;
        channel_pool1 = no_pool;
        pool_index = false;
      } in
      init_channel_pool c false answer

  -- One round of update_channel_pool: the pool that is not in use is filled, and taken into use if the two
  -- differ.
  unfoldable pub update_round : RedisClient → Answer → Option RedisClient
  unfolding init_channel_pool
  update_round c answer = do
    c' ← init_channel_pool c (not c.pool_index) answer
    some (if is_channel_pool_changed c' then record c' { pool_index = not c'.pool_index } else c')

  unfoldable pub update_rounds : RedisClient → List Answer → Option RedisClient
  unfolding update_round
  update_rounds c [] = some c
  update_rounds c (answer ∷ answers) = do c' ← update_round c answer; update_rounds c' answers
