-- ===== src/Redis/Client/Ending.antt =====
-- When RedisClient::update_channel_pool ends the process (src/frame/client/redis/redis_client.cpp).
use graphize.Common.{
  ℕ, ◌≤◌, ◌≡◌, ◌↔◌, ◌⊎◌, true, refl, sym, ◌∙◌, List, arith, Bool, not, none, some, none≢some,
  none_of_bind_some, Bool-cases, inl, inr, map, length,
}
use graphize.Redis.Slots.{NodeInfo, init_slot_node_map, slots_end}
use graphize.Redis.Client.{
  Env, ChannelPool, RedisClient, Answer, channel_pool, set_channel_pool, is_channel_pool_changed,
  reply_lines, build_pool, read_node, refill, init_channel_pool, update_round, resized,
}
use graphize.Redis.Client.Channels.{init_channels-some}

module _ (env : Env) (fits : env.pool_size ≤ 100) where
  build_pool-some :
      (p : ChannelPool) (nodes : List NodeInfo)
      → slots_end nodes ≡ true
      → (q : ChannelPool) × (build_pool env p nodes ≡ some q)
  unfolding build_pool
  build_pool-some p nodes ends =
      let (list, made) =
        init_channels-some env nodes (resized p.m_channel_list (length nodes)) 0 fits in
      (
        record p {
          m_channel_list = list;
          slot_ipport_index_vec = init_slot_node_map p.slot_ipport_index_vec nodes;
        },
        rw (ends, made) refl,
      )

  refill-some :
      (c : RedisClient) (side : Bool) (nodes : List NodeInfo)
      → slots_end nodes ≡ true
      → (c' : RedisClient) × (refill env c side nodes ≡ some c')
  unfolding refill
  refill-some c side nodes ends =
      let (q, built) = build_pool-some (channel_pool c side) nodes ends in
      (set_channel_pool c side q, rw built refl)

  init_channel_pool_reply :
      (c : RedisClient) (side : Bool) (text : List ℕ)
      → slots_end (map (read_node env) (reply_lines env text)) ≡ true
      → (c' : RedisClient) × (init_channel_pool env c side (Answer.data_reply text) ≡ some c')
  unfolding init_channel_pool
  init_channel_pool_reply c side text ends =
      let lines = reply_lines env text in
      let d = set_channel_pool c side (record (channel_pool c side) { valid_lines = lines }) in
      elim (Bool-cases (is_channel_pool_changed env d)) [
        | inl changed ↦
            let (c', made) = refill-some d side (map (read_node env) lines) ends in
            (c', rw changed made)
        | inr same ↦ (d, rw same refl)
      ]

  init_channel_pool-none_iff :
      (c : RedisClient) (side : Bool) (answer : Answer)
      → ((text : List ℕ)
          → answer ≡ Answer.data_reply text
          → slots_end (map (read_node env) (reply_lines env text)) ≡ true)
      → (init_channel_pool env c side answer ≡ none)
        ↔ ((answer ≡ Answer.init_failed) ⊎ (answer ≡ Answer.other_reply))
  unfolding init_channel_pool
  init_channel_pool-none_iff c side Answer.init_failed ends = (λ e. inl refl, λ e. refl)
  init_channel_pool-none_iff c side Answer.other_reply ends = (λ e. inr refl, λ e. refl)
  init_channel_pool-none_iff c side Answer.rpc_failed ends = ground arith
  init_channel_pool-none_iff c side Answer.error_reply ends = ground arith
  init_channel_pool-none_iff c side (Answer.data_reply text) ends =
      let (c', made) = init_channel_pool_reply c side text (ends text refl) in
      (λ e. absurd (none≢some (sym e ∙ made)), λ e. absurd (ground arith))

-- With a pool size of at most 100, and if no node of a text that is replied has a range of slots that ends at 2^32 - 1:
-- a round ends the process exactly if the channel for `cluster nodes` is not initialised, or the reply is neither an
-- error nor a text.
pub update_round-none_iff :
    (env : Env) (c : RedisClient) (answer : Answer)
    → env.pool_size ≤ 100
    → ((text : List ℕ)
        → answer ≡ Answer.data_reply text
        → slots_end (map (read_node env) (reply_lines env text)) ≡ true)
    → (update_round env c answer ≡ none)
      ↔ ((answer ≡ Answer.init_failed) ⊎ (answer ≡ Answer.other_reply))
unfolding update_round
update_round-none_iff env c answer fits ends =
    let filled = init_channel_pool-none_iff env fits c (not c.pool_index) answer ends in
    (
      λ e. filled.0 (none_of_bind_some (init_channel_pool env c (not c.pool_index) answer) _ e),
      λ e. rw (filled.1 e) refl,
    )
