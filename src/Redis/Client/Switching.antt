-- ===== src/Redis/Client/Switching.antt =====
-- Which of its two pools a RedisClient has in use behind a round of update_channel_pool
-- (src/frame/client/redis/redis_client.cpp).
use graphize.Common.{
  ℕ, ◌≡◌, ◌≢◌, refl, sym, ap, ◌∙◌, ◌⊎◌, List, Bool, true, false, not, some, Bool-cases, inl, inr,
}
use graphize.Redis.Client.{
  Env, RedisClient, Answer, channel_pool, get_cur_channel_pool, is_channel_pool_changed,
  reply_lines, init_channel_pool, new_client, update_round, update_rounds,
}
use graphize.Redis.Client.Changed.{topologies, is_channel_pool_changed_iff}
use graphize.Redis.Client.Rounds.{
  channel_pool_of_index, not-not, init_channel_pool-Filled, Filled-HasValidLines, settle,
  update_round_of_some, HasValidLines, update_rounds_valid,
}

module _ (env : Env) where
  settle_changed :
      (c : RedisClient)
      → is_channel_pool_changed env c ≡ true
      → settle env c ≡ record c { pool_index = not c.pool_index }
  unfolding settle
  settle_changed c e = rw e refl

  settle_same : (c : RedisClient) → is_channel_pool_changed env c ≡ false → settle env c ≡ c
  unfolding settle
  settle_same c e = rw e refl

  -- A round that reads no reply, behind one that switched.
  failed_round :
      (c : RedisClient) (answer : Answer)
      → is_channel_pool_changed env c ≡ true
      → (answer ≡ Answer.rpc_failed) ⊎ (answer ≡ Answer.error_reply)
      → update_round env (record c { pool_index = not c.pool_index }) answer
        ≡ some (record c { pool_index = not (not c.pool_index) })
  unfolding update_round init_channel_pool is_channel_pool_changed
  failed_round c answer changed (inl e) = rw (e, changed) refl
  failed_round c answer changed (inr e) = rw (e, changed) refl

  same_sides :
      (c : RedisClient) (s : Bool)
      → topologies env c.channel_pool0.valid_lines ≡ topologies env c.channel_pool1.valid_lines
      → topologies env (channel_pool c s).valid_lines
        ≡ topologies env (channel_pool c (not s)).valid_lines
  same_sides c false e = e
  same_sides c true e = sym e

  settle-current :
      (c : RedisClient)
      → HasValidLines env c
      → topologies env (get_cur_channel_pool (settle env c)).valid_lines
        ≡ topologies env (channel_pool c (not c.pool_index)).valid_lines
  unfolding settle HasValidLines
  settle-current c (v0, v1) = elim (Bool-cases (is_channel_pool_changed env c)) [
    | inl changed ↦ rw changed (
        ap (λ p. topologies env p.valid_lines)
          (channel_pool_of_index c (not c.pool_index) (not c.pool_index)))
    | inr same ↦
        rw same (same_sides c c.pool_index ((is_channel_pool_changed_iff env c v0 v1).0 same))
  ]

  -- Behind a round of which the reply is read, whatever the replies before were, the pool in use lists the nodes
  -- of the reply, by id, address and slots.
  pub update_round_current :
      (first : Answer) (answers : List Answer) (b c c' : RedisClient) (text : List ℕ)
      → new_client env first ≡ some b
      → update_rounds env b answers ≡ some c
      → update_round env c (Answer.data_reply text) ≡ some c'
      → topologies env (get_cur_channel_pool c').valid_lines ≡ topologies env (reply_lines env text)
  update_round_current first answers b c c' text made before e =
      let (d, filled, settled) = update_round_of_some env c c' (Answer.data_reply text) e in
      let f = init_channel_pool-Filled env c d (not c.pool_index) text filled in
      let valid =
        Filled-HasValidLines env c d (not c.pool_index) text f
          (update_rounds_valid env first answers b c made before) in
      ap (λ x. topologies env (get_cur_channel_pool x).valid_lines) settled
      ∙ settle-current d valid
      ∙ ap (λ s. topologies env (channel_pool d (not s)).valid_lines) f.same_index
      ∙ ap (topologies env) f.new_lines

  -- When a round that read a reply took the other pool into use, and the next call of the server fails, or gets
  -- an error, then the round behind it takes the pool of before into use again.
  pub update_round_stale :
      (c c' : RedisClient) (text : List ℕ) (answer : Answer)
      → update_round env c (Answer.data_reply text) ≡ some c'
      → c'.pool_index ≢ c.pool_index
      → (answer ≡ Answer.rpc_failed) ⊎ (answer ≡ Answer.error_reply)
      → (d : RedisClient) × (update_round env c' answer ≡ some d)
        × (get_cur_channel_pool d ≡ get_cur_channel_pool c)
  update_round_stale c c' text answer e switched fails =
      let (d, filled, settled) = update_round_of_some env c c' (Answer.data_reply text) e in
      let f = init_channel_pool-Filled env c d (not c.pool_index) text filled in
      elim (Bool-cases (is_channel_pool_changed env d)) [
        | inr same ↦
            absurd (switched (ap (λ x. x.pool_index) (settled ∙ settle_same d same) ∙ f.same_index))
        | inl changed ↦
            let e' = settled ∙ settle_changed d changed in
            (
              record d { pool_index = not (not d.pool_index) },
              ap (λ x. update_round env x answer) e' ∙ failed_round d answer changed fails,
              channel_pool_of_index d (not (not d.pool_index)) (not (not d.pool_index))
                  ∙ ap (λ s. channel_pool d (not (not s))) f.same_index
                  ∙ f.other_side
                  ∙ ap (channel_pool c) (not-not c.pool_index),
            )
      ]
