-- ===== src/Redis/Client/Rounds.antt =====
-- The rounds of RedisClient::update_channel_pool (src/frame/client/redis/redis_client.cpp).
use graphize.Common.{
  ℕ, length, subst, ◌≡◌, refl, sym, ap, ◌∙◌, List, [], ◌∷◌, Bool, true, false, not, if◌then◌else◌,
  some, some_of_bind, some-injective, none≢some, Bool-cases, inl, inr, map,
}
use graphize.Redis.Slots.{NodeInfo, slots_end}
use graphize.Redis.Client.{
  Env, ChannelPool, RedisClient, Answer, channel_pool, set_channel_pool, is_channel_pool_changed,
  kept_lines, reply_lines, build_pool, read_node, refill, init_channel_pool, new_client,
  update_round, update_rounds, init_channels, resized,
}
use graphize.Redis.NodeLine.{is_valid}
use graphize.Redis.Client.Changed.{AreValid}

channel_pool-set_channel_pool :
    (c : RedisClient) (side : Bool) (p : ChannelPool)
    → channel_pool (set_channel_pool c side p) side ≡ p
channel_pool-set_channel_pool c false p = refl
channel_pool-set_channel_pool c true p = refl

pub channel_pool_of_index :
    (c : RedisClient) (i side : Bool)
    → channel_pool (record c { pool_index = i }) side ≡ channel_pool c side
channel_pool_of_index c i false = refl
channel_pool_of_index c i true = refl

pub not-not : (b : Bool) → not (not b) ≡ b
not-not false = refl
not-not true = refl

-- What filling the pool of a side changes: it gets these lines; the other side and the index stay.
pub record Filled (c c' : RedisClient) (side : Bool) (lines : List (List ℕ)) : Type 0 where
  pub new_lines : (channel_pool c' side).valid_lines ≡ lines
  pub other_side : channel_pool c' (not side) ≡ channel_pool c (not side)
  pub same_index : c'.pool_index ≡ c.pool_index

Filled-set :
    (c : RedisClient) (side : Bool) (p : ChannelPool)
    → Filled c (set_channel_pool c side p) side p.valid_lines
Filled-set c false p = record { new_lines = refl; other_side = refl; same_index = refl }
Filled-set c true p = record { new_lines = refl; other_side = refl; same_index = refl }

Filled-trans :
    (c d e : RedisClient) (side : Bool) (ls ms : List (List ℕ))
    → Filled c d side ls
    → Filled d e side ms
    → Filled c e side ms
Filled-trans c d e side ls ms f g = record {
  new_lines = g.new_lines;
  other_side = g.other_side ∙ f.other_side;
  same_index = g.same_index ∙ f.same_index;
}

module _ (env : Env) where
  kept_lines-AreValid : (lines : List (List ℕ)) → AreValid env (kept_lines env lines)
  unfolding kept_lines AreValid
  kept_lines-AreValid [] = tt
  kept_lines-AreValid (line ∷ lines) = elim (Bool-cases (is_valid (env.split b' ' line))) [
    | inl kept ↦ rw kept (kept, kept_lines-AreValid lines)
    | inr dropped ↦ rw dropped (kept_lines-AreValid lines)
  ]

  reply_lines-AreValid : (text : List ℕ) → AreValid env (reply_lines env text)
  unfolding reply_lines
  reply_lines-AreValid text = kept_lines-AreValid _

  build_pool-lines :
      (p q : ChannelPool) (nodes : List NodeInfo)
      → build_pool env p nodes ≡ some q
      → q.valid_lines ≡ p.valid_lines
  unfolding build_pool
  build_pool-lines p q nodes e = elim (Bool-cases (slots_end nodes)) [
    | inr endless ↦ absurd (none≢some (rw endless at e))
    | inl ends ↦
        let (list, found, built) =
          some_of_bind (init_channels env (resized p.m_channel_list (length nodes)) 0 nodes) _
            (rw ends at e) in
        ap (λ r. r.valid_lines) (sym (some-injective built))
  ]

  refill-Filled :
      (c c' : RedisClient) (side : Bool) (nodes : List NodeInfo)
      → refill env c side nodes ≡ some c'
      → Filled c c' side (channel_pool c side).valid_lines
  unfolding refill
  refill-Filled c c' side nodes e =
      let (q, built, made) = some_of_bind (build_pool env (channel_pool c side) nodes) _ e in
      subst (λ d. Filled c d side (channel_pool c side).valid_lines) (some-injective made)
        (subst (λ ls. Filled c (set_channel_pool c side q) side ls)
          (build_pool-lines (channel_pool c side) q nodes built) (Filled-set c side q))

  pub init_channel_pool-Filled :
      (c c' : RedisClient) (side : Bool) (text : List ℕ)
      → init_channel_pool env c side (Answer.data_reply text) ≡ some c'
      → Filled c c' side (reply_lines env text)
  unfolding init_channel_pool
  init_channel_pool-Filled c c' side text e =
      let lines = reply_lines env text in
      let d = set_channel_pool c side (record (channel_pool c side) { valid_lines = lines }) in
      let first : Filled c d side lines =
        Filled-set c side (record (channel_pool c side) { valid_lines = lines }) in
      elim (Bool-cases (is_channel_pool_changed env d)) [
        | inl changed ↦
            let made : refill env d side (map (read_node env) lines) ≡ some c' =
              sym (rw changed refl) ∙ e in
            Filled-trans c d c' side lines lines first (
              subst (λ ls. Filled d c' side ls) first.new_lines
                (refill-Filled d c' side (map (read_node env) lines) made))
        | inr kept ↦
            subst (λ x. Filled c x side lines) (some-injective (sym (rw kept refl) ∙ e)) first
      ]

  -- Both pools hold lines that is_valid keeps.
  unfoldable pub HasValidLines : RedisClient → Type 0
  HasValidLines c =
      (AreValid env c.channel_pool0.valid_lines) × (AreValid env c.channel_pool1.valid_lines)

  pub Filled-HasValidLines :
      (c c' : RedisClient) (side : Bool) (text : List ℕ)
      → Filled c c' side (reply_lines env text)
      → HasValidLines c
      → HasValidLines c'
  unfolding HasValidLines
  Filled-HasValidLines c c' false text f (v0, v1) = (
    subst (AreValid env) (sym f.new_lines) (reply_lines-AreValid text),
    subst (AreValid env) (sym (ap (λ p. p.valid_lines) f.other_side)) v1,
  )
  Filled-HasValidLines c c' true text f (v0, v1) = (
    subst (AreValid env) (sym (ap (λ p. p.valid_lines) f.other_side)) v0,
    subst (AreValid env) (sym f.new_lines) (reply_lines-AreValid text),
  )

  init_channel_pool-HasValidLines :
      (c c' : RedisClient) (side : Bool) (answer : Answer)
      → init_channel_pool env c side answer ≡ some c'
      → HasValidLines c
      → HasValidLines c'
  unfolding init_channel_pool
  init_channel_pool-HasValidLines c c' side Answer.init_failed e v = absurd (none≢some e)
  init_channel_pool-HasValidLines c c' side Answer.other_reply e v = absurd (none≢some e)
  init_channel_pool-HasValidLines c c' side Answer.rpc_failed e v =
      subst HasValidLines (some-injective e) v
  init_channel_pool-HasValidLines c c' side Answer.error_reply e v =
      subst HasValidLines (some-injective e) v
  init_channel_pool-HasValidLines c c' side (Answer.data_reply text) e v =
      Filled-HasValidLines c c' side text (init_channel_pool-Filled c c' side text e) v

  -- The end of a round: the other pool is taken into use if the two differ.
  unfoldable pub settle : RedisClient → RedisClient
  settle c = if is_channel_pool_changed env c then record c { pool_index = not c.pool_index } else c

  pub settle-HasValidLines : (c : RedisClient) → HasValidLines c → HasValidLines (settle c)
  unfolding settle HasValidLines
  settle-HasValidLines c v = elim (Bool-cases (is_channel_pool_changed env c)) [
    | inl changed ↦ rw changed v
    | inr same ↦ rw same v
  ]

  -- A round that does not end the process.
  pub update_round_of_some :
      (c c' : RedisClient) (answer : Answer)
      → update_round env c answer ≡ some c'
      → (d : RedisClient) × (init_channel_pool env c (not c.pool_index) answer ≡ some d)
        × (c' ≡ settle d)
  unfolding update_round settle
  update_round_of_some c c' answer e =
      let (d, filled, rest) =
        some_of_bind (init_channel_pool env c (not c.pool_index) answer) _ e in
      (d, filled, sym (some-injective rest))

  update_rounds-HasValidLines :
      (c c' : RedisClient) (answers : List Answer)
      → update_rounds env c answers ≡ some c'
      → HasValidLines c
      → HasValidLines c'
  unfolding update_rounds
  update_rounds-HasValidLines c c' [] e v = subst HasValidLines (some-injective e) v
  update_rounds-HasValidLines c c' (answer ∷ answers) e v =
      let (b, round, rest) = some_of_bind (update_round env c answer) _ e in
      let (d, filled, settled) = update_round_of_some c b answer round in
      let valid =
        settle-HasValidLines d
          (init_channel_pool-HasValidLines c d (not c.pool_index) answer filled v) in
      update_rounds-HasValidLines b c' answers rest (subst HasValidLines (sym settled) valid)

  -- Whatever the server answered to the constructor and to the rounds so far.
  pub update_rounds_valid :
      (first : Answer) (answers : List Answer) (c c' : RedisClient)
      → new_client env first ≡ some c
      → update_rounds env c answers ≡ some c'
      → HasValidLines c'
  unfolding new_client HasValidLines AreValid
  update_rounds_valid first answers c c' made e =
      update_rounds-HasValidLines c c' answers e
        (init_channel_pool-HasValidLines _ c false first made (tt, tt))
