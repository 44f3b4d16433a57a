-- ===== src/Redis/Client/Routes.antt =====
-- Which node the requests of a RedisClient go to (src/frame/client/redis/redis_client.cpp).
use graphize.Common.{
  ℕ, ◌+◌, suc, ◌<◌, ◌≡◌, ◌≢◌, refl, sym, ap, ◌∙◌, List, [], ◌∷◌, arith, true, false, some,
  some_of_bind, some-injective, map, length, get_elem?, ◌==◌, lt_of_get_elem?, pos, none≢some,
  Bool-cases, inl, inr,
}
use graphize.Redis.Slots.{
  NodeInfo, check_slot, init_slot_node_map, get_key_node_index, get_key_slot, slots_end,
}
use graphize.Redis.Slots.Routing.{get_key_node_index_claims}
use graphize.Redis.Client.{
  Env, Endpoint, ChannelPool, RedisClient, Answer, get_cur_channel_pool, is_channel_pool_changed,
  reply_lines, build_pool, read_node, refill, init_channel_pool, new_client, init_channels, resized,
  no_pool,
}
use graphize.Redis.NodeLine.{host_of, address}
use graphize.Redis.Client.Channels.{init_channels_at, length-resized}
use graphize.Redis.Client.Fetch.{fetch, get_word}
use graphize.Redis.Client.Sending.{used_once, send_to_endpoint}

length-map {ℓ κ} :
    {A : Type ℓ} {B : Type κ} (f : A → B) (xs : List A) → length (map f xs) ≡ length xs
length-map f [] = refl
length-map f (x ∷ xs) = ap suc (length-map f xs)

module _ (env : Env) where
  build_pool-list :
      (p q : ChannelPool) (nodes : List NodeInfo)
      → build_pool env p nodes ≡ some q
      → (q.slot_ipport_index_vec ≡ init_slot_node_map p.slot_ipport_index_vec nodes)
        × (init_channels env (resized p.m_channel_list (length nodes)) 0 nodes
            ≡ some q.m_channel_list)
  unfolding build_pool
  build_pool-list p q nodes e = elim (Bool-cases (slots_end nodes)) [
    | inr endless ↦ absurd (none≢some (rw endless at e))
    | inl ends ↦
        let (list, made, built) =
          some_of_bind (init_channels env (resized p.m_channel_list (length nodes)) 0 nodes) _
            (rw ends at e) in
        (
          ap (λ x. x.slot_ipport_index_vec) (sym (some-injective built)),
          made ∙ ap (λ x. some x.m_channel_list) (some-injective built),
        )
  ]

  -- The pool that the constructor fills.
  abbrev first_pool : List ℕ → ChannelPool
  first_pool text = record no_pool { valid_lines = reply_lines env text }

  abbrev first_client : List ℕ → RedisClient
  first_client text = record {
    channel_pool0 = first_pool text;
    channel_pool1 = no_pool;
    pool_index = false;
  }

  first_changed :
      (text : List ℕ)
      → 0 < length (reply_lines env text)
      → is_channel_pool_changed env (first_client text) ≡ true
  unfolding is_channel_pool_changed
  first_changed text l =
      let some_line : (length (reply_lines env text) == 0) ≡ false = ground arith in
      rw some_line refl

  new_client-pool :
      (c : RedisClient) (text : List ℕ)
      → new_client env (Answer.data_reply text) ≡ some c
      → 0 < length (reply_lines env text)
      → build_pool env (first_pool text) (map (read_node env) (reply_lines env text))
        ≡ some (get_cur_channel_pool c)
  unfolding new_client init_channel_pool refill
  new_client-pool c text e l =
      let d = first_client text in
      let nodes = map (read_node env) (reply_lines env text) in
      let made : refill env d false nodes ≡ some c = sym (rw (first_changed text l) refl) ∙ e in
      let (q, built, done) = some_of_bind (build_pool env (first_pool text) nodes) _ made in
      built ∙ ap (λ x. some (get_cur_channel_pool x)) (some-injective done)

  -- The nodes of a reply, in the order of its lines.
  abbrev pub reply_nodes : List ℕ → List NodeInfo
  reply_nodes text = map (read_node env) (reply_lines env text)

  -- Every node of the list has a host.
  abbrev HaveHosts : List NodeInfo → Type 0
  HaveHosts nodes =
      (k : ℕ) (node : NodeInfo) → get_elem? nodes k ≡ some node → length (host_of node) ≢ 0

  -- A place of the first pool at which there are channels to a node that claims the slot of the key.
  new_client-claims :
      (c : RedisClient) (text key : List ℕ) (j : ℕ) (node : NodeInfo)
      → new_client env (Answer.data_reply text) ≡ some c
      → get_elem? (reply_nodes text) j ≡ some node
      → check_slot node (get_key_slot (some key)) ≡ true
      → HaveHosts (reply_nodes text)
      → (found : NodeInfo) × (e : Endpoint) × (check_slot found (get_key_slot (some key)) ≡ true)
        × (e.ip_port ≡ address found)
        × (get_elem?
              (get_cur_channel_pool c).m_channel_list
              (get_key_node_index (get_cur_channel_pool c).slot_ipport_index_vec (some key))
            ≡ some (some e))
  new_client-claims c text key j node made at claims hosts =
      let nodes = reply_nodes text in
      let lines = reply_lines env text in
      let some_line : 0 < length lines =
        omega (arith, lt_of_get_elem? nodes j at, length-map (read_node env) lines) in
      let p = get_cur_channel_pool c in
      let (table, list) =
        build_pool-list (first_pool text) p nodes (new_client-pool c text made some_line) in
      let idx = get_key_node_index (init_slot_node_map [] nodes) (some key) in
      let (found, there, mine) = get_key_node_index_claims nodes (some key) j node at claims in
      let room : 0 + idx < length (resized [] (length nodes)) =
        omega (arith, lt_of_get_elem? nodes idx there, length-resized [] (length nodes)) in
      let (e, entry, where_to) =
        init_channels_at env nodes (resized [] (length nodes)) 0 p.m_channel_list list idx found
          there (hosts idx found there) room in
      (
        found,
        e,
        mine,
        where_to,
        ap (λ t. get_elem? p.m_channel_list (get_key_node_index t (some key))) table
            ∙ ap (get_elem? p.m_channel_list) (omega arith)
            ∙ entry,
      )

  -- If the constructor read a reply in which every node has a host, some node claims the slot of the key, and all
  -- channels can be made, then a first fetch returns 0 and its GET goes to the address of a node of the reply that
  -- claims the slot.
  pub fetch_claims :
      (c : RedisClient) (text key : List ℕ) (j : ℕ) (node : NodeInfo)
      → new_client env (Answer.data_reply text) ≡ some c
      → get_elem? (reply_nodes text) j ≡ some node
      → check_slot node (get_key_slot (some key)) ≡ true
      → HaveHosts (reply_nodes text)
      → ((ip_port : List ℕ) (k : ℕ) → env.builds ip_port k ≡ true)
      → (found : NodeInfo) × (c' : RedisClient) × (conn : ℕ) × (check_slot found
            (get_key_slot (some key))
          ≡ true)
        × (fetch env c key
            ≡ some (
              c',
              pos 0,
              some
                  (record { ip_port = address found; channel = conn; words = get_word ∷ key ∷ [] }),
            ))
  unfolding fetch
  fetch_claims c text key j node made at claims hosts builds =
      let (found, e, mine, there, entry) =
        new_client-claims c text key j node made at claims hosts in
      let idx = get_key_node_index (get_cur_channel_pool c).slot_ipport_index_vec (some key) in
      let (conn, sent) =
        send_to_endpoint env c key (get_word ∷ key ∷ []) e idx refl entry (builds e.ip_port) in
      (
        found,
        used_once env c idx e,
        conn,
        mine,
        sent
            ∙ ap
                (λ a. some (
                  used_once env c idx e,
                  pos 0,
                  some (record { ip_port = a; channel = conn; words = get_word ∷ key ∷ [] }),
                ))
                there,
      )
