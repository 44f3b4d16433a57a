-- ===== src/Redis/Client/Channels.antt =====
-- The channels that RedisClient::init_channel_pool makes (src/frame/client/redis/redis_client.cpp).
use graphize.Common.{
  ℕ, zero, suc, ◌+◌, ◌-◌, ◌≤◌, ◌<◌, ◌≡◌, ◌≢◌, refl, sym, ap, ◌∙◌, subst, List, [], ◌∷◌, arith, Bool,
  true, false, Option, none, some, some_of_bind, some-injective, none≢some, Bool-cases,
  Option-cases, List-cases, inl, inr, length, get_elem?, set, get_elem?-set_self, get_elem?-set_ne,
  length-set, length-append, length-take, length-replicate, take, replicate, ◌==◌, ==_iff,
  ℕ_discrete,
}
use graphize.Redis.Slots.{NodeInfo}
use graphize.Redis.ConnectPool.{Pool, create, borrow}
use graphize.Redis.Client.{Env, Endpoint, init_channel, init_channels, resized, resize_list}
use graphize.Redis.NodeLine.{host_of, address}

pub create-some : (builds : ℕ → Bool) (n m : ℕ) → n ≤ m → (p : Pool) × (create builds n m ≡ some p)
unfolding create
create-some builds n m h = elim (Option-cases (create builds n m)) [
  | inl e ↦ absurd (ground arith)
  | inr (p, e) ↦ (p, e)
]

pub borrow_built :
    (builds : ℕ → Bool) (p : Pool)
    → ((k : ℕ) → builds k ≡ true)
    → (conn : ℕ) × ((borrow builds p).1 ≡ some conn)
unfolding borrow
borrow_built builds p h = elim (List-cases p.conn_list) [
  | inl e ↦ (p.built, rw (e, h p.built) refl)
  | inr (conn, rest, e) ↦ (conn, rw e refl)
]

pub length-resized : (list : List (Option Endpoint)) (n : ℕ) → length (resized list n) ≡ n
unfolding resized resize_list
length-resized list n = elim (ℕ_discrete (length list) n) [
  | yes e ↦ rw ((==_iff (length list) n).1 e) e
  | no ne ↦
      let other : (length list == n) ≡ false = ground arith in
      rw other (
        omega (
          arith,
          length-append (take n list) (replicate (n - length list) none),
          length-take n list,
          length-replicate {0} {A = Option Endpoint} (n - length list) none,
        ))
]

module _ (env : Env) where
  -- The list of channels with the pool of a node that has a host.
  init_channel_host :
      (list : List (Option Endpoint)) (idx : ℕ) (node : NodeInfo) (list' : List (Option Endpoint))
      → length (host_of node) ≢ 0
      → init_channel env list idx node ≡ some list'
      → (e : Endpoint) × (list' ≡ set list idx (some e)) × (e.ip_port ≡ address node)
  unfolding init_channel
  init_channel_host list idx node list' host h =
      let some_host : (length (host_of node) == 0) ≡ false = ground arith in
      elim (Option-cases (create (env.builds (address node)) env.pool_size 100)) [
        | inl fails ↦ absurd (none≢some (sym (rw (some_host, fails) refl) ∙ h))
        | inr (p, made) ↦ (
          record { ip_port = address node; pool = p },
          some-injective (sym h ∙ rw (some_host, made) refl),
          refl,
        )
      ]

  init_channel-some :
      (list : List (Option Endpoint)) (idx : ℕ) (node : NodeInfo)
      → env.pool_size ≤ 100
      → (list' : List (Option Endpoint)) × (init_channel env list idx node ≡ some list')
  unfolding init_channel
  init_channel-some list idx node h =
      let (p, made) = create-some (env.builds (address node)) env.pool_size 100 h in
      elim (Bool-cases (length (host_of node) == 0)) [
        | inl no_host ↦ (list, rw no_host refl)
        | inr host ↦ (
          set list idx (some (record { ip_port = address node; pool = p })),
          rw (host, made) refl,
        )
      ]

  -- Neither a node with a host nor one without changes another place, or the length.
  init_channel_other :
      (list : List (Option Endpoint)) (idx : ℕ) (node : NodeInfo) (list' : List (Option Endpoint))
      → init_channel env list idx node ≡ some list'
      → (length list' ≡ length list) × ((j : ℕ) → j < idx → get_elem? list' j ≡ get_elem? list j)
  unfolding init_channel
  init_channel_other list idx node list' h = elim (Bool-cases (length (host_of node) == 0)) [
    | inl no_host ↦
        let same : list' ≡ list = some-injective (sym h ∙ rw no_host refl) in
        (ap length same, λ j l. ap (λ x. get_elem? x j) same)
    | inr host ↦
        let (e, made, there) = init_channel_host list idx node list' (λ z. ground arith) h in
        (
          ap length made ∙ length-set list idx (some e),
          λ j l. ap (λ x. get_elem? x j) made ∙ get_elem?-set_ne list (some e) (λ i. omega arith),
        )
  ]

  pub init_channels-some :
      (nodes : List NodeInfo) (list : List (Option Endpoint)) (idx : ℕ)
      → env.pool_size ≤ 100
      → (list' : List (Option Endpoint)) × (init_channels env list idx nodes ≡ some list')
  unfolding init_channels
  init_channels-some [] list idx h = (list, refl)
  init_channels-some (node ∷ nodes) list idx h =
      let (one, made) = init_channel-some list idx node h in
      let (rest, done) = init_channels-some nodes one (suc idx) h in (rest, rw made done)

  init_channels_other :
      (nodes : List NodeInfo) (list : List (Option Endpoint)) (idx : ℕ)
      (list' : List (Option Endpoint))
      → init_channels env list idx nodes ≡ some list'
      → (j : ℕ) → j < idx
      → get_elem? list' j ≡ get_elem? list j
  unfolding init_channels
  init_channels_other [] list idx list' h j l = ap (λ x. get_elem? x j) (sym (some-injective h))
  init_channels_other (node ∷ nodes) list idx list' h j l =
      let (one, made, rest) = some_of_bind (init_channel env list idx node) _ h in
      init_channels_other nodes one (suc idx) list' rest j (omega arith)
      ∙ (init_channel_other list idx node one made).1 j l

  -- Each node that has a host gets a pool of channels to its address.
  pub init_channels_at :
      (nodes : List NodeInfo) (list : List (Option Endpoint)) (idx : ℕ)
      (list' : List (Option Endpoint))
      → init_channels env list idx nodes ≡ some list'
      → (k : ℕ) (node : NodeInfo) → get_elem? nodes k ≡ some node
      → length (host_of node) ≢ 0
      → idx + k < length list
      → (e : Endpoint) × (get_elem? list' (idx + k) ≡ some (some e)) × (e.ip_port ≡ address node)
  unfolding init_channels
  init_channels_at [] list idx list' h k node at host l = absurd (none≢some at)
  init_channels_at (n ∷ nodes) list idx list' h zero node at host l =
      let (one, made, rest) = some_of_bind (init_channel env list idx n) _ h in
      let (e, entry, there) =
        init_channel_host list idx n one
          (subst (λ x. length (host_of x) ≢ 0) (sym (some-injective at)) host) made in
      (
        e,
        ap (get_elem? list') (omega arith)
            ∙ init_channels_other nodes one (suc idx) list' rest idx (omega arith)
            ∙ ap (λ x. get_elem? x idx) entry
            ∙ get_elem?-set_self list idx (some e) (omega arith),
        there ∙ ap address (some-injective at),
      )
  init_channels_at (n ∷ nodes) list idx list' h (suc k) node at host l =
      let (one, made, rest) = some_of_bind (init_channel env list idx n) _ h in
      let same = (init_channel_other list idx n one made).0 in
      let (e, entry, there) =
        init_channels_at nodes one (suc idx) list' rest k node at host (omega (arith, same)) in
      (e, ap (get_elem? list') (omega arith) ∙ entry, there)
