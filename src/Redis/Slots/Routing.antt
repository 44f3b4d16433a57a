-- ===== src/Redis/Slots/Routing.antt =====
-- Where a key is sent (ChannelPool::GetKeyNodeIndex, src/frame/client/redis/channel_pool.cpp) by a
-- table that RedisClient::InitSlotNodeMap built.
use graphize.Common.{
  ℕ, zero, suc, ◌+◌, ◌<◌, ◌≡◌, refl, ap, ◌∙◌, List, [], ◌∷◌, arith, some, Option, length,
  if◌then◌else◌, true, ℤ, pos, negsuc, get_elem?, Bool-cases, inl, inr, ◌⊎◌, some-injective,
  none≢some, lt_of_get_elem?,
}
use graphize.Redis.Slots.{
  NodeInfo, check_slot, init_slot_node_map, get_key_node_index, get_key_slot,
}
use graphize.Redis.Slots.Tags.{get_key_slot-lt}
use graphize.Redis.Slots.Owners.{owner, new_table-owner}

-- The entry of a slot is a place at which a node stands that claims it.
abbrev Claimant : ℕ → List NodeInfo → ℕ → Option ℤ → Type 0
Claimant i nodes s r =
    (k : ℕ) × (node : NodeInfo) × (r ≡ some (pos (i + k)))
    × (get_elem? nodes k ≡ some node)
    × (check_slot node s ≡ true)

Claimant-cons :
    (i : ℕ) (node : NodeInfo) (nodes : List NodeInfo) (s : ℕ) (r : Option ℤ)
    → Claimant (suc i) nodes s r
    → Claimant i (node ∷ nodes) s r
Claimant-cons i node nodes s r (k, n, e, at_k, claims) =
    (suc k, n, e ∙ ap (λ j. some (pos j)) (omega arith), at_k, claims)

owner_cases :
    (nodes : List NodeInfo) (old : Option ℤ) (i s : ℕ)
    → (owner old i nodes s ≡ old) ⊎ Claimant i nodes s (owner old i nodes s)
unfolding owner
owner_cases [] old i s = inl refl
owner_cases (node ∷ nodes) old i s = elim (Bool-cases (check_slot node s)) [
  | inl claims ↦ rw claims (elim (owner_cases nodes (some (pos i)) (suc i) s) [
    | inl kept ↦ inr (0, node, kept ∙ ap (λ j. some (pos j)) (omega arith), refl, claims)
    | inr later ↦ inr (Claimant-cons i node nodes s _ later)
  ])
  | inr silent ↦ rw silent (elim (owner_cases nodes old (suc i) s) [
    | inl kept ↦ inl kept
    | inr later ↦ inr (Claimant-cons i node nodes s _ later)
  ])
]

owner-Claimant :
    (nodes : List NodeInfo) (old : Option ℤ) (i s j : ℕ) (node : NodeInfo)
    → get_elem? nodes j ≡ some node
    → check_slot node s ≡ true
    → Claimant i nodes s (owner old i nodes s)
unfolding owner
owner-Claimant [] old i s j node here claims = absurd (none≢some here)
owner-Claimant (n ∷ nodes) old i s zero node here claims =
    let mine : check_slot n s ≡ true = ap (λ x. check_slot x s) (some-injective here) ∙ claims in
    rw mine (elim (owner_cases nodes (some (pos i)) (suc i) s) [
      | inl kept ↦ (0, n, kept ∙ ap (λ j. some (pos j)) (omega arith), refl, mine)
      | inr later ↦ Claimant-cons i n nodes s _ later
    ])
owner-Claimant (n ∷ nodes) old i s (suc j) node here claims = Claimant-cons i n nodes s _ (
    owner-Claimant nodes (if check_slot n s then some (pos i) else old) (suc i) s j node here
      claims)

-- In a table built from scratch a key whose slot some node claims is sent to a node that claims it.
pub get_key_node_index_claims :
    (nodes : List NodeInfo) (key : Option (List ℕ)) (j : ℕ) (node : NodeInfo)
    → get_elem? nodes j ≡ some node
    → check_slot node (get_key_slot key) ≡ true
    → (found : NodeInfo) × (get_elem? nodes (get_key_node_index (init_slot_node_map [] nodes) key)
        ≡ some found)
      × (check_slot found (get_key_slot key) ≡ true)
unfolding get_key_node_index
get_key_node_index_claims nodes key j node here claims =
    let slot = get_key_slot key in
    let (k, found, e, at_k, mine) =
      owner-Claimant nodes (some (negsuc 0)) 0 slot j node here claims in
    let entry = new_table-owner nodes slot (get_key_slot-lt key) ∙ e in
    (found, rw entry (ap (get_elem? nodes) (omega arith) ∙ at_k), mine)

-- In a table built from scratch every key, also one whose slot no node claims, is sent to one of the
-- nodes, if there are any.
pub get_key_node_index-lt :
    (nodes : List NodeInfo) (key : Option (List ℕ))
    → 0 < length nodes
    → get_key_node_index (init_slot_node_map [] nodes) key < length nodes
unfolding get_key_node_index
get_key_node_index-lt nodes key some_node =
    let slot = get_key_slot key in
    let entry = new_table-owner nodes slot (get_key_slot-lt key) in
    elim (owner_cases nodes (some (negsuc 0)) 0 slot) [
      | inl kept ↦ rw (entry ∙ kept) some_node
      | inr (k, found, e, at_k, mine) ↦ rw (entry ∙ e) (omega (arith, lt_of_get_elem? nodes k at_k))
    ]
