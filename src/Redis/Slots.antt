-- ===== src/Redis/Slots.antt =====
-- Which node of the cluster a key goes to: ChannelPool::GetKeySlot and GetKeyNodeIndex
-- (src/frame/client/redis/channel_pool.cpp), NodeInfo::CheckSlot and RedisClient::InitSlotNodeMap
-- (src/frame/client/redis/redis_client.cpp).
pub mod Tags
pub mod Owners
pub mod Routing
use graphize.Common.{
  not, ◌&&◌, true, ℕ, zero, suc, ◌+◌, ◌-◌, ◌%◌, ◌++◌, List, [], ◌∷◌, Option, none, some, Bool,
  false, ◌||◌, ltb, leb, ◌==◌, if◌then◌else◌, ℤ, pos, negsuc, length, get_elem?, set, take, drop,
  replicate,
}
use graphize.Redis.Crc.{crc16}

-- `for (s = 0; s < len; s++) if (key[s] == c) break;`: the length if `c` does not occur.
unfoldable pub index_of : ℕ → List ℕ → ℕ
index_of c [] = 0
index_of c (b ∷ key) = let rest = index_of c key in if b == c then 0 else suc rest

-- `& 0x3FFF`
abbrev pub to_slot : ℕ → ℕ
to_slot crc = crc % 16384

-- The part of GetKeySlot behind the test for a null key.
unfoldable pub key_slot : List ℕ → ℕ
unfolding index_of
key_slot key =
    let len = length key in
    let s = index_of b'{' key in
    let e = s + 1 + index_of b'}' (drop (s + 1) key) in
    if s == len
    then to_slot (crc16 key)
    else if e == len || e == s + 1
    then to_slot (crc16 key)
    else to_slot (crc16 (take (e - s - 1) (drop (s + 1) key)))

-- ChannelPool::GetKeySlot. `none` is a null pointer.
unfoldable pub get_key_slot : Option (List ℕ) → ℕ
unfolding key_slot
get_key_slot none = 0
get_key_slot (some key) = key_slot key

-- What is read from `slot_ipport_index_vec`; -1 stands for a slot that is not set.
unfoldable pub target_index : Option ℤ → ℕ
target_index none = 0
target_index (some (pos i)) = i
target_index (some (negsuc i)) = if i == 0 then 0 else 4294967295 - i

-- ChannelPool::GetKeyNodeIndex. A negative index other than -1 becomes a uint32_t.
unfoldable pub get_key_node_index : List ℤ → Option (List ℕ) → ℕ
unfolding target_index
get_key_node_index slot_ipport_index_vec key =
    target_index (get_elem? slot_ipport_index_vec (get_key_slot key))

-- struct NodeInfo, the fields that are set from a line of `cluster nodes`: texts are bytes, and
-- `slots` (mSlots) holds first and last slots of ranges. `port` is a uint16_t.
pub record NodeInfo : Type 0 where
  pub strinfo : List ℕ
  pub id : List ℕ
  pub ip : List ℕ
  pub port : ℕ
  pub slots : List (ℕ × ℕ)

check_ranges : List (ℕ × ℕ) → ℕ → Bool
check_ranges [] slot_index = false
check_ranges ((first, last) ∷ ranges) slot_index =
    leb first slot_index && leb slot_index last || check_ranges ranges slot_index

-- NodeInfo::CheckSlot
unfoldable pub check_slot : NodeInfo → ℕ → Bool
unfolding check_ranges
check_slot node slot_index = check_ranges node.slots slot_index

-- std::vector::resize with a fill value.
unfoldable pub resize : List ℤ → ℕ → ℤ → List ℤ
resize vec n v = take n vec ++ replicate (n - length vec) v

-- One slot of the innermost loop of InitSlotNodeMap: a slot past the end makes the vector longer.
unfoldable pub assign : List ℤ → ℕ → ℤ → List ℤ
unfolding resize
assign vec slot i =
    if ltb slot (length vec) then set vec slot i else set (resize vec (suc slot) (negsuc 0)) slot i

-- The loop from `start` over so many slots.
unfoldable pub assign_range : ℕ → List ℤ → ℕ → ℤ → List ℤ
unfolding assign
assign_range zero vec start i = vec
assign_range (suc n) vec start i = assign_range n (assign vec start i) (suc start) i

-- The loop over the ranges of a node. A range of which the end is 2^32 - 1, which the 32-bit loop
-- never leaves, is not modelled here; build_pool of Redis/Client excludes it by `slots_end`.
unfoldable pub assign_node : List ℤ → List (ℕ × ℕ) → ℤ → List ℤ
unfolding assign_range
assign_node vec [] i = vec
assign_node vec ((first, last) ∷ ranges) i =
    assign_node (assign_range (suc last - first) vec first i) ranges i

unfoldable pub assign_nodes : List ℤ → ℕ → List NodeInfo → List ℤ
unfolding assign_node
assign_nodes vec i [] = vec
assign_nodes vec i (node ∷ nodes) = assign_nodes (assign_node vec node.slots (pos i)) (suc i) nodes

abbrev pub slot_count : ℕ
slot_count = 16384

-- The 32-bit loop never leaves a range that ends at 2^32 - 1.
unfoldable pub ranges_end : List (ℕ × ℕ) → Bool
ranges_end [] = true
ranges_end ((first, last) ∷ ranges) = not (last == 4294967295) && ranges_end ranges

-- Whether the loops of InitSlotNodeMap come to their end.
unfoldable pub slots_end : List NodeInfo → Bool
unfolding ranges_end
slots_end [] = true
slots_end (node ∷ nodes) = ranges_end node.slots && slots_end nodes

-- RedisClient::InitSlotNodeMap, where its loops come to their end.
unfoldable pub init_slot_node_map : List ℤ → List NodeInfo → List ℤ
unfolding assign_nodes resize
init_slot_node_map vec nodes = assign_nodes (resize vec slot_count (negsuc 0)) 0 nodes
