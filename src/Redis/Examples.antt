-- ===== src/Redis/Examples.antt =====
-- A cluster of three nodes, a connection pool, and keys with and without a hash tag.
use graphize.Common.{
  ℕ, ◌≡◌, ◌<◌, ◌≤◌, refl, List, [], ◌∷◌, ◌++◌, arith, none, some, Bool, true, length, get_elem?,
  pos,
}
use graphize.Common.Bag.{count}
use graphize.Redis.Crc.{crc16}
use graphize.Redis.Crc.Reference.{IsBytes, reference_from, crc16-eq-reference}
use graphize.Redis.Slots.{
  NodeInfo, get_key_slot, get_key_node_index, init_slot_node_map, check_slot, to_slot,
}
use graphize.Redis.Slots.Tags.{get_key_slot-tag}
use graphize.Redis.Slots.Owners.{owner, former, init_slot_node_map-owner}
use graphize.Redis.Slots.Routing.{get_key_node_index-lt}
use graphize.Redis.ConnectPool.{Pool, create, borrow, build_all, release}
use graphize.Redis.ConnectPool.Bounds.{calls, Call, borrows, releases, create-calls-le}
use graphize.Redis.ConnectPool.Ownership.{Use, use_all, used, borrow_fresh}

abbrev digits : List ℕ
digits = 49 ∷ 50 ∷ 51 ∷ 52 ∷ 53 ∷ 54 ∷ 55 ∷ 56 ∷ 57 ∷ []

-- The check value of CRC-16/XMODEM.
crc_digits : crc16 digits ≡ 12739
unfolding crc16
crc_digits = refl

all-IsBytes : IsBytes digits
all-IsBytes = (
  omega arith,
  (
    omega arith,
    (
      omega arith,
      (omega arith, (omega arith, (omega arith, (omega arith, (omega arith, (omega arith, tt)))))),
    ),
  ),
)

crc16-eq-reference_example : crc16 digits ≡ reference_from 0 digits
crc16-eq-reference_example = crc16-eq-reference digits all-IsBytes

-- `user:{12}:a`, of which the tag is `12`.
abbrev before : List ℕ
before = 117 ∷ 58 ∷ []

abbrev tag : List ℕ
tag = 49 ∷ 50 ∷ []

abbrev after : List ℕ
after = 58 ∷ 97 ∷ []

abbrev tagged : List ℕ
tagged = before ++ b'{' ∷ (tag ++ b'}' ∷ after)

get_key_slot-tag_example : get_key_slot (some tagged) ≡ to_slot (crc16 tag)
get_key_slot-tag_example = get_key_slot-tag before tag after refl refl (omega arith)

-- `u:{}:a`
-- The nodes have the slots 0 to 3 and 12 to 20, 4 to 9, and 20 to 16383.
abbrev with_slots : List (ℕ × ℕ) → NodeInfo
with_slots slots = record { strinfo = []; id = []; ip = []; port = 0; slots = slots }

abbrev nodes : List NodeInfo
nodes =
    with_slots ((0, 3) ∷ (12, 20) ∷ [])
    ∷ with_slots ((4, 9) ∷ [])
    ∷ with_slots ((20, 16383) ∷ [])
    ∷ []

init_slot_node_map-owner_example :
    get_elem? (init_slot_node_map [] nodes) 20 ≡ owner (former [] 20) 0 nodes 20
init_slot_node_map-owner_example = init_slot_node_map-owner [] nodes 20 (omega arith)

-- Of the two nodes that claim slot 20 the last one has it; slot 10 has none.
owners : (owner none 0 nodes 20 ≡ some (pos 2)) × (owner none 0 nodes 10 ≡ none)
unfolding owner check_slot
owners = (refl, refl)

slot_of_digits : get_key_slot (some digits) ≡ 12739
unfolding get_key_slot crc16
slot_of_digits = refl

get_key_node_index-lt_example :
    get_key_node_index (init_slot_node_map [] nodes) (some tagged) < length nodes
get_key_node_index-lt_example = get_key_node_index-lt nodes (some tagged) (omega arith)

abbrev builds : ℕ → Bool
builds call = true

-- Two connections, at most three.
abbrev two : Pool
two = record {
  pool_size = 2;
  max_size = 3;
  borrow_size = 0;
  busy = 0;
  conn_list = 0 ∷ 1 ∷ [];
  built = 2;
}

created : create builds 2 3 ≡ some two
unfolding create build_all
created = refl

abbrev history : List Call
history = borrows ∷ borrows ∷ borrows ∷ releases (some 1) ∷ releases none ∷ []

create-calls-le_example : length (calls builds two history).conn_list ≤ 3
create-calls-le_example = create-calls-le builds 2 3 two history created

-- Three are lent, one of them comes back.
abbrev uses : List Use
uses = Use.borrows ∷ Use.borrows ∷ Use.borrows ∷ Use.returns 1 ∷ []

abbrev one_left : Pool
one_left = record two { conn_list = []; built = 3; borrow_size = 3; busy = 2 }

borrowed : borrow builds (used builds two uses).pool ≡ (one_left, some 1)
unfolding borrow use_all release
borrowed = refl

borrow_fresh_example : (count 1 (used builds two uses).lent ≡ 0) × (count 1 one_left.conn_list ≡ 0)
borrow_fresh_example = borrow_fresh builds 2 3 two uses 1 one_left created borrowed
