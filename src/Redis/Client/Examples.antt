-- ===== src/Redis/Client/Examples.antt =====
-- A cluster of one node that moves to another address, and texts of slots and addresses.
use Prim.Native.Char.{code}
use Prim.Native.String.{String}
use graphize.Common.{
  ℕ, zero, suc, ◌≡◌, ◌≢◌, ◌↔◌, refl, sym, ap, ◌∙◌, List, [], ◌∷◌, ◌++◌, arith, true, false, Option,
  none, some, ◌==◌, if◌then◌else◌, length, pos, get_elem?, some-injective, none≢some, inl, map, ◌⊎◌,
  subst,
}
use graphize.Redis.Slots.{
  index_of, NodeInfo, check_slot, init_slot_node_map, get_key_slot, slots_end,
}
use graphize.Redis.ConnectPool.{create}
use graphize.Redis.Crc.{crc16}
use graphize.Redis.NodeText.{is_digit, decimal, parse_node_string, parse_slot_string}
use graphize.Redis.NodeText.Print.{StopsAt, parse_node_string-decimal}
use graphize.Redis.NodeLine.{host_of, address, is_valid, parse_slots}
use graphize.Redis.Client.{
  Env, Endpoint, ChannelPool, RedisClient, Answer, no_pool, get_cur_channel_pool,
  is_channel_pool_changed, reply_lines, read_node, refill, new_client, update_round, update_rounds,
}
use graphize.Redis.Client.Changed.{AreValid, topologies, is_channel_pool_changed_iff}
use graphize.Redis.Client.Masters.{HaveConnectedMasters, update_rounds_connected}
use graphize.Redis.Client.Switching.{update_round_current, update_round_stale}
use graphize.Redis.Client.Ending.{update_round-none_iff}
use graphize.Redis.Client.Fetch.{fetch, get_word}
use graphize.Redis.Client.Routes.{fetch_claims}

abbrev codes : String → List ℕ
codes String.[] = []
codes (String.◌∷◌ c s) = code c ∷ codes s

add_first : ℕ → List (List ℕ) → List (List ℕ)
add_first c [] = (c ∷ []) ∷ []
add_first c (part ∷ parts) = (c ∷ part) ∷ parts

-- The parts of a text in which no two separators stand together.
parts_of : ℕ → List ℕ → List (List ℕ)
unfolding add_first
parts_of separator [] = [] ∷ []
parts_of separator (c ∷ text) =
    let parts = parts_of separator text in if c == separator then [] ∷ parts else add_first c parts

abbrev env : Env
env = record {
  trim = λ text. text;
  split = parts_of;
  builds = λ ip_port n. true;
  unset_port = λ line. 0;
  pool_size = 1;
}

abbrev line_7 : List ℕ
line_7 = codes "a h:7 master - 0 0 1 connected 0-16383"

abbrev line_8 : List ℕ
line_8 = codes "a h:8 master - 0 0 2 connected 0-16383"

abbrev node_7 : NodeInfo
node_7 = record {
  strinfo = line_7;
  id = codes "a";
  ip = codes "h";
  port = 7;
  slots = (0, 16383) ∷ [];
}

abbrev node_8 : NodeInfo
node_8 = record node_7 { strinfo = line_8; port = 8 }

lines_7 : reply_lines env line_7 ≡ line_7 ∷ []
unfolding reply_lines parts_of is_valid
lines_7 = refl

nodes_7 : read_node env line_7 ≡ node_7
unfolding read_node parts_of parse_node_string parse_slots parse_slot_string index_of
nodes_7 = refl

-- One channel, that was made first.
abbrev at_address : List ℕ → Option Endpoint
at_address ip_port = some (record {
  ip_port = ip_port;
  pool = record {
    pool_size = 1;
    max_size = 100;
    borrow_size = 0;
    busy = 0;
    conn_list = 0 ∷ [];
    built = 1;
  };
})

abbrev pool_7 : ChannelPool
pool_7 = record {
  m_channel_list = at_address (codes "h:7") ∷ [];
  slot_ipport_index_vec = init_slot_node_map [] (node_7 ∷ []);
  valid_lines = line_7 ∷ [];
}

abbrev pool_8 : ChannelPool
pool_8 = record {
  m_channel_list = at_address (codes "h:8") ∷ [];
  slot_ipport_index_vec = init_slot_node_map [] (node_8 ∷ []);
  valid_lines = line_8 ∷ [];
}

abbrev client_7 : RedisClient
client_7 = record { channel_pool0 = pool_7; channel_pool1 = no_pool; pool_index = false }

abbrev client_8 : RedisClient
client_8 = record { channel_pool0 = pool_7; channel_pool1 = pool_8; pool_index = true }

made_7 : new_client env (Answer.data_reply line_7) ≡ some client_7
unfolding new_client parts_of is_valid refill parse_node_string parse_slot_string index_of create
    decimal address is_channel_pool_changed
made_7 = refl

moved : update_round env client_7 (Answer.data_reply line_8) ≡ some client_8
unfolding update_round parts_of is_valid refill parse_node_string parse_slot_string index_of create
    decimal address is_channel_pool_changed
moved = refl

line_8-AreValid : (AreValid env (line_7 ∷ [])) × AreValid env (line_8 ∷ [])
unfolding AreValid is_valid parts_of
line_8-AreValid = ((refl, tt), (refl, tt))

is_channel_pool_changed_iff_example :
    (is_channel_pool_changed env client_8 ≡ false)
    ↔ (topologies env (line_7 ∷ []) ≡ topologies env (line_8 ∷ []))
is_channel_pool_changed_iff_example =
    is_channel_pool_changed_iff env client_8 line_8-AreValid.0 line_8-AreValid.1

-- The move is a change.
seen : is_channel_pool_changed env client_8 ≡ true
unfolding is_channel_pool_changed parts_of
seen = refl

rounds_8 : update_rounds env client_7 (Answer.data_reply line_8 ∷ []) ≡ some client_8
unfolding update_rounds
rounds_8 = rw moved refl

update_rounds_connected_example : HaveConnectedMasters env client_8
update_rounds_connected_example =
    update_rounds_connected env (Answer.data_reply line_7) (Answer.data_reply line_8 ∷ []) client_7
      client_8 made_7 rounds_8

no_rounds : update_rounds env client_7 [] ≡ some client_7
unfolding update_rounds
no_rounds = refl

update_round_current_example :
    topologies env (get_cur_channel_pool client_8).valid_lines
    ≡ topologies env (reply_lines env line_8)
update_round_current_example =
    update_round_current env (Answer.data_reply line_7) [] client_7 client_7 client_8 line_8 made_7
      no_rounds moved

update_round_stale_example :
    (d : RedisClient) × (update_round env client_8 Answer.rpc_failed ≡ some d)
    × (get_cur_channel_pool d ≡ get_cur_channel_pool client_7)
update_round_stale_example =
    update_round_stale env client_7 client_8 line_8 Answer.rpc_failed moved (λ e. ground arith)
      (inl refl)

text_of : Answer → List ℕ
text_of (Answer.data_reply text) = text
text_of Answer.init_failed = []
text_of Answer.rpc_failed = []
text_of Answer.error_reply = []
text_of Answer.other_reply = []

ends_7 : slots_end (map (read_node env) (reply_lines env line_7)) ≡ true
unfolding slots_end
ends_7 = ap (λ nodes. slots_end nodes) (ap (map (read_node env)) lines_7 ∙ ap (λ n. n ∷ []) nodes_7)

all_end :
    (text : List ℕ)
    → Answer.data_reply line_7 ≡ Answer.data_reply text
    → slots_end (map (read_node env) (reply_lines env text)) ≡ true
unfolding text_of
all_end text e =
    subst (λ t. slots_end (map (read_node env) (reply_lines env t)) ≡ true) (ap text_of e) ends_7

update_round-none_iff_example : (update_round env client_7 (Answer.data_reply line_7) ≡ none) ↔ (
    (Answer.data_reply line_7 ≡ Answer.init_failed)
    ⊎ (Answer.data_reply line_7 ≡ Answer.other_reply))
update_round-none_iff_example =
    update_round-none_iff env client_7 (Answer.data_reply line_7) (omega arith) all_end

abbrev key : List ℕ
key = codes "k"

claims_key : check_slot node_7 (get_key_slot (some key)) ≡ true
unfolding check_slot get_key_slot crc16
claims_key = refl

listed : map (read_node env) (reply_lines env line_7) ≡ node_7 ∷ []
listed = ap (map (read_node env)) lines_7 ∙ ap (λ n. n ∷ []) nodes_7

node_at : get_elem? (map (read_node env) (reply_lines env line_7)) 0 ≡ some node_7
node_at = ap (λ l. get_elem? l 0) listed

only : (k : ℕ) (node : NodeInfo) → get_elem? (node_7 ∷ []) k ≡ some node → node_7 ≡ node
only zero node at = some-injective at
only (suc k) node at = absurd (none≢some at)

has_host : length (host_of node_7) ≢ 0
unfolding host_of
has_host e = ground arith

hosts :
    (k : ℕ) (node : NodeInfo)
    → get_elem? (map (read_node env) (reply_lines env line_7)) k ≡ some node
    → length (host_of node) ≢ 0
hosts k node at e =
    has_host
      (ap (λ n. length (host_of n)) (only k node (ap (λ l. get_elem? l k) (sym listed) ∙ at)) ∙ e)

fetch_claims_example :
    (found : NodeInfo) × (c' : RedisClient) × (conn : ℕ) × (check_slot found
        (get_key_slot (some key))
      ≡ true)
    × (fetch env client_7 key
        ≡ some (
          c',
          pos 0,
          some (record { ip_port = address found; channel = conn; words = get_word ∷ key ∷ [] }),
        ))
fetch_claims_example =
    fetch_claims env client_7 line_7 key 0 node_7 made_7 node_at claims_key hosts
      (λ ip_port n. refl)

parse_node_string-decimal_example :
    parse_node_string node_7 (codes "10.0.0.1" ++ b':' ∷ (decimal 6379 ++ codes "@16379"))
    ≡ (record node_7 { ip = codes "10.0.0.1"; port = 6379 }, true)
unfolding StopsAt is_digit
parse_node_string-decimal_example =
    parse_node_string-decimal node_7 (codes "10.0.0.1") (codes "@16379") 6379 refl (omega arith)
      refl
