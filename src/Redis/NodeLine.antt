-- ===== src/Redis/NodeLine.antt =====
-- A line of `cluster nodes` (src/frame/client/redis/redis_client.cpp): which lines are kept, the node that it
-- stands for, and what is compared of two of them. The fields of a line are given.
use graphize.Common.{
  same_text, ℕ, ◌∷◌, ◌++◌, List, [], Bool, true, false, not, ◌&&◌, ◌||◌, ltb, ◌==◌, if◌then◌else◌,
  length, get_or, drop,
}
use graphize.Redis.Slots.{NodeInfo}
use graphize.Redis.NodeText.{decimal, parse_slot_string}

unfoldable pub starts_with : List ℕ → List ℕ → Bool
starts_with [] t = true
starts_with (a ∷ s) [] = false
starts_with (a ∷ s) (b ∷ t) = a == b && starts_with s t

-- strstr(text, word) is not null.
unfoldable pub contains : List ℕ → List ℕ → Bool
unfolding starts_with
contains word [] = starts_with word []
contains word (b ∷ text) = starts_with word (b ∷ text) || contains word text

-- `fields[i]`, where the size was tested.
abbrev pub field : List (List ℕ) → ℕ → List ℕ
field fields i = get_or fields i []

-- The loop from field 8 on, of two lists of the same size.
unfoldable pub fields_differ : List (List ℕ) → List (List ℕ) → Bool
unfolding same_text
fields_differ (s ∷ fields_0) (t ∷ fields_1) = not (same_text s t) || fields_differ fields_0 fields_1
fields_differ fields_0 fields_1 = false

unfoldable pub line_changed : List (List ℕ) → List (List ℕ) → Bool
unfolding fields_differ
line_changed fields_0 fields_1 =
    if ltb (length fields_0) 8 || ltb (length fields_1) 8
    then true
    else if not (length fields_0 == length fields_1)
    then true
    else if not (same_text (field fields_0 0) (field fields_1 0))
        || not (same_text (field fields_0 1) (field fields_1 1))
    then true
    else fields_differ (drop 8 fields_0) (drop 8 fields_1)

abbrev pub disconnected : List ℕ
disconnected =
    b'd' ∷ b'i' ∷ b's' ∷ b'c' ∷ b'o' ∷ b'n' ∷ b'n' ∷ b'e' ∷ b'c' ∷ b't' ∷ b'e' ∷ b'd' ∷ []

abbrev pub master : List ℕ
master = b'm' ∷ b'a' ∷ b's' ∷ b't' ∷ b'e' ∷ b'r' ∷ []

-- A line of `cluster nodes` that is kept: a connected master.
unfoldable pub is_valid : List (List ℕ) → Bool
unfolding contains
is_valid nodeinfo =
    if ltb (length nodeinfo) 8
    then false
    else if contains disconnected (field nodeinfo 7)
    then false
    else contains master (field nodeinfo 2)

unfoldable pub parse_slots : NodeInfo → List (List ℕ) → NodeInfo
parse_slots node [] = node
parse_slots node (text ∷ texts) = parse_slots (parse_slot_string node text) texts

localhost : List ℕ
localhost = b'1' ∷ b'2' ∷ b'7' ∷ b'.' ∷ b'0' ∷ b'.' ∷ b'0' ∷ b'.' ∷ b'1' ∷ []

-- The host of a channel; a node without one is on this machine if it has a port.
unfoldable pub host_of : NodeInfo → List ℕ
unfolding localhost
host_of node = if length node.ip == 0 && ltb 0 node.port then localhost else node.ip

unfoldable pub address : NodeInfo → List ℕ
address node = host_of node ++ b':' ∷ decimal node.port
