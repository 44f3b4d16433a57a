-- ===== src/Redis/NodeText.antt =====
-- NodeInfo::ParseNodeString and NodeInfo::ParseSlotString
-- (src/frame/client/redis/redis_client.cpp): the fields of a line of `cluster nodes`, as bytes.
pub mod Print
use graphize.Common.{
  ℕ, ◌+◌, ◌-◌, ◌*◌, ◌%◌, ◌^◌, List, [], ◌∷◌, ◌++◌, Bool, true, false, ◌&&◌, ◌||◌, leb, ◌==◌,
  if◌then◌else◌, ℤ, pos, negsuc, zero, suc, ◌/◌, ltb, length, take, drop,
}
use graphize.Redis.Slots.{NodeInfo, index_of}

-- isspace and isdigit of the C locale.
unfoldable pub is_space : ℕ → Bool
is_space c = c == 32 || leb 9 c && leb c 13

unfoldable pub is_digit : ℕ → Bool
is_digit c = leb 48 c && leb c 57

-- The digits in front, as a decimal number behind `acc`.
unfoldable pub read_digits : ℕ → List ℕ → ℕ
unfolding is_digit
read_digits acc [] = acc
read_digits acc (c ∷ cs) =
    let more = read_digits (acc * 10 + (c - 48)) cs in if is_digit c then more else acc

-- `-n`
abbrev pub negated : ℕ → ℤ
negated n = if n == 0 then pos 0 else negsuc (n - 1)

unfoldable pub read_signed : List ℕ → ℤ
unfolding read_digits
read_signed [] = pos 0
read_signed (c ∷ cs) =
    if c == b'-'
    then negated (read_digits 0 cs)
    else if c == b'+'
    then pos (read_digits 0 cs)
    else pos (read_digits 0 (c ∷ cs))

-- atoi of the C library. A number past the range of int, which it leaves undefined, is given as it is.
unfoldable pub atoi : List ℕ → ℤ
unfolding read_signed is_space
atoi [] = pos 0
atoi (c ∷ cs) = let rest = atoi cs in if is_space c then rest else read_signed (c ∷ cs)

-- The conversion of an int to an unsigned type of so many values.
unfoldable pub to_unsigned : ℕ → ℤ → ℕ
to_unsigned m (pos n) = n % m
to_unsigned m (negsuc n) = m - 1 - n % m

-- A number in decimal digits, in front of a text; without one, std::to_string.
unfoldable pub decimal_from : ℕ → ℕ → List ℕ → List ℕ
decimal_from zero n rest = (48 + n % 10) ∷ rest
decimal_from (suc fuel) n rest =
    let more = decimal_from fuel (n / 10) ((48 + n % 10) ∷ rest) in
    if ltb n 10 then (48 + n % 10) ∷ rest else more

unfoldable pub decimal : ℕ → List ℕ
unfolding decimal_from
decimal n = decimal_from n n []

-- ParseNodeString: the text before the first colon, and the number behind it. Without a colon the
-- node stays as it is, and false is returned.
unfoldable pub parse_node_string : NodeInfo → List ℕ → NodeInfo × Bool
unfolding atoi to_unsigned
parse_node_string node text =
    let colon = index_of b':' text in
    if colon == length text then (node, false) else (
      record node {
        port = to_unsigned (2 ^ 16) (atoi (drop (colon + 1) text));
        ip = take colon text;
      },
      true,
    )

-- What atoi gives as a uint32_t.
abbrev to_slot_number : List ℕ → ℕ
to_slot_number text = to_unsigned (2 ^ 32) (atoi text)

-- ParseSlotString: a slot, or the first and the last slot with a dash between. A number past 16384 is
-- only logged.
unfoldable pub parse_slot_string : NodeInfo → List ℕ → NodeInfo
unfolding atoi to_unsigned
parse_slot_string node text =
    let bar = index_of b'-' text in
    let range : ℕ × ℕ =
      if bar == length text
      then (to_slot_number text, to_slot_number text)
      else (to_slot_number (take bar text), to_slot_number (drop (bar + 1) text)) in
    record node { slots = node.slots ++ range ∷ [] }
