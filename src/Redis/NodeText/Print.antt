-- ===== src/Redis/NodeText/Print.antt =====
-- What redis prints for a node is read back (src/frame/client/redis/redis_client.cpp).
use native.Mathlib.Nat.{mod-eq_of_lt}
use graphize.Common.{
  ℕ, zero, suc, ◌+◌, ◌/◌, ◌%◌, ◌^◌, ◌≤◌, ◌<◌, ◌≡◌, refl, ap, ◌∙◌, List, [], ◌∷◌, ◌++◌, true, false,
  arith, ltb, ◌==◌, pos, length, length-append, append-nil, sym, ◌⊎◌, Bool-cases, inl, inr, ==_iff,
}
use graphize.Common.Bag.{count}
use graphize.Redis.Slots.{NodeInfo}
use graphize.Redis.Slots.Tags.{index_of-append, index_of_absent, drop_past, take-append}
use graphize.Redis.NodeText.{
  is_space, is_digit, decimal_from, decimal, read_digits, read_signed, atoi, to_unsigned,
  parse_node_string, parse_slot_string, to_slot_number,
}

-- Nothing in front of the text is a digit.
unfoldable pub StopsAt : List ℕ → Type 0
StopsAt [] = Unit {0}
StopsAt (c ∷ cs) = is_digit c ≡ false

read_digits-decimal_from :
    (fuel n : ℕ) (rest : List ℕ)
    → n ≤ fuel
    → read_digits 0 (decimal_from fuel n rest) ≡ read_digits n rest
unfolding read_digits decimal_from
read_digits-decimal_from zero n rest h = ground arith
read_digits-decimal_from (suc fuel) n rest h =
    ground (arith, read_digits-decimal_from fuel (n / 10) ((48 + n % 10) ∷ rest))

decimal_from-append :
    (fuel n : ℕ) (xs ys : List ℕ) → decimal_from fuel n xs ++ ys ≡ decimal_from fuel n (xs ++ ys)
unfolding decimal_from
decimal_from-append zero n xs ys = refl
decimal_from-append (suc fuel) n xs ys = elim (Bool-cases (ltb n 10)) [
  | inl one ↦ rw one refl
  | inr more ↦ rw more (decimal_from-append fuel (n / 10) ((48 + n % 10) ∷ xs) ys)
]

-- The first digit.
decimal_from_head :
    (fuel n : ℕ) (rest : List ℕ)
    → (c : ℕ) × (cs : List ℕ) × (decimal_from fuel n rest ≡ c ∷ cs) × (48 ≤ c) × (c ≤ 57)
unfolding decimal_from
decimal_from_head zero n rest = (48 + n % 10, rest, refl, omega arith, omega arith)
decimal_from_head (suc fuel) n rest = elim (Bool-cases (ltb n 10)) [
  | inl one ↦ rw one (48 + n % 10, rest, refl, omega arith, omega arith)
  | inr more ↦ rw more (decimal_from_head fuel (n / 10) ((48 + n % 10) ∷ rest))
]

-- Digits only.
count-decimal_from :
    (fuel n b : ℕ) (rest : List ℕ) → b < 48 → count b (decimal_from fuel n rest) ≡ count b rest
unfolding decimal_from
count-decimal_from zero n b rest h = ground arith
count-decimal_from (suc fuel) n b rest h =
    ground (arith, count-decimal_from fuel (n / 10) b ((48 + n % 10) ∷ rest))

count_colon-decimal_from :
    (fuel n : ℕ) (rest : List ℕ) → count b':' (decimal_from fuel n rest) ≡ count b':' rest
unfolding decimal_from
count_colon-decimal_from zero n rest = ground arith
count_colon-decimal_from (suc fuel) n rest =
    ground (arith, count_colon-decimal_from fuel (n / 10) ((48 + n % 10) ∷ rest))

read_digits_stop : (n : ℕ) (rest : List ℕ) → StopsAt rest → read_digits n rest ≡ n
unfolding read_digits StopsAt
read_digits_stop n [] h = refl
read_digits_stop n (c ∷ cs) h = rw h refl

atoi_digit : (c : ℕ) (cs : List ℕ) → 48 ≤ c → c ≤ 57 → atoi (c ∷ cs) ≡ pos (read_digits 0 (c ∷ cs))
unfolding atoi read_signed is_space
atoi_digit c cs lo hi = ground arith

atoi-decimal : (n : ℕ) (rest : List ℕ) → StopsAt rest → atoi (decimal n ++ rest) ≡ pos n
unfolding decimal
atoi-decimal n rest stop =
    let (c, cs, e, lo, hi) = decimal_from_head n n rest in
    ap atoi (decimal_from-append n n [] rest ∙ e)
    ∙ atoi_digit c cs lo hi
    ∙ ap (λ t. pos (read_digits 0 t)) (sym e)
    ∙ ap pos (read_digits-decimal_from n n rest (omega arith) ∙ read_digits_stop n rest stop)

atoi-decimal_nil : (n : ℕ) → atoi (decimal n) ≡ pos n
unfolding StopsAt
atoi-decimal_nil n = ap atoi (sym (append-nil (decimal n))) ∙ atoi-decimal n [] tt

-- The address of a node is read back: the text before the colon, and the port, whatever follows that is
-- no digit.
pub parse_node_string-decimal :
    (node : NodeInfo) (ip rest : List ℕ) (port : ℕ)
    → count b':' ip ≡ 0
    → port < 2 ^ 16
    → StopsAt rest
    → parse_node_string node (ip ++ b':' ∷ (decimal port ++ rest))
      ≡ (record node { ip = ip; port = port }, true)
unfolding parse_node_string to_unsigned
parse_node_string-decimal node ip rest port no_colon small stop =
    let text = ip ++ b':' ∷ (decimal port ++ rest) in
    let inside : (length ip == length text) ≡ false =
      ground (arith, length-append ip (b':' ∷ (decimal port ++ rest))) in
    rw
      (
        index_of-append b':' ip (decimal port ++ rest) no_colon,
        inside,
        drop_past ip (decimal port ++ rest) b':',
        atoi-decimal port rest stop,
        take-append ip (b':' ∷ (decimal port ++ rest)),
        (mod-eq_of_lt small),
      )
      refl

count_dash-decimal : (n : ℕ) → count b'-' (decimal n) ≡ 0
unfolding decimal
count_dash-decimal n = count-decimal_from n n b'-' [] (omega arith)

-- A range: what is before the first dash, and what is behind it.
parse_slot_string-append :
    (node : NodeInfo) (front back : List ℕ)
    → count b'-' front ≡ 0
    → parse_slot_string node (front ++ b'-' ∷ back)
      ≡ record node { slots = node.slots ++ (to_slot_number front, to_slot_number back) ∷ [] }
unfolding parse_slot_string
parse_slot_string-append node front back no_dash =
    let inside : (length front == length (front ++ b'-' ∷ back)) ≡ false =
      ground (arith, length-append front (b'-' ∷ back)) in
    rw
      (
        index_of-append b'-' front back no_dash,
        inside,
        drop_past front back b'-',
        take-append front (b'-' ∷ back),
      )
      refl

to_slot_number-decimal : (n : ℕ) → n < 2 ^ 32 → to_slot_number (decimal n) ≡ n
unfolding to_unsigned
to_slot_number-decimal n small = rw (atoi-decimal_nil n) (mod-eq_of_lt small)

-- A range of slots below 2^32, and a single slot, are read back from their decimal digits.
parse_slot_string-decimal :
    (node : NodeInfo) (first last : ℕ)
    → first < 2 ^ 32
    → last < 2 ^ 32
    → (parse_slot_string node (decimal first ++ b'-' ∷ decimal last)
        ≡ record node { slots = node.slots ++ (first, last) ∷ [] })
      × (parse_slot_string node (decimal first)
          ≡ record node { slots = node.slots ++ (first, first) ∷ [] })
unfolding parse_slot_string
parse_slot_string-decimal node first last f l = (
  parse_slot_string-append node (decimal first) (decimal last) (count_dash-decimal first)
      ∙ rw (to_slot_number-decimal first f, to_slot_number-decimal last l) refl,
  rw
      (
        index_of_absent b'-' (decimal first) (count_dash-decimal first),
        (==_iff (length (decimal first)) (length (decimal first))).1 refl,
        to_slot_number-decimal first f,
      )
      refl,
)

atoi_bracket : (cs : List ℕ) → atoi (b'[' ∷ cs) ≡ pos 0
unfolding atoi read_signed is_space read_digits
atoi_bracket cs = refl

atoi_arrow : (arrow : ℕ) (cs : List ℕ) → (arrow ≡ b'>') ⊎ (arrow ≡ b'<') → atoi (arrow ∷ cs) ≡ pos 0
unfolding atoi read_signed is_space read_digits
atoi_arrow arrow cs h = ground arith

-- A slot that is being migrated or imported, `[93->-id]` or `[93-<-id]`, is read as slot 0.
parse_slot_string_migrating :
    (node : NodeInfo) (slot arrow : ℕ) (id : List ℕ)
    → (arrow ≡ b'>') ⊎ (arrow ≡ b'<')
    → parse_slot_string node (b'[' ∷ (decimal slot ++ b'-' ∷ (arrow ∷ id)))
      ≡ record node { slots = node.slots ++ (0, 0) ∷ [] }
unfolding to_unsigned
parse_slot_string_migrating node slot arrow id h =
    parse_slot_string-append node (b'[' ∷ decimal slot) (arrow ∷ id)
      (omega (arith, count_dash-decimal slot))
    ∙ rw (atoi_bracket (decimal slot), atoi_arrow arrow id h) refl
