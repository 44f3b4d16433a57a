-- ===== src/Redis/Slots/Tags.antt =====
-- Hash tags: the slot of a key is that of the text between its first `{` and the next `}`
-- (ChannelPool::GetKeySlot, src/frame/client/redis/channel_pool.cpp).
use native.Mathlib.Numerals.{towards_suc}
use graphize.Common.{
  ℕ, suc, ◌+◌, ◌-◌, ◌≤◌, ◌<◌, ◌≡◌, ◌⊎◌, inl, inr, refl, ap, ◌∙◌, List, [], ◌∷◌, ◌++◌, arith, some,
  Option, none, length, take, drop, length-append,
}
use graphize.Common.Bag.{count}
use graphize.Redis.Crc.{crc16}
use graphize.Redis.Slots.{index_of, to_slot, key_slot, get_key_slot}

-- Neither loop of GetKeySlot runs past the key.
index_of-le : (c : ℕ) (key : List ℕ) → index_of c key ≤ length key
unfolding index_of
index_of-le c [] = omega arith
index_of-le c (b ∷ key) = ground (arith, index_of-le c key)

-- The first occurrence stands behind what does not hold the character.
pub index_of-append :
    (c : ℕ) (pre post : List ℕ) → count c pre ≡ 0 → index_of c (pre ++ c ∷ post) ≡ length pre
unfolding index_of
index_of-append c [] post h = ground arith
index_of-append c (b ∷ pre) post h = ground (arith, index_of-append c pre post)

pub index_of_absent : (c : ℕ) (key : List ℕ) → count c key ≡ 0 → index_of c key ≡ length key
unfolding index_of
index_of_absent c [] h = refl
index_of_absent c (b ∷ key) h = ground (arith, index_of_absent c key)

drop_past_suc : (pre post : List ℕ) (c : ℕ) → drop (suc (length pre)) (pre ++ c ∷ post) ≡ post
drop_past_suc [] post c = refl
drop_past_suc (b ∷ pre) post c = drop_past_suc pre post c

pub drop_past : (pre post : List ℕ) (c : ℕ) → drop (length pre + 1) (pre ++ c ∷ post) ≡ post
drop_past [] post c = refl
drop_past (b ∷ pre) post c = simp towards_suc (drop_past_suc (b ∷ pre) post c)

pub take-append : (xs ys : List ℕ) → take (length xs) (xs ++ ys) ≡ xs
take-append [] ys = refl
take-append (x ∷ xs) ys = ap (◌∷◌ x) (take-append xs ys)

-- The slot is one of the 16384.
pub get_key_slot-lt : (key : Option (List ℕ)) → get_key_slot key < 16384
unfolding get_key_slot
get_key_slot-lt none = omega arith
get_key_slot-lt (some key) = ground arith

-- The slot, once the two positions are known.
key_slot-inner :
    (key rest : List ℕ) (s n : ℕ)
    → index_of b'{' key ≡ s
    → drop (s + 1) key ≡ rest
    → index_of b'}' rest ≡ n
    → 0 < n
    → s + 1 + n < length key
    → key_slot key ≡ to_slot (crc16 (take n rest))
unfolding key_slot
key_slot-inner key rest s n es er en some_tag room =
    let inner : s + 1 + n - s - 1 ≡ n = omega arith in rw (es, er, en, inner) (ground arith)

-- A key whose first `{` is followed by a text and a `}` has the slot of that text.
pub get_key_slot-tag :
    (pre tag post : List ℕ)
    → count b'{' pre ≡ 0
    → count b'}' tag ≡ 0
    → 0 < length tag
    → get_key_slot (some (pre ++ b'{' ∷ (tag ++ b'}' ∷ post))) ≡ to_slot (crc16 tag)
unfolding get_key_slot
get_key_slot-tag pre tag post no_open no_close some_tag =
    key_slot-inner (pre ++ b'{' ∷ (tag ++ b'}' ∷ post)) (tag ++ b'}' ∷ post) (length pre)
      (length tag) (index_of-append b'{' pre (tag ++ b'}' ∷ post) no_open)
      (drop_past pre (tag ++ b'}' ∷ post) b'{') (index_of-append b'}' tag post no_close) some_tag
      (omega
        (arith, length-append pre (b'{' ∷ (tag ++ b'}' ∷ post)), length-append tag (b'}' ∷ post)))
    ∙ ap (λ t. to_slot (crc16 t)) (take-append tag (b'}' ∷ post))

-- The other keys, the empty pair of braces among them, have the slot of the whole key.
pub get_key_slot-whole :
    (key : List ℕ)
    → (count b'{' key ≡ 0)
      ⊎ ((pre rest : List ℕ) × (key ≡ pre ++ b'{' ∷ rest)
          × (count b'{' pre ≡ 0)
          × ((count b'}' rest ≡ 0) ⊎ ((post : List ℕ) × (rest ≡ b'}' ∷ post))))
    → get_key_slot (some key) ≡ to_slot (crc16 key)
unfolding get_key_slot
get_key_slot-whole key (inl none_open) = rw (index_of_absent b'{' key none_open) (ground arith)
get_key_slot-whole key (inr (pre, rest, e, no_open, inl no_close)) =
    let es : index_of b'{' key ≡ length pre =
      ap (index_of b'{') e ∙ index_of-append b'{' pre rest no_open in
    let er : drop (length pre + 1) key ≡ rest =
      ap (drop (length pre + 1)) e ∙ drop_past pre rest b'{' in
    let len : length key ≡ length pre + 1 + length rest =
      omega (arith, ap length e, length-append pre (b'{' ∷ rest)) in
    rw (es, er, index_of_absent b'}' rest no_close, len) (ground arith)
get_key_slot-whole key (inr (pre, rest, e, no_open, inr (post, e'))) =
    let es : index_of b'{' key ≡ length pre =
      ap (index_of b'{') e ∙ index_of-append b'{' pre rest no_open in
    let er : drop (length pre + 1) key ≡ rest =
      ap (drop (length pre + 1)) e ∙ drop_past pre rest b'{' in
    rw (es, er, e') (ground arith)
