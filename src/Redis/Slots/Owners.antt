-- ===== src/Redis/Slots/Owners.antt =====
-- Which node owns a slot after RedisClient::InitSlotNodeMap
-- (src/frame/client/redis/redis_client.cpp).
use graphize.Common.{
  ℕ, zero, suc, ◌+◌, ◌-◌, ◌≤◌, ◌<◌, ◌≡◌, refl, sym, ap, ◌∙◌, List, [], ◌∷◌, ◌++◌, arith, some,
  Option, length, take, length-append, length-take, length-replicate, length-set, if◌then◌else◌,
  ltb, leb, ◌==◌, ==_iff, ◌&&◌, Bool, ℤ, pos, negsuc, get_elem?, set, replicate, get_elem?-set_self,
  get_elem?-set_ne, ℕ_discrete, Bool-cases, inl, inr,
}
use graphize.Redis.Slots.{
  NodeInfo, check_ranges, check_slot, resize, assign, assign_range, assign_node, assign_nodes,
  slot_count, init_slot_node_map,
}

get_elem?-take : (n : ℕ) (xs : List ℤ) (s : ℕ) → s < n → get_elem? (take n xs) s ≡ get_elem? xs s
get_elem?-take zero xs s h = absurd (omega arith)
get_elem?-take (suc n) [] s h = refl
get_elem?-take (suc n) (x ∷ xs) zero h = refl
get_elem?-take (suc n) (x ∷ xs) (suc s) h = get_elem?-take n xs s (omega arith)

get_elem?-append_left :
    (xs ys : List ℤ) (s : ℕ) → s < length xs → get_elem? (xs ++ ys) s ≡ get_elem? xs s
get_elem?-append_left [] ys s h = absurd (omega arith)
get_elem?-append_left (x ∷ xs) ys zero h = refl
get_elem?-append_left (x ∷ xs) ys (suc s) h = get_elem?-append_left xs ys s (omega arith)

length-resize : (vec : List ℤ) (n : ℕ) (v : ℤ) → length (resize vec n v) ≡ n
unfolding resize
length-resize vec n v = omega (
  arith,
  length-append (take n vec) (replicate (n - length vec) v),
  length-take n vec,
  length-replicate {0} {A = ℤ} (n - length vec) v,
)

-- What was there stays, within the new length.
resize-old :
    (vec : List ℤ) (n s : ℕ) (v : ℤ)
    → s < n
    → s < length vec
    → get_elem? (resize vec n v) s ≡ get_elem? vec s
unfolding resize
resize-old vec n s v h l =
    get_elem?-append_left (take n vec) _ s (omega (arith, length-take n vec))
    ∙ get_elem?-take n vec s h

get_elem?-replicate : (n s : ℕ) (v : ℤ) → s < n → get_elem? (replicate n v) s ≡ some v
get_elem?-replicate zero s v h = absurd (omega arith)
get_elem?-replicate (suc n) zero v h = refl
get_elem?-replicate (suc n) (suc s) v h = get_elem?-replicate n s v (omega arith)

take_all : (n : ℕ) (xs : List ℤ) → length xs ≤ n → take n xs ≡ xs
take_all zero [] h = refl
take_all zero (x ∷ xs) h = absurd (omega arith)
take_all (suc n) [] h = refl
take_all (suc n) (x ∷ xs) h = ap (◌∷◌ x) (take_all n xs (omega arith))

get_elem?-append_right :
    (xs ys : List ℤ) (s : ℕ) → length xs ≤ s → get_elem? (xs ++ ys) s ≡ get_elem? ys (s - length xs)
get_elem?-append_right [] ys s h = ap (get_elem? ys) (omega arith)
get_elem?-append_right (x ∷ xs) ys zero h = absurd (omega arith)
get_elem?-append_right (x ∷ xs) ys (suc s) h =
    get_elem?-append_right xs ys s (omega arith) ∙ ap (get_elem? ys) (omega arith)

-- What is new has the fill value.
resize-new :
    (vec : List ℤ) (n s : ℕ) (v : ℤ)
    → s < n
    → length vec ≤ s
    → get_elem? (resize vec n v) s ≡ some v
unfolding resize
resize-new vec n s v h l = rw (take_all n vec (omega arith)) (
    get_elem?-append_right vec (replicate (n - length vec) v) s l
    ∙ get_elem?-replicate (n - length vec) (s - length vec) v (omega arith))

-- Assigning never makes the vector shorter, and changes no other slot within it.
record Assigned (vec vec' : List ℤ) (s : ℕ) (hit : Bool) (i : ℤ) : Type 0 where
  longer : length vec ≤ length vec'
  entry : get_elem? vec' s ≡ (if hit then some i else get_elem? vec s)

assign-Assigned :
    (vec : List ℤ) (slot s : ℕ) (i : ℤ)
    → s < length vec
    → Assigned vec (assign vec slot i) s (slot == s) i
unfolding assign
assign-Assigned vec slot s i h = elim (Bool-cases (ltb slot (length vec))) [
  | inl inside ↦ rw inside (record {
    longer = omega (arith, length-set vec slot i);
    entry = elim (ℕ_discrete slot s) [
      | yes e ↦
          rw ((==_iff slot s).1 e)
            (ap (get_elem? (set vec slot i)) (sym e) ∙ get_elem?-set_self vec slot i (ground arith))
      | no ne ↦ get_elem?-set_ne vec i ne ∙ ground arith
    ];
  })
  | inr past ↦
      let vec' = resize vec (suc slot) (negsuc 0) in
      rw past (record {
        longer = ground (arith, length-set vec' slot i, length-resize vec (suc slot) (negsuc 0));
        entry =
            get_elem?-set_ne vec' i (λ e. ground arith)
            ∙ resize-old vec (suc slot) s (negsuc 0) (ground arith) h
            ∙ ground arith;
      })
]

-- A range of so many slots from `start`.
abbrev in_range : ℕ → ℕ → ℕ → Bool
in_range start n s = leb start s && ltb s (start + n)

assign_range-Assigned :
    (n : ℕ) (vec : List ℤ) (start s : ℕ) (i : ℤ)
    → s < length vec
    → Assigned vec (assign_range n vec start i) s (in_range start n s) i
unfolding assign_range
assign_range-Assigned zero vec start s i h = record { longer = omega arith; entry = ground arith }
assign_range-Assigned (suc n) vec start s i h =
    let one = assign-Assigned vec start s i h in
    let rest =
      assign_range-Assigned n (assign vec start i) (suc start) s i (omega (arith, one.longer)) in
    record {
      longer = omega (arith, one.longer, rest.longer);
      entry = ground (arith, one.entry, rest.entry);
    }

assign_node-Assigned :
    (ranges : List (ℕ × ℕ)) (vec : List ℤ) (s : ℕ) (i : ℤ)
    → s < length vec
    → Assigned vec (assign_node vec ranges i) s (check_ranges ranges s) i
unfolding assign_node check_ranges
assign_node-Assigned [] vec s i h = record { longer = omega arith; entry = refl }
assign_node-Assigned ((first, last) ∷ ranges) vec s i h =
    let one = assign_range-Assigned (suc last - first) vec first s i h in
    let rest =
      assign_node-Assigned ranges (assign_range (suc last - first) vec first i) s i
        (omega (arith, one.longer)) in
    record {
      longer = omega (arith, one.longer, rest.longer);
      entry = ground (arith, one.entry, rest.entry);
    }

-- The last node that claims the slot, counted from `i`; without one, what the table had.
unfoldable pub owner : Option ℤ → ℕ → List NodeInfo → ℕ → Option ℤ
owner old i [] s = old
owner old i (node ∷ nodes) s =
    owner (if check_slot node s then some (pos i) else old) (suc i) nodes s

assign_nodes-owner :
    (nodes : List NodeInfo) (vec : List ℤ) (i s : ℕ)
    → s < length vec
    → get_elem? (assign_nodes vec i nodes) s ≡ owner (get_elem? vec s) i nodes s
unfolding assign_nodes owner check_slot
assign_nodes-owner [] vec i s h = refl
assign_nodes-owner (node ∷ nodes) vec i s h =
    let one = assign_node-Assigned node.slots vec s (pos i) h in
    assign_nodes-owner nodes (assign_node vec node.slots (pos i)) (suc i) s
      (omega (arith, one.longer))
    ∙ ap (λ old. owner old (suc i) nodes s) one.entry

-- What a table says of a slot before it is filled; -1 past its end.
unfoldable pub former : List ℤ → ℕ → Option ℤ
former vec s = if ltb s (length vec) then get_elem? vec s else some (negsuc 0)

-- Every slot below 16384 belongs to the last node that claims it (by NodeInfo::CheckSlot). A slot
-- that no node claims keeps the entry that it had, or has -1 if the table was too short for it.
pub init_slot_node_map-owner :
    (vec : List ℤ) (nodes : List NodeInfo) (s : ℕ)
    → s < slot_count
    → get_elem? (init_slot_node_map vec nodes) s ≡ owner (former vec s) 0 nodes s
unfolding init_slot_node_map former
init_slot_node_map-owner vec nodes s h =
    assign_nodes-owner nodes (resize vec slot_count (negsuc 0)) 0 s
      (omega (arith, length-resize vec slot_count (negsuc 0)))
    ∙ ap (λ old. owner old 0 nodes s)
        (elim (Bool-cases (ltb s (length vec))) [
          | inl had ↦ rw had (resize-old vec slot_count s (negsuc 0) h (ground arith))
          | inr past ↦ rw past (resize-new vec slot_count s (negsuc 0) h (ground arith))
        ])

-- In a table built from scratch a slot that no node claims has -1.
pub new_table-owner :
    (nodes : List NodeInfo) (s : ℕ)
    → s < slot_count
    → get_elem? (init_slot_node_map [] nodes) s ≡ owner (some (negsuc 0)) 0 nodes s
unfolding former
new_table-owner nodes s h =
    init_slot_node_map-owner [] nodes s h ∙ ap (λ old. owner old 0 nodes s) (ground arith)
