-- ===== src/Service/Fetch/Groups.antt =====
-- The groups of keys by slot, and the fetches that they become (make_up_fetch_info_vec in
-- src/service/base/redis_service.cpp).
use mathlib.Core.List.{Permᴰ}
use mathlib.Core.List.Permᴰ
use graphize.Common.{
  ℕ, ◌≡◌, ◌≢◌, refl, sym, ap, subst, List, [], ◌∷◌, ◌++◌, append_assoc, ◌==◌, ==_iff, map,
  Bool-cases, inl, inr,
}
use graphize.Service.Fetch.{FetchInfo, push_key, slot_keys_map, spread}

-- All keys of groups.
unfoldable pub keys_of : List (ℕ × List (List ℕ)) → List (List ℕ)
keys_of [] = []
keys_of ((slot, keys) ∷ groups) = keys ++ keys_of groups

unfoldable pub all_keys : List FetchInfo → List (List ℕ)
all_keys [] = []
all_keys (fetch ∷ fetches) = fetch.keys ++ all_keys fetches

pub append_comm : {A : Type 0} (xs ys zs : List A) → Permᴰ (xs ++ (ys ++ zs)) (ys ++ (xs ++ zs))
append_comm [] ys zs = Permᴰ.refl (ys ++ zs)
append_comm (x ∷ xs) ys zs =
    Permᴰ.trans (Permᴰ.cons refl (append_comm xs ys zs)) (Permᴰ.symm (Permᴰ.middle x ys (xs ++ zs)))

-- The order of the groups does not matter for the keys.
pub keys_of-Permᴰ :
    {groups groups' : List (ℕ × List (List ℕ))}
    → Permᴰ groups groups'
    → Permᴰ (keys_of groups) (keys_of groups')
unfolding keys_of
keys_of-Permᴰ Permᴰ.nil = Permᴰ.nil
keys_of-Permᴰ (Permᴰ.cons {a = (s, ks)} {b = (t, ls)} {l₁ = l₁} {l₂ = l₂} e p) =
    subst (λ x. Permᴰ (ks ++ keys_of l₁) (x ++ keys_of l₂)) (ap (λ g. g.1) e)
      (Permᴰ.append_left ks (keys_of-Permᴰ p))
keys_of-Permᴰ
      (Permᴰ.swap {a = (s, ks)} {b = (t, ls)} {a' = (t', ls')} {b' = (s', ks')} {l = l} e f) =
    subst (λ x. Permᴰ (ks ++ (ls ++ keys_of l)) (x ++ (ks' ++ keys_of l))) (ap (λ g. g.1) f)
      (subst (λ x. Permᴰ (ks ++ (ls ++ keys_of l)) (ls ++ (x ++ keys_of l))) (ap (λ g. g.1) e)
        (append_comm ks ls (keys_of l)))
keys_of-Permᴰ (Permᴰ.trans p q) = Permᴰ.trans (keys_of-Permᴰ p) (keys_of-Permᴰ q)

push_key-Permᴰ :
    (slot : ℕ) (key : List ℕ) (m : List (ℕ × List (List ℕ)))
    → Permᴰ (keys_of (push_key slot key m)) (key ∷ keys_of m)
unfolding push_key keys_of
push_key-Permᴰ slot key [] = Permᴰ.refl (key ∷ [])
push_key-Permᴰ slot key ((s, keys) ∷ m) = elim (Bool-cases (s == slot)) [
  | inl here ↦ rw (here, append_assoc) (Permᴰ.middle key keys (keys_of m))
  | inr later ↦ rw later (
      Permᴰ.trans (Permᴰ.append_left keys (push_key-Permᴰ slot key m))
        (Permᴰ.middle key keys (keys_of m)))
]

pub slot_keys_map-Permᴰ :
    (slot_of : List ℕ → ℕ) (keys : List (List ℕ)) (m : List (ℕ × List (List ℕ)))
    → Permᴰ (keys_of (slot_keys_map slot_of keys m)) (keys ++ keys_of m)
unfolding slot_keys_map
slot_keys_map-Permᴰ slot_of [] m = Permᴰ.refl (keys_of m)
slot_keys_map-Permᴰ slot_of (key ∷ keys) m =
    Permᴰ.trans (slot_keys_map-Permᴰ slot_of keys (push_key (slot_of key) key m)) (
      Permᴰ.trans (Permᴰ.append_left keys (push_key-Permᴰ (slot_of key) key m))
        (Permᴰ.middle key keys (keys_of m)))

-- All these keys have the slot.
unfoldable pub HaveSlot : (List ℕ → ℕ) → ℕ → List (List ℕ) → Type 0
HaveSlot slot_of slot [] = Unit {0}
HaveSlot slot_of slot (key ∷ keys) = (slot_of key ≡ slot) × HaveSlot slot_of slot keys

-- Each group has the keys of one slot.
unfoldable pub AreSorted : (List ℕ → ℕ) → List (ℕ × List (List ℕ)) → Type 0
unfolding HaveSlot
AreSorted slot_of [] = Unit {0}
AreSorted slot_of ((slot, keys) ∷ groups) = HaveSlot slot_of slot keys × AreSorted slot_of groups

module _ (slot_of : List ℕ → ℕ) where
  HaveSlot-append :
      (slot : ℕ) (keys : List (List ℕ)) (key : List ℕ)
      → HaveSlot slot_of slot keys
      → slot_of key ≡ slot
      → HaveSlot slot_of slot (keys ++ key ∷ [])
  unfolding HaveSlot
  HaveSlot-append slot [] key h e = (e, tt)
  HaveSlot-append slot (k ∷ keys) key (h, rest) e = (h, HaveSlot-append slot keys key rest e)

  AreSorted-push_key :
      (key : List ℕ) (m : List (ℕ × List (List ℕ)))
      → AreSorted slot_of m
      → AreSorted slot_of (push_key (slot_of key) key m)
  unfolding push_key AreSorted
  AreSorted-push_key key [] h = ((refl, tt), tt)
  AreSorted-push_key key ((slot, keys) ∷ m) (h, rest) = elim (Bool-cases (slot == slot_of key)) [
    | inl here ↦
        rw here (HaveSlot-append slot keys key h (sym ((==_iff slot (slot_of key)).0 here)), rest)
    | inr later ↦ rw later (h, AreSorted-push_key key m rest)
  ]

  pub slot_keys_map-AreSorted :
      (keys : List (List ℕ)) (m : List (ℕ × List (List ℕ)))
      → AreSorted slot_of m
      → AreSorted slot_of (slot_keys_map slot_of keys m)
  unfolding slot_keys_map
  slot_keys_map-AreSorted [] m h = h
  slot_keys_map-AreSorted (key ∷ keys) m h =
      slot_keys_map-AreSorted keys (push_key (slot_of key) key m) (AreSorted-push_key key m h)

  HaveSlot-group :
      (a b : ℕ × List (List ℕ)) → a ≡ b → HaveSlot slot_of a.0 a.1 → HaveSlot slot_of b.0 b.1
  HaveSlot-group a b e h = subst (λ g. HaveSlot slot_of g.0 g.1) e h

  pub AreSorted-Permᴰ :
      {groups groups' : List (ℕ × List (List ℕ))}
      → Permᴰ groups groups'
      → AreSorted slot_of groups
      → AreSorted slot_of groups'
  unfolding AreSorted
  AreSorted-Permᴰ Permᴰ.nil h = h
  AreSorted-Permᴰ (Permᴰ.cons {a = (s, ks)} {b = (t, ls)} e p) (h, rest) =
      (HaveSlot-group (s, ks) (t, ls) e h, AreSorted-Permᴰ p rest)
  AreSorted-Permᴰ (Permᴰ.swap {a = (s, ks)} {b = (t, ls)} {a' = (t', ls')} {b' = (s', ks')} e f)
        (g, (h, rest)) =
      (HaveSlot-group (t, ls) (t', ls') f h, (HaveSlot-group (s, ks) (s', ks') e g, rest))
  AreSorted-Permᴰ (Permᴰ.trans p q) h = AreSorted-Permᴰ q (AreSorted-Permᴰ p h)

added-keys :
    (fetch : FetchInfo) (groups : List (ℕ × List (List ℕ)))
    → all_keys (map (λ group. record fetch { keys = group.1; id = [] }) groups) ≡ keys_of groups
unfolding all_keys keys_of
added-keys fetch [] = refl
added-keys fetch ((slot, keys) ∷ groups) = ap (◌++◌ keys) (added-keys fetch groups)

-- The keys of a fetch that was spread over groups.
pub spread-keys :
    (fetch : FetchInfo) (groups : List (ℕ × List (List ℕ)))
    → keys_of groups ≢ []
    → (spread fetch groups).0.keys ++ all_keys (spread fetch groups).1 ≡ keys_of groups
unfolding spread keys_of
spread-keys fetch [] h = absurd (h refl)
spread-keys fetch ((slot, keys) ∷ groups) h = ap (◌++◌ keys) (added-keys fetch groups)
