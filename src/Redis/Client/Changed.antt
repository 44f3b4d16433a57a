-- ===== src/Redis/Client/Changed.antt =====
-- What RedisClient::is_channel_pool_changed compares (src/frame/client/redis/redis_client.cpp).
use graphize.Common.{
  same_text_iff, ℕ, suc, ◌≤◌, ◌≡◌, refl, ap, ◌↔◌, List, [], ◌∷◌, arith, true, false, ==_iff, length,
  drop, length-drop, map, ℕ_discrete,
}
use graphize.Redis.Client.{Env, RedisClient, lines_changed, is_channel_pool_changed}
use graphize.Redis.NodeLine.{fields_differ, line_changed, field, is_valid}

fields_differ_iff :
    (fs gs : List (List ℕ)) → length fs ≡ length gs → (fields_differ fs gs ≡ false) ↔ (fs ≡ gs)
unfolding fields_differ
fields_differ_iff [] [] h = ground arith
fields_differ_iff [] (g ∷ gs) h = absurd (omega arith)
fields_differ_iff (f ∷ fs) [] h = absurd (omega arith)
fields_differ_iff (f ∷ fs) (g ∷ gs) h =
    ground (arith, fields_differ_iff fs gs (omega arith), same_text_iff f g)

-- What a line says of a node: its id, its address and its slots.
abbrev pub topology : List (List ℕ) → List ℕ × List ℕ × List (List ℕ)
topology fields = (field fields 0, field fields 1, drop 8 fields)

line_changed_iff :
    (fs gs : List (List ℕ))
    → 8 ≤ length fs
    → 8 ≤ length gs
    → (line_changed fs gs ≡ false) ↔ (topology fs ≡ topology gs)
unfolding line_changed
line_changed_iff fs gs f g = (
  λ e.
      let same : length fs ≡ length gs = ground arith in
      let rest =
        (fields_differ_iff (drop 8 fs) (drop 8 gs)
            (omega (arith, same, length-drop 8 fs, length-drop 8 gs))).0
          (ground arith) in
      ground
        (arith, same_text_iff (field fs 0) (field gs 0), same_text_iff (field fs 1) (field gs 1)),
  λ e.
      let tails : drop 8 fs ≡ drop 8 gs = ap (λ t. t.2) e in
      let same : length fs ≡ length gs =
        omega (arith, ap length tails, length-drop 8 fs, length-drop 8 gs) in
      let rest = (fields_differ_iff (drop 8 fs) (drop 8 gs) (ap length tails)).1 tails in
      let first : field fs 0 ≡ field gs 0 = ap (λ t. t.0) e in
      let second : field fs 1 ≡ field gs 1 = ap (λ t. t.1) e in
      ground
        (arith, same_text_iff (field fs 0) (field gs 0), same_text_iff (field fs 1) (field gs 1)),
)

length_of_map {ℓ κ} :
    {A : Type ℓ} {B : Type κ} (f : A → B) (xs ys : List A)
    → map f xs ≡ map f ys
    → length xs ≡ length ys
length_of_map f [] [] e = refl
length_of_map f [] (y ∷ ys) e = absurd (cc)
length_of_map f (x ∷ xs) [] e = absurd (cc)
length_of_map f (x ∷ xs) (y ∷ ys) e = ap suc (length_of_map f xs ys (cc))

module _ (env : Env) where
  -- Lines that is_valid keeps.
  unfoldable pub AreValid : List (List ℕ) → Type 0
  AreValid [] = Unit {0}
  AreValid (line ∷ lines) = (is_valid (env.split b' ' line) ≡ true) × AreValid lines

  abbrev pub topologies : List (List ℕ) → List (List ℕ × List ℕ × List (List ℕ))
  topologies lines = map (λ line. topology (env.split b' ' line)) lines

  is_valid-le : (fields : List (List ℕ)) → is_valid fields ≡ true → 8 ≤ length fields
  unfolding is_valid
  is_valid-le fields h = ground arith

  lines_changed_iff :
      (ls ms : List (List ℕ))
      → length ls ≡ length ms
      → AreValid ls
      → AreValid ms
      → (lines_changed env ls ms ≡ false) ↔ (topologies ls ≡ topologies ms)
  unfolding lines_changed AreValid
  lines_changed_iff [] [] e l m = ground arith
  lines_changed_iff [] (y ∷ ms) e l m = absurd (omega arith)
  lines_changed_iff (x ∷ ls) [] e l m = absurd (omega arith)
  lines_changed_iff (x ∷ ls) (y ∷ ms) e (lx, l) (my, m) =
      let fs = env.split b' ' x in
      let gs = env.split b' ' y in
      let one = line_changed_iff fs gs (is_valid-le fs lx) (is_valid-le gs my) in
      let rest = lines_changed_iff ls ms (omega arith) l m in ground arith

  -- If the lines of both pools are lines that is_valid keeps, then a change is seen exactly if they do not list the
  -- same nodes, by id, address and slots, in the same order.
  pub is_channel_pool_changed_iff :
      (c : RedisClient)
      → AreValid c.channel_pool0.valid_lines
      → AreValid c.channel_pool1.valid_lines
      → (is_channel_pool_changed env c ≡ false)
        ↔ (topologies c.channel_pool0.valid_lines ≡ topologies c.channel_pool1.valid_lines)
  unfolding is_channel_pool_changed
  is_channel_pool_changed_iff c v0 v1 =
      let ls = c.channel_pool0.valid_lines in
      let ms = c.channel_pool1.valid_lines in
      elim (ℕ_discrete (length ls) (length ms)) [
        | yes e ↦ rw ((==_iff (length ls) (length ms)).1 e) (lines_changed_iff ls ms e v0 v1)
        | no ne ↦ (
          λ same. absurd (ground arith),
          λ same. absurd (ne (length_of_map (λ l. topology (env.split b' ' l)) ls ms same)),
        )
      ]
