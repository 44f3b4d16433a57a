-- ===== src/Redis/Client/Masters.antt =====
-- What the lines are that a RedisClient holds (src/frame/client/redis/redis_client.cpp).
use graphize.Common.{
  ℕ, ◌≤◌, ◌≡◌, refl, sym, ap, ◌∙◌, subst, List, [], ◌∷◌, ◌++◌, true, some, arith, ltb, length,
  Bool-cases, inl, inr, not_both,
}
use graphize.Redis.Client.{Env, RedisClient, Answer, new_client, update_rounds}
use graphize.Redis.Client.Changed.{AreValid}
use graphize.Redis.Client.Rounds.{HasValidLines, update_rounds_valid}
use graphize.Redis.NodeLine.{starts_with, contains, field, disconnected, master, is_valid}

-- The word stands somewhere in the text.
abbrev pub IsPart : List ℕ → List ℕ → Type 0
IsPart word text = (front back : List ℕ) × (text ≡ front ++ (word ++ back))

starts_with-back :
    (word text : List ℕ) → starts_with word text ≡ true → (back : List ℕ) × (text ≡ word ++ back)
unfolding starts_with
starts_with-back [] text e = (text, refl)
starts_with-back (a ∷ word) [] e = absurd (cc)
starts_with-back (a ∷ word) (b ∷ text) e =
    let (back, rest) = starts_with-back word text (ground arith) in
    let same : a ≡ b = ground arith in
    (back, ap (λ t. b ∷ t) rest ∙ ap (λ c. c ∷ (word ++ back)) (sym same))

starts_with-append : (word back : List ℕ) → starts_with word (word ++ back) ≡ true
unfolding starts_with
starts_with-append [] back = refl
starts_with-append (a ∷ word) back = ground (arith, starts_with-append word back)

contains-IsPart : (word text : List ℕ) → contains word text ≡ true → IsPart word text
unfolding contains
contains-IsPart word [] e = let (back, at) = starts_with-back word [] e in ([], back, at)
contains-IsPart word (b ∷ text) e = elim (Bool-cases (starts_with word (b ∷ text))) [
  | inl here ↦ let (back, at) = starts_with-back word (b ∷ text) here in ([], back, at)
  | inr later ↦
      let (front, back, at) = contains-IsPart word text (rw later at e) in
      (b ∷ front, back, ap (λ t. b ∷ t) at)
]

at_front : (word text : List ℕ) → starts_with word text ≡ true → contains word text ≡ true
unfolding contains
at_front word [] e = e
at_front word (b ∷ text) e = rw e refl

contains-front : (word front back : List ℕ) → contains word (front ++ (word ++ back)) ≡ true
unfolding contains
contains-front word [] back = at_front word (word ++ back) (starts_with-append word back)
contains-front word (b ∷ front) back = ground (arith, contains-front word front back)

-- A line of at least eight fields, of which the third names a master and the eighth does not say that it is
-- disconnected.
pub record IsConnectedMaster (nodeinfo : List (List ℕ)) : Type 0 where
  pub fields : 8 ≤ length nodeinfo
  pub is_connected : ¬ IsPart disconnected (field nodeinfo 7)
  pub is_master : IsPart master (field nodeinfo 2)

IsConnectedMaster-of :
    (nodeinfo : List (List ℕ)) → is_valid nodeinfo ≡ true → IsConnectedMaster nodeinfo
unfolding is_valid
IsConnectedMaster-of nodeinfo e = elim (Bool-cases (ltb (length nodeinfo) 8)) [
  | inl short ↦ absurd (not_both (rw short at e) refl)
  | inr sized ↦ elim (Bool-cases (contains disconnected (field nodeinfo 7))) [
    | inl gone ↦ absurd (not_both (rw (sized, gone) at e) refl)
    | inr connected ↦ record {
      fields = ground arith;
      is_connected = λ p.
          not_both
            (subst (λ t. contains disconnected t ≡ true) (sym p.2)
              (contains-front disconnected p.0 p.1))
            connected;
      is_master = contains-IsPart master (field nodeinfo 2) (rw (sized, connected) at e);
    }
  ]
]

module _ (env : Env) where
  pub AreConnectedMasters : List (List ℕ) → Type 0
  AreConnectedMasters [] = Unit {0}
  AreConnectedMasters (line ∷ lines) =
      IsConnectedMaster (env.split b' ' line) × AreConnectedMasters lines

  AreConnectedMasters-of : (lines : List (List ℕ)) → AreValid env lines → AreConnectedMasters lines
  unfolding AreValid AreConnectedMasters
  AreConnectedMasters-of [] v = tt
  AreConnectedMasters-of (line ∷ lines) v =
      (IsConnectedMaster-of (env.split b' ' line) v.0, AreConnectedMasters-of lines v.1)

  abbrev pub HaveConnectedMasters : RedisClient → Type 0
  HaveConnectedMasters c =
      AreConnectedMasters c.channel_pool0.valid_lines
      × AreConnectedMasters c.channel_pool1.valid_lines

  -- Whatever the server answered to the constructor and to the rounds so far, both pools of the client hold only
  -- lines of at least eight fields, of which the third has the word "master" in it and the eighth does not have the
  -- word "disconnected" in it.
  pub update_rounds_connected :
      (first : Answer) (answers : List Answer) (c c' : RedisClient)
      → new_client env first ≡ some c
      → update_rounds env c answers ≡ some c'
      → HaveConnectedMasters c'
  unfolding HasValidLines
  update_rounds_connected first answers c c' made e =
      let (v0, v1) = update_rounds_valid env first answers c c' made e in
      (
        AreConnectedMasters-of c'.channel_pool0.valid_lines v0,
        AreConnectedMasters-of c'.channel_pool1.valid_lines v1,
      )
