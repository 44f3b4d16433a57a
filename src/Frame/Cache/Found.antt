-- ===== src/Frame/Cache/Found.antt =====
-- What CacheManager::Get finds behind a CacheManager::Set (src/frame/objectcache.h).
use graphize.Common.{
  ℕ, zero, suc, ◌≡◌, refl, sym, ap, ◌∙◌, ◌⊎◌, inl, inr, List, arith, some, none≢some,
  some-injective, true, false, ◌==◌, length, ℤ, pos, negsuc, is_zero, Bool-cases, ◌||◌,
}
use graphize.Frame.Cache.{
  ShmCache, ObjectCache, object_set, object_get, manager_get, manager_set, is_positive, expires_at,
}
use graphize.Service.CacheData.{stored}

-- A set changes nothing but the value of its key, and it may drop values.
abbrev pub OnlySets : ShmCache → Type 0
OnlySets shm =
    (s : shm.Context) (key value : List ℕ) (ends : ℤ) (k v : List ℕ) (now : ℕ)
    → shm.get (shm.set_ex s key value ends).0 k now ≡ (pos 0, v)
    → ((k ≡ key) × (v ≡ value)) ⊎ (shm.get s k now ≡ (pos 0, v))

pair_eq {ℓ κ} :
    {A : Type ℓ} {B : Type κ} (p : A × B) {a : A} {b : B} → p.0 ≡ a → p.1 ≡ b → p ≡ (a, b)
pair_eq (x, y) e f = cc (e, f)

is_zero-eq : (z : ℤ) → is_zero z ≡ true → z ≡ pos 0
is_zero-eq (pos zero) e = refl
is_zero-eq (pos (suc n)) e = absurd (ground arith)
is_zero-eq (negsuc n) e = absurd (ground arith)

module _ (shm : ShmCache) where
  -- What it takes for CacheManager::Get to find a value.
  manager_get_found :
      (c : ObjectCache shm) (later : ℕ) (k v : List ℕ)
      → manager_get shm c later k ≡ some v
      → ((length k == 0) ≡ false)
        × (is_zero c.init_status ≡ true)
        × (shm.get c.ctx k later ≡ (pos 0, v))
  unfolding manager_get object_get
  manager_get_found c later k v found = elim (Bool-cases (length k == 0)) [
    | inl empty ↦ absurd (none≢some (rw empty at found))
    | inr some_key ↦
        let f = rw some_key at found in
        elim (Bool-cases (is_zero c.init_status)) [
          | inr broken ↦ let g = rw (broken, broken) at f in absurd (none≢some g)
          | inl ready ↦
              let g = rw ready at f in
              elim (Bool-cases (is_zero (shm.get c.ctx k later).0)) [
                | inr missing ↦ let h = rw missing at g in absurd (none≢some h)
                | inl there ↦
                    let h = rw there at g in
                    (
                      some_key,
                      ready,
                      pair_eq (shm.get c.ctx k later) (is_zero-eq (shm.get c.ctx k later).0 there)
                          (some-injective h),
                    )
              ]
        ]
  ]

  manager_get_of :
      (c : ObjectCache shm) (later : ℕ) (k v : List ℕ)
      → (length k == 0) ≡ false
      → is_zero c.init_status ≡ true
      → shm.get c.ctx k later ≡ (pos 0, v)
      → manager_get shm c later k ≡ some v
  unfolding manager_get object_get
  manager_get_of c later k v some_key ready there = rw (some_key, ready, there) refl

  manager_set_cases :
      (c : ObjectCache shm) (now : ℕ) (key value : List ℕ) (ttl : ℤ)
      → ((manager_set shm c now key value ttl).0 ≡ c)
        ⊎ ((manager_set shm c now key value ttl).0
            ≡ record c { ctx = (shm.set_ex c.ctx key value (expires_at now ttl)).0 })
  unfolding manager_set object_set
  manager_set_cases c now key value ttl = elim (Bool-cases (length key == 0 || length value == 0)) [
    | inl empty ↦ inl (rw empty refl)
    | inr some_text ↦ elim (Bool-cases (is_positive ttl)) [
      | inr past ↦ inl (rw (some_text, past) refl)
      | inl positive ↦ elim (Bool-cases (is_zero c.init_status)) [
        | inr broken ↦ inl (rw (some_text, positive, broken) refl)
        | inl ready ↦ inr (rw (some_text, positive, ready) refl)
      ]
    ]
  ]

module _ (shm : ShmCache) (only : OnlySets shm) where
  -- What is found behind a set is its value, or was found before.
  pub manager_set_found :
      (c : ObjectCache shm) (now later : ℕ) (key value k v : List ℕ) (ttl : ℤ)
      → manager_get shm (manager_set shm c now key value ttl).0 later k ≡ some v
      → ((k ≡ key) × (v ≡ value)) ⊎ (manager_get shm c later k ≡ some v)
  manager_set_found c now later key value k v ttl found =
      let (some_key, ready, there) =
        manager_get_found shm (manager_set shm c now key value ttl).0 later k v found in
      elim (manager_set_cases shm c now key value ttl) [
        | inl same ↦ inr (ap (λ x. manager_get shm x later k) (sym same) ∙ found)
        | inr stored ↦
            elim (only c.ctx key value (expires_at now ttl) k v later
              (ap (λ x. shm.get x.ctx k later) (sym stored) ∙ there)) [
                | inl new ↦ inl new
                | inr old ↦ inr (
                    manager_get_of shm c later k v some_key
                      (ap (λ x. is_zero x.init_status) (sym stored) ∙ ready) old)
              ]
      ]
