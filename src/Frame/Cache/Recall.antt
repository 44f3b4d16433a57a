-- ===== src/Frame/Cache/Recall.antt =====
-- What is read back from the cache (src/frame/cache_manager.cpp).
use graphize.Common.{
  ℕ, ◌+◌, ◌<◌, ◌≡◌, ◌≢◌, refl, sym, ap, inl, inr, List, arith, some, true, false, ◌==◌, ◌||◌,
  length, ℤ, pos, negsuc, is_zero, Bool-cases,
}
use graphize.Frame.Cache.{
  ShmCache, expires_at, is_positive, manager_set, ObjectCache, object_set, object_get, manager_get,
}

-- A value that was set without an error is there until it ends.
abbrev pub Keeps : ShmCache → Type 0
Keeps shm =
    (s s' : shm.Context) (key value : List ℕ) (ends now : ℕ)
    → shm.set_ex s key value (pos ends) ≡ (s', pos 0)
    → now < ends
    → shm.get s' key now ≡ (pos 0, value)

negsuc≢pos : {m n : ℕ} → negsuc m ≢ pos n
negsuc≢pos e = cc

module _ (shm : ShmCache) where
  -- What it takes for ObjectCache::set to return 0.
  object_set-done :
      (c c' : ObjectCache shm) (now : ℕ) (key value : List ℕ) (ttl : ℤ)
      → object_set shm c now key value ttl ≡ (c', pos 0)
      → (shm.set_ex c.ctx key value (expires_at now ttl) ≡ (c'.ctx, pos 0))
        × (is_zero c.init_status ≡ true)
        × (c'.init_status ≡ c.init_status)
  unfolding object_set
  object_set-done c c' now key value ttl done = elim (Bool-cases (is_zero c.init_status)) [
    | inl ready ↦
        let e = rw ready at done in
        (ap (λ p. (p.0.ctx, p.1)) e, ready, ap (λ p. p.0.init_status) (sym e))
    | inr broken ↦ let e = rw broken at done in absurd (ground (arith, ap (λ p. p.1) e))
  ]

  -- What it takes for CacheManager::Set to return 0.
  manager_set-done :
      (c c' : ObjectCache shm) (now : ℕ) (key value : List ℕ) (ttl : ℤ)
      → manager_set shm c now key value ttl ≡ (c', pos 0)
      → (object_set shm c now key value ttl ≡ (c', pos 0)) × ((length key == 0) ≡ false)
  unfolding manager_set
  manager_set-done c c' now key value ttl done =
      elim (Bool-cases (length key == 0 || length value == 0)) [
        | inl empty ↦ let e = rw empty at done in absurd (negsuc≢pos (ap (λ p. p.1) e))
        | inr some_text ↦
            let d = rw some_text at done in
            elim (Bool-cases (is_positive ttl)) [
              | inl positive ↦ (rw positive at d, ground arith)
              | inr past ↦ let e = rw past at d in absurd (negsuc≢pos (ap (λ p. p.1) e))
            ]
      ]

-- If CacheManager::Set returned 0, then CacheManager::Get finds the value until its time is over.
pub manager_get-manager_set :
    (shm : ShmCache) (c c' : ObjectCache shm) (now later : ℕ) (key value : List ℕ) (ttl : ℕ)
    → Keeps shm
    → manager_set shm c now key value (pos ttl) ≡ (c', pos 0)
    → later < now + ttl
    → manager_get shm c' later key ≡ some value
unfolding manager_get object_get
manager_get-manager_set shm c c' now later key value ttl keeps done fresh =
    let (set, some_key) = manager_set-done shm c c' now key value (pos ttl) done in
    let (stored, ready, same) = object_set-done shm c c' now key value (pos ttl) set in
    rw (some_key, same, ready, keeps c.ctx c'.ctx key value (now + ttl) later stored fresh) refl
