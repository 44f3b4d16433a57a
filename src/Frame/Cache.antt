-- ===== src/Frame/Cache.antt =====
-- The cache: ObjectCache (src/frame/objectcache.h) over the library shmcache, which is a parameter, and
-- CacheManager (src/frame/cache_manager.cpp). Keys and values are bytes, times are seconds.
pub mod Found
pub mod Recall
use graphize.Common.{
  ℕ, zero, suc, ◌+◌, ◌-◌, ◌<◌, ◌≡◌, ◌≢◌, List, [], Option, none, some, Bool, true, false, ltb, ◌==◌,
  ◌||◌, if◌then◌else◌, length, ℤ, pos, negsuc, is_zero,
}

-- The calls of shmcache. A set gives the time at which the value ends.
pub record ShmCache : Type 1 where
  pub Context : Type 0
  pub init_from_file : List ℕ → Context × ℤ
  pub set_ex : Context → List ℕ → List ℕ → ℤ → Context × ℤ
  pub get : Context → List ℕ → ℕ → ℤ × List ℕ

-- The time `ttl` seconds from now.
abbrev pub expires_at : ℕ → ℤ → ℤ
expires_at now (pos ttl) = pos (now + ttl)
expires_at now (negsuc n) = if ltb n now then pos (now - suc n) else negsuc (n - now)

abbrev pub is_positive : ℤ → Bool
is_positive (pos n) = ltb 0 n
is_positive (negsuc n) = false

module _ (shm : ShmCache) where
  -- class ObjectCache
  pub record ObjectCache : Type 0 where
    pub ctx : shm.Context
    pub init_status : ℤ

  -- InitCache
  unfoldable pub init_cache : List ℕ → ObjectCache
  init_cache ini_cfg =
      let (ctx, status) = shm.init_from_file ini_cfg in record { ctx = ctx; init_status = status }

  -- CacheManager::init, with what it returns.
  unfoldable pub init_manager : List ℕ → ObjectCache × ℤ
  unfolding init_cache
  init_manager file_path = let c = init_cache file_path in (c, c.init_status)

  -- ObjectCache::set
  unfoldable pub object_set : ObjectCache → ℕ → List ℕ → List ℕ → ℤ → ObjectCache × ℤ
  object_set c now key value ttl =
      let (ctx, ret) = shm.set_ex c.ctx key value (expires_at now ttl) in
      if is_zero c.init_status then (record c { ctx = ctx }, ret) else (c, c.init_status)

  -- ObjectCache::get: what it returns, and the value where that is 0.
  unfoldable pub object_get : ObjectCache → ℕ → List ℕ → ℤ × List ℕ
  object_get c now key =
      if is_zero c.init_status then shm.get c.ctx key now else (c.init_status, [])

  -- CacheManager::Get; `none` for -1.
  unfoldable pub manager_get : ObjectCache → ℕ → List ℕ → Option (List ℕ)
  unfolding object_get
  manager_get c now key =
      let (ret, value) = object_get c now key in
      if length key == 0 then none else if is_zero ret then some value else none

  -- CacheManager::Set, of a value that is not a null pointer.
  unfoldable pub manager_set : ObjectCache → ℕ → List ℕ → List ℕ → ℤ → ObjectCache × ℤ
  unfolding object_set
  manager_set c now key value expired_time =
      if length key == 0 || length value == 0
      then (c, negsuc 0)
      else if is_positive expired_time
      then object_set c now key value expired_time
      else (c, negsuc 0)
