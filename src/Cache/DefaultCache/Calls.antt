-- ===== src/Cache/DefaultCache/Calls.antt =====
-- The calls of `DefaultCacheImpl` that read, remove and protect items.
use here_data_sdk_cpp.Common.{
  ℕ, Bool, true, false, not, ◌||◌, List, [], ◌∷◌, Option, none, some, if◌then◌else◌, ◌>>=◌,
}
use here_data_sdk_cpp.Common.Signed.{minus_time, is_positive}
use here_data_sdk_cpp.Cache.ProtectedKeyList
use here_data_sdk_cpp.Cache.ProtectedKeyList.{Key, is_protected}
use here_data_sdk_cpp.Cache.Lru
use here_data_sdk_cpp.Cache.InMemoryCache
use here_data_sdk_cpp.Cache.InMemoryCache.{default_cache_cost, clear_memory}
use here_data_sdk_cpp.Cache.DiskCache
use here_data_sdk_cpp.Cache.DiskCache.{
  Bytes, ErrorCode, Outcome, success, failure, LevelDb, DiskCache, seek, run_of,
}
use here_data_sdk_cpp.Cache.DefaultCache.{
  DefaultCacheImpl, ValueProperties, Times, is_expiry_valid, less, memory_get, memory_put,
  memory_remove, memory_remove_prefix, remove_key_lru, remove_keys_with_prefix_lru, promote_key_lru,
  add_keys_lru,
}
use here_data_sdk_cpp.Cache.DefaultCache.Disk.{
  get_remaining_expiry_time, purge_mutable, get_from_disk_cache,
}

abbrev no_filter : Key → Bool
no_filter key = false

module _ {D S : Type 0} (db : LevelDb D S) (dec : Discrete Key) where
  -- `Read` once the memory cache has no value.
  unfoldable pub read_disk :
      DefaultCacheImpl D → Key → Times → Option (DefaultCacheImpl D × Outcome Bytes)
  read_disk s key t = do
    (s1, result) ← get_from_disk_cache db dec s key t.protected_time t.mutable_time
    elim result [
      | failure e ↦ some (s1, failure ErrorCode.not_found)
      | success found ↦ do
        s2 ← memory_put dec s1 key found.0 found.1 t.purge_time t.put_time
        some (s2, success found.0)
    ]

  unfoldable pub read :
      DefaultCacheImpl D → Key → Times → Option (DefaultCacheImpl D × Outcome Bytes)
  read s key t = if not s.is_open then some (s, failure ErrorCode.precondition_failed) else do
    (s1, held) ← memory_get dec s key t.get_time
    elim held [
      | some value ↦ do (s2, _) ← promote_key_lru dec s1 key; some (s2, success value)
      | none ↦ read_disk s1 key t
    ]

  -- `Contains` of the LRU cache for a key that it has, and of the mutable cache without LRU cache.
  unfoldable pub in_use : ValueProperties → ℕ → Option Bool
  in_use props now =
      if not (is_expiry_valid props.expiry)
      then some true
      else do expiry ← minus_time props.expiry now; some (is_positive expiry)

  unfoldable pub contains_disk : Option (DiskCache D) → Key → Bool
  contains_disk none key = false
  contains_disk (some c) key = DiskCache.contains db dec c key

  -- The last test: only the memory cache is there.
  unfoldable pub contains_memory : DefaultCacheImpl D → Key → ℕ → Option Bool
  contains_memory s key now = elim s.protected_cache [
    | some c ↦ some false
    | none ↦ elim s.mutable_cache [
      | some c ↦ some false
      | none ↦ elim s.memory_cache [
        | none ↦ some false
        | some m ↦ InMemoryCache.contains dec default_cache_cost m key now
      ]
    ]
  ]

  unfoldable pub contains_without_lru : DefaultCacheImpl D → Key → Times → Option Bool
  contains_without_lru s key t = elim s.mutable_cache [
    | none ↦ contains_memory s key t.get_time
    | some c ↦
        if DiskCache.contains db dec c key
        then (do
          expiry ← get_remaining_expiry_time db dec key c t.mutable_time
          some (is_positive expiry || is_protected s.protected_keys key))
        else contains_memory s key t.get_time
  ]

  unfoldable pub contains_mutable : DefaultCacheImpl D → Key → Times → Option Bool
  contains_mutable s key t = elim s.mutable_cache_lru [
    | none ↦ contains_without_lru s key t
    | some lru ↦ elim (Lru.find_no_promote dec lru key) [
      | some k ↦ do props ← Lru.value_at dec lru k; in_use props t.mutable_time
      | none ↦
          if is_protected s.protected_keys key
          then some (contains_disk s.mutable_cache key)
          else contains_memory s key t.get_time
    ]
  ]

  unfoldable pub contains : DefaultCacheImpl D → Key → Times → Option Bool
  contains s key t = if not s.is_open then some false else elim s.protected_cache [
    | none ↦ contains_mutable s key t
    | some c ↦
        if DiskCache.contains db dec c key
        then (do
          expiry ← get_remaining_expiry_time db dec key c t.protected_time
          some (is_positive expiry))
        else contains_mutable s key t
  ]

  unfoldable pub delete : DefaultCacheImpl D → Key → Option (DefaultCacheImpl D × Outcome Unit)
  delete s key =
      if not s.is_open
      then some (s, failure ErrorCode.precondition_failed)
      else if is_protected s.protected_keys key
      then some (s, failure ErrorCode.precondition_failed)
      else do
        (s1, _) ← memory_remove dec s key
        (s2, _) ← remove_key_lru dec s1 key
        elim s2.mutable_cache [
          | none ↦ some (s2, success tt)
          | some c ↦ some (purge_mutable db dec s2 c key)
        ]

  unfoldable pub delete_by_prefix :
      DefaultCacheImpl D → Key → Option (DefaultCacheImpl D × Outcome Unit)
  delete_by_prefix s prefix =
      if not s.is_open then some (s, failure ErrorCode.precondition_failed) else do
        s1 ← memory_remove_prefix dec s prefix (is_protected s.protected_keys)
        s2 ← remove_keys_with_prefix_lru dec s1 prefix
        elim s2.mutable_cache [
          | none ↦ some (s2, success tt)
          | some c ↦
              let done =
                DiskCache.remove_keys_with_prefix db c prefix (is_protected s.protected_keys) in
              some (
                record s2 {
                  mutable_cache = some done.0;
                  mutable_cache_data_size = less s2.mutable_cache_data_size done.1.1;
                },
                done.1.0,
              )
        ]

module _ {D : Type 0} (dec : Discrete Key) where
  -- The calls of the callback of `Protect`: the key, or the keys with that prefix, leave the LRU.
  unfoldable pub protect_in_lru : DefaultCacheImpl D → List Key → Option (DefaultCacheImpl D)
  protect_in_lru s [] = some s
  protect_in_lru s (key ∷ keys) = do
    (s1, r) ← remove_key_lru dec s key
    s2 ← (if r then some s1 else remove_keys_with_prefix_lru dec s1 key)
    protect_in_lru s2 keys

  unfoldable pub protect : DefaultCacheImpl D → List Key → Option (DefaultCacheImpl D × Bool)
  protect s keys = elim s.mutable_cache [
    | none ↦ some (s, false)
    | some c ↦ do
      let done = ProtectedKeyList.protect s.protected_keys keys
      s1 ← protect_in_lru s done.1.0
      some (
        record s1 {
          protected_keys = done.0;
          memory_cache = elim s1.memory_cache [
            | none ↦ none
            | some m ↦ some (if done.1.1 then clear_memory m else m)
          ];
        },
        done.1.1,
      )
  ]

  -- A key that is released: it leaves the memory cache, and its entries come into the LRU cache.
  unfoldable pub release_in_memory : DefaultCacheImpl D → Key → Option (DefaultCacheImpl D)
  release_in_memory s key = do
    (s1, r) ← memory_remove dec s key
    (if r then some s1 else memory_remove_prefix dec s1 key no_filter)

module _ {D S : Type 0} (db : LevelDb D S) (dec : Discrete Key) where
  unfoldable pub release_in_lru : DefaultCacheImpl D → Key → Option (DefaultCacheImpl D)
  release_in_lru s key = elim s.mutable_cache_lru [
    | none ↦ some s
    | some lru ↦ do
      c ← s.mutable_cache
      d ← c.database
      add_keys_lru dec s (run_of key (seek key (db.entries d)))
  ]

  unfoldable pub release_keys : DefaultCacheImpl D → List Key → Option (DefaultCacheImpl D)
  release_keys s [] = some s
  release_keys s (key ∷ keys) = do
    s1 ← release_in_memory dec s key
    s2 ← release_in_lru s1 key
    release_keys s2 keys

  unfoldable pub release : DefaultCacheImpl D → List Key → Option (DefaultCacheImpl D × Bool)
  release s keys = elim s.mutable_cache [
    | none ↦ some (s, false)
    | some c ↦
        let done = ProtectedKeyList.release s.protected_keys keys in
        let s1 : DefaultCacheImpl D = record s { protected_keys = done.0 } in
        if done.1 then (do s2 ← release_keys s1 keys; some (s2, true)) else some (s1, false)
  ]
