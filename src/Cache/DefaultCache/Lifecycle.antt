-- ===== src/Cache/DefaultCache/Lifecycle.antt =====
-- The calls of `DefaultCacheImpl` that open, close, clear and compact its caches one by one: `Open`
-- and `Close` of a type of cache, `Clear` and `Compact` of DefaultCacheImpl.cpp.
use here_data_sdk_cpp.Common.{Bool, true, false, not, Option, none, some, if◌then◌else◌, ◌>>=◌}
use here_data_sdk_cpp.Cache.ProtectedKeyList.{Key}
use here_data_sdk_cpp.Cache.Lru
use here_data_sdk_cpp.Cache.InMemoryCache.{clear_memory}
use here_data_sdk_cpp.Cache.DiskCache
use here_data_sdk_cpp.Cache.DiskCache.{LevelDb, DiskCache, clear_disk}
use here_data_sdk_cpp.Cache.DiskCache.Open.{OpenResult}
use here_data_sdk_cpp.Cache.DefaultCache.{DefaultCacheImpl}
use here_data_sdk_cpp.Cache.DefaultCache.Storage.{
  StorageOpenResult, storage_success, not_ready, protected_cache_corrupted, open_disk_path_failure,
  CacheSettings, destroy_protected, reset_mutable, setup_protected_cache, setup_mutable_cache,
  setup_storage, store_protected_keys,
}

pub data CacheType : Type 0 where
  mutable : CacheType
  protected : CacheType

module _ {D : Type 0} where
  -- `Clear` of the memory cache and of the LRU cache, where they are there.
  unfoldable pub clear_memory_cache : DefaultCacheImpl D → DefaultCacheImpl D
  clear_memory_cache s = record s {
    memory_cache = elim s.memory_cache [ none ↦ none | some m ↦ some (clear_memory m) ];
  }

  unfoldable pub clear_lru : DefaultCacheImpl D → DefaultCacheImpl D
  clear_lru s = record s {
    mutable_cache_lru = elim s.mutable_cache_lru [ none ↦ none | some t ↦ some (Lru.clear t) ];
  }

module _ {D S : Type 0} (db : LevelDb D S) (dec : Discrete Key) where
  -- `Open(type)`, with the results of opening the disk cache.
  unfoldable pub open_type :
      DefaultCacheImpl D
      → CacheSettings
      → CacheType
      → OpenResult × DiskCache D
      → Bool
      → (Bool → OpenResult × DiskCache D)
      → Option (DefaultCacheImpl D × StorageOpenResult)
  open_type s settings type mutable_opening is_read_only open_protected =
      if not s.is_open then some (s, not_ready) else elim type [
        | mutable ↦ elim s.mutable_cache [
          | some c ↦ some (s, storage_success)
          | none ↦
              if not settings.disk_path_mutable
              then some (s, open_disk_path_failure)
              else setup_mutable_cache db dec (clear_memory_cache s) settings mutable_opening
        ]
        | protected ↦ elim s.protected_cache [
          | some c ↦ some (s, storage_success)
          | none ↦
              if not settings.disk_path_protected
              then some (s, open_disk_path_failure)
              else some (setup_protected_cache (clear_memory_cache s) is_read_only open_protected)
        ]
      ]

module _ {D S : Type 0} (db : LevelDb D S) where
  -- `DestroyCache`: the state, and the mutable cache as it was when it was closed.
  unfoldable pub destroy_cache :
      DefaultCacheImpl D → CacheType → Option (DefaultCacheImpl D × Option (DiskCache D))
  destroy_cache s mutable = do c ← store_protected_keys db s; some (reset_mutable s, c)
  destroy_cache s protected = some (destroy_protected s, none)

  -- `Close(type)`.
  unfoldable pub close_type :
      DefaultCacheImpl D → CacheType → Option (DefaultCacheImpl D × (Bool × Option (DiskCache D)))
  close_type s type =
      if not s.is_open
      then some (s, (false, none))
      else do (s1, c) ← destroy_cache s type; some (s1, (true, c))

  -- `Compact`.
  unfoldable pub compact_mutable : DefaultCacheImpl D → DefaultCacheImpl D
  compact_mutable s = elim s.mutable_cache [
    | none ↦ s
    | some c ↦ record s { mutable_cache = some (DiskCache.compact db c) }
  ]

  -- What `Clear` does before it sets the storage up again: the state, and whether it goes on.
  unfoldable pub clear_caches : DefaultCacheImpl D → Option Bool → DefaultCacheImpl D × Bool
  clear_caches s removed =
      let s1 = clear_lru (clear_memory_cache s) in
      elim s1.mutable_cache [
        | none ↦ (s1, true)
        | some c ↦
            let cleared = clear_disk db c removed in
            (record s1 { mutable_cache = some cleared.0; mutable_cache_data_size = 0 }, cleared.1)
      ]

-- `result == Success` of the two.
unfoldable pub is_success : StorageOpenResult → Bool
is_success storage_success = true
is_success not_ready = false
is_success protected_cache_corrupted = false
is_success open_disk_path_failure = false

module _ {D S : Type 0} (db : LevelDb D S) (dec : Discrete Key) where
  -- `Clear`, with the result of the removal of the directory and those of opening the two disk
  -- caches.
  unfoldable pub clear :
      DefaultCacheImpl D
      → CacheSettings
      → Option Bool
      → OpenResult × DiskCache D
      → Bool
      → (Bool → OpenResult × DiskCache D)
      → Option (DefaultCacheImpl D × Bool)
  clear s settings removed mutable_opening is_read_only open_protected =
      if not s.is_open
      then some (s, false)
      else let cleared = clear_caches db s removed in
        if not cleared.1 then some (cleared.0, false) else do
          (s1, result) ←
              setup_storage db dec cleared.0 settings mutable_opening is_read_only open_protected
          some (s1, is_success result)
