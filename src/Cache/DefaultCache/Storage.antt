-- ===== src/Cache/DefaultCache/Storage.antt =====
-- How `DefaultCacheImpl` opens and closes its caches: `SetupStorage`, `SetupMutableCache`,
-- `SetupProtectedCache`, `InitializeLru`, `DestroyCache` and the calls on them, of
-- DefaultCacheImpl.cpp. What `DiskCache::Open` returns and the disk cache that it leaves are
-- arguments.
use here_data_sdk_cpp.Common.{
  ℕ, ◌+◌, Bool, true, false, not, ◌&&◌, [], ◌∷◌, Option, none, some, length, ltb, ◌==◌,
  if◌then◌else◌, ◌>>=◌,
}
use here_data_sdk_cpp.Common.Bits.{u64}
use here_data_sdk_cpp.Cache.ProtectedKeyList.{Key, ProtectedKeyList, no_keys, deserialize}
use here_data_sdk_cpp.Cache.Lru
use here_data_sdk_cpp.Cache.InMemoryCache.{empty_memory}
use here_data_sdk_cpp.Cache.DiskCache
use here_data_sdk_cpp.Cache.DiskCache.{
  Bytes, Entries, Outcome, success, failure, LevelDb, DiskCache, size_max, apply_batch, disk_size,
}
use here_data_sdk_cpp.Cache.DiskCache.Open.{
  OpenResult, fail, corrupted, io_error, repaired, opened, postponed,
}
use here_data_sdk_cpp.Cache.DefaultCache.{DefaultCacheImpl, protected_keys_key, add_key_lru}
use here_data_sdk_cpp.Cache.DefaultCache.Put.{maybe_updated_protected_keys}

pub data StorageOpenResult : Type 0 where
  storage_success : StorageOpenResult
  not_ready : StorageOpenResult
  protected_cache_corrupted : StorageOpenResult
  open_disk_path_failure : StorageOpenResult

unfoldable pub to_storage_open_result : OpenResult → StorageOpenResult
to_storage_open_result OpenResult.fail = StorageOpenResult.open_disk_path_failure
to_storage_open_result OpenResult.corrupted = StorageOpenResult.protected_cache_corrupted
to_storage_open_result OpenResult.io_error = StorageOpenResult.protected_cache_corrupted
to_storage_open_result OpenResult.repaired = StorageOpenResult.storage_success
to_storage_open_result OpenResult.opened = StorageOpenResult.storage_success
to_storage_open_result OpenResult.postponed = StorageOpenResult.storage_success

-- The settings that the calls read, besides the bound of the disk cache.
pub record CacheSettings : Type 0 where
  pub disk_path_mutable : Bool
  pub disk_path_protected : Bool
  pub max_memory_cache_size : ℕ
  pub least_recently_used : Bool
  pub read_only : Bool

module _ {D : Type 0} where
  -- `DestroyCache(kProtected)`, and the resets of `DestroyCache(kMutable)`.
  unfoldable pub destroy_protected : DefaultCacheImpl D → DefaultCacheImpl D
  destroy_protected s = record s { protected_cache = none }

  unfoldable pub reset_mutable : DefaultCacheImpl D → DefaultCacheImpl D
  reset_mutable s = record s {
    mutable_cache = none;
    mutable_cache_lru = none;
    protected_keys = no_keys;
    mutable_cache_data_size = 0;
  }

  -- The resets at the start of `SetupStorage`.
  unfoldable pub reset_storage : CacheSettings → DefaultCacheImpl D → DefaultCacheImpl D
  reset_storage settings s = record (reset_mutable s) {
    protected_cache = none;
    memory_cache =
        if ltb 0 settings.max_memory_cache_size
        then some (empty_memory settings.max_memory_cache_size)
        else none;
  }

  -- `SetupProtectedCache`: a second attempt, in r/o mode, where the first fails with an I/O error.
  unfoldable pub setup_protected_cache :
      DefaultCacheImpl D
      → Bool
      → (Bool → OpenResult × DiskCache D)
      → DefaultCacheImpl D × StorageOpenResult
  setup_protected_cache s is_read_only open_cache =
      let retried : OpenResult × DiskCache D = elim (open_cache is_read_only).0 [
        | fail ↦ open_cache is_read_only
        | corrupted ↦ open_cache is_read_only
        | io_error ↦ if is_read_only then open_cache is_read_only else open_cache true
        | repaired ↦ open_cache is_read_only
        | opened ↦ open_cache is_read_only
        | postponed ↦ open_cache is_read_only
      ] in
      elim retried.0 [
        | opened ↦
            (record s { protected_cache = some retried.1 }, StorageOpenResult.storage_success)
        | fail ↦ (destroy_protected s, to_storage_open_result retried.0)
        | corrupted ↦ (destroy_protected s, to_storage_open_result retried.0)
        | io_error ↦ (destroy_protected s, to_storage_open_result retried.0)
        | repaired ↦ (destroy_protected s, to_storage_open_result retried.0)
        | postponed ↦ (destroy_protected s, to_storage_open_result retried.0)
      ]

-- `Deserialize` of what `Get` returns.
unfoldable pub keys_from : ProtectedKeyList → Outcome Bytes → ProtectedKeyList
keys_from keys (success value) = (deserialize keys (some value)).0
keys_from keys (failure e) = keys

module _ {D S : Type 0} (db : LevelDb D S) (dec : Discrete Key) where
  -- The loop of `InitializeLru`.
  unfoldable pub initialize_keys : DefaultCacheImpl D → Entries → Option (DefaultCacheImpl D)
  initialize_keys s [] = some s
  initialize_keys s ((key, value) ∷ l) = do
    let counted = u64 (s.mutable_cache_data_size + (length key + length value))
    (s1, _) ← add_key_lru dec (record s { mutable_cache_data_size = counted }) key value
    initialize_keys s1 l

  -- The iterator of a cache without a database is null.
  unfoldable pub initialize_lru : DefaultCacheImpl D → Option (DefaultCacheImpl D)
  initialize_lru s = elim s.mutable_cache [
    | none ↦ some s
    | some c ↦ do
      d ← c.database
      initialize_keys
          (record s {
            mutable_cache_data_size = 0;
            mutable_cache_lru = some (Lru.empty_cache s.max_disk_storage);
          })
          (db.entries d)
  ]

  -- The list of protected keys that the mutable cache has stored.
  unfoldable pub read_protected_keys : ProtectedKeyList → DiskCache D → ProtectedKeyList
  read_protected_keys keys c = keys_from keys (DiskCache.get db dec c protected_keys_key)

  unfoldable pub setup_mutable_cache :
      DefaultCacheImpl D
      → CacheSettings
      → OpenResult × DiskCache D
      → Option (DefaultCacheImpl D × StorageOpenResult)
  setup_mutable_cache s settings (result, c) =
      let s1 : DefaultCacheImpl D = record s {
        mutable_cache = some c;
        protected_keys = read_protected_keys s.protected_keys c;
      } in
      let set_up : Option (DefaultCacheImpl D × StorageOpenResult) =
        if not (s.max_disk_storage == size_max) && settings.least_recently_used
        then (do s2 ← initialize_lru s1; some (s2, StorageOpenResult.storage_success))
        else some (
          record s1 { mutable_cache_data_size = disk_size db c },
          StorageOpenResult.storage_success,
        ) in
      elim result [
        | fail ↦ some (record s { mutable_cache = none }, StorageOpenResult.open_disk_path_failure)
        | corrupted ↦ set_up
        | io_error ↦ set_up
        | repaired ↦ set_up
        | opened ↦ set_up
        | postponed ↦ set_up
      ]

  -- `SetupStorage`, with the results of opening the two disk caches.
  unfoldable pub setup_storage :
      DefaultCacheImpl D
      → CacheSettings
      → OpenResult × DiskCache D
      → Bool
      → (Bool → OpenResult × DiskCache D)
      → Option (DefaultCacheImpl D × StorageOpenResult)
  setup_storage s settings mutable is_read_only open_protected = do
    let s0 = reset_storage settings s
    (s1, result) ←
        (if settings.disk_path_mutable
          then setup_mutable_cache s0 settings mutable
          else some (s0, StorageOpenResult.storage_success))
    let ended = some (s1, result)
    elim result [
      | storage_success ↦
          if settings.disk_path_protected
          then some (setup_protected_cache s1 is_read_only open_protected)
          else ended
      | not_ready ↦ ended
      | protected_cache_corrupted ↦ ended
      | open_disk_path_failure ↦ ended
    ]

  -- `Open`.
  unfoldable pub open_storage :
      DefaultCacheImpl D
      → CacheSettings
      → OpenResult × DiskCache D
      → Bool
      → (Bool → OpenResult × DiskCache D)
      → Option (DefaultCacheImpl D × StorageOpenResult)
  open_storage s settings mutable is_read_only open_protected =
      setup_storage (record s { is_open = true }) settings mutable is_read_only open_protected

module _ {D S : Type 0} (db : LevelDb D S) where
  -- The write of `DestroyCache(kMutable)` of the protected keys: the disk cache that is then
  -- closed.
  unfoldable pub store_protected_keys : DefaultCacheImpl D → Option (Option (DiskCache D))
  store_protected_keys s = elim s.mutable_cache [
    | none ↦ some none
    | some c ↦ if not s.protected_keys.dirty then some (some c) else do
      (_, (batch, _)) ← maybe_updated_protected_keys s []
      some (some (apply_batch db c batch).0)
  ]

  -- `Close`: the state, and the disk cache as it was when it was closed.
  unfoldable pub close : DefaultCacheImpl D → Option (DefaultCacheImpl D × Option (DiskCache D))
  close s = if not s.is_open then some (s, none) else do
    c ← store_protected_keys s
    some (record (destroy_protected (reset_mutable s)) { memory_cache = none; is_open = false }, c)
