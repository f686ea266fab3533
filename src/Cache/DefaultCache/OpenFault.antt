-- ===== src/Cache/DefaultCache/OpenFault.antt =====
-- `SetupMutableCache` of `DefaultCacheImpl` over a database that `Open` of the disk cache gives up.
use here_data_sdk_cpp.Common.{◌≡◌, arith, Bool, true, false, ◌||◌, none, ◌==◌}
use here_data_sdk_cpp.Cache.ProtectedKeyList.{Key}
use here_data_sdk_cpp.Cache.DiskCache.{LevelDb, DiskCache, size_max}
use here_data_sdk_cpp.Cache.DiskCache.Open.{Attempts, open_status, open_disk_cache}
use here_data_sdk_cpp.Cache.DefaultCache.{DefaultCacheImpl}
use here_data_sdk_cpp.Cache.DefaultCache.Storage.{
  CacheSettings, initialize_lru, setup_mutable_cache,
}

module _ {D S : Type 0} (db : LevelDb D S) (dec : Discrete Key) where
  -- Where LevelDB finds a database corrupted or fails to read it, opening it read-only as
  -- mutable cache with LRU eviction faults: `Open` of the disk cache leaves no database,
  -- `SetupMutableCache` does not take its result for a failure, and `InitializeLru` follows a
  -- null iterator. The directory is there without other directories, the status is no invalid
  -- argument, and the disk storage is bounded.
  pub setup_mutable_cache_faults :
      (s : DefaultCacheImpl D) (settings : CacheSettings) (c : DiskCache D) (a : Attempts D S)
      (repair_if_broken : Bool)
      → c.database ≡ none
      → a.directory ≡ true
      → a.unexpected_dirs ≡ false
      → db.is_invalid_argument a.first.0 ≡ false
      → (db.is_corruption a.first.0 || db.is_io_error a.first.0) ≡ true
      → (s.max_disk_storage == size_max) ≡ false
      → settings.least_recently_used ≡ true
      → (let opening = open_disk_cache db c s.max_disk_storage true repair_if_broken a in
          setup_mutable_cache db dec s settings (opening.1, opening.0))
        ≡ none
  unfolding setup_mutable_cache initialize_lru open_disk_cache open_status
  setup_mutable_cache_faults s settings c a repair_if_broken closed there clean valid broken bounded
        lru =
      ground arith
