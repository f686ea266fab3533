-- ===== src/Cache/DefaultCache/Tests.antt =====
-- Runs of the default cache over databases in memory, with an LRU cache of two tiles.
use native.Mathlib.Decide.{ℕ_discrete}
use here_data_sdk_cpp.Common.{
  ◌≡◌, refl, arith, Bool, true, false, [], ◌∷◌, none, some, length, ◌==◌,
}
use here_data_sdk_cpp.Common.Int.{negsuc}
use here_data_sdk_cpp.Common.Decimal.{is_digit, is_space, digits_value, skip_space}
use here_data_sdk_cpp.Common.Signed.{
  stoll, stoll_signed, positive, starts_with_digit, minus_time, is_positive,
}
use here_data_sdk_cpp.Cache.Keys.{key_discrete}
use here_data_sdk_cpp.Cache.ProtectedKeyList
use here_data_sdk_cpp.Cache.ProtectedKeyList.{Key, string_less, no_keys, is_protected, starts_with}
use here_data_sdk_cpp.Cache.ProtectedKeyList.Protected
use here_data_sdk_cpp.Cache.ProtectedKeyList.Serial.{texts, no_zero}
use here_data_sdk_cpp.Cache.Lru.Node.{lookup, remove}
use here_data_sdk_cpp.Cache.DiskCache
use here_data_sdk_cpp.Cache.DiskCache.{
  Bytes, Entries, ErrorCode, Outcome, success, failure, LevelDb, DiskCache, size_max, seek, at_key,
  non_empty,
}
use here_data_sdk_cpp.Cache.DiskCache.Prefix.{stored_size}
use here_data_sdk_cpp.Cache.DiskCache.Open.{Attempts, open_disk_cache}
use here_data_sdk_cpp.Cache.DiskCache.Instance.{Store, store, store-Answers}
use here_data_sdk_cpp.Cache.DefaultCache.{
  DefaultCacheImpl, DiskLruCache, default_expiry, create_expiry_key,
}
use here_data_sdk_cpp.Cache.DefaultCache.Disk.{
  get_remaining_expiry_time, get_protected, get_from_disk_cache,
}
use here_data_sdk_cpp.Cache.DefaultCache.Calls.{delete, delete_by_prefix, protect}
use here_data_sdk_cpp.Cache.DefaultCache.Parts.{LruHolds}
use here_data_sdk_cpp.Cache.DefaultCache.Delete.{IsDeleted, delete-IsDeleted, delete_unexpiring}
use here_data_sdk_cpp.Cache.DefaultCache.DeletePrefix.{
  IsDeletedByPrefix, delete_by_prefix-IsDeletedByPrefix,
}
use here_data_sdk_cpp.Cache.DefaultCache.Expired.{IsPurged, get_from_disk_cache-IsPurged}
use here_data_sdk_cpp.Cache.DefaultCache.Protection.{protect_keeps_extension}
use here_data_sdk_cpp.Cache.DefaultCache.Storage.{
  CacheSettings, store_protected_keys, read_protected_keys, setup_mutable_cache,
}
use here_data_sdk_cpp.Cache.DefaultCache.Restore.{read_protected_keys-store_protected_keys}
use here_data_sdk_cpp.Cache.DefaultCache.OpenFault.{setup_mutable_cache_faults}
use here_data_sdk_cpp.Cache.DefaultCache.Sample.{
  tile, part, tile_properties, part_properties, two_elements, two_lru, two_lru-LruHolds, no_memory,
  disk, disk_cache, two_tiles, db, db-Answers,
}

delete-IsDeleted_example :
    (s' : DefaultCacheImpl Store) × (outcome : Outcome Unit) × (delete db key_discrete two_tiles
        tile
      ≡ some (s', outcome))
    × IsDeleted db key_discrete two_tiles s' tile no_memory two_elements disk 2 outcome
unfolding stored_size is_protected ProtectedKeyList.is_empty disk
delete-IsDeleted_example =
    delete-IsDeleted db key_discrete two_tiles tile no_memory two_elements disk_cache disk 2
      db-Answers refl refl refl two_lru-LruHolds refl refl refl (omega arith)

-- A database that keeps `tile`.
abbrev keeps_tile : LevelDb Store Bool
keeps_tile = store key_discrete (λ key. length key == 1)

delete_unexpiring_example :
    (s' : DefaultCacheImpl Store) × (c' : DiskCache Store) × (delete keeps_tile key_discrete
        two_tiles tile
      ≡ some (s', success tt))
    × (s'.mutable_cache ≡ some c')
    × (DiskCache.get keeps_tile key_discrete c' tile
        ≡ DiskCache.get keeps_tile key_discrete disk_cache tile)
    × (get_remaining_expiry_time keeps_tile key_discrete tile c' 60 ≡ some default_expiry)
unfolding is_protected create_expiry_key ProtectedKeyList.is_empty
delete_unexpiring_example =
    delete_unexpiring keeps_tile key_discrete two_tiles tile no_memory two_elements disk_cache disk
      60 (store-Answers key_discrete (λ key. length key == 1)) refl refl refl two_lru-LruHolds refl
      refl refl refl

delete_by_prefix-IsDeletedByPrefix_example :
    (s' : DefaultCacheImpl Store) × (outcome : Outcome Unit) × (delete_by_prefix db key_discrete
        two_tiles tile
      ≡ some (s', outcome))
    × IsDeletedByPrefix db key_discrete two_tiles s' tile no_memory two_elements disk 2 outcome
unfolding stored_size disk
delete_by_prefix-IsDeletedByPrefix_example =
    delete_by_prefix-IsDeletedByPrefix db key_discrete two_tiles tile no_memory two_elements
      disk_cache disk 2 db-Answers refl refl two_lru-LruHolds refl refl refl (omega arith)

get_from_disk_cache-IsPurged_example :
    (s' : DefaultCacheImpl Store) × (get_from_disk_cache db key_discrete two_tiles tile 60 60
      ≡ some (s', failure ErrorCode.not_found))
    × IsPurged db key_discrete s' tile two_elements disk 2
unfolding stored_size is_protected get_protected get_remaining_expiry_time DiskCache.get seek
    string_less at_key key_discrete ℕ_discrete non_empty create_expiry_key stoll stoll_signed
    positive starts_with_digit is_digit skip_space is_space digits_value minus_time is_positive disk
    ProtectedKeyList.is_empty
get_from_disk_cache-IsPurged_example =
    get_from_disk_cache-IsPurged db key_discrete two_tiles tile two_elements disk_cache disk 2 60 60
      (negsuc 9) db-Answers refl refl refl refl refl refl two_lru-LruHolds refl (omega arith)

protect_keeps_extension_example :
    (s' : DefaultCacheImpl Store) × (t' : DiskLruCache) × (r : Bool) × (protect key_discrete
        two_tiles
        (tile ∷ [])
      ≡ some (s', r))
    × (s'.mutable_cache_lru ≡ some t')
    × LruHolds key_discrete
        (some t')
        (record two_elements { items = remove key_discrete tile two_elements.items })
    × (lookup key_discrete part (remove key_discrete tile two_elements.items)
        ≡ some part_properties)
    × (is_protected s'.protected_keys part ≡ true)
unfolding Protected.Sorted ProtectedKeyList.protect key_discrete ℕ_discrete starts_with
    Protected.sorted ProtectedKeyList.protect_loop ProtectedKeyList.protect_key
    ProtectedKeyList.covered ProtectedKeyList.from_bound ProtectedKeyList.insert_here
    ProtectedKeyList.erase_while
protect_keeps_extension_example =
    protect_keeps_extension key_discrete two_tiles disk_cache two_elements two_lru tile part
      tile_properties part_properties refl refl refl two_lru-LruHolds refl refl refl (λ same. cc)
      refl

-- The list of protected keys is not stored yet.
abbrev protecting : DefaultCacheImpl Store
protecting = record two_tiles {
  protected_keys = record { protected_data = tile ∷ []; size_written = 0; dirty = true };
}

read_protected_keys-store_protected_keys_example :
    (c' : DiskCache Store) × (store_protected_keys db protecting ≡ some (some c'))
    × ((read_protected_keys db key_discrete no_keys c').protected_data ≡ tile ∷ [])
unfolding Protected.Sorted texts key_discrete ℕ_discrete Protected.sorted Protected.all_above
    no_zero disk
read_protected_keys-store_protected_keys_example =
    read_protected_keys-store_protected_keys db key_discrete protecting disk_cache disk db-Answers
      (λ d batch. refl) refl refl refl refl refl (omega arith) (λ fresh. refl)

abbrev broken : Attempts Store Bool
broken = record {
  directory = true;
  unexpected_dirs = false;
  first = (false, disk);
  initialized = true;
  second = (false, disk);
  repair = true;
  third = (true, disk);
}

abbrev no_database : DiskCache Store
no_database = record { database = none; max_size = size_max; compacting = false }

abbrev cache_settings : CacheSettings
cache_settings = record {
  disk_path_mutable = true;
  disk_path_protected = false;
  max_memory_cache_size = 0;
  least_recently_used = true;
  read_only = true;
}

setup_mutable_cache_faults_example :
    (let opening = open_disk_cache db no_database 20 true true broken in
      setup_mutable_cache db key_discrete two_tiles cache_settings (opening.1, opening.0))
    ≡ none
setup_mutable_cache_faults_example =
    setup_mutable_cache_faults db key_discrete two_tiles cache_settings no_database broken true refl
      refl refl refl refl refl refl
