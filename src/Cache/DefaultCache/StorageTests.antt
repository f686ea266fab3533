-- ===== src/Cache/DefaultCache/StorageTests.antt =====
-- Runs of `Open`, `Clear` and `Release` of the default cache over databases in memory.
use native.Mathlib.Decide.{ℕ_discrete}
use here_data_sdk_cpp.Common.{
  ℕ, ◌≡◌, inr, refl, arith, Bool, true, false, not, ◌&&◌, [], ◌∷◌, none, some, ◌==◌, if◌then◌else◌,
  ◌>>=◌,
}
use here_data_sdk_cpp.Common.Bits.{u64}
use here_data_sdk_cpp.Common.Decimal.{is_digit, is_space, digits_value, skip_space}
use here_data_sdk_cpp.Common.Signed.{stoll, stoll_signed, positive, starts_with_digit}
use here_data_sdk_cpp.Cache.InMemoryCache.{has_prefix}
use here_data_sdk_cpp.Cache.Keys.{key_discrete}
use here_data_sdk_cpp.Cache.ProtectedKeyList
use here_data_sdk_cpp.Cache.ProtectedKeyList.{Key, no_keys, string_less}
use here_data_sdk_cpp.Cache.DiskCache
use here_data_sdk_cpp.Cache.DiskCache.{
  ErrorCode, failure, DiskCache, size_max, disk_size, seek, at_key, non_empty,
}
use here_data_sdk_cpp.Cache.DiskCache.Open.{OpenResult, has_opened, is_some}
use here_data_sdk_cpp.Cache.DiskCache.Prefix.{stored_size}
use here_data_sdk_cpp.Cache.DiskCache.Instance.{Store}
use here_data_sdk_cpp.Cache.DefaultCache.{
  DefaultCacheImpl, Times, is_expiry_key, occurs_in, is_internal_key,
}
use here_data_sdk_cpp.Cache.DefaultCache.Calls.{read, contains, release}
use here_data_sdk_cpp.Cache.DefaultCache.Disk.{get_from_disk_cache}
use here_data_sdk_cpp.Cache.DefaultCache.Storage.{
  CacheSettings, storage_success, open_storage, read_protected_keys, keys_from,
}
use here_data_sdk_cpp.Cache.DefaultCache.Lifecycle.{clear}
use here_data_sdk_cpp.Cache.DefaultCache.Cleared.{IsCleared, read-clear}
use here_data_sdk_cpp.Cache.DefaultCache.ClearFault.{release-clear_faults}
use here_data_sdk_cpp.Cache.DefaultCache.Loaded.{skips, readable}
use here_data_sdk_cpp.Cache.DefaultCache.Answer.{stored_answer}
use here_data_sdk_cpp.Cache.DefaultCache.Reopen.{get_from_disk_cache-open_storage}
use here_data_sdk_cpp.Cache.DefaultCache.Sample.{
  tile, two_lru, disk, disk_cache, two_tiles, db, db-Answers,
}

abbrev settings : CacheSettings
settings = record {
  disk_path_mutable = true;
  disk_path_protected = false;
  max_memory_cache_size = 1000;
  least_recently_used = true;
  read_only = false;
}

-- A database that has just been created.
abbrev new_disk : Store
new_disk = ([], tt)

abbrev new_cache : DiskCache Store
new_cache = record { database = some new_disk; max_size = size_max; compacting = false }

abbrev no_opening : Bool → OpenResult × DiskCache Store
no_opening is_read_only = (OpenResult.fail, new_cache)

read-clear_example :
    (s' : DefaultCacheImpl Store) × (clear db key_discrete two_tiles settings
        (some true)
        (OpenResult.opened, new_cache)
        false
        no_opening
      ≡ some (s', true))
    × IsCleared db s'
    × ((key : Key) (t : Times)
        → read db key_discrete s' key t ≡ some (s', failure ErrorCode.not_found))
    × ((key : Key) (t : Times) → contains db key_discrete s' key t ≡ some false)
unfolding has_opened
read-clear_example =
    read-clear db key_discrete two_tiles settings (some true) OpenResult.opened new_cache new_disk
      false no_opening refl (inr refl) refl refl refl refl refl

-- `tile` is protected.
abbrev protecting : DefaultCacheImpl Store
protecting = record two_tiles {
  protected_keys = record { protected_data = tile ∷ []; size_written = 0; dirty = true };
}

release-clear_faults_example :
    (s' : DefaultCacheImpl Store) × (clear db key_discrete protecting settings
        (some false)
        (OpenResult.opened, new_cache)
        false
        no_opening
      ≡ some (s', false))
    × (release db key_discrete s' (tile ∷ []) ≡ none)
unfolding key_discrete ℕ_discrete ProtectedKeyList.release ProtectedKeyList.release_loop
    ProtectedKeyList.covered ProtectedKeyList.from_bound ProtectedKeyList.custom_compare
    ProtectedKeyList.string_less ProtectedKeyList.is_prefix ProtectedKeyList.erase_while
    ProtectedKeyList.is_equal_or_prefix ProtectedKeyList.starts_with
release-clear_faults_example =
    release-clear_faults db key_discrete protecting settings disk_cache two_lru
      (OpenResult.opened, new_cache) false no_opening tile [] refl refl refl refl

disk_readable : readable (read_protected_keys db key_discrete no_keys disk_cache) disk.0 ≡ true
unfolding disk readable skips read_protected_keys keys_from key_discrete ℕ_discrete DiskCache.get
    seek string_less at_key non_empty is_some is_expiry_key occurs_in has_prefix is_internal_key
    ProtectedKeyList.is_protected ProtectedKeyList.is_empty stoll stoll_signed positive
    starts_with_digit is_digit skip_space is_space digits_value ProtectedKeyList.starts_with
disk_readable = refl

get_from_disk_cache-open_storage_example :
    (s' : DefaultCacheImpl Store) × (open_storage db key_discrete two_tiles settings
        (OpenResult.opened, disk_cache)
        false
        no_opening
      ≡ some (s', storage_success))
    × (s'.protected_keys ≡ read_protected_keys db key_discrete no_keys disk_cache)
    × (s'.mutable_cache_data_size ≡ (
        if not (two_tiles.max_disk_storage == size_max) && settings.least_recently_used
        then u64 (stored_size (db.entries disk))
        else disk_size db disk_cache))
    × ((key : Key) (protected_time now : ℕ)
        → is_expiry_key key ≡ false
        → (do
          (s'', answer) ← get_from_disk_cache db key_discrete s' key protected_time now
          some answer)
          ≡ stored_answer key_discrete s'.protected_keys (db.entries disk) key now)
unfolding has_opened disk
get_from_disk_cache-open_storage_example =
    get_from_disk_cache-open_storage db key_discrete two_tiles settings OpenResult.opened disk_cache
      disk false no_opening db-Answers refl refl refl refl (omega arith) (omega arith) disk_readable
