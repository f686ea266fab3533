-- ===== src/Cache/DefaultCache/Disk.antt =====
-- How `DefaultCacheImpl` reads and purges items in the disk caches: the functions of
-- DefaultCacheImpl.cpp up to `GetFromDiskCache`.
use here_data_sdk_cpp.Common.{ℕ, ◌+◌, ◌||◌, Option, none, some, if◌then◌else◌, ◌>>=◌}
use here_data_sdk_cpp.Common.Int.{ℤ}
use here_data_sdk_cpp.Common.Signed.{stoll, minus_time, is_positive}
use here_data_sdk_cpp.Cache.ProtectedKeyList.{Key, is_protected}
use here_data_sdk_cpp.Cache.DiskCache
use here_data_sdk_cpp.Cache.DiskCache.{
  Bytes, ErrorCode, Outcome, success, failure, LevelDb, DiskCache,
}
use here_data_sdk_cpp.Cache.DefaultCache.{
  DefaultCacheImpl, default_expiry, create_expiry_key, is_internal_key, less, remove_key_lru,
  promote_key_lru,
}

module _ {D S : Type 0} (db : LevelDb D S) (dec : Discrete Key) where
  unfoldable pub get_remaining_expiry_time : Key → DiskCache D → ℕ → Option ℤ
  get_remaining_expiry_time key c now = elim (DiskCache.get db dec c (create_expiry_key key)) [
    | success value ↦ do expiry ← stoll value; minus_time expiry now
    | failure e ↦ some default_expiry
  ]

  -- The outcome is that of the second `Remove`.
  unfoldable pub purge_disk_item : Key → DiskCache D → DiskCache D × (Outcome Unit × ℕ)
  purge_disk_item key c =
      let item = DiskCache.remove db dec c key in
      let expiry = DiskCache.remove db dec item.0 (create_expiry_key key) in
      (expiry.0, (expiry.1.0, item.1.1 + expiry.1.1))

  -- `PurgeDiskItem` of the mutable cache, and the size without what it has removed.
  unfoldable pub purge_mutable :
      DefaultCacheImpl D → DiskCache D → Key → DefaultCacheImpl D × Outcome Unit
  purge_mutable s c key =
      let purged = purge_disk_item key c in
      (
        record s {
          mutable_cache = some purged.0;
          mutable_cache_data_size = less s.mutable_cache_data_size purged.1.1;
        },
        purged.1.0,
      )

  -- The value of the protected cache with the time that is left, where it has not expired.
  unfoldable pub get_protected : DefaultCacheImpl D → Key → ℕ → Option (Option (Bytes × ℤ))
  get_protected s key now = elim s.protected_cache [
    | none ↦ some none
    | some c ↦ elim (DiskCache.get db dec c key) [
      | failure e ↦ some none
      | success value ↦ do
        expiry ← get_remaining_expiry_time key c now
        some (if is_positive expiry then some (value, expiry) else none)
    ]
  ]

  unfoldable pub get_item : DiskCache D → Key → ℤ → Outcome (Bytes × ℤ)
  get_item c key expiry = elim (DiskCache.get db dec c key) [
    | success value ↦ success (value, expiry)
    | failure e ↦ failure e
  ]

  -- An item of the mutable cache that is in use, and one that has expired.
  unfoldable pub get_in_use :
      DefaultCacheImpl D → DiskCache D → Key → ℤ → Option (DefaultCacheImpl D × Outcome (Bytes × ℤ))
  get_in_use s c key expiry = if is_internal_key key then some (s, get_item c key expiry) else do
    (s1, known) ← promote_key_lru dec s key
    some (s1, if known then get_item c key expiry else failure ErrorCode.not_found)

  unfoldable pub get_expired :
      DefaultCacheImpl D → DiskCache D → Key → Option (DefaultCacheImpl D × Outcome (Bytes × ℤ))
  get_expired s c key = do
    (s1, _) ← remove_key_lru dec (purge_mutable s c key).0 key
    some (s1, failure ErrorCode.not_found)

  unfoldable pub get_mutable :
      DefaultCacheImpl D → Key → ℕ → Option (DefaultCacheImpl D × Outcome (Bytes × ℤ))
  get_mutable s key now = elim s.mutable_cache [
    | none ↦ some (s, failure ErrorCode.not_found)
    | some c ↦ do
      expiry ← get_remaining_expiry_time key c now
      (if is_positive expiry || is_protected s.protected_keys key
          then get_in_use s c key expiry
          else get_expired s c key)
  ]

  -- `GetFromDiskCache`: the value and the time that is left.
  unfoldable pub get_from_disk_cache :
      DefaultCacheImpl D → Key → ℕ → ℕ → Option (DefaultCacheImpl D × Outcome (Bytes × ℤ))
  get_from_disk_cache s key protected_time mutable_time = do
    held ← get_protected s key protected_time
    elim held [ some found ↦ some (s, success found) | none ↦ get_mutable s key mutable_time ]
