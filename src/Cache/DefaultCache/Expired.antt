-- ===== src/Cache/DefaultCache/Expired.antt =====
-- `GetFromDiskCache` of `DefaultCacheImpl` on an item that has expired.
use here_data_sdk_cpp.Common.{ℕ, ◌+◌, ◌^◌, ◌<◌, ◌≡◌, refl, ◌∙◌, arith, false, none, some}
use here_data_sdk_cpp.Common.Int.{ℤ}
use here_data_sdk_cpp.Common.Signed.{is_positive}
use here_data_sdk_cpp.Cache.ProtectedKeyList.{Key, is_protected}
use here_data_sdk_cpp.Cache.Lru.Node.{remove}
use here_data_sdk_cpp.Cache.DiskCache.{ErrorCode, Outcome, failure, LevelDb, DiskCache}
use here_data_sdk_cpp.Cache.DiskCache.Entries.{Answers}
use here_data_sdk_cpp.Cache.DiskCache.Prefix.{stored_size}
use here_data_sdk_cpp.Cache.DefaultCache.{DefaultCacheImpl}
use here_data_sdk_cpp.Cache.DefaultCache.Disk.{
  get_remaining_expiry_time, purge_disk_item, purge_mutable, get_protected, get_expired,
  get_mutable, get_from_disk_cache,
}
use here_data_sdk_cpp.Cache.DefaultCache.Delete.{IsPurgedItem, without_expiry, purge_disk_item_lem}
use here_data_sdk_cpp.Cache.DefaultCache.Keys.{less_lem}
use here_data_sdk_cpp.Cache.DefaultCache.Parts.{LruElements, LruHolds, remove_key_lru-LruHolds}

module _ {D S : Type 0} (db : LevelDb D S) (dec : Discrete Key) where
  -- What is left of an item that has expired.
  pub record IsPurged (s' : DefaultCacheImpl D) (key : Key) (lru : LruElements) (d : D) (over : ℕ)
      : Type 0 where
    pub in_lru : LruHolds dec s'.mutable_cache_lru (record lru { items = remove dec key lru.items })
    pub cache : DiskCache D
    pub outcome : Outcome Unit
    pub removed : ℕ
    pub is_cache : s'.mutable_cache ≡ some cache
    pub purged : IsPurgedItem db dec cache d key outcome removed
    pub counted :
        s'.mutable_cache_data_size ≡ stored_size (db.entries (without_expiry db dec d key)) + over

  -- `GetFromDiskCache` of a key whose time in the mutable cache is over finds nothing and
  -- purges the item: the key has left the LRU cache, the mutable cache holds the database after
  -- LevelDB's deletions of the key and then of its expiry key, each of which has taken its entry
  -- away if its status is ok and nothing else, and the data size goes down by what is gone. The
  -- key is not protected, the protected cache has no item for it that is in use, LevelDB answers
  -- as documented, the LRU cache holds elements, and the data size counts the entries and at most
  -- 2 ^ 64 - 1 bytes.
  pub get_from_disk_cache-IsPurged :
      (s : DefaultCacheImpl D) (key : Key) (lru : LruElements) (c : DiskCache D) (d : D)
      (over protected_time mutable_time : ℕ) (left : ℤ)
      → Answers dec db
      → get_protected db dec s key protected_time ≡ some none
      → s.mutable_cache ≡ some c
      → c.database ≡ some d
      → get_remaining_expiry_time db dec key c mutable_time ≡ some left
      → is_positive left ≡ false
      → is_protected s.protected_keys key ≡ false
      → LruHolds dec s.mutable_cache_lru lru
      → s.mutable_cache_data_size ≡ stored_size (db.entries d) + over
      → s.mutable_cache_data_size < 2 ^ 64
      → (s' : DefaultCacheImpl D) × (get_from_disk_cache db dec s key protected_time mutable_time
          ≡ some (s', failure ErrorCode.not_found))
        × IsPurged s' key lru d over
  unfolding get_from_disk_cache get_mutable get_expired purge_mutable
  get_from_disk_cache-IsPurged s key lru c d over protected_time mutable_time left answers no_other
        at_c at_d remains past free in_lru counted small =
      let s1 = (purge_mutable db dec s c key).0 in
      let (u, r, done, lru') = remove_key_lru-LruHolds dec s1 lru key in_lru in
      let purged = purge_disk_item_lem db dec c d key answers at_d in
      (
        record s1 { mutable_cache_lru = u },
        ground (arith, done),
        record {
          in_lru = lru';
          cache = (purge_disk_item db dec key c).0;
          outcome = (purge_disk_item db dec key c).1.0;
          removed = (purge_disk_item db dec key c).1.1;
          is_cache = refl;
          purged = purged;
          counted =
              less_lem s.mutable_cache_data_size (purge_disk_item db dec key c).1.1
                (omega (arith, purged.size, counted)) small
              ∙ omega (arith, purged.size, counted);
        },
      )
