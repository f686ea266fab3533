-- ===== src/Cache/DefaultCache/DeletePrefix.antt =====
-- `DeleteByPrefix` of `DefaultCacheImpl`: the items with a prefix leave the memory cache, the LRU
-- cache and the mutable cache, but for those that are protected.
use here_data_sdk_cpp.Common.{ℕ, ◌+◌, ◌^◌, ◌<◌, ◌≡◌, refl, ◌∙◌, arith, true, some}
use here_data_sdk_cpp.Cache.ProtectedKeyList.{Key, is_protected}
use here_data_sdk_cpp.Cache.InMemoryCache.Prefix.{staying}
use here_data_sdk_cpp.Cache.DiskCache
use here_data_sdk_cpp.Cache.DiskCache.{Bytes, Entries, Outcome, LevelDb, DiskCache}
use here_data_sdk_cpp.Cache.DiskCache.Entries.{Answers}
use here_data_sdk_cpp.Cache.DiskCache.Prefix.{stored_size, remove_keys_with_prefix-Removed}
use here_data_sdk_cpp.Cache.DefaultCache.{DefaultCacheImpl, less}
use here_data_sdk_cpp.Cache.DefaultCache.Calls.{delete_by_prefix}
use here_data_sdk_cpp.Cache.DefaultCache.Delete.{Changed, removed_lem}
use here_data_sdk_cpp.Cache.DefaultCache.Keys.{less_lem}
use here_data_sdk_cpp.Cache.DefaultCache.Parts.{
  Memory, LruElements, MemoryHolds, LruHolds, without_filter, memory_remove_prefix-MemoryHolds,
  remove_keys_with_prefix_lru-LruHolds,
}

module _ {D S : Type 0} (db : LevelDb D S) (dec : Discrete Key) where
  -- What a call of `DeleteByPrefix` leaves.
  pub record IsDeletedByPrefix (s s' : DefaultCacheImpl D) (prefix : Key) (memory : Memory)
      (lru : LruElements) (d : D) (over : ℕ) (outcome : Outcome Unit) : Type 0 where
    pub in_memory :
        MemoryHolds dec s'.memory_cache
          (record memory { items = staying prefix (is_protected s.protected_keys) memory.items })
    pub in_lru :
        LruHolds dec s'.mutable_cache_lru
          (record lru { items = staying prefix without_filter lru.items })
    pub cache : DiskCache D
    pub database : D
    pub is_cache : s'.mutable_cache ≡ some cache
    pub is_database : cache.database ≡ some database
    pub entries :
        Changed
          (db.entries d)
          (staying prefix (is_protected s.protected_keys) (db.entries d))
          outcome
          (db.entries database)
    pub counted : s'.mutable_cache_data_size ≡ stored_size (db.entries database) + over
    pub keys : s'.protected_keys ≡ s.protected_keys
    pub opened : s'.is_open ≡ s.is_open

  -- `DeleteByPrefix` of an open cache returns; the memory cache and the entries of the mutable
  -- cache keep the elements that have not the prefix or are protected, the LRU cache those
  -- that have not the prefix, all in their order, or the mutable cache refuses the batch as a
  -- whole, keeps every entry and the call returns its error; the data size has gone down by
  -- the sizes of the entries that are gone. LevelDB answers as documented, the caches hold
  -- elements, the database is open, and the data size counts the entries and at most 2 ^ 64 -
  -- 1 bytes.
  pub delete_by_prefix-IsDeletedByPrefix :
      (s : DefaultCacheImpl D) (prefix : Key) (memory : Memory) (lru : LruElements)
      (c : DiskCache D) (d : D) (over : ℕ)
      → Answers dec db
      → s.is_open ≡ true
      → MemoryHolds dec s.memory_cache memory
      → LruHolds dec s.mutable_cache_lru lru
      → s.mutable_cache ≡ some c
      → c.database ≡ some d
      → s.mutable_cache_data_size ≡ stored_size (db.entries d) + over
      → s.mutable_cache_data_size < 2 ^ 64
      → (s' : DefaultCacheImpl D) × (outcome : Outcome Unit) × (delete_by_prefix db dec s prefix
          ≡ some (s', outcome))
        × IsDeletedByPrefix s s' prefix memory lru d over outcome
  unfolding delete_by_prefix
  delete_by_prefix-IsDeletedByPrefix s prefix memory lru c d over answers is_on in_memory in_lru
        at_c at_d counted small =
      let filter = is_protected s.protected_keys in
      let (m, done1, memory') =
        memory_remove_prefix-MemoryHolds dec s memory prefix filter in_memory in
      let s1 : DefaultCacheImpl D = record s { memory_cache = m } in
      let (u, done2, lru') = remove_keys_with_prefix_lru-LruHolds dec s1 lru prefix in_lru in
      let s2 : DefaultCacheImpl D = record s1 { mutable_cache_lru = u } in
      let done = DiskCache.remove_keys_with_prefix db c prefix filter in
      let (n, removes, is_size) =
        remove_keys_with_prefix-Removed db dec c d prefix filter answers at_d in
      let (d', opened, left, total) =
        removed_lem db dec done.0 (db.entries d) (staying prefix filter (db.entries d)) done.1.0 n
          removes in
      let size : stored_size (db.entries d') + done.1.1 ≡ stored_size (db.entries d) =
        omega (arith, total, is_size, counted, small) in
      (
        record s2 {
          mutable_cache = some done.0;
          mutable_cache_data_size = less s2.mutable_cache_data_size done.1.1;
        },
        done.1.0,
        ground arith,
        record {
          in_memory = memory';
          in_lru = lru';
          cache = done.0;
          database = d';
          is_cache = refl;
          is_database = opened;
          entries = left;
          counted =
              less_lem s.mutable_cache_data_size done.1.1 (omega (arith, size, counted)) small
              ∙ omega (arith, size, counted);
          keys = refl;
          opened = refl;
        },
      )
