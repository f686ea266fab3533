-- ===== src/Cache/DefaultCache/PutLeaves.antt =====
-- What `PutMutableCache` of `DefaultCacheImpl` leaves of the caches.
use here_data_sdk_cpp.Common.{
  ℕ, ◌+◌, ◌^◌, ◌<◌, ◌≤◌, ◌≡◌, ◌⊎◌, refl, ◌∙◌, arith, true, false, List, Option, some, length,
}
use here_data_sdk_cpp.Common.Bits.{u64}
use here_data_sdk_cpp.Common.Int.{ℤ, pos}
use here_data_sdk_cpp.Common.Signed.{plus_time}
use here_data_sdk_cpp.Cache.ProtectedKeyList.{Key, ProtectedKeyList, is_protected}
use here_data_sdk_cpp.Cache.Lru.Node.{lookup}
use here_data_sdk_cpp.Cache.Lru.Model.{Refines}
use here_data_sdk_cpp.Cache.InMemoryCache.{InMemoryCache}
use here_data_sdk_cpp.Cache.DiskCache.{
  Bytes, Entries, BatchOp, success, LevelDb, DiskCache, apply_batch, outcome_of,
}
use here_data_sdk_cpp.Cache.DiskCache.Entries.{Sorted, Answers, after}
use here_data_sdk_cpp.Cache.DefaultCache.{
  DefaultCacheImpl, DiskLruCache, is_expiry_valid, disk_cost, less,
}
use here_data_sdk_cpp.Cache.DefaultCache.Put.{
  store_item, added_size, expiry_at, is_full, maybe_updated_protected_keys, put_batch, put_evicting,
  put_mutable_cache,
}
use here_data_sdk_cpp.Cache.DefaultCache.Evict.{Thresholds}
use here_data_sdk_cpp.Cache.DefaultCache.EvictAll.{maybe_evict_data-Ready, apply_batch_lem}
use here_data_sdk_cpp.Cache.DefaultCache.Ready.{holding, Ready}
use here_data_sdk_cpp.Cache.DefaultCache.Parts.{Memory, LruElements, MemoryHolds, Within}
use here_data_sdk_cpp.Cache.DefaultCache.Stored.{put_lru_lem}

module _ {D S : Type 0} (db : LevelDb D S) (dec : Discrete Key) (thresholds : Thresholds) where
  pub put_batch_lem :
      (s : DefaultCacheImpl D) (c : DiskCache D) (d : D) (batch : List BatchOp) (change : ℕ)
      → Answers dec db
      → ((d1 : D) (batch1 : List BatchOp) → db.ok (db.write d1 batch1).1 ≡ true)
      → s.mutable_cache ≡ some c
      → c.database ≡ some d
      → (c' : DiskCache D) × (d' : D) × (put_batch db s batch change
          ≡ some (
            record s {
              mutable_cache = some c';
              mutable_cache_data_size = u64 (s.mutable_cache_data_size + change);
            },
            success tt,
          ))
        × (c'.database ≡ some d')
        × (db.entries d' ≡ after dec batch (db.entries d))
  unfolding put_batch outcome_of
  put_batch_lem s c d batch change answers accepts at_c opened =
      let (opened', is) = apply_batch_lem db dec c d batch opened in
      let good = accepts d batch in
      (
        (apply_batch db c batch).0,
        (db.write d batch).0,
        ground arith,
        opened',
        answers.written d batch ∙ rw good refl,
      )

  -- The caches after a `PutMutableCache` of an item that expires at `e`.
  pub record IsStored (keys : ProtectedKeyList) (base : Memory) (m : Option (InMemoryCache Bytes))
      (c : DiskCache D) (t : DiskLruCache) (key : Key) (value : Bytes) (e : ℕ) : Type 0 where
    pub memory : Memory
    pub in_memory : MemoryHolds dec m memory
    pub within : Within dec base memory
    pub database : D
    pub is_database : c.database ≡ some database
    pub before : Entries
    pub sorted : Sorted before
    pub entries_are : db.entries database ≡ after dec (store_item key value true (pos e)) before
    pub lru : LruElements
    pub in_lru : Refines dec disk_cost lru t
    pub known :
        (is_protected keys key ≡ true)
        ⊎ (lookup dec key lru.items ≡ some (record { size = length value; expiry = pos e }))

  -- What `PutMutableCache` leaves of the caches.
  pub put_leaves :
      (s : DefaultCacheImpl D) (base : Memory) (m : Option (InMemoryCache Bytes)) (c : DiskCache D)
      (t : DiskLruCache) (room n : ℕ) (key : Key) (value : Bytes) (expiry : ℤ) (e put_time : ℕ)
      (clock : ℕ → ℕ)
      → Answers dec db
      → ((d : D) (batch : List BatchOp) → db.ok (db.write d batch).1 ≡ true)
      → 0 < s.eviction_portion
      → s.protected_keys.dirty ≡ false
      → Ready dec clock room n base m c t
      → 1 ≤ room
      → room + 1 < 2 ^ 64
      → is_expiry_valid expiry ≡ true
      → plus_time expiry put_time ≡ some (pos e)
      → (m' : Option (InMemoryCache Bytes)) × (c' : DiskCache D) × (t' : DiskLruCache) × (size : ℕ)
        × (put_mutable_cache db dec thresholds (holding s m c t) key value expiry put_time clock
            ≡ some (record (holding s m' c' t') { mutable_cache_data_size = size }, success tt))
        × IsStored s.protected_keys base m' c' t' key value e
  unfolding put_mutable_cache put_evicting is_full expiry_at maybe_updated_protected_keys
  put_leaves s base m c t room n key value expiry e put_time clock answers accepts portion clean
        ready some_room room_small expires sum =
      let (m1, c1, t1, n1, evicted, done1, h1) =
        maybe_evict_data-Ready db dec thresholds s clock room n base m c t portion ready in
      let s1 = holding s m1 c1 t1 in
      let change = less (added_size key value true (pos e) + 0) evicted in
      let (c2, d2, done2, opened, is) =
        put_batch_lem s1 c1 h1.database (store_item key value true (pos e)) change answers accepts
          refl h1.is_database in
      let s2 : DefaultCacheImpl D = record s1 {
        mutable_cache = some c2;
        mutable_cache_data_size = u64 (s1.mutable_cache_data_size + change);
      } in
      let (t3, lru3, done3, h3, known) =
        put_lru_lem dec s2 h1.lru t1 key (length value) (pos e) refl h1.in_lru.0
          (omega (arith, h1.is_room)) (omega (arith, h1.is_room)) in
      (
        m1,
        c2,
        t3,
        u64 (s1.mutable_cache_data_size + change),
        ground arith,
        record {
          memory = h1.memory;
          in_memory = h1.in_memory;
          within = h1.within;
          database = d2;
          is_database = opened;
          before = db.entries h1.database;
          sorted = answers.sorted h1.database;
          entries_are = is;
          lru = lru3;
          in_lru = h3;
          known = known;
        },
      )
