-- ===== src/Cache/DefaultCache/Overwrite.antt =====
-- `PutMutableCache` of an item without a time, where the cache may hold one under the key already.
use here_data_sdk_cpp.Common.{
  ℕ, ◌+◌, ◌^◌, ◌<◌, ◌≤◌, ◌≡◌, refl, sym, ap, ◌∙◌, arith, true, false, List, some, length,
}
use here_data_sdk_cpp.Common.Bits.{u64}
use here_data_sdk_cpp.Cache.ProtectedKeyList.{Key}
use here_data_sdk_cpp.Cache.Lru.Node.{lookup}
use here_data_sdk_cpp.Cache.Lru.Model.{Refines}
use here_data_sdk_cpp.Cache.DiskCache
use here_data_sdk_cpp.Cache.DiskCache.{
  Bytes, Entries, BatchOp, Outcome, success, LevelDb, DiskCache, non_empty,
}
use here_data_sdk_cpp.Cache.DiskCache.Entries.{Answers, after, put_entry, lookup-put_entry}
use here_data_sdk_cpp.Cache.DiskCache.Prefix.{stored_size}
use here_data_sdk_cpp.Cache.DiskCache.Lookup.{get-lookup, cost_at, stored_size-put_entry}
use here_data_sdk_cpp.Cache.DefaultCache.{
  DefaultCacheImpl, DiskLruCache, default_expiry, create_expiry_key, is_expiry_valid, disk_cost,
  less,
}
use here_data_sdk_cpp.Cache.DefaultCache.Disk.{get_remaining_expiry_time}
use here_data_sdk_cpp.Cache.DefaultCache.Keys.{create_expiry_key-ne}
use here_data_sdk_cpp.Cache.DefaultCache.Evict.{Thresholds, maybe_evict_data}
use here_data_sdk_cpp.Cache.DefaultCache.Put.{
  store_item, added_size, expiry_at, is_full, maybe_updated_protected_keys, put_evicting,
  put_mutable_cache,
}
use here_data_sdk_cpp.Cache.DefaultCache.PutLeaves.{put_batch_lem}
use here_data_sdk_cpp.Cache.DefaultCache.Stored.{put_lru_lem}
use here_data_sdk_cpp.Cache.DefaultCache.Parts.{LruElements}

module _ {D S : Type 0} (db : LevelDb D S) (dec : Discrete Key) where
  same_time :
      (c c' : DiskCache D) (d d' : D) (key : Key) (value : Bytes) (now : ℕ)
      → Answers dec db
      → c.database ≡ some d
      → c'.database ≡ some d'
      → db.entries d' ≡ put_entry key value (db.entries d)
      → get_remaining_expiry_time db dec key c' now ≡ get_remaining_expiry_time db dec key c now
  unfolding get_remaining_expiry_time
  same_time c c' d d' key value now answers opened opened' is =
      let ek = create_expiry_key key in
      let same : lookup dec ek (put_entry key value (db.entries d)) ≡ lookup dec ek (db.entries d) =
        lookup-put_entry dec ek key value (db.entries d) (answers.sorted d)
        ∙ ground (arith, create_expiry_key-ne key) in
      let gets : DiskCache.get db dec c' ek ≡ DiskCache.get db dec c ek =
        get-lookup db dec c' d' ek answers opened'
        ∙ ap (λ l. non_empty (lookup dec ek l)) is
        ∙ ap non_empty same
        ∙ sym (get-lookup db dec c d ek answers opened) in
      ground arith

module _ {D S : Type 0} (db : LevelDb D S) (dec : Discrete Key) (thresholds : Thresholds) where
  -- An item that `PutMutableCache` stores without a time, where nothing is evicted, overwrites
  -- the value of its key, but an earlier time of the key stays in the database and still
  -- limits the item; and the data size is afterwards too large by the size of the entry that
  -- was overwritten. LevelDB answers as documented and accepts the writes, the list of
  -- protected keys has not changed since it was stored, and the LRU cache holds elements and
  -- has room for one.
  pub put_mutable_cache_overwrites :
      (s : DefaultCacheImpl D) (c : DiskCache D) (d : D) (lru : LruElements) (t : DiskLruCache)
      (key : Key) (value : Bytes) (over put_time : ℕ) (clock : ℕ → ℕ) (now : ℕ)
      → Answers dec db
      → ((d1 : D) (batch : List BatchOp) → db.ok (db.write d1 batch).1 ≡ true)
      → s.mutable_cache ≡ some c
      → c.database ≡ some d
      → s.mutable_cache_lru ≡ some t
      → Refines dec disk_cost lru t
      → 1 ≤ lru.room
      → lru.room + 1 < 2 ^ 64
      → s.protected_keys.dirty ≡ false
      → thresholds.below_max s.mutable_cache_data_size s.max_disk_storage ≡ true
      → s.mutable_cache_data_size ≡ stored_size (db.entries d) + over
      → s.mutable_cache_data_size + length key + length value < 2 ^ 64
      → (s' : DefaultCacheImpl D) × (c' : DiskCache D) × (d' : D) × (put_mutable_cache db dec
            thresholds s key value default_expiry put_time clock
          ≡ some (s', success tt))
        × (s'.mutable_cache ≡ some c')
        × (c'.database ≡ some d')
        × (db.entries d' ≡ put_entry key value (db.entries d))
        × (get_remaining_expiry_time db dec key c' now ≡ get_remaining_expiry_time db dec key c now)
        × (s'.mutable_cache_data_size
            ≡ stored_size (db.entries d') + over + cost_at dec key (db.entries d))
  unfolding put_mutable_cache put_evicting is_full expiry_at maybe_updated_protected_keys
      maybe_evict_data is_expiry_valid store_item added_size less after
  put_mutable_cache_overwrites s c d lru t key value over put_time clock now answers accepts at_c
        opened at_t h some_room room_small clean below counted small =
      let change = less (added_size key value false default_expiry + 0) 0 in
      let (c2, d2, done2, opened2, is) =
        put_batch_lem db dec thresholds s c d (store_item key value false default_expiry) change
          answers accepts at_c opened in
      let s2 : DefaultCacheImpl D = record s {
        mutable_cache = some c2;
        mutable_cache_data_size = u64 (s.mutable_cache_data_size + change);
      } in
      let (t3, lru3, done3, h3, known) =
        put_lru_lem dec s2 lru t key (length value) default_expiry at_t h some_room room_small in
      let total = stored_size-put_entry dec key value (db.entries d) (answers.sorted d) in
      (
        record s2 { mutable_cache_lru = some t3 },
        c2,
        d2,
        ground arith,
        refl,
        opened2,
        is,
        same_time db dec c c2 d d2 key value now answers opened opened2 is,
        omega (arith, ap stored_size is, total, counted, small),
      )
