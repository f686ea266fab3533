-- ===== src/Cache/DefaultCache/PutGet.antt =====
-- `PutMutableCache` and then `GetFromDiskCache` of `DefaultCacheImpl`.
use here_data_sdk_cpp.Common.{
  ℕ, ◌+◌, ◌-◌, ◌^◌, ◌<◌, ◌≤◌, ◌≡◌, ◌⊎◌, inl, inr, refl, ap, ◌∙◌, arith, true, false, List, Option,
  none, some, length, Bool-cases,
}
use here_data_sdk_cpp.Common.Int.{ℤ, pos}
use here_data_sdk_cpp.Common.Signed.{to_string, stoll-to_string, minus_time, plus_time, is_positive}
use here_data_sdk_cpp.Cache.ProtectedKeyList.{Key, ProtectedKeyList, is_protected}
use here_data_sdk_cpp.Cache.Lru.Node.{lookup}
use here_data_sdk_cpp.Cache.Lru.Model.{Refines}
use here_data_sdk_cpp.Cache.Lru.Promote.{promoted}
use here_data_sdk_cpp.Cache.InMemoryCache.{InMemoryCache}
use here_data_sdk_cpp.Cache.DiskCache
use here_data_sdk_cpp.Cache.DiskCache.{
  Bytes, Entries, BatchOp, Outcome, success, failure, LevelDb, DiskCache, apply_batch, outcome_of,
  non_empty,
}
use here_data_sdk_cpp.Cache.DiskCache.Entries.{Sorted, Answers, after}
use here_data_sdk_cpp.Cache.DiskCache.Lookup.{get-lookup}
use here_data_sdk_cpp.Cache.DefaultCache.{
  DefaultCacheImpl, ValueProperties, DiskLruCache, create_expiry_key, is_expiry_valid,
  is_internal_key, disk_cost,
}
use here_data_sdk_cpp.Cache.DefaultCache.Disk.{
  get_remaining_expiry_time, get_protected, get_item, get_in_use, get_mutable, get_from_disk_cache,
}
use here_data_sdk_cpp.Cache.DefaultCache.Put.{store_item, put_mutable_cache}
use here_data_sdk_cpp.Cache.DefaultCache.Evict.{Thresholds}
use here_data_sdk_cpp.Cache.DefaultCache.Ready.{holding, Ready}
use here_data_sdk_cpp.Cache.DefaultCache.Parts.{Memory, LruElements}
use here_data_sdk_cpp.Cache.DefaultCache.Answer.{stored_expiry, stored_answer}
use here_data_sdk_cpp.Cache.DefaultCache.Stored.{non_empty-to_string, stored, promote_known}
use here_data_sdk_cpp.Cache.DefaultCache.PutLeaves.{put_leaves}

module _ {D S : Type 0} (db : LevelDb D S) (dec : Discrete Key) (thresholds : Thresholds) where
  -- What is found once the item and its time are stored.
  pub found_after :
      (s : DefaultCacheImpl D) (c : DiskCache D) (d : D) (l : Entries) (lru : LruElements)
      (t : DiskLruCache) (key : Key) (value : Bytes) (n now time : ℕ) (v : ValueProperties)
      → Answers dec db
      → s.protected_cache ≡ none
      → s.mutable_cache ≡ some c
      → c.database ≡ some d
      → db.entries d ≡ after dec (store_item key value true (pos n)) l
      → Sorted l
      → s.mutable_cache_lru ≡ some t
      → Refines dec disk_cost lru t
      → (is_protected s.protected_keys key ≡ true) ⊎ (lookup dec key lru.items ≡ some v)
      → 0 < length value
      → n < 2 ^ 63
      → now < n
      → (s' : DefaultCacheImpl D) × (get_from_disk_cache db dec s key time now
          ≡ some (s', success (value, pos (n - now))))
        × (s'.memory_cache ≡ s.memory_cache)
        × (s'.protected_keys ≡ s.protected_keys)
  unfolding get_from_disk_cache get_protected get_mutable get_in_use get_item
      get_remaining_expiry_time non_empty minus_time is_positive
  found_after s c d l lru t key value n now time v answers unprotected at_c opened is sorted at_t h
        known some_bytes small later =
      let (at_key, at_time) = stored dec key value (pos n) l sorted in
      let item : DiskCache.get db dec c key ≡ success value =
        get-lookup db dec c d key answers opened
        ∙ ap (λ m. non_empty (lookup dec key m)) is
        ∙ ap non_empty at_key
        ∙ ground arith in
      let text : DiskCache.get db dec c (create_expiry_key key) ≡ success (to_string (pos n)) =
        get-lookup db dec c d (create_expiry_key key) answers opened
        ∙ ap (λ m. non_empty (lookup dec (create_expiry_key key) m)) is
        ∙ ap non_empty at_time
        ∙ non_empty-to_string n small in
      let reads = stoll-to_string n small in
      let (t', promoted) = promote_known dec s lru t key v at_t h known in
      elim (Bool-cases (is_internal_key key)) [
        | inl internal ↦ (s, ground arith, refl, refl)
        | inr item_key ↦ (record s { mutable_cache_lru = some t' }, ground arith, refl, refl)
      ]

  -- What the entries answer then.
  stored_after :
      (keys : ProtectedKeyList) (m l : Entries) (key : Key) (value : Bytes) (n now : ℕ)
      → m ≡ after dec (store_item key value true (pos n)) l
      → Sorted l
      → 0 < length value
      → n < 2 ^ 63
      → now < n
      → stored_answer dec keys m key now ≡ some (success (value, pos (n - now)))
  unfolding stored_answer stored_expiry non_empty minus_time is_positive
  stored_after keys m l key value n now is sorted some_bytes small later =
      let (at_key, at_time) = stored dec key value (pos n) l sorted in
      let item : lookup dec key m ≡ some value = ap (lookup dec key) is ∙ at_key in
      let time : non_empty (lookup dec (create_expiry_key key) m) ≡ success (to_string (pos n)) =
        ap (λ r. non_empty (lookup dec (create_expiry_key key) r)) is
        ∙ ap non_empty at_time
        ∙ non_empty-to_string n small in
      let reads = stoll-to_string n small in ground arith

  -- An item that `PutMutableCache` stores with a time to live is what `GetFromDiskCache` finds
  -- before that time, with the seconds that are left: the put evicts first if the cache is
  -- nearly full, ends and succeeds, and the get returns the value, whether the key is
  -- protected or internal or neither. The entries of the database that the put leaves say the
  -- same. The value is not empty, there is no protected cache, the list of protected keys has
  -- not changed since it was stored, LevelDB accepts the writes, the caches hold elements and
  -- their times are in range for every reading of the clock, the LRU cache has room for an
  -- element, and eviction works in portions above 0; its thresholds are any.
  pub get_from_disk_cache-put_mutable_cache :
      (s : DefaultCacheImpl D) (base : Memory) (m : Option (InMemoryCache Bytes)) (c : DiskCache D)
      (t : DiskLruCache) (room n : ℕ) (key : Key) (value : Bytes) (expiry : ℤ) (e put_time : ℕ)
      (clock : ℕ → ℕ) (protected_time get_time : ℕ)
      → Answers dec db
      → ((d : D) (batch : List BatchOp) → db.ok (db.write d batch).1 ≡ true)
      → 0 < s.eviction_portion
      → s.protected_keys.dirty ≡ false
      → s.protected_cache ≡ none
      → Ready dec clock room n base m c t
      → 1 ≤ room
      → room + 1 < 2 ^ 64
      → 0 < length value
      → is_expiry_valid expiry ≡ true
      → plus_time expiry put_time ≡ some (pos e)
      → e < 2 ^ 63
      → get_time < e
      → (s' s'' : DefaultCacheImpl D) × (put_mutable_cache db dec thresholds
            (holding s m c t)
            key
            value
            expiry
            put_time
            clock
          ≡ some (s', success tt))
        × (get_from_disk_cache db dec s' key protected_time get_time
            ≡ some (s'', success (value, pos (e - get_time))))
        × (c' : DiskCache D) × (d' : D) × (s'.mutable_cache ≡ some c')
        × (c'.database ≡ some d')
        × (stored_answer dec s'.protected_keys (db.entries d') key get_time
            ≡ some (success (value, pos (e - get_time))))
  get_from_disk_cache-put_mutable_cache s base m c t room n key value expiry e put_time clock
        protected_time get_time answers accepts portion clean unprotected ready some_room room_small
        some_bytes expires sum e_small later =
      let (m', c', t', size, done, h) =
        put_leaves db dec thresholds s base m c t room n key value expiry e put_time clock answers
          accepts portion clean ready some_room room_small expires sum in
      let s' : DefaultCacheImpl D = record (holding s m' c' t') {
        mutable_cache_data_size = size;
      } in
      let (s'', found, _, _) =
        found_after s' c' h.database h.before h.lru t' key value e get_time protected_time
          (record { size = length value; expiry = pos e }) answers unprotected refl h.is_database
          h.entries_are h.sorted refl h.in_lru h.known some_bytes e_small later in
      (
        s',
        s'',
        done,
        found,
        c',
        h.database,
        refl,
        h.is_database,
        stored_after s.protected_keys (db.entries h.database) h.before key value e get_time
            h.entries_are h.sorted some_bytes e_small later,
      )
