-- ===== src/Cache/DefaultCache/Delete.antt =====
-- `Delete` of `DefaultCacheImpl`: what a call leaves in the memory cache, in the LRU cache and in
-- the mutable cache.
use mathlib.Core.Path.{subst}
use mathlib.Core.Option.{some-injective}
use here_data_sdk_cpp.Common.{
  ℕ, ◌+◌, ◌^◌, ◌<◌, ◌≡◌, refl, sym, ap, ◌∙◌, arith, true, false, none, some, if◌then◌else◌,
}
use here_data_sdk_cpp.Cache.ProtectedKeyList.{Key, is_protected}
use here_data_sdk_cpp.Cache.Lru.Node.{lookup, remove}
use here_data_sdk_cpp.Cache.DiskCache
use here_data_sdk_cpp.Cache.DiskCache.{
  Bytes, Entries, ErrorCode, Outcome, success, failure, LevelDb, DiskCache, outcome_of, non_empty,
}
use here_data_sdk_cpp.Cache.DiskCache.Entries.{Answers, lookup-remove}
use here_data_sdk_cpp.Cache.DiskCache.Prefix.{Removed, stored_size}
use here_data_sdk_cpp.Cache.DiskCache.Lookup.{remove-Removed, get-lookup}
use here_data_sdk_cpp.Cache.DefaultCache.{DefaultCacheImpl, default_expiry, create_expiry_key}
use here_data_sdk_cpp.Cache.DefaultCache.Disk.{
  purge_disk_item, purge_mutable, get_remaining_expiry_time,
}
use here_data_sdk_cpp.Cache.DefaultCache.Calls.{delete}
use here_data_sdk_cpp.Cache.DefaultCache.Keys.{create_expiry_key-ne, less_lem}
use here_data_sdk_cpp.Cache.DefaultCache.Parts.{
  Memory, LruElements, MemoryHolds, LruHolds, memory_remove-MemoryHolds, remove_key_lru-LruHolds,
}

-- The entries `l` after a call that is to make `l'` of them, with its outcome.
pub data Changed (l l' : Entries) : Outcome Unit → Entries → Type 0 where
  changed : Changed l l' (success tt) l'
  kept : (e : ErrorCode) → Changed l l' (failure e) l

module _ {D S : Type 0} (db : LevelDb D S) (dec : Discrete Key) where
  pub removed_lem :
      (c : DiskCache D) (l l' : Entries) (o : Outcome Unit) (n : ℕ)
      → Removed db dec c l l' o n
      → (d' : D) × (c.database ≡ some d')
        × Changed l l' o (db.entries d')
        × (stored_size (db.entries d') + n ≡ stored_size l)
  removed_lem c l l' o n (Removed.removed d' opened is size total) = (
    d',
    opened,
    subst (Changed l l' (success tt)) (sym is) Changed.changed,
    ap (λ m. stored_size m + size) is ∙ total,
  )
  removed_lem c l l' o n (Removed.refused d' opened is e) = (
    d',
    opened,
    subst (Changed l l' (failure e)) (sym is) (Changed.kept e),
    omega (arith, ap stored_size is),
  )

  -- The database after the deletion of a key, and after that of its expiry key.
  abbrev pub without_item : D → Key → D
  without_item d key = (db.delete d key).0

  abbrev pub without_expiry : D → Key → D
  without_expiry d key = (db.delete (without_item d key) (create_expiry_key key)).0

  -- What `PurgeDiskItem` leaves of the database `d`, with its outcome and the size it removes:
  -- each of the two entries is gone where LevelDB accepts its deletion.
  pub record IsPurgedItem (c' : DiskCache D) (d : D) (key : Key) (outcome : Outcome Unit)
      (removed : ℕ) : Type 0 where
    pub is_database : c'.database ≡ some (without_expiry d key)
    pub item :
        db.entries (without_item d key)
        ≡ (if db.ok (db.delete d key).1 then remove dec key (db.entries d) else db.entries d)
    pub expiry : db.entries (without_expiry d key) ≡ (
        if db.ok (db.delete (without_item d key) (create_expiry_key key)).1
        then remove dec (create_expiry_key key) (db.entries (without_item d key))
        else db.entries (without_item d key))
    pub is_outcome :
        outcome ≡ outcome_of db (db.delete (without_item d key) (create_expiry_key key)).1
    pub size :
        stored_size (db.entries (without_expiry d key)) + removed ≡ stored_size (db.entries d)

  -- `Remove` of an open database.
  remove_lem :
      (c : DiskCache D) (d : D) (key : Key)
      → Answers dec db
      → c.database ≡ some d
      → ((DiskCache.remove db dec c key).0.database ≡ some (without_item d key))
        × ((DiskCache.remove db dec c key).1.0 ≡ outcome_of db (db.delete d key).1)
        × (stored_size (db.entries (without_item d key)) + (DiskCache.remove db dec c key).1.1
            ≡ stored_size (db.entries d))
  unfolding DiskCache.remove
  remove_lem c d key answers opened =
      let there : (DiskCache.remove db dec c key).0.database ≡ some (without_item d key) =
        rw (DiskCache.remove, opened) refl in
      let (d1, opened1, _, size) =
        removed_lem (DiskCache.remove db dec c key).0 (db.entries d) (remove dec key (db.entries d))
          (DiskCache.remove db dec c key).1.0 (DiskCache.remove db dec c key).1.1
          (remove-Removed db dec c d key answers opened) in
      let same : some d1 ≡ some (without_item d key) = sym opened1 ∙ there in
      (
        there,
        rw (DiskCache.remove, opened) refl,
        subst
            (λ e.
              stored_size (db.entries e) + (DiskCache.remove db dec c key).1.1
              ≡ stored_size (db.entries d))
            (some-injective d1 (without_item d key) same) size,
      )

  -- The two deletions of `PurgeDiskItem`: the outcome is that of the second.
  pub purge_disk_item_lem :
      (c : DiskCache D) (d : D) (key : Key)
      → Answers dec db
      → c.database ≡ some d
      → IsPurgedItem
          (purge_disk_item db dec key c).0
          d
          key
          (purge_disk_item db dec key c).1.0
          (purge_disk_item db dec key c).1.1
  unfolding purge_disk_item
  purge_disk_item_lem c d key answers opened =
      let (opened1, _, size1) = remove_lem c d key answers opened in
      let (opened2, is, size2) =
        remove_lem (DiskCache.remove db dec c key).0 (without_item d key) (create_expiry_key key)
          answers opened1 in
      record {
        is_database = opened2;
        item = answers.deleted d key;
        expiry = answers.deleted (without_item d key) (create_expiry_key key);
        is_outcome = is;
        size = omega (arith, size1, size2);
      }

  -- What a call of `Delete` leaves.
  pub record IsDeleted (s s' : DefaultCacheImpl D) (key : Key) (memory : Memory) (lru : LruElements)
      (d : D) (over : ℕ) (outcome : Outcome Unit) : Type 0 where
    pub in_memory :
        MemoryHolds dec s'.memory_cache (record memory { items = remove dec key memory.items })
    pub in_lru : LruHolds dec s'.mutable_cache_lru (record lru { items = remove dec key lru.items })
    pub cache : DiskCache D
    pub removed : ℕ
    pub is_cache : s'.mutable_cache ≡ some cache
    pub purged : IsPurgedItem cache d key outcome removed
    pub counted :
        s'.mutable_cache_data_size ≡ stored_size (db.entries (without_expiry d key)) + over
    pub keys : s'.protected_keys ≡ s.protected_keys
    pub opened : s'.is_open ≡ s.is_open

  -- `Delete` of a key that is not protected in an open cache returns; the key then has left
  -- the memory cache and the LRU cache, in every outcome; the mutable cache holds the database
  -- after LevelDB's deletions of the key and then of its expiry key, each of which has taken its
  -- entry away if its status is ok and nothing else; the outcome of the call is the status of the
  -- second; and the data size has gone down by the sizes of the entries that are gone. LevelDB
  -- answers as documented, the caches hold elements, the database is open, and the data size
  -- counts the entries and at most 2 ^ 64 - 1 bytes.
  pub delete-IsDeleted :
      (s : DefaultCacheImpl D) (key : Key) (memory : Memory) (lru : LruElements) (c : DiskCache D)
      (d : D) (over : ℕ)
      → Answers dec db
      → s.is_open ≡ true
      → is_protected s.protected_keys key ≡ false
      → MemoryHolds dec s.memory_cache memory
      → LruHolds dec s.mutable_cache_lru lru
      → s.mutable_cache ≡ some c
      → c.database ≡ some d
      → s.mutable_cache_data_size ≡ stored_size (db.entries d) + over
      → s.mutable_cache_data_size < 2 ^ 64
      → (s' : DefaultCacheImpl D) × (outcome : Outcome Unit) × (delete db dec s key
          ≡ some (s', outcome))
        × IsDeleted s s' key memory lru d over outcome
  unfolding delete purge_mutable
  delete-IsDeleted s key memory lru c d over answers is_on free in_memory in_lru at_c at_d counted
        small =
      let (m, r1, done1, memory') = memory_remove-MemoryHolds dec s memory key in_memory in
      let s1 : DefaultCacheImpl D = record s { memory_cache = m } in
      let (u, r2, done2, lru') = remove_key_lru-LruHolds dec s1 lru key in_lru in
      let s2 : DefaultCacheImpl D = record s1 { mutable_cache_lru = u } in
      let purged = purge_disk_item_lem c d key answers at_d in
      (
        (purge_mutable db dec s2 c key).0,
        (purge_mutable db dec s2 c key).1,
        ground arith,
        record {
          in_memory = memory';
          in_lru = lru';
          cache = (purge_disk_item db dec key c).0;
          removed = (purge_disk_item db dec key c).1.1;
          is_cache = refl;
          purged = purged;
          counted =
              less_lem s.mutable_cache_data_size (purge_disk_item db dec key c).1.1
                (omega (arith, purged.size, counted)) small
              ∙ omega (arith, purged.size, counted);
          keys = refl;
          opened = refl;
        },
      )

  refused_item :
      (c : DiskCache D) (d : D) (key : Key)
      → c.database ≡ some d
      → db.ok (db.delete d key).1 ≡ false
      → db.ok (db.delete (db.delete d key).0 (create_expiry_key key)).1 ≡ true
      → ((purge_disk_item db dec key c).0.database
          ≡ some (db.delete (db.delete d key).0 (create_expiry_key key)).0)
        × ((purge_disk_item db dec key c).1.0 ≡ success tt)
  unfolding purge_disk_item DiskCache.remove outcome_of
  refused_item c d key opened bad good =
      (rw (DiskCache.remove, opened) refl, rw (DiskCache.remove, opened, outcome_of, good) refl)

  -- Where LevelDB refuses to delete the entry of a key and then deletes that of its expiry
  -- key, `Delete` reports success, and the mutable cache still has the value of the key, which
  -- no time limits any more. The cache is open, the key is not protected, the caches hold
  -- elements and LevelDB answers as documented.
  pub delete_unexpiring :
      (s : DefaultCacheImpl D) (key : Key) (memory : Memory) (lru : LruElements) (c : DiskCache D)
      (d : D) (now : ℕ)
      → Answers dec db
      → s.is_open ≡ true
      → is_protected s.protected_keys key ≡ false
      → MemoryHolds dec s.memory_cache memory
      → LruHolds dec s.mutable_cache_lru lru
      → s.mutable_cache ≡ some c
      → c.database ≡ some d
      → db.ok (db.delete d key).1 ≡ false
      → db.ok (db.delete (db.delete d key).0 (create_expiry_key key)).1 ≡ true
      → (s' : DefaultCacheImpl D) × (c' : DiskCache D) × (delete db dec s key
          ≡ some (s', success tt))
        × (s'.mutable_cache ≡ some c')
        × (DiskCache.get db dec c' key ≡ DiskCache.get db dec c key)
        × (get_remaining_expiry_time db dec key c' now ≡ some default_expiry)
  unfolding delete purge_mutable get_remaining_expiry_time non_empty
  delete_unexpiring s key memory lru c d now answers is_on free in_memory in_lru at_c at_d bad
        good =
      let (m, r1, done1, _) = memory_remove-MemoryHolds dec s memory key in_memory in
      let s1 : DefaultCacheImpl D = record s { memory_cache = m } in
      let (u, r2, done2, _) = remove_key_lru-LruHolds dec s1 lru key in_lru in
      let s2 : DefaultCacheImpl D = record s1 { mutable_cache_lru = u } in
      let (opened, well) = refused_item c d key at_d bad good in
      let d1 = (db.delete d key).0 in
      let ek = create_expiry_key key in
      let c2 = (purge_disk_item db dec key c).0 in
      let same : db.entries d1 ≡ db.entries d = answers.deleted d key ∙ rw bad refl in
      let is : db.entries (db.delete d1 ek).0 ≡ remove dec ek (db.entries d) =
        answers.deleted d1 ek ∙ rw good (ap (remove dec ek) same) in
      let sorted = answers.sorted d in
      let gone : lookup dec ek (remove dec ek (db.entries d)) ≡ none =
        lookup-remove dec ek ek (db.entries d) sorted ∙ ground arith in
      let stays : lookup dec key (remove dec ek (db.entries d)) ≡ lookup dec key (db.entries d) =
        lookup-remove dec key ek (db.entries d) sorted ∙ ground (arith, create_expiry_key-ne key) in
      let no_time : DiskCache.get db dec c2 ek ≡ failure ErrorCode.not_found =
        get-lookup db dec c2 (db.delete d1 ek).0 ek answers opened
        ∙ ap (λ l. non_empty (lookup dec ek l)) is
        ∙ ap non_empty gone in
      (
        (purge_mutable db dec s2 c key).0,
        c2,
        ground arith,
        refl,
        get-lookup db dec c2 (db.delete d1 ek).0 key answers opened
            ∙ ap (λ l. non_empty (lookup dec key l)) is
            ∙ ap non_empty stays
            ∙ sym (get-lookup db dec c d key answers at_d),
        rw (get_remaining_expiry_time, no_time) refl,
      )
