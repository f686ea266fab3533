-- ===== src/Cache/DefaultCache/Reopen.antt =====
-- `GetFromDiskCache` of `DefaultCacheImpl` after `Open`.
use here_data_sdk_cpp.Common.{
  ℕ, ◌+◌, ◌^◌, ◌<◌, ◌≤◌, ◌≡◌, inl, inr, refl, arith, Bool, true, false, not, ◌&&◌, [], some, length,
  ◌==◌, if◌then◌else◌, ◌>>=◌, Bool-cases,
}
use here_data_sdk_cpp.Common.Bits.{u64}
use here_data_sdk_cpp.Cache.ProtectedKeyList.{Key, no_keys}
use here_data_sdk_cpp.Cache.Lru
use here_data_sdk_cpp.Cache.Lru.Refine.{empty_cache-Refines}
use here_data_sdk_cpp.Cache.DiskCache.{LevelDb, DiskCache, size_max, disk_size}
use here_data_sdk_cpp.Cache.DiskCache.Entries.{Answers}
use here_data_sdk_cpp.Cache.DiskCache.Open.{OpenResult, has_opened, is_some}
use here_data_sdk_cpp.Cache.DiskCache.Prefix.{stored_size}
use here_data_sdk_cpp.Cache.DefaultCache.{DefaultCacheImpl, DiskLruCache, is_expiry_key, disk_cost}
use here_data_sdk_cpp.Cache.DefaultCache.Disk.{get_protected, get_from_disk_cache}
use here_data_sdk_cpp.Cache.DefaultCache.Parts.{LruElements}
use here_data_sdk_cpp.Cache.DefaultCache.Storage.{
  CacheSettings, storage_success, open_storage, setup_storage, setup_mutable_cache, initialize_lru,
  read_protected_keys, reset_storage, reset_mutable,
}
use here_data_sdk_cpp.Cache.DefaultCache.Loaded.{readable, loaded, initialize_keys-loads}
use here_data_sdk_cpp.Cache.DefaultCache.Answer.{stored_answer, Knows, get_mutable_lem}

module _ {D S : Type 0} (db : LevelDb D S) (dec : Discrete Key) where
  initialize_lru-Knows :
      (s : DefaultCacheImpl D) (c : DiskCache D) (d : D)
      → s.mutable_cache ≡ some c
      → c.database ≡ some d
      → length (db.entries d) ≤ s.max_disk_storage
      → s.max_disk_storage + 1 < 2 ^ 64
      → readable s.protected_keys (db.entries d) ≡ true
      → (t : DiskLruCache) × (initialize_lru db dec s
          ≡ some (loaded dec s t (u64 (stored_size (db.entries d)))))
        × Knows db dec (loaded dec s t (u64 (stored_size (db.entries d)))) (db.entries d)
  unfolding initialize_lru is_some
  initialize_lru-Knows s c d at_c opened fit small reads =
      let empty : LruElements = record { room = s.max_disk_storage; items = []; gone = [] } in
      let (t, l, done, h, known) =
        initialize_keys-loads db dec s (Lru.empty_cache s.max_disk_storage) empty 0 (db.entries d)
          (empty_cache-Refines dec disk_cost s.max_disk_storage) (omega arith) small (omega arith)
          reads in
      let e : LruElements = record empty { items = l } in
      (t, ground arith, inr (t, e, refl, (h, omega arith), λ q. ground (arith, known q)))

  -- `Open` succeeds over a database that opens, and then `GetFromDiskCache` answers for every key
  -- what the entries of the database say: the value with the time that it has left, if it is
  -- stored, not empty, and has not expired or is protected, and otherwise that there is no such
  -- item; it faults only on a time that is no number or leaves the range. So the LRU cache that
  -- `Open` builds never hides an item. The protected keys are those of the database, and the data
  -- size is that of its entries, or LevelDB's estimate without LRU eviction. The entries are no
  -- more than the LRU cache may count, the times among them are numbers, the key does not contain
  -- the suffix of the expiry keys, and there is no protected cache.
  pub get_from_disk_cache-open_storage :
      (s : DefaultCacheImpl D) (settings : CacheSettings) (result : OpenResult) (c : DiskCache D)
      (d : D) (is_read_only : Bool) (open_protected : Bool → OpenResult × DiskCache D)
      → Answers dec db
      → settings.disk_path_mutable ≡ true
      → settings.disk_path_protected ≡ false
      → has_opened result ≡ true
      → c.database ≡ some d
      → length (db.entries d) ≤ s.max_disk_storage
      → s.max_disk_storage < 2 ^ 64
      → readable (read_protected_keys db dec no_keys c) (db.entries d) ≡ true
      → (s' : DefaultCacheImpl D) × (open_storage db dec s settings
            (result, c)
            is_read_only
            open_protected
          ≡ some (s', storage_success))
        × (s'.protected_keys ≡ read_protected_keys db dec no_keys c)
        × (s'.mutable_cache_data_size ≡ (
            if not (s.max_disk_storage == size_max) && settings.least_recently_used
            then u64 (stored_size (db.entries d))
            else disk_size db c))
        × ((key : Key) (protected_time now : ℕ)
            → is_expiry_key key ≡ false
            → (do (s'', answer) ← get_from_disk_cache db dec s' key protected_time now; some answer)
              ≡ stored_answer dec s'.protected_keys (db.entries d) key now)
  unfolding open_storage setup_storage setup_mutable_cache reset_storage reset_mutable has_opened
      get_from_disk_cache get_protected
  get_from_disk_cache-open_storage s settings result c d is_read_only open_protected answers path
        no_protected succeeded opened fit small reads =
      let keys = read_protected_keys db dec no_keys c in
      let s0 : DefaultCacheImpl D = record (reset_storage settings (record s { is_open = true })) {
        mutable_cache = some c;
        protected_keys = keys;
      } in
      elim (Bool-cases (not (s.max_disk_storage == size_max) && settings.least_recently_used)) [
        | inl lru ↦
            let (t, done, knows) =
              initialize_lru-Knows s0 c d refl opened fit (ground arith) reads in
            let s' = loaded dec s0 t (u64 (stored_size (db.entries d))) in
            (
              s',
              ground arith,
              refl,
              rw lru refl,
              λ key protected_time now item.
                  let answer =
                    get_mutable_lem db dec s' c d key now answers refl opened knows item in
                  ground arith,
            )
        | inr no_lru ↦
            let s' : DefaultCacheImpl D = record s0 { mutable_cache_data_size = disk_size db c } in
            (
              s',
              ground arith,
              refl,
              rw no_lru refl,
              λ key protected_time now item.
                  let answer =
                    get_mutable_lem db dec s' c d key now answers refl opened (inl refl) item in
                  ground arith,
            )
      ]
