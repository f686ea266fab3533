-- ===== src/Cache/DefaultCache/Cleared.antt =====
-- `Clear` of `DefaultCacheImpl`, and `Read`, `Contains` and `Release` after it.
use here_data_sdk_cpp.Common.{
  ℕ, ◌≡◌, ◌⊎◌, inl, inr, refl, ◌∙◌, arith, Bool, true, false, not, ◌&&◌, [], Option, none, some,
  ltb, ◌==◌, Bool-cases,
}
use here_data_sdk_cpp.Common.Signed.{is_positive}
use here_data_sdk_cpp.Cache.ProtectedKeyList
use here_data_sdk_cpp.Cache.ProtectedKeyList.{Key, no_keys}
use here_data_sdk_cpp.Cache.Lru
use here_data_sdk_cpp.Cache.InMemoryCache
use here_data_sdk_cpp.Cache.InMemoryCache.{InMemoryCache, empty_memory, default_cache_cost}
use here_data_sdk_cpp.Cache.DiskCache
use here_data_sdk_cpp.Cache.DiskCache.{
  Bytes, ErrorCode, Outcome, success, failure, LevelDb, DiskCache, size_max, disk_size, clear_disk,
  close_disk,
}
use here_data_sdk_cpp.Cache.DiskCache.Open.{OpenResult, has_opened}
use here_data_sdk_cpp.Cache.DefaultCache.{
  DefaultCacheImpl, Times, protected_keys_key, memory_get, promote_key_lru, create_expiry_key,
}
use here_data_sdk_cpp.Cache.DefaultCache.Disk.{
  get_remaining_expiry_time, get_protected, get_item, get_in_use, get_mutable, get_from_disk_cache,
}
use here_data_sdk_cpp.Cache.DefaultCache.Calls.{
  read_disk, read, contains, contains_mutable, contains_without_lru, contains_memory,
}
use here_data_sdk_cpp.Cache.DefaultCache.Storage.{
  CacheSettings, storage_success, setup_storage, setup_mutable_cache, initialize_lru,
  initialize_keys, read_protected_keys, keys_from, reset_storage, reset_mutable,
}
use here_data_sdk_cpp.Cache.DefaultCache.Lifecycle.{
  clear_memory_cache, clear_lru, clear_caches, clear, is_success,
}

-- An open cache over a database without entries: its memory cache and its LRU cache, where they are
-- there, hold nothing.
pub record IsCleared {D S : Type 0} (db : LevelDb D S) (s : DefaultCacheImpl D) : Type 0 where
  pub disk : DiskCache D
  pub database : D
  pub opens : s.is_open ≡ true
  pub in_memory : (s.memory_cache ≡ none) ⊎ ((n : ℕ) × (s.memory_cache ≡ some (empty_memory n)))
  pub in_lru :
      (s.mutable_cache_lru ≡ none) ⊎ ((n : ℕ) × (s.mutable_cache_lru ≡ some (Lru.empty_cache n)))
  pub unprotected : s.protected_cache ≡ none
  pub no_protected : s.protected_keys ≡ no_keys
  pub on_disk : s.mutable_cache ≡ some disk
  pub is_database : disk.database ≡ some database
  pub no_entries : db.entries database ≡ []

module _ {D S : Type 0} (db : LevelDb D S) (dec : Discrete Key) where
  memory_get_nothing :
      (s : DefaultCacheImpl D) (key : Key) (now : ℕ)
      → (s.memory_cache ≡ none) ⊎ ((n : ℕ) × (s.memory_cache ≡ some (empty_memory n)))
      → memory_get dec s key now ≡ some (s, none)
  unfolding memory_get InMemoryCache.get empty_memory Lru.find Lru.empty_cache
  memory_get_nothing s key now (inl gone) = ground arith
  memory_get_nothing s key now (inr (n, at_m)) = ground arith

  get_nothing :
      (c : DiskCache D) (d : D) (key : Key)
      → c.database ≡ some d
      → db.entries d ≡ []
      → DiskCache.get db dec c key ≡ failure ErrorCode.not_found
  unfolding DiskCache.get DiskCache.seek DiskCache.at_key DiskCache.non_empty
  get_nothing c d key opened nothing = rw (opened, nothing) refl

  get_mutable_nothing :
      (s : DefaultCacheImpl D) (key : Key) (now : ℕ)
      → IsCleared db s
      → get_mutable db dec s key now ≡ some (s, failure ErrorCode.not_found)
  unfolding get_mutable get_remaining_expiry_time is_positive get_in_use get_item promote_key_lru
      Lru.find Lru.empty_cache ProtectedKeyList.is_protected ProtectedKeyList.is_empty
  get_mutable_nothing s key now h =
      let item = get_nothing h.disk h.database key h.is_database h.no_entries in
      let time = get_nothing h.disk h.database (create_expiry_key key) h.is_database h.no_entries in
      elim h.in_lru [ inl gone ↦ ground arith | inr (n, at_t) ↦ ground arith ]

  read_nothing :
      (s : DefaultCacheImpl D) (key : Key) (t : Times)
      → IsCleared db s
      → read db dec s key t ≡ some (s, failure ErrorCode.not_found)
  unfolding read read_disk get_from_disk_cache get_protected
  read_nothing s key t h =
      let in_memory = memory_get_nothing s key t.get_time h.in_memory in
      let on_disk = get_mutable_nothing s key t.mutable_time h in ground arith

  contains_nothing :
      (s : DefaultCacheImpl D) (key : Key) (t : Times)
      → IsCleared db s
      → contains db dec s key t ≡ some false
  unfolding contains contains_mutable contains_without_lru contains_memory DiskCache.contains
      DiskCache.seek DiskCache.at_key Lru.find_no_promote Lru.empty_cache
      ProtectedKeyList.is_protected ProtectedKeyList.is_empty
  contains_nothing s key t h = elim h.in_lru [
    | inl gone ↦
        let absent : DiskCache.contains db dec h.disk key ≡ false = ground arith in ground arith
    | inr (n, at_t) ↦ ground arith
  ]

  -- The storage that is set up over a database without entries.
  setup_storage-IsCleared :
      (s : DefaultCacheImpl D) (settings : CacheSettings) (result : OpenResult) (c : DiskCache D)
      (d : D) (is_read_only : Bool) (open_protected : Bool → OpenResult × DiskCache D)
      → s.is_open ≡ true
      → settings.disk_path_mutable ≡ true
      → settings.disk_path_protected ≡ false
      → has_opened result ≡ true
      → c.database ≡ some d
      → db.entries d ≡ []
      → (s' : DefaultCacheImpl D) × (setup_storage db dec s settings
            (result, c)
            is_read_only
            open_protected
          ≡ some (s', storage_success))
        × IsCleared db s'
  unfolding setup_storage setup_mutable_cache initialize_lru initialize_keys reset_storage
      reset_mutable read_protected_keys keys_from has_opened
  setup_storage-IsCleared s settings result c d is_read_only open_protected opens path no_protected
        opened is nothing =
      let s0 = reset_storage settings s in
      let fresh = get_nothing c d protected_keys_key is nothing in
      let s1 : DefaultCacheImpl D = record s0 { mutable_cache = some c } in
      let in_memory : (s1.memory_cache ≡ none)
          ⊎ ((n : ℕ) × (s1.memory_cache ≡ some (empty_memory n))) =
        elim (Bool-cases (ltb 0 settings.max_memory_cache_size)) [
          | inl some_size ↦ inr (settings.max_memory_cache_size, ground arith)
          | inr no_size ↦ inl (ground arith)
        ] in
      elim (Bool-cases (not (s.max_disk_storage == size_max) && settings.least_recently_used)) [
        | inl lru ↦
            let s2 : DefaultCacheImpl D = record s1 {
              mutable_cache_lru = some (Lru.empty_cache s.max_disk_storage);
            } in
            (
              s2,
              ground arith,
              record {
                disk = c;
                database = d;
                opens = opens;
                in_memory = in_memory;
                in_lru = inr (s.max_disk_storage, refl);
                unprotected = refl;
                no_protected = refl;
                on_disk = refl;
                is_database = is;
                no_entries = nothing;
              },
            )
        | inr no_lru ↦
            let s2 : DefaultCacheImpl D = record s1 { mutable_cache_data_size = disk_size db c } in
            (
              s2,
              ground arith,
              record {
                disk = c;
                database = d;
                opens = opens;
                in_memory = in_memory;
                in_lru = inl refl;
                unprotected = refl;
                no_protected = refl;
                on_disk = refl;
                is_database = is;
                no_entries = nothing;
              },
            )
      ]

  clear_caches_goes_on :
      (s : DefaultCacheImpl D) (removed : Option Bool)
      → (removed ≡ none) ⊎ (removed ≡ some true)
      → ((clear_caches db s removed).1 ≡ true) × ((clear_caches db s removed).0.is_open ≡ s.is_open)
  unfolding clear_caches clear_disk clear_lru clear_memory_cache
  clear_caches_goes_on s removed (inl no_path) = (ground arith, ground arith)
  clear_caches_goes_on s removed (inr done) = (ground arith, ground arith)

  -- `Clear` of an open cache whose directory is removed, and whose database opens again without
  -- entries, succeeds and leaves a cache that is open and holds nothing: no protected keys, nothing
  -- in the memory cache and in the LRU cache, and every `Read` answers that there is no such item
  -- and leaves the cache as it is, and every `Contains` answers no. There is no protected cache.
  pub read-clear :
      (s : DefaultCacheImpl D) (settings : CacheSettings) (removed : Option Bool)
      (result : OpenResult) (c : DiskCache D) (d : D) (is_read_only : Bool)
      (open_protected : Bool → OpenResult × DiskCache D)
      → s.is_open ≡ true
      → (removed ≡ none) ⊎ (removed ≡ some true)
      → settings.disk_path_mutable ≡ true
      → settings.disk_path_protected ≡ false
      → has_opened result ≡ true
      → c.database ≡ some d
      → db.entries d ≡ []
      → (s' : DefaultCacheImpl D) × (clear db dec s settings removed
            (result, c)
            is_read_only
            open_protected
          ≡ some (s', true))
        × IsCleared db s'
        × ((key : Key) (t : Times) → read db dec s' key t ≡ some (s', failure ErrorCode.not_found))
        × ((key : Key) (t : Times) → contains db dec s' key t ≡ some false)
  unfolding clear is_success
  read-clear s settings removed result c d is_read_only open_protected opens gone path no_protected
        opened is nothing =
      let s0 = (clear_caches db s removed).0 in
      let (goes_on, same) = clear_caches_goes_on s removed gone in
      let (s', set_up, cleared) =
        setup_storage-IsCleared s0 settings result c d is_read_only open_protected (same ∙ opens)
          path no_protected opened is nothing in
      (
        s',
        ground arith,
        cleared,
        λ key t. read_nothing s' key t cleared,
        λ key t. contains_nothing s' key t cleared,
      )
