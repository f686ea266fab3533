-- ===== src/Cache/DefaultCache/ClearFault.antt =====
-- `Release` of `DefaultCacheImpl` after a `Clear` that could not remove the directory.
use here_data_sdk_cpp.Common.{
  ◌≡◌, inl, inr, refl, arith, Bool, true, false, List, ◌∷◌, none, some, Option-cases,
}
use here_data_sdk_cpp.Cache.ProtectedKeyList
use here_data_sdk_cpp.Cache.ProtectedKeyList.{Key, no_keys}
use here_data_sdk_cpp.Cache.Lru
use here_data_sdk_cpp.Cache.DiskCache.{LevelDb, DiskCache, clear_disk, close_disk}
use here_data_sdk_cpp.Cache.DiskCache.Open.{OpenResult}
use here_data_sdk_cpp.Cache.DefaultCache.{
  DefaultCacheImpl, DiskLruCache, memory_remove, memory_remove_prefix,
}
use here_data_sdk_cpp.Cache.DefaultCache.Calls.{
  release_in_memory, release_in_lru, release_keys, release,
}
use here_data_sdk_cpp.Cache.DefaultCache.Storage.{CacheSettings}
use here_data_sdk_cpp.Cache.DefaultCache.Lifecycle.{
  clear_memory_cache, clear_lru, clear_caches, clear,
}

module _ {D S : Type 0} (db : LevelDb D S) (dec : Discrete Key) where
  release_in_memory_frame :
      (s : DefaultCacheImpl D) (key : Key) (s' : DefaultCacheImpl D)
      → release_in_memory dec s key ≡ some s'
      → (s'.mutable_cache ≡ s.mutable_cache) × (s'.mutable_cache_lru ≡ s.mutable_cache_lru)
  unfolding release_in_memory memory_remove memory_remove_prefix
  release_in_memory_frame s key s' e = (ground arith, ground arith)

  release_key_faults :
      (s : DefaultCacheImpl D) (c : DiskCache D) (t : DiskLruCache) (key : Key) (keys : List Key)
      → s.mutable_cache ≡ some c
      → c.database ≡ none
      → s.mutable_cache_lru ≡ some t
      → release_keys db dec s (key ∷ keys) ≡ none
  unfolding release_keys release_in_lru
  release_key_faults s c t key keys at_c closed at_t =
      elim (Option-cases (release_in_memory dec s key)) [
        | inl fault ↦ ground arith
        | inr (s1, done) ↦
            let (same_c, same_t) = release_in_memory_frame s key s1 done in ground arith
      ]

  -- Where the directory of an open cache with an LRU cache cannot be removed, `Clear` fails, and
  -- leaves a disk cache without a database. Every `Release` of one or more keys that then
  -- changes the list of protected keys faults: it follows the null iterator of that disk cache.
  pub release-clear_faults :
      (s : DefaultCacheImpl D) (settings : CacheSettings) (c : DiskCache D) (t : DiskLruCache)
      (opening : OpenResult × DiskCache D) (is_read_only : Bool)
      (open_protected : Bool → OpenResult × DiskCache D) (key : Key) (keys : List Key)
      → s.is_open ≡ true
      → s.mutable_cache ≡ some c
      → s.mutable_cache_lru ≡ some t
      → (ProtectedKeyList.release s.protected_keys (key ∷ keys)).1 ≡ true
      → (s' : DefaultCacheImpl D) × (clear db dec s settings
            (some false)
            opening
            is_read_only
            open_protected
          ≡ some (s', false))
        × (release db dec s' (key ∷ keys) ≡ none)
  unfolding clear clear_caches clear_disk close_disk clear_lru clear_memory_cache release
  release-clear_faults s settings c t opening is_read_only open_protected key keys opens at_c at_t
        released =
      let s1 = (clear_caches db s (some false)).0 in
      let s2 : DefaultCacheImpl D = record s1 {
        protected_keys = (ProtectedKeyList.release s.protected_keys (key ∷ keys)).0;
      } in
      let faults =
        release_key_faults s2 (close_disk db c) (Lru.clear t) key keys (ground arith) refl
          (ground arith) in
      (s1, ground arith, ground arith)
