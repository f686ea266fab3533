-- ===== src/Cache/DefaultCache/Protection.antt =====
-- `Protect` of `DefaultCacheImpl` and the LRU cache.
use here_data_sdk_cpp.Common.{
  ◌≡◌, ◌≢◌, refl, ◌∙◌, arith, Bool, true, [], ◌∷◌, none, some, if◌then◌else◌,
}
use here_data_sdk_cpp.Cache.ProtectedKeyList
use here_data_sdk_cpp.Cache.ProtectedKeyList.{Key, is_protected, starts_with, is_equal_or_prefix}
use here_data_sdk_cpp.Cache.ProtectedKeyList.Order.{is_equal_or_prefix_lem}
use here_data_sdk_cpp.Cache.ProtectedKeyList.Change.{is_protected-protect}
use here_data_sdk_cpp.Cache.ProtectedKeyList.Protected.{Sorted, has_prefix}
use here_data_sdk_cpp.Cache.Lru
use here_data_sdk_cpp.Cache.Lru.Node.{lookup, remove, lookup-remove_ne}
use here_data_sdk_cpp.Cache.Lru.Simulate.{present, erase_at-Refines}
use here_data_sdk_cpp.Cache.InMemoryCache.{clear_memory}
use here_data_sdk_cpp.Cache.DiskCache.{DiskCache}
use here_data_sdk_cpp.Cache.DefaultCache.{
  DefaultCacheImpl, ValueProperties, DiskLruCache, disk_cost, remove_key_lru,
}
use here_data_sdk_cpp.Cache.DefaultCache.Calls.{protect_in_lru, protect}
use here_data_sdk_cpp.Cache.DefaultCache.Parts.{LruElements, LruHolds}

module _ {D : Type 0} (dec : Discrete Key) where
  -- Where the LRU cache has a key and a longer key that starts with it, `Protect` of the
  -- shorter key takes only that key out of the LRU cache: the longer one is protected as well
  -- and stays in the LRU cache, from which elements are evicted. The list of protected keys is
  -- in order, the key is protected by this call, the cache has a mutable cache, and the LRU
  -- cache holds elements.
  pub protect_keeps_extension :
      (s : DefaultCacheImpl D) (c : DiskCache D) (lru : LruElements) (t : DiskLruCache) (k q : Key)
      (v w : ValueProperties)
      → Sorted s.protected_keys.protected_data
      → s.mutable_cache ≡ some c
      → s.mutable_cache_lru ≡ some t
      → LruHolds dec (some t) lru
      → (ProtectedKeyList.protect s.protected_keys (k ∷ [])).1.0 ≡ k ∷ []
      → lookup dec k lru.items ≡ some v
      → lookup dec q lru.items ≡ some w
      → k ≢ q
      → starts_with k q ≡ true
      → (s' : DefaultCacheImpl D) × (t' : DiskLruCache) × (r : Bool) × (protect dec s (k ∷ [])
          ≡ some (s', r))
        × (s'.mutable_cache_lru ≡ some t')
        × LruHolds dec (some t') (record lru { items = remove dec k lru.items })
        × (lookup dec q (remove dec k lru.items) ≡ some w)
        × (is_protected s'.protected_keys q ≡ true)
  unfolding protect protect_in_lru remove_key_lru Lru.erase has_prefix
  protect_keeps_extension s c lru t k q v w sorted at_c at_t h newly at_k at_q apart extends =
      let (b, there, _, _) = present dec disk_cost lru t k v h.0 at_k in
      let (t', erased, h') = erase_at-Refines dec disk_cost lru t k v h.0 h.1 at_k in
      let done = ProtectedKeyList.protect s.protected_keys (k ∷ []) in
      let removed : remove_key_lru dec s k ≡ some (record s { mutable_cache_lru = some t' }, true) =
        ground arith in
      let s1 : DefaultCacheImpl D = record s { mutable_cache_lru = some t' } in
      let in_lru : protect_in_lru dec s (k ∷ []) ≡ some s1 = ground (arith, removed) in
      let s' : DefaultCacheImpl D = record s1 {
        protected_keys = done.0;
        memory_cache = elim s1.memory_cache [
          | none ↦ none
          | some m ↦ some (if done.1.1 then clear_memory m else m)
        ];
      } in
      (
        s',
        t',
        done.1.1,
        ground (arith, in_lru, newly),
        refl,
        (h', h.1),
        lookup-remove_ne dec k q lru.items apart ∙ at_q,
        is_protected-protect s.protected_keys (k ∷ []) q sorted
            ∙ ground (arith, is_equal_or_prefix_lem k q),
      )
