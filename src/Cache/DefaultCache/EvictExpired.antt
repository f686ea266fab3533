-- ===== src/Cache/DefaultCache/EvictExpired.antt =====
-- `EvictExpiredDataPortion` of `DefaultCacheImpl`: the elements that it evicts, from the first on.
use mathlib.Core.Path.{subst}
use mathlib.Core.List.{append_assoc}
use here_data_sdk_cpp.Common.{
  ℕ, zero, suc, ◌+◌, ◌^◌, ◌<◌, ◌≤◌, ◌≡◌, inl, inr, refl, sym, ap, ◌∙◌, arith, true, false, [], ◌∷◌,
  ◌++◌, some, length, ltb, Bool-cases,
}
use here_data_sdk_cpp.Common.Signed.{is_positive}
use here_data_sdk_cpp.Cache.ProtectedKeyList.{Key}
use here_data_sdk_cpp.Cache.Lru.Node.{head_key, remove}
use here_data_sdk_cpp.Cache.InMemoryCache.Prefix.{round_keeps, round_value}
use here_data_sdk_cpp.Cache.DefaultCache.{DefaultCacheImpl, DiskLruCache, disk_cost}
use here_data_sdk_cpp.Cache.DefaultCache.Evict.{
  Portion, no_portion, next_to_evict, evict_item, expired_loop, evict_expired_data_portion,
}
use here_data_sdk_cpp.Cache.DefaultCache.Weights.{Items, drop_item_lem}
use here_data_sdk_cpp.Cache.DefaultCache.Parts.{Memory, LruElements, MemoryHolds, LruHolds}
use here_data_sdk_cpp.Cache.DefaultCache.Sweep.{full_weights, Timely, is_expired}
use here_data_sdk_cpp.Cache.DefaultCache.Swept.{
  IsSwept, unswept, stays-IsSwept, goes-IsSwept, evict_item-Adds, first_to_evict,
}

module _ (dec : Discrete Key) where
  module _ {D : Type 0} where
    expired_loop_lem :
        (back front : Items) (fuel : ℕ) (s : DefaultCacheImpl D) (memory : Memory)
        (lru : LruElements) (t : DiskLruCache) (now target : ℕ) (p : Portion)
        → MemoryHolds dec s.memory_cache memory
        → s.mutable_cache_lru ≡ some t
        → LruHolds dec (some t) (record lru { items = front ++ back })
        → length back ≤ fuel
        → p.size + full_weights back < 2 ^ 64
        → Timely now back
        → (s' : DefaultCacheImpl D) × (p' : Portion) × (expired_loop dec fuel s now target p
              (next_to_evict (head_key back) p.size target)
            ≡ some (s', p'))
          × IsSwept dec s s' memory lru front back now target p p'
    unfolding expired_loop next_to_evict
    expired_loop_lem [] front fuel s memory lru t now target p in_memory at_t in_lru le small
          timely =
        (
          s,
          p,
          ground arith,
          unswept dec s memory lru t front [] now target p in_memory at_t in_lru refl refl,
        )
    expired_loop_lem ((k, v) ∷ l) front zero s memory lru t now target p in_memory at_t in_lru le
          small timely =
        absurd (omega arith)
    expired_loop_lem ((k, v) ∷ l) front (suc fuel) s memory lru t now target p in_memory at_t in_lru
          le small timely =
        elim (Bool-cases (ltb p.size target)) [
          | inr enough ↦ (
            s,
            p,
            ground arith,
            unswept dec s memory lru t front ((k, v) ∷ l) now target p in_memory at_t in_lru
                (rw enough refl) (rw enough refl),
          )
          | inl wanted ↦
              let (z, left) = timely.0 in
              let value =
                round_value dec disk_cost (record lru { items = front ++ (k, v) ∷ l }) t front l k v
                  in_lru.0 refl in
              let next =
                round_keeps dec disk_cost (record lru { items = front ++ (k, v) ∷ l }) t front l k v
                  in_lru.0 refl in
              elim (Bool-cases (is_positive z)) [
                | inl fresh ↦
                    let stays : is_expired now v ≡ false = ground (arith, left) in
                    let (s', p', done, h) =
                      expired_loop_lem l (front ++ (k, v) ∷ []) fuel s memory lru t now target p
                        in_memory at_t
                        (subst (λ i. LruHolds dec (some t) (record lru { items = i }))
                          (sym (append_assoc front ((k, v) ∷ []) l)) in_lru)
                        (omega arith) (omega (arith, small)) timely.1 in
                    let step : expired_loop dec (suc fuel) s now target p (some k)
                        ≡ expired_loop dec fuel s now target p
                            (next_to_evict (head_key l) p.size target) =
                      ground arith in
                    (
                      s',
                      p',
                      ap (λ it. expired_loop dec (suc fuel) s now target p it)
                            (first_to_evict k p.size target wanted)
                          ∙ step
                          ∙ done,
                      stays-IsSwept dec s s' memory lru front l k v now target p p' wanted stays h,
                    )
                | inr over ↦
                    let goes : is_expired now v ≡ true = ground (arith, left) in
                    let (m, t', dropped, memory', lru', _) =
                      drop_item_lem dec s memory (record lru { items = front ++ (k, v) ∷ l }) t
                        front k v l in_memory at_t in_lru refl in
                    let s1 : DefaultCacheImpl D = record s {
                      memory_cache = m;
                      mutable_cache_lru = some t';
                    } in
                    let p1 = evict_item p k v true in
                    let adds = evict_item-Adds p k v (omega (arith, small)) in
                    let (s', p', done, h) =
                      expired_loop_lem l front fuel s1
                        (record memory { items = remove dec k memory.items }) lru t' now target p1
                        memory' refl lru' (omega arith) (omega (arith, small, adds.size))
                        timely.1 in
                    let step : expired_loop dec (suc fuel) s now target p (some k)
                        ≡ expired_loop dec fuel s1 now target p1
                            (next_to_evict (head_key l) p1.size target) =
                      ground arith in
                    (
                      s',
                      p',
                      ap (λ it. expired_loop dec (suc fuel) s now target p it)
                            (first_to_evict k p.size target wanted)
                          ∙ step
                          ∙ done,
                      goes-IsSwept dec s s' m t' memory lru front l k v now target p p1 p' wanted
                          goes adds h,
                    )
              ]
        ]

    -- `EvictExpiredDataPortion` is a sweep of the list of elements: from the most recently used one
    -- on it evicts those whose time is over until their sizes reach the target. The LRU cache keeps
    -- the others in their order, the memory cache loses the keys of those evicted and nothing else,
    -- the batch deletes the key and the expiry key of each in that order, and their sizes and
    -- their number are counted; where the weights sum to less than 2 ^ 64 and no time overflows.
    pub evict_expired_data_portion-IsSwept :
        (s : DefaultCacheImpl D) (memory : Memory) (lru : LruElements) (t : DiskLruCache)
        (now target : ℕ)
        → MemoryHolds dec s.memory_cache memory
        → s.mutable_cache_lru ≡ some t
        → LruHolds dec (some t) lru
        → full_weights lru.items < 2 ^ 64
        → Timely now lru.items
        → (s' : DefaultCacheImpl D) × (p : Portion) × (evict_expired_data_portion dec now s target
            ≡ some (s', p))
          × IsSwept dec s s' memory lru [] lru.items now target no_portion p
    unfolding evict_expired_data_portion
    evict_expired_data_portion-IsSwept s memory lru t now target in_memory at_t in_lru small
          timely =
        let chain = in_lru.0.cache.chain in
        let (s', p, done, h) =
          expired_loop_lem lru.items [] t.count s memory lru t now target no_portion in_memory at_t
            in_lru (omega (arith, chain.counted)) (omega (arith, small)) timely in
        let start : evict_expired_data_portion dec now s target
            ≡ expired_loop dec t.count s now target no_portion (next_to_evict t.first 0 target) =
          ground arith in
        (
          s',
          p,
          start
              ∙ ap
                  (λ it.
                    expired_loop dec t.count s now target no_portion (next_to_evict it 0 target))
                  chain.first_is
              ∙ done,
          h,
        )
