-- ===== src/Cache/DefaultCache/EvictLast.antt =====
-- `EvictDataPortion` of `DefaultCacheImpl`: which elements of the LRU cache a portion evicts, and
-- what its batch deletes.
use mathlib.Core.Path.{subst}
use mathlib.Core.List.{append_assoc, append-nil}
use here_data_sdk_cpp.Common.{
  ℕ, zero, suc, ◌+◌, ◌^◌, ◌<◌, ◌≤◌, ◌≡◌, ◌⊎◌, inl, inr, refl, sym, ap, ◌∙◌, arith, [], ◌∷◌, ◌++◌,
  Option, none, some, length, ltb, Bool-cases, length-append,
}
use here_data_sdk_cpp.Cache.ProtectedKeyList.{Key}
use here_data_sdk_cpp.Cache.Lru
use here_data_sdk_cpp.Cache.Lru.Node.{lookup, remove, head_key}
use here_data_sdk_cpp.Cache.Lru.Node
use here_data_sdk_cpp.Cache.InMemoryCache.{InMemoryCache}
use here_data_sdk_cpp.Cache.DiskCache.{Bytes}
use here_data_sdk_cpp.Cache.DefaultCache.{
  DefaultCacheImpl, ValueProperties, DiskLruCache, is_expiry_valid,
}
use here_data_sdk_cpp.Cache.DefaultCache.Evict.{
  Portion, no_portion, next_to_evict, evict_item, drop_item, last_key, evict_loop,
  evict_data_portion,
}
use here_data_sdk_cpp.Cache.DefaultCache.Parts.{Memory, LruElements, MemoryHolds, LruHolds}
use here_data_sdk_cpp.Cache.DefaultCache.Weights.{
  Items, weights, tail, deletions, weights-append, ends, Gathers, evict_item-Gathers, without,
  drop_item_lem,
}

module _ (dec : Discrete Key) where
  module _ {D : Type 0} where
    -- What the loop leaves: the first elements stay, and the others are evicted from the last on,
    -- no more than the target needs.
    pub record IsEvicted (s s' : DefaultCacheImpl D) (memory : Memory) (lru : LruElements)
        (items gone : Items) (target : ℕ) (p : Portion) : Type 0 where
      pub kept : Items
      pub more : Items
      pub memory_left : Option (InMemoryCache Bytes)
      pub lru_left : DiskLruCache
      pub split : items ≡ kept ++ more
      pub state : s' ≡ record s { memory_cache = memory_left; mutable_cache_lru = some lru_left }
      pub in_memory :
          MemoryHolds dec memory_left
            (record memory { items = without dec (more ++ gone) memory.items })
      pub in_lru : LruHolds dec (some lru_left) (record lru { items = kept })
      pub size : p.size ≡ weights (more ++ gone)
      pub batch : p.batch ≡ deletions (more ++ gone)
      pub count : p.count ≡ length (more ++ gone)
      pub enough : (target ≤ p.size) ⊎ (kept ≡ [])
      pub needed : (more ≡ []) ⊎ (weights (tail (more ++ gone)) < target)

    evict_step :
        (fuel : ℕ) (s s1 : DefaultCacheImpl D) (t : DiskLruCache) (k : Key) (v : ValueProperties)
        (target : ℕ) (p : Portion)
        → s.mutable_cache_lru ≡ some t
        → Lru.value_at dec t k ≡ some v
        → drop_item dec s k ≡ some (s1, none)
        → evict_loop dec (suc fuel) s target p (some k)
          ≡ evict_loop dec fuel s1 target (evict_item p k v (is_expiry_valid v.expiry)) (
              next_to_evict
                (last_key dec s1)
                (evict_item p k v (is_expiry_valid v.expiry)).size
                target)
    unfolding evict_loop
    evict_step fuel s s1 t k v target p at_t value dropped = ground arith

    -- The element that is evicted before the others.
    last_first :
        (s s1 s' : DefaultCacheImpl D) (memory : Memory) (lru : LruElements)
        (m : Option (InMemoryCache Bytes)) (t : DiskLruCache) (items front : Items) (k : Key)
        (v : ValueProperties) (gone : Items) (target : ℕ) (p : Portion)
        → s1 ≡ record s { memory_cache = m; mutable_cache_lru = some t }
        → IsEvicted s1 s' memory lru front ((k, v) ∷ gone) target p
        → items ≡ front ++ (k, v) ∷ []
        → weights gone < target
        → IsEvicted s s' memory lru items gone target p
    last_first s s1 s' memory lru m t items front k v gone target p from h is less =
        let shift : (h.more ++ (k, v) ∷ []) ++ gone ≡ h.more ++ (k, v) ∷ gone =
          append_assoc h.more ((k, v) ∷ []) gone in
        record {
          kept = h.kept;
          more = h.more ++ (k, v) ∷ [];
          memory_left = h.memory_left;
          lru_left = h.lru_left;
          split =
              is ∙ ap (λ l. l ++ (k, v) ∷ []) h.split ∙ append_assoc h.kept h.more ((k, v) ∷ []);
          state = h.state ∙ rw from refl;
          in_memory = rw shift h.in_memory;
          in_lru = h.in_lru;
          size = rw shift h.size;
          batch = rw shift h.batch;
          count = rw shift h.count;
          enough = h.enough;
          needed =
              inr (
                rw shift (elim h.needed [ inl none_more ↦ rw none_more less | inr less' ↦ less' ]));
        }

    -- The loop stops where it is.
    stopped :
        (s : DefaultCacheImpl D) (memory : Memory) (lru : LruElements) (t : DiskLruCache)
        (items gone : Items) (target : ℕ) (p : Portion)
        → MemoryHolds dec s.memory_cache (record memory { items = without dec gone memory.items })
        → s.mutable_cache_lru ≡ some t
        → LruHolds dec (some t) (record lru { items = items })
        → Gathers p gone
        → (target ≤ p.size) ⊎ (items ≡ [])
        → IsEvicted s s memory lru items gone target p
    stopped s memory lru t items gone target p in_memory at_t in_lru has enough = record {
      kept = items;
      more = [];
      memory_left = s.memory_cache;
      lru_left = t;
      split = sym (append-nil items);
      state = ground arith;
      in_memory = in_memory;
      in_lru = in_lru;
      size = has.size;
      batch = has.batch;
      count = has.count;
      enough = enough;
      needed = inl refl;
    }

    evict_loop_lem :
        (fuel : ℕ) (s : DefaultCacheImpl D) (memory : Memory) (lru : LruElements) (t : DiskLruCache)
        (items gone : Items) (target : ℕ) (p : Portion)
        → MemoryHolds dec s.memory_cache (record memory { items = without dec gone memory.items })
        → s.mutable_cache_lru ≡ some t
        → LruHolds dec (some t) (record lru { items = items })
        → length items ≤ fuel
        → Gathers p gone
        → weights items + weights gone < 2 ^ 64
        → (s' : DefaultCacheImpl D) × (p' : Portion) × (evict_loop dec fuel s target p
              (next_to_evict (Node.last_key none items) p.size target)
            ≡ some (s', p'))
          × IsEvicted s s' memory lru items gone target p'
    unfolding evict_loop next_to_evict last_key
    evict_loop_lem fuel s memory lru t [] gone target p in_memory at_t in_lru le has small = (
      s,
      p,
      ground arith,
      stopped s memory lru t [] gone target p in_memory at_t in_lru has (inr refl),
    )
    evict_loop_lem zero s memory lru t ((q, w) ∷ l) gone target p in_memory at_t in_lru le has
          small =
        absurd (omega arith)
    evict_loop_lem (suc fuel) s memory lru t ((q, w) ∷ l) gone target p in_memory at_t in_lru le has
          small =
        elim (Bool-cases (ltb p.size target)) [
          | inr enough ↦ (
            s,
            p,
            ground arith,
            stopped s memory lru t ((q, w) ∷ l) gone target p in_memory at_t in_lru has
                (inl (ground arith)),
          )
          | inl more ↦
              let (front, k, v, is, last) = ends q w l in
              let (m, t', dropped, memory', lru', value) =
                drop_item_lem dec s (record memory { items = without dec gone memory.items })
                  (record lru { items = (q, w) ∷ l }) t front k v [] in_memory at_t in_lru is in
              let s1 : DefaultCacheImpl D = record s {
                memory_cache = m;
                mutable_cache_lru = some t';
              } in
              let p1 = evict_item p k v (is_expiry_valid v.expiry) in
              let lru2 =
                subst (λ i. LruHolds dec (some t') (record lru { items = i })) (append-nil front)
                  lru' in
              let total = ap weights is ∙ weights-append front ((k, v) ∷ []) in
              let counted = ap length is ∙ length-append front ((k, v) ∷ []) in
              let (s', p', done, h) =
                evict_loop_lem fuel s1 memory lru t' front ((k, v) ∷ gone) target p1 memory' refl
                  lru2 (omega arith)
                  (evict_item-Gathers p gone k v has (omega (arith, total, small)))
                  (omega (arith, total, small)) in
              let at_k : next_to_evict (Node.last_key (some q) l) p.size target ≡ some k =
                rw (last, more) refl in
              let step : evict_loop dec (suc fuel) s target p (some k)
                  ≡ evict_loop dec fuel s1 target p1 (next_to_evict t'.last p1.size target) =
                evict_step fuel s s1 t k v target p at_t value dropped in
              (
                s',
                p',
                ap (λ it. evict_loop dec (suc fuel) s target p it) at_k
                    ∙ step
                    ∙ ap (λ it. evict_loop dec fuel s1 target p1 (next_to_evict it p1.size target))
                        lru2.0.cache.chain.last_is
                    ∙ done,
                last_first s s1 s' memory lru m t' ((q, w) ∷ l) front k v gone target p' refl h is
                    (ground (arith, has.size)),
              )
        ]

    -- `EvictDataPortion` evicts the least recently used elements, no more of them than the
    -- target needs, and all if it is out of reach: the first elements stay in the LRU cache
    -- in their order, the others leave it and the memory cache, the batch deletes their keys
    -- and the expiry keys of those that have one, from the last element on, and the size is
    -- the sum of their weights; where the LRU cache holds elements whose weights sum to less
    -- than 2 ^ 64.
    pub evict_data_portion-IsEvicted :
        (s : DefaultCacheImpl D) (memory : Memory) (lru : LruElements) (t : DiskLruCache)
        (target : ℕ)
        → MemoryHolds dec s.memory_cache memory
        → s.mutable_cache_lru ≡ some t
        → LruHolds dec (some t) lru
        → weights lru.items < 2 ^ 64
        → (s' : DefaultCacheImpl D) × (p : Portion) × (evict_data_portion dec s target
            ≡ some (s', p))
          × IsEvicted s s' memory lru lru.items [] target p
    unfolding evict_data_portion
    evict_data_portion-IsEvicted s memory lru t target in_memory at_t in_lru small =
        let chain = in_lru.0.cache.chain in
        let (s', p, done, h) =
          evict_loop_lem t.count s memory lru t lru.items [] target no_portion in_memory at_t in_lru
            (omega (arith, chain.counted)) (record { size = refl; batch = refl; count = refl })
            (omega (arith, small)) in
        let start : evict_data_portion dec s target
            ≡ evict_loop dec t.count s target no_portion (next_to_evict t.last 0 target) =
          ground arith in
        (
          s',
          p,
          start
              ∙ ap (λ it. evict_loop dec t.count s target no_portion (next_to_evict it 0 target))
                  chain.last_is
              ∙ done,
          h,
        )
