-- ===== src/Cache/DefaultCache/Swept.antt =====
-- What the loop of `EvictExpiredDataPortion` of `DefaultCacheImpl` leaves of the elements.
use mathlib.Core.Path.{subst}
use mathlib.Core.List.{append_assoc, append-nil}
use here_data_sdk_cpp.Common.{
  ℕ, ◌+◌, ◌^◌, ◌<◌, ◌≡◌, refl, sym, ap, ◌∙◌, arith, true, false, List, [], ◌∷◌, ◌++◌, Option, some,
  length, ltb,
}
use here_data_sdk_cpp.Cache.ProtectedKeyList.{Key}
use here_data_sdk_cpp.Cache.Lru.Node.{lookup, remove, Distinct}
use here_data_sdk_cpp.Cache.Lru.Links.{Distinct-remove}
use here_data_sdk_cpp.Cache.InMemoryCache.{InMemoryCache, ItemTuple}
use here_data_sdk_cpp.Cache.DefaultCache.{
  DefaultCacheImpl, ValueProperties, DiskLruCache, create_expiry_key,
}
use here_data_sdk_cpp.Cache.DefaultCache.Evict.{Portion, next_to_evict, evict_item}
use here_data_sdk_cpp.Cache.DefaultCache.Weights.{Items}
use here_data_sdk_cpp.Cache.DiskCache.{Bytes, batch_delete}
use here_data_sdk_cpp.Cache.DefaultCache.Parts.{
  Memory, LruElements, MemoryHolds, LruHolds, lookup-removed,
}
use here_data_sdk_cpp.Cache.DefaultCache.Sweep.{
  full_weight, is_expired, sweep, swept, full_deletions,
}

pub evict_item_full :
    (p : Portion) (k : Key) (v : ValueProperties)
    → p.size + full_weight k v < 2 ^ 64
    → (evict_item p k v true).size ≡ p.size + full_weight k v
unfolding evict_item
evict_item_full p k v small = ground arith

pub first_to_evict :
    (k : Key) (size target : ℕ)
    → ltb size target ≡ true
    → next_to_evict (some k) size target ≡ some k
unfolding next_to_evict
first_to_evict k size target wanted = rw wanted refl

-- An expired item and its time are gathered.
pub record Adds (p p1 : Portion) (k : Key) (v : ValueProperties) : Type 0 where
  pub size : p1.size ≡ p.size + full_weight k v
  pub batch : p1.batch ≡ p.batch ++ batch_delete k ∷ batch_delete (create_expiry_key k) ∷ []
  pub count : p1.count ≡ p.count + 1

pub evict_item-Adds :
    (p : Portion) (k : Key) (v : ValueProperties)
    → p.size + full_weight k v < 2 ^ 64
    → Adds p (evict_item p k v true) k v
unfolding evict_item
evict_item-Adds p k v small = record {
  size = evict_item_full p k v small;
  batch = refl;
  count = refl;
}

module _ (dec : Discrete Key) where
  -- The elements of the memory cache without the keys of the items.
  abbrev pub dropped : Items → List (Key × ItemTuple Bytes) → List (Key × ItemTuple Bytes)
  dropped [] l = l
  dropped ((k, v) ∷ gone) l = dropped gone (remove dec k l)

  pub lookup-dropped :
      (gone : Items) (l : List (Key × ItemTuple Bytes)) (q : Key) (w : ItemTuple Bytes)
      → Distinct dec l
      → lookup dec q (dropped gone l) ≡ some w
      → lookup dec q l ≡ some w
  lookup-dropped [] l q w d e = e
  lookup-dropped ((k, v) ∷ gone) l q w d e =
      lookup-removed dec k q w l d
        (lookup-dropped gone (remove dec k l) q w (Distinct-remove dec k l d) e)

  module _ {D : Type 0} where
    -- What the loop leaves of the elements from the iterator on.
    pub record IsSwept (s s' : DefaultCacheImpl D) (memory : Memory) (lru : LruElements)
        (front back : Items) (now target : ℕ) (p p' : Portion) : Type 0 where
      pub memory_left : Option (InMemoryCache Bytes)
      pub lru_left : DiskLruCache
      pub state : s' ≡ record s { memory_cache = memory_left; mutable_cache_lru = some lru_left }
      pub in_memory :
          MemoryHolds dec memory_left
            (record memory { items = dropped (swept now target p.size back) memory.items })
      pub in_lru :
          LruHolds dec
            (some lru_left)
            (record lru { items = front ++ (sweep now target p.size back).0 })
      pub size : p'.size ≡ (sweep now target p.size back).1
      pub batch : p'.batch ≡ p.batch ++ full_deletions (swept now target p.size back)
      pub count : p'.count ≡ p.count + length (swept now target p.size back)

    pub unswept :
        (s : DefaultCacheImpl D) (memory : Memory) (lru : LruElements) (t : DiskLruCache)
        (front back : Items) (now target : ℕ) (p : Portion)
        → MemoryHolds dec s.memory_cache memory
        → s.mutable_cache_lru ≡ some t
        → LruHolds dec (some t) (record lru { items = front ++ back })
        → sweep now target p.size back ≡ (back, p.size)
        → swept now target p.size back ≡ []
        → IsSwept s s memory lru front back now target p p
    unswept s memory lru t front back now target p in_memory at_t in_lru same none_gone = record {
      memory_left = s.memory_cache;
      lru_left = t;
      state = ground arith;
      in_memory = rw none_gone in_memory;
      in_lru = rw same in_lru;
      size = rw same refl;
      batch = rw none_gone (sym (append-nil p.batch));
      count = rw none_gone (omega arith);
    }

    -- The sweep of a list from the sweep of its tail: the first element stays, or is evicted.
    pub stays-IsSwept :
        (s s' : DefaultCacheImpl D) (memory : Memory) (lru : LruElements) (front l : Items)
        (k : Key) (v : ValueProperties) (now target : ℕ) (p p' : Portion)
        → ltb p.size target ≡ true
        → is_expired now v ≡ false
        → IsSwept s s' memory lru (front ++ (k, v) ∷ []) l now target p p'
        → IsSwept s s' memory lru front ((k, v) ∷ l) now target p p'
    stays-IsSwept s s' memory lru front l k v now target p p' wanted stays h = record {
      memory_left = h.memory_left;
      lru_left = h.lru_left;
      state = h.state;
      in_memory = rw (wanted, stays) h.in_memory;
      in_lru =
          rw (wanted, stays)
            (subst (λ i. LruHolds dec (some h.lru_left) (record lru { items = i }))
              (append_assoc front ((k, v) ∷ []) (sweep now target p.size l).0) h.in_lru);
      size = rw (wanted, stays) h.size;
      batch = rw (wanted, stays) h.batch;
      count = rw (wanted, stays) h.count;
    }

    pub goes-IsSwept :
        (s s' : DefaultCacheImpl D) (m : Option (InMemoryCache Bytes)) (t : DiskLruCache)
        (memory : Memory) (lru : LruElements) (front l : Items) (k : Key) (v : ValueProperties)
        (now target : ℕ) (p p1 p' : Portion)
        → ltb p.size target ≡ true
        → is_expired now v ≡ true
        → Adds p p1 k v
        → IsSwept
            (record s { memory_cache = m; mutable_cache_lru = some t })
            s'
            (record memory { items = remove dec k memory.items })
            lru
            front
            l
            now
            target
            p1
            p'
        → IsSwept s s' memory lru front ((k, v) ∷ l) now target p p'
    goes-IsSwept s s' m t memory lru front l k v now target p p1 p' wanted goes adds h =
        let more = swept now target (p.size + full_weight k v) l in
        let same : swept now target p1.size l ≡ more = ap (λ n. swept now target n l) adds.size in
        record {
          memory_left = h.memory_left;
          lru_left = h.lru_left;
          state = h.state;
          in_memory =
              rw (wanted, goes)
                (subst
                  (λ g.
                    MemoryHolds dec h.memory_left
                      (record memory { items = dropped g (remove dec k memory.items) }))
                  same h.in_memory);
          in_lru =
              rw (wanted, goes)
                (subst
                  (λ n.
                    LruHolds dec (some h.lru_left)
                      (record lru { items = front ++ (sweep now target n l).0 }))
                  adds.size h.in_lru);
          size = rw (wanted, goes) (h.size ∙ ap (λ n. (sweep now target n l).1) adds.size);
          batch =
              rw (wanted, goes)
                (h.batch
                  ∙ ap (λ g. p1.batch ++ full_deletions g) same
                  ∙ ap (λ b. b ++ full_deletions more) adds.batch
                  ∙ append_assoc p.batch (batch_delete k ∷ batch_delete (create_expiry_key k) ∷ [])
                      (full_deletions more));
          count = rw (wanted, goes) (omega (arith, h.count, ap length same, adds.count));
        }
