-- ===== src/Cache/DefaultCache/Weights.antt =====
-- What the eviction of elements counts and gathers in its batch, and how an element leaves the
-- caches.
use here_data_sdk_cpp.Common.{
  ℕ, ◌+◌, ◌^◌, ◌<◌, ◌≡◌, refl, ap, arith, List, [], ◌∷◌, ◌++◌, Option, some, length, if◌then◌else◌,
}
use here_data_sdk_cpp.Cache.ProtectedKeyList.{Key}
use here_data_sdk_cpp.Cache.Lru
use here_data_sdk_cpp.Cache.Lru.Node.{lookup, remove, head_key, Distinct}
use here_data_sdk_cpp.Cache.Lru.Links.{Distinct-remove}
use here_data_sdk_cpp.Cache.Lru.Node
use here_data_sdk_cpp.Cache.InMemoryCache.{InMemoryCache, ItemTuple}
use here_data_sdk_cpp.Cache.InMemoryCache.Prefix.{round_erases, round_value}
use here_data_sdk_cpp.Cache.DiskCache.{Bytes, BatchOp, batch_delete}
use here_data_sdk_cpp.Cache.DefaultCache.{
  DefaultCacheImpl, ValueProperties, DiskLruCache, expiry_value_size, create_expiry_key,
  is_expiry_valid, disk_cost,
}
use here_data_sdk_cpp.Cache.DefaultCache.Evict.{Portion, evict_item, drop_item}
use here_data_sdk_cpp.Cache.DefaultCache.Parts.{
  Memory, LruElements, MemoryHolds, LruHolds, memory_remove-MemoryHolds, lookup-removed,
}

abbrev pub Items : Type 0
Items = List (Key × ValueProperties)

-- What the eviction of an item counts, and the records that it adds to the batch.
abbrev pub weight : Key → ValueProperties → ℕ
weight k v =
    length k
    + v.size
    + (if is_expiry_valid v.expiry then length (create_expiry_key k) + expiry_value_size else 0)

abbrev pub weights : Items → ℕ
weights [] = 0
weights ((k, v) ∷ l) = weight k v + weights l

abbrev pub tail : Items → Items
tail [] = []
tail (i ∷ l) = l

abbrev pub records : Key → ValueProperties → List BatchOp
records k v =
    batch_delete k
    ∷ (if is_expiry_valid v.expiry then batch_delete (create_expiry_key k) ∷ [] else [])

-- The last elements are evicted first.
abbrev pub deletions : Items → List BatchOp
deletions [] = []
deletions ((k, v) ∷ l) = deletions l ++ records k v

pub weights-append : (l m : Items) → weights (l ++ m) ≡ weights l + weights m
weights-append [] m = omega arith
weights-append ((k, v) ∷ l) m = omega (arith, weights-append l m)

-- The last element of a list that is not empty.
pub ends :
    (p : Key) (w : ValueProperties) (l : Items)
    → (front : Items) × (k : Key) × (v : ValueProperties) × ((p, w) ∷ l ≡ front ++ (k, v) ∷ [])
      × (Node.last_key (some p) l ≡ some k)
ends p w [] = ([], p, w, refl, refl)
ends p w ((k, v) ∷ l) =
    let (front, j, u, is, last) = ends k v l in
    ((p, w) ∷ front, j, u, ap (λ m. (p, w) ∷ m) is, last)

-- What a portion has gathered for the elements that are gone, the latest first.
pub record Gathers (p : Portion) (gone : Items) : Type 0 where
  pub size : p.size ≡ weights gone
  pub batch : p.batch ≡ deletions gone
  pub count : p.count ≡ length gone

pub evict_item-Gathers :
    (p : Portion) (gone : Items) (k : Key) (v : ValueProperties)
    → Gathers p gone
    → weight k v + weights gone < 2 ^ 64
    → Gathers (evict_item p k v (is_expiry_valid v.expiry)) ((k, v) ∷ gone)
unfolding evict_item
evict_item-Gathers p gone k v h small = record {
  size = ground (arith, h.size);
  batch = ap (λ b. b ++ records k v) h.batch;
  count = omega (arith, h.count);
}

module _ (dec : Discrete Key) where
  -- The elements of the memory cache without the keys that are gone.
  abbrev pub without : Items → List (Key × ItemTuple Bytes) → List (Key × ItemTuple Bytes)
  without [] l = l
  without ((k, v) ∷ gone) l = remove dec k (without gone l)

  pub lookup-without :
      (gone : Items) (l : List (Key × ItemTuple Bytes))
      → Distinct dec l
      → Distinct dec (without gone l)
        × ((q : Key) (w : ItemTuple Bytes)
            → lookup dec q (without gone l) ≡ some w
            → lookup dec q l ≡ some w)
  lookup-without [] l d = (d, λ q w e. e)
  lookup-without ((k, v) ∷ gone) l d =
      let (d', before) = lookup-without gone l d in
      (
        Distinct-remove dec k (without gone l) d',
        λ q w e. before q w (lookup-removed dec k q w (without gone l) d' e),
      )

  module _ {D : Type 0} where
    pub drop_item_lem :
        (s : DefaultCacheImpl D) (memory : Memory) (lru : LruElements) (t : DiskLruCache)
        (front : Items) (k : Key) (v : ValueProperties) (back : Items)
        → MemoryHolds dec s.memory_cache memory
        → s.mutable_cache_lru ≡ some t
        → LruHolds dec (some t) lru
        → lru.items ≡ front ++ (k, v) ∷ back
        → (m : Option (InMemoryCache Bytes)) × (t' : DiskLruCache) × (drop_item dec s k
            ≡ some (record s { memory_cache = m; mutable_cache_lru = some t' }, head_key back))
          × MemoryHolds dec m (record memory { items = remove dec k memory.items })
          × LruHolds dec (some t') (record lru { items = front ++ back })
          × (Lru.value_at dec t k ≡ some v)
    unfolding drop_item
    drop_item_lem s memory lru t front k v back in_memory at_t in_lru is =
        let (m, r, done1, memory') = memory_remove-MemoryHolds dec s memory k in_memory in
        let (t', done2, h) = round_erases dec disk_cost lru t front back k v in_lru.0 in_lru.1 is in
        (
          m,
          t',
          ground arith,
          memory',
          (h, in_lru.1),
          round_value dec disk_cost lru t front back k v in_lru.0 is,
        )
