-- ===== src/Cache/DefaultCache/Parts.antt =====
-- The memory cache and the LRU cache of `DefaultCacheImpl` as lists of elements, and what the calls
-- that `DefaultCacheImpl` makes of them leave.
use mathlib.Core.Path.{subst}
use here_data_sdk_cpp.Common.{
  ℕ, zero, suc, ◌^◌, ◌<◌, ◌≤◌, ◌≡◌, refl, sym, ap, ◌∙◌, arith, Bool, false, List, [], ◌∷◌, ◌++◌,
  Option, none, some, length, Option-cases, Bool-cases, inl, inr,
}
use mathlib.Core.List.{append_assoc}
use here_data_sdk_cpp.Cache.ProtectedKeyList.{Key}
use here_data_sdk_cpp.Cache.Lru.Node.{
  lookup, remove, head_key, Distinct, lookup-remove_self, lookup-remove_ne,
}
use here_data_sdk_cpp.Cache.Lru.Model.{Elements, Refines}
use here_data_sdk_cpp.Cache.Lru.Lookups.{erase-Refines}
use here_data_sdk_cpp.Cache.InMemoryCache
use here_data_sdk_cpp.Cache.InMemoryCache.{InMemoryCache, ItemTuple, default_cache_cost, has_prefix}
use here_data_sdk_cpp.Cache.InMemoryCache.Purge.{IsMemory}
use here_data_sdk_cpp.Cache.InMemoryCache.Prefix.{
  staying, round_erases, round_keeps, remove_keys_with_prefix-staying,
}
use here_data_sdk_cpp.Cache.DiskCache.{Bytes}
use here_data_sdk_cpp.Cache.DefaultCache.{
  DefaultCacheImpl, ValueProperties, DiskLruCache, disk_cost, memory_remove, memory_remove_prefix,
  remove_key_lru, remove_keys_with_prefix_lru, lru_prefix_round, lru_prefix_loop,
}

abbrev pub Memory : Type 0
Memory = Elements Key (ItemTuple Bytes)

abbrev pub LruElements : Type 0
LruElements = Elements Key ValueProperties

abbrev pub without_filter : Key → Bool
without_filter key = false

module _ (dec : Discrete Key) where
  -- The elements of a cache that may not be there.
  abbrev pub MemoryHolds : Option (InMemoryCache Bytes) → Memory → Type 0
  MemoryHolds none e = e.items ≡ []
  MemoryHolds (some m) e = IsMemory dec default_cache_cost e m × (e.room < 2 ^ 64)

  abbrev pub LruHolds : Option DiskLruCache → LruElements → Type 0
  LruHolds none e = e.items ≡ []
  LruHolds (some lru) e = Refines dec disk_cost e lru × (e.room < 2 ^ 64)

  -- The elements of the second are elements of the first, and the bound is the same.
  abbrev pub Within : Memory → Memory → Type 0
  Within m m' =
      (m'.room ≡ m.room)
      × ((q : Key) (w : ItemTuple Bytes)
          → lookup dec q m'.items ≡ some w
          → lookup dec q m.items ≡ some w)

  pub MemoryHolds-Distinct :
      (m : Option (InMemoryCache Bytes)) (e : Memory) → MemoryHolds m e → Distinct dec e.items
  MemoryHolds-Distinct none e h = subst (Distinct dec) (sym h) tt
  MemoryHolds-Distinct (some m) e h = h.0.refines.cache.chain.distinct

  pub lookup-removed :
      (k q : Key) (w : ItemTuple Bytes) (l : List (Key × ItemTuple Bytes))
      → Distinct dec l
      → lookup dec q (remove dec k l) ≡ some w
      → lookup dec q l ≡ some w
  lookup-removed k q w l d e =
      ground (arith, lookup-remove_self dec k l, lookup-remove_ne dec k q l)

  erased :
      (m : InMemoryCache Bytes) (e : Memory) (key : Key)
      → IsMemory dec default_cache_cost e m
      → e.room < 2 ^ 64
      → (m' : InMemoryCache Bytes) × (r : Bool) × (InMemoryCache.remove dec default_cache_cost m key
          ≡ some (m', r))
        × IsMemory dec default_cache_cost (record e { items = remove dec key e.items }) m'
  unfolding InMemoryCache.remove
  erased m e key h small =
      let (tuples, r, done, h') =
        erase-Refines dec default_cache_cost e m.item_tuples key h.refines small in
      (
        record m { item_tuples = tuples },
        r,
        rw done refl,
        record { refines = h'; ordered = h.ordered },
      )

  module _ {D : Type 0} where
    pub memory_remove-MemoryHolds :
        (s : DefaultCacheImpl D) (e : Memory) (key : Key)
        → MemoryHolds s.memory_cache e
        → (m : Option (InMemoryCache Bytes)) × (r : Bool) × (memory_remove dec s key
            ≡ some (record s { memory_cache = m }, r))
          × MemoryHolds m (record e { items = remove dec key e.items })
    unfolding memory_remove
    memory_remove-MemoryHolds s e key h = elim (Option-cases s.memory_cache) [
      | inl gone ↦
          let empty = subst (λ m. MemoryHolds m e) gone h in
          let step : memory_remove dec s key ≡ some (s, false) = ground arith in
          (
            s.memory_cache,
            false,
            step,
            subst (λ m. MemoryHolds m (record e { items = remove dec key e.items })) (sym gone)
                (ap (remove dec key) empty),
          )
      | inr (m, at_m) ↦
          let (held, small) = subst (λ m. MemoryHolds m e) at_m h in
          let (m', r, done, h') = erased m e key held small in
          (some m', r, rw (memory_remove, at_m, done) refl, (h', small))
    ]

    pub memory_remove_prefix-MemoryHolds :
        (s : DefaultCacheImpl D) (e : Memory) (key : Key) (filter : Key → Bool)
        → MemoryHolds s.memory_cache e
        → (m : Option (InMemoryCache Bytes)) × (memory_remove_prefix dec s key filter
            ≡ some (record s { memory_cache = m }))
          × MemoryHolds m (record e { items = staying key filter e.items })
    unfolding memory_remove_prefix
    memory_remove_prefix-MemoryHolds s e key filter h = elim (Option-cases s.memory_cache) [
      | inl gone ↦
          let empty = subst (λ m. MemoryHolds m e) gone h in
          let step : memory_remove_prefix dec s key filter ≡ some s = ground arith in
          (
            s.memory_cache,
            step,
            subst (λ m. MemoryHolds m (record e { items = staying key filter e.items })) (sym gone)
                (ap (staying key filter) empty),
          )
      | inr (m, at_m) ↦
          let (held, small) = subst (λ m. MemoryHolds m e) at_m h in
          let (m', done, h', _) =
            remove_keys_with_prefix-staying dec default_cache_cost e m key filter held small in
          (some m', rw (memory_remove_prefix, at_m, done) refl, (h', small))
    ]

    pub remove_key_lru-LruHolds :
        (s : DefaultCacheImpl D) (e : LruElements) (key : Key)
        → LruHolds s.mutable_cache_lru e
        → (lru : Option DiskLruCache) × (r : Bool) × (remove_key_lru dec s key
            ≡ some (record s { mutable_cache_lru = lru }, r))
          × LruHolds lru (record e { items = remove dec key e.items })
    unfolding remove_key_lru
    remove_key_lru-LruHolds s e key h = elim (Option-cases s.mutable_cache_lru) [
      | inl gone ↦
          let empty = subst (λ m. LruHolds m e) gone h in
          let step : remove_key_lru dec s key ≡ some (s, false) = ground arith in
          (
            s.mutable_cache_lru,
            false,
            step,
            subst (λ m. LruHolds m (record e { items = remove dec key e.items })) (sym gone)
                (ap (remove dec key) empty),
          )
      | inr (m, at_m) ↦
          let (held, small) = subst (λ m. LruHolds m e) at_m h in
          let (m', r, done, h') = erase-Refines dec disk_cost e m key held small in
          (some m', r, rw (remove_key_lru, at_m, done) refl, (h', small))
    ]

  lru_prefix_loop_lem :
      (back front : List (Key × ValueProperties)) (fuel : ℕ) (e : LruElements) (lru : DiskLruCache)
      (key : Key)
      → Refines dec disk_cost e lru
      → e.room < 2 ^ 64
      → e.items ≡ front ++ back
      → length back ≤ fuel
      → (lru' : DiskLruCache) × (lru_prefix_loop dec fuel lru key (head_key back) ≡ some lru')
        × Refines dec disk_cost (record e { items = front ++ staying key without_filter back }) lru'
  unfolding lru_prefix_loop lru_prefix_round
  lru_prefix_loop_lem [] front fuel e lru p h small is le =
      (lru, refl, subst (λ l. Refines dec disk_cost (record e { items = l }) lru) is h)
  lru_prefix_loop_lem ((k, v) ∷ back) front zero e lru p h small is le = absurd (omega arith)
  lru_prefix_loop_lem ((k, v) ∷ back) front (suc fuel) e lru p h small is le =
      elim (Bool-cases (has_prefix k p)) [
        | inl goes ↦
            let (t1, done1, h1) = round_erases dec disk_cost e lru front back k v h small is in
            let (t2, done2, h2) =
              lru_prefix_loop_lem back front fuel (record e { items = front ++ back }) t1 p h1 small
                refl (omega arith) in
            (t2, rw (goes, done1) done2, rw goes h2)
        | inr stays ↦
            let next = round_keeps dec disk_cost e lru front back k v h is in
            let (t2, done2, h2) =
              lru_prefix_loop_lem back (front ++ (k, v) ∷ []) fuel e lru p h small
                (is ∙ sym (append_assoc front ((k, v) ∷ []) back)) (omega arith) in
            (
              t2,
              rw (stays, next) done2,
              rw stays (
                  subst (λ l. Refines dec disk_cost (record e { items = l }) t2)
                    (append_assoc front ((k, v) ∷ []) (staying p without_filter back)) h2),
            )
      ]

  module _ {D : Type 0} where
    pub remove_keys_with_prefix_lru-LruHolds :
        (s : DefaultCacheImpl D) (e : LruElements) (key : Key)
        → LruHolds s.mutable_cache_lru e
        → (lru : Option DiskLruCache) × (remove_keys_with_prefix_lru dec s key
            ≡ some (record s { mutable_cache_lru = lru }))
          × LruHolds lru (record e { items = staying key without_filter e.items })
    unfolding remove_keys_with_prefix_lru
    remove_keys_with_prefix_lru-LruHolds s e key h = elim (Option-cases s.mutable_cache_lru) [
      | inl gone ↦
          let empty = subst (λ m. LruHolds m e) gone h in
          let step : remove_keys_with_prefix_lru dec s key ≡ some s = ground arith in
          (
            s.mutable_cache_lru,
            step,
            subst (λ m. LruHolds m (record e { items = staying key without_filter e.items }))
                (sym gone) (ap (staying key without_filter) empty),
          )
      | inr (m, at_m) ↦
          let (held, small) = subst (λ m. LruHolds m e) at_m h in
          let chain = held.cache.chain in
          let (m', done, h') =
            lru_prefix_loop_lem e.items [] m.count e m key held small refl
              (omega (arith, chain.counted)) in
          (
            some m',
            rw
                (
                  remove_keys_with_prefix_lru,
                  at_m,
                  ap (lru_prefix_loop dec m.count m key) chain.first_is ∙ done,
                )
                refl,
            (h', small),
          )
    ]
