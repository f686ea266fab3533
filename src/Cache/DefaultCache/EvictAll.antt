-- ===== src/Cache/DefaultCache/EvictAll.antt =====
-- `MaybeEvictData` of `DefaultCacheImpl`: its loops end, and leave caches that hold.
use here_data_sdk_cpp.Common.{
  ℕ, zero, suc, ◌+◌, ◌<◌, ◌≡◌, inl, inr, arith, Bool, true, false, List, Option, some, leb, ltb,
  ◌&&◌, Bool-cases,
}
use here_data_sdk_cpp.Common.Bits.{u64}
use here_data_sdk_cpp.Cache.ProtectedKeyList.{Key}
use here_data_sdk_cpp.Cache.InMemoryCache.{InMemoryCache}
use here_data_sdk_cpp.Cache.DiskCache.{
  Bytes, BatchOp, LevelDb, DiskCache, apply_batch, outcome_of, compact, compact_attempts,
}
use here_data_sdk_cpp.Cache.DefaultCache.{DefaultCacheImpl, DiskLruCache, less}
use here_data_sdk_cpp.Cache.DefaultCache.Evict.{
  Thresholds, Portion, evict_data_portion, evict_expired_data_portion, apply_portion,
  call_evict_method, eviction_target, is_left, rounds, evict_data, maybe_evict_data,
}
use here_data_sdk_cpp.Cache.DefaultCache.Parts.{Memory}
use here_data_sdk_cpp.Cache.DefaultCache.Ready.{
  holding, Ready, Evicts, evict_expired_data_portion-Evicts, evict_data_portion-Evicts,
}

module _ {D S : Type 0} (db : LevelDb D S) (dec : Discrete Key) where
  compact_database :
      (c : DiskCache D) (d : D)
      → c.database ≡ some d
      → (d' : D) × ((compact db c).database ≡ some d')
  unfolding compact
  compact_database c d opened = elim (Bool-cases c.compacting) [
    | inl busy ↦ (d, ground arith)
    | inr free ↦ (compact_attempts db 2 d, ground arith)
  ]

  pub apply_batch_lem :
      (c : DiskCache D) (d : D) (batch : List BatchOp)
      → c.database ≡ some d
      → ((apply_batch db c batch).0.database ≡ some (db.write d batch).0)
        × ((apply_batch db c batch).1 ≡ outcome_of db (db.write d batch).1)
  unfolding apply_batch
  apply_batch_lem c d batch opened = (ground arith, ground arith)

  reopened :
      (clock : ℕ → ℕ) (room n : ℕ) (base : Memory) (m : Option (InMemoryCache Bytes))
      (c c' : DiskCache D) (t : DiskLruCache) (d : D)
      → Ready dec clock room n base m c t
      → c'.database ≡ some d
      → Ready dec clock room n base m c' t
  reopened clock room n base m c c' t d h opened = record {
    memory = h.memory;
    lru = h.lru;
    database = d;
    in_memory = h.in_memory;
    within = h.within;
    in_lru = h.in_lru;
    is_room = h.is_room;
    is_database = opened;
    light = h.light;
    timely = h.timely;
    counted = h.counted;
  }

  apply_portion_lem :
      (s : DefaultCacheImpl D) (clock : ℕ → ℕ) (room n : ℕ) (base : Memory)
      (m : Option (InMemoryCache Bytes)) (c : DiskCache D) (t : DiskLruCache) (p : Portion)
      → Ready dec clock room n base m c t
      → (c' : DiskCache D) × (applied : Bool) × (apply_portion db (holding s m c t) p
          ≡ some (holding s m c' t, applied))
        × Ready dec clock room n base m c' t
  unfolding apply_portion outcome_of
  apply_portion_lem s clock room n base m c t p h =
      let d = h.database in
      let c1 = (apply_batch db c p.batch).0 in
      let (opened, is) = apply_batch_lem c d p.batch h.is_database in
      elim (Bool-cases (db.ok (db.write d p.batch).1)) [
        | inl good ↦
            let (d', compacted) = compact_database c1 (db.write d p.batch).0 opened in
            (
              compact db c1,
              true,
              ground arith,
              reopened clock room n base m c (compact db c1) t d' h compacted,
            )
        | inr bad ↦ (
          c1,
          false,
          ground arith,
          reopened clock room n base m c c1 t (db.write d p.batch).0 h opened,
        )
      ]

  -- A portion of nothing is wanted where nothing is left, and is the last one.
  some_target :
      (left portion size : ℕ)
      → 0 < portion
      → (eviction_target left portion ≡ 0 → size ≡ 0)
      → is_left (less left size) ≡ true
      → 0 < eviction_target left portion
  unfolding eviction_target is_left less
  some_target left portion size some_portion none_wanted more =
      elim (Bool-cases (ltb 0 (eviction_target left portion))) [
        | inl positive ↦ ground arith
        | inr nothing ↦
            let no_target : eviction_target left portion ≡ 0 = ground arith in
            let no_size = none_wanted no_target in
            let no_left : left ≡ 0 = ground arith in absurd (ground arith)
      ]

  -- The loop over the portions ends, whichever method evicts them.
  call_evict_method_lem :
      (fuel : ℕ) (s : DefaultCacheImpl D)
      (evict_method : ℕ → DefaultCacheImpl D → ℕ → Option (DefaultCacheImpl D × Portion))
      (clock : ℕ → ℕ) (round room n left evicted : ℕ) (base : Memory)
      (m : Option (InMemoryCache Bytes)) (c : DiskCache D) (t : DiskLruCache)
      → ((i n' target : ℕ) (m' : Option (InMemoryCache Bytes)) (c' : DiskCache D)
            (t' : DiskLruCache)
          → Ready dec clock room n' base m' c' t'
          → Evicts dec s clock room n' target base c' (evict_method i (holding s m' c' t') target))
      → 0 < s.eviction_portion
      → n < fuel
      → Ready dec clock room n base m c t
      → (m' : Option (InMemoryCache Bytes)) × (c' : DiskCache D) × (t' : DiskLruCache) × (n' : ℕ)
        × (r : ℕ × ℕ) × (call_evict_method db fuel evict_method round (holding s m c t) left evicted
            ≡ some (holding s m' c' t', r))
        × Ready dec clock room n' base m' c' t'
  unfolding call_evict_method eviction_target is_left
  call_evict_method_lem zero s evict_method clock round room n left evicted base m c t evicts
        portion le h =
      absurd (omega arith)
  call_evict_method_lem (suc fuel) s evict_method clock round room n left evicted base m c t evicts
        portion le h =
      let target = eviction_target left s.eviction_portion in
      let e = evicts round n target m c t h in
      let p = e.portion in
      let (c1, applied, done, ready) =
        apply_portion_lem s clock room e.left base e.memory_left c e.lru_left p e.ready in
      elim (Bool-cases applied) [
        | inr refused ↦
            (e.memory_left, c1, e.lru_left, e.left, (left, evicted), ground (arith, e.done), ready)
        | inl well ↦ elim (Bool-cases (leb target p.size && is_left (less left p.size))) [
          | inr ends ↦ (
            e.memory_left,
            c1,
            e.lru_left,
            e.left,
            (less left p.size, u64 (evicted + p.size)),
            ground (arith, e.done),
            ready,
          )
          | inl again ↦
              let positive : 0 < target =
                some_target left s.eviction_portion p.size portion e.none_wanted (ground arith) in
              let (m2, c2, t2, n2, r, done2, ready2) =
                call_evict_method_lem fuel s evict_method clock (round + 1) room e.left
                  (less left p.size) (u64 (evicted + p.size)) base e.memory_left c1 e.lru_left
                  evicts portion (omega (arith, e.fewer positive (ground arith))) ready in
              (m2, c2, t2, n2, r, ground (arith, e.done), ready2)
        ]
      ]

module _ {D S : Type 0} (db : LevelDb D S) (dec : Discrete Key) (thresholds : Thresholds) where
  evict_data_lem :
      (s : DefaultCacheImpl D) (clock : ℕ → ℕ) (room n left : ℕ) (base : Memory)
      (m : Option (InMemoryCache Bytes)) (c : DiskCache D) (t : DiskLruCache)
      → 0 < s.eviction_portion
      → Ready dec clock room n base m c t
      → (m' : Option (InMemoryCache Bytes)) × (c' : DiskCache D) × (t' : DiskLruCache) × (n'
          evicted : ℕ)
        × (evict_data db dec thresholds (holding s m c t) left clock
            ≡ some (holding s m' c' t', evicted))
        × Ready dec clock room n' base m' c' t'
  unfolding evict_data rounds is_left
  evict_data_lem s clock room n left base m c t portion h =
      let (m1, c1, t1, n1, r1, done1, h1) =
        call_evict_method_lem db dec (t.count + 1) s (λ i. evict_expired_data_portion dec (clock i))
          clock 0 room n left 0 base m c t
          (λ i n' target m' c' t' h'.
            evict_expired_data_portion-Evicts dec s clock i room n' target base m' c' t' h')
          portion (omega (arith, h.in_lru.0.cache.chain.counted, h.counted)) h in
      elim (Bool-cases (is_left r1.0)) [
        | inr ends ↦ (m1, c1, t1, n1, r1.1, ground (arith, done1), h1)
        | inl more ↦
            let (m2, c2, t2, n2, r2, done2, h2) =
              call_evict_method_lem db dec (t1.count + 1) s (λ i. evict_data_portion dec) clock 0
                room n1 r1.0 r1.1 base m1 c1 t1
                (λ i n' target m' c' t' h'.
                  evict_data_portion-Evicts dec s clock room n' target base m' c' t' h')
                portion (omega (arith, h1.in_lru.0.cache.chain.counted, h1.counted)) h1 in
            (m2, c2, t2, n2, r2.1, ground (arith, done1, done2), h2)
      ]

  -- `MaybeEvictData` ends with the fuel of one round per element and one more, whatever LevelDB
  -- answers to the batches and whatever the thresholds are, and leaves caches that hold elements,
  -- those of the memory cache from what it held before, with the other parts of the state as they
  -- were: for a portion above 0, caches that hold elements of a total weight and with times in
  -- range for every reading of the clock, and an open database.
  pub maybe_evict_data-Ready :
      (s : DefaultCacheImpl D) (clock : ℕ → ℕ) (room n : ℕ) (base : Memory)
      (m : Option (InMemoryCache Bytes)) (c : DiskCache D) (t : DiskLruCache)
      → 0 < s.eviction_portion
      → Ready dec clock room n base m c t
      → (m' : Option (InMemoryCache Bytes)) × (c' : DiskCache D) × (t' : DiskLruCache) × (n'
          evicted : ℕ)
        × (maybe_evict_data db dec thresholds (holding s m c t) clock
            ≡ some (holding s m' c' t', evicted))
        × Ready dec clock room n' base m' c' t'
  unfolding maybe_evict_data
  maybe_evict_data-Ready s clock room n base m c t portion h =
      elim (Bool-cases (thresholds.below_max s.mutable_cache_data_size s.max_disk_storage)) [
        | inl below ↦ (m, c, t, n, 0, ground (arith, below), h)
        | inr full ↦
            let (m', c', t', n', evicted, done, h') =
              evict_data_lem s clock room n
                (less s.mutable_cache_data_size (thresholds.min_used s.max_disk_storage)) base m c t
                portion h in
            (m', c', t', n', evicted, ground (arith, full, done), h')
      ]
