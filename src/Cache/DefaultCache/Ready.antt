-- ===== src/Cache/DefaultCache/Ready.antt =====
-- What a state of `DefaultCacheImpl` holds while it evicts, and that each of the two methods of
-- eviction keeps it.
use mathlib.Core.Path.{subst}
use mathlib.Core.List.{append-nil}
use here_data_sdk_cpp.Common.{
  ℕ, ◌+◌, ◌^◌, ◌<◌, ◌≤◌, ◌≡◌, inl, inr, refl, ap, ◌∙◌, arith, [], ◌∷◌, ◌++◌, Option, some, length,
  length-append,
}
use here_data_sdk_cpp.Cache.ProtectedKeyList.{Key}
use here_data_sdk_cpp.Cache.InMemoryCache.{InMemoryCache}
use here_data_sdk_cpp.Cache.DiskCache.{Bytes, DiskCache}
use here_data_sdk_cpp.Cache.DefaultCache.{DefaultCacheImpl, DiskLruCache}
use here_data_sdk_cpp.Cache.DefaultCache.Evict.{
  Portion, evict_data_portion, evict_expired_data_portion,
}
use here_data_sdk_cpp.Cache.DefaultCache.EvictLast.{evict_data_portion-IsEvicted}
use here_data_sdk_cpp.Cache.DefaultCache.Weights.{Items, weights, without, lookup-without}
use here_data_sdk_cpp.Cache.DefaultCache.EvictExpired.{evict_expired_data_portion-IsSwept}
use here_data_sdk_cpp.Cache.DefaultCache.Sweep.{
  length-sweep, sweep_fewer, full_weights-sweep, Timely-sweep,
}
use here_data_sdk_cpp.Cache.DefaultCache.Sweep.{full_weights, Timely, sweep, swept, sweep_none}
use here_data_sdk_cpp.Cache.DefaultCache.Swept.{dropped, lookup-dropped}
use here_data_sdk_cpp.Cache.DefaultCache.Parts.{
  Memory, LruElements, MemoryHolds, LruHolds, Within, MemoryHolds-Distinct,
}

-- The state with other caches in place of its own.
abbrev pub holding :
    {D : Type 0}
    → DefaultCacheImpl D
    → Option (InMemoryCache Bytes)
    → DiskCache D
    → DiskLruCache
    → DefaultCacheImpl D
holding s m c t = record s { memory_cache = m; mutable_cache = some c; mutable_cache_lru = some t }

module _ {D : Type 0} (dec : Discrete Key) where
  -- The caches hold elements, those of the memory cache from `base` and `n` in the LRU cache,
  -- and the database is open; the times of the LRU cache are in range for each reading of the clock.
  pub record Ready (clock : ℕ → ℕ) (room n : ℕ) (base : Memory) (m : Option (InMemoryCache Bytes))
      (c : DiskCache D) (t : DiskLruCache) : Type 0 where
    pub memory : Memory
    pub lru : LruElements
    pub database : D
    pub in_memory : MemoryHolds dec m memory
    pub within : Within dec base memory
    pub in_lru : LruHolds dec (some t) lru
    pub is_room : lru.room ≡ room
    pub is_database : c.database ≡ some database
    pub light : full_weights lru.items < 2 ^ 64
    pub timely : (i : ℕ) → Timely (clock i) lru.items
    pub counted : length lru.items ≡ n

  -- What a portion does, whichever method evicts it.
  pub record Evicts (s : DefaultCacheImpl D) (clock : ℕ → ℕ) (room n target : ℕ) (base : Memory)
      (c : DiskCache D) (result : Option (DefaultCacheImpl D × Portion)) : Type 0 where
    pub memory_left : Option (InMemoryCache Bytes)
    pub lru_left : DiskLruCache
    pub portion : Portion
    pub left : ℕ
    pub done : result ≡ some (holding s memory_left c lru_left, portion)
    pub ready : Ready clock room left base memory_left c lru_left
    pub no_more : left ≤ n
    pub fewer : 0 < target → target ≤ portion.size → left < n
    pub none_wanted : target ≡ 0 → portion.size ≡ 0

  pub evict_expired_data_portion-Evicts :
      (s : DefaultCacheImpl D) (clock : ℕ → ℕ) (i room n target : ℕ) (base : Memory)
      (m : Option (InMemoryCache Bytes)) (c : DiskCache D) (t : DiskLruCache)
      → Ready clock room n base m c t
      → Evicts s clock room n target base c
          (evict_expired_data_portion dec (clock i) (holding s m c t) target)
  evict_expired_data_portion-Evicts s clock i room n target base m c t h =
      let now = clock i in
      let (s', p, done, gone) =
        evict_expired_data_portion-IsSwept dec (holding s m c t) h.memory h.lru t (clock i) target
          h.in_memory refl h.in_lru h.light (h.timely i) in
      record {
        memory_left = gone.memory_left;
        lru_left = gone.lru_left;
        portion = p;
        left = length (sweep now target 0 h.lru.items).0;
        done = done ∙ rw gone.state refl;
        ready = record {
          memory = record (h.memory) {
            items = dropped dec (swept now target 0 h.lru.items) h.memory.items;
          };
          lru = record (h.lru) { items = (sweep now target 0 h.lru.items).0 };
          database = h.database;
          in_memory = gone.in_memory;
          within = (
            h.within.0,
            λ q w e. h.within.1 q w (
                lookup-dropped dec (swept now target 0 h.lru.items) h.memory.items q w
                  (MemoryHolds-Distinct dec m h.memory h.in_memory) e),
          );
          in_lru = gone.in_lru;
          is_room = h.is_room;
          is_database = h.is_database;
          light = omega (arith, full_weights-sweep now target 0 h.lru.items, h.light);
          timely = λ j. Timely-sweep (clock j) now target 0 h.lru.items (h.timely j);
          counted = refl;
        };
        no_more = omega (arith, length-sweep now target 0 h.lru.items, h.counted);
        fewer = λ some_wanted enough.
            omega
              (arith, sweep_fewer now target 0 h.lru.items (omega (arith, gone.size)), h.counted);
        none_wanted = λ none. gone.size ∙ sweep_none now target 0 h.lru.items (omega (arith, none));
      }

full_weights-append : (l m : Items) → full_weights (l ++ m) ≡ full_weights l + full_weights m
full_weights-append [] m = omega arith
full_weights-append ((k, v) ∷ l) m = omega (arith, full_weights-append l m)

weights-full_weights : (l : Items) → weights l ≤ full_weights l
weights-full_weights [] = omega arith
weights-full_weights ((k, v) ∷ l) = ground (arith, weights-full_weights l)

Timely-append : (now : ℕ) (l m : Items) → Timely now (l ++ m) → Timely now l
Timely-append now [] m h = tt
Timely-append now ((k, v) ∷ l) m h = (h.0, Timely-append now l m h.1)

-- Items that weigh something are some.
weights-length : (l : Items) → 0 < weights l → 0 < length l
weights-length [] h = h
weights-length (i ∷ l) h = omega arith

module _ {D : Type 0} (dec : Discrete Key) where
  pub evict_data_portion-Evicts :
      (s : DefaultCacheImpl D) (clock : ℕ → ℕ) (room n target : ℕ) (base : Memory)
      (m : Option (InMemoryCache Bytes)) (c : DiskCache D) (t : DiskLruCache)
      → Ready dec clock room n base m c t
      → Evicts dec s clock room n target base c (evict_data_portion dec (holding s m c t) target)
  evict_data_portion-Evicts s clock room n target base m c t h =
      let (s', p, done, gone) =
        evict_data_portion-IsEvicted dec (holding s m c t) h.memory h.lru t target h.in_memory refl
          h.in_lru (omega (arith, weights-full_weights h.lru.items, h.light)) in
      let weight = ap full_weights gone.split ∙ full_weights-append gone.kept gone.more in
      let before =
        lookup-without dec (gone.more ++ []) h.memory.items
          (MemoryHolds-Distinct dec m h.memory h.in_memory) in
      let number = ap length gone.split ∙ length-append gone.kept gone.more in
      record {
        memory_left = gone.memory_left;
        lru_left = gone.lru_left;
        portion = p;
        left = length gone.kept;
        done = done ∙ rw gone.state refl;
        ready = record {
          memory = record (h.memory) { items = without dec (gone.more ++ []) h.memory.items };
          lru = record (h.lru) { items = gone.kept };
          database = h.database;
          in_memory = gone.in_memory;
          within = (h.within.0, λ q w e. h.within.1 q w (before.1 q w e));
          in_lru = gone.in_lru;
          is_room = h.is_room;
          is_database = h.is_database;
          light = omega (arith, weight, h.light);
          timely = λ j.
              Timely-append (clock j) gone.kept gone.more
                (subst (Timely (clock j)) gone.split (h.timely j));
          counted = refl;
        };
        no_more = omega (arith, number, h.counted);
        fewer = λ some_wanted enough. omega (
          arith,
          number,
          h.counted,
          weights-length gone.more (omega (arith, gone.size, ap weights (append-nil gone.more))),
        );
        none_wanted = λ none. elim gone.needed [
          | inl none_more ↦ gone.size ∙ rw none_more refl
          | inr less ↦ absurd (omega (arith, less, none))
        ];
      }
