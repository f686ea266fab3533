-- ===== src/Cache/DefaultCache/MemoryCalls.antt =====
-- What `Put` and `Get` of the memory cache do in the calls of `DefaultCacheImpl`, if there is one.
use mathlib.Core.Path.{subst}
use here_data_sdk_cpp.Common.{
  ℕ, ◌+◌, ◌^◌, ◌<◌, ◌≤◌, ◌≡◌, ◌⊎◌, inl, inr, refl, ap, arith, Bool, true, false, [], Option, none,
  some, length, ltb, Option-cases, Bool-cases,
}
use here_data_sdk_cpp.Common.Int.{ℤ, pos}
use here_data_sdk_cpp.Cache.ProtectedKeyList.{Key, is_protected}
use here_data_sdk_cpp.Cache.Lru.Node.{lookup}
use here_data_sdk_cpp.Cache.InMemoryCache
use here_data_sdk_cpp.Cache.InMemoryCache.{InMemoryCache, ItemTuple, default_cache_cost, expiry_max}
use here_data_sdk_cpp.Cache.InMemoryCache.Purge.{IsMemory}
use here_data_sdk_cpp.Cache.InMemoryCache.Put.{put-HasPut, expires-Stores, stays-Stores}
use here_data_sdk_cpp.Cache.InMemoryCache.Get.{get_absent, get_present, get_expired}
use here_data_sdk_cpp.Cache.DiskCache.{Bytes}
use here_data_sdk_cpp.Cache.DefaultCache.{
  DefaultCacheImpl, get_expiry_for_memory_cache, memory_get, memory_put,
}
use here_data_sdk_cpp.Cache.DefaultCache.Parts.{Memory, MemoryHolds}

cost_bound :
    (tuple : ItemTuple Bytes) (value : Bytes)
    → tuple.size ≡ length value
    → default_cache_cost tuple ≤ length value + 1
unfolding default_cache_cost
cost_bound tuple value size = ground arith

-- The time to live is one that `Put` stores.
abbrev pub Storable : ℤ → ℕ → Type 0
Storable z now =
    (z ≡ pos expiry_max) ⊎ ((n : ℕ) × (z ≡ pos n) × (0 < n) × (n < expiry_max) × (n + now < 2 ^ 63))

module _ (dec : Discrete Key) where
  -- The memory cache has no other value for the key.
  abbrev pub Only : Key → Bytes → Memory → Type 0
  Only key value e = (w : ItemTuple Bytes) → lookup dec key e.items ≡ some w → w.item ≡ value

  put-Only :
      (e : Memory) (m : InMemoryCache Bytes) (key : Key) (value : Bytes) (z : ℤ)
      (purge_time now : ℕ)
      → IsMemory dec default_cache_cost e m
      → e.room + length value + 1 < 2 ^ 64
      → Storable z now
      → (m' : InMemoryCache Bytes) × (e' : Memory) × (added : Bool) × (InMemoryCache.put dec
            default_cache_cost m key value z
            (length value)
            purge_time
            now
          ≡ some (m', added))
        × IsMemory dec default_cache_cost e' m'
        × (e'.room ≡ e.room)
        × Only key value e'
  put-Only e m key value z purge_time now h small (inl stays) =
      let tuple : ItemTuple Bytes = record {
        key = key;
        expiry = expiry_max;
        item = value;
        size = length value;
      } in
      let (e', m', added, done, put) =
        put-HasPut dec default_cache_cost e m key value (pos expiry_max) (length value) purge_time
          now tuple false h (omega (arith, cost_bound tuple value refl))
          (stays-Stores dec default_cache_cost key value (length value) now) in
      (
        m',
        e',
        added,
        rw stays done,
        put.memory,
        put.room_is,
        λ w there. ap (λ i. i.item) (put.mine w there),
      )
  put-Only e m key value z purge_time now h small (inr (n, is, positive, below, sum)) =
      let tuple : ItemTuple Bytes = record {
        key = key;
        expiry = n + now;
        item = value;
        size = length value;
      } in
      let (e', m', added, done, put) =
        put-HasPut dec default_cache_cost e m key value (pos n) (length value) purge_time now tuple
          true h (omega (arith, cost_bound tuple value refl))
          (expires-Stores dec default_cache_cost key value n (length value) now positive below
            sum) in
      (
        m',
        e',
        added,
        rw is done,
        put.memory,
        put.room_is,
        λ w there. ap (λ i. i.item) (put.mine w there),
      )

  module _ {D : Type 0} where
    pub memory_put-Only :
        (s : DefaultCacheImpl D) (e : Memory) (key : Key) (value : Bytes) (expiry : ℤ)
        (purge_time now : ℕ)
        → MemoryHolds dec s.memory_cache e
        → e.room + length value + 1 < 2 ^ 64
        → Storable expiry now
        → (m' : Option (InMemoryCache Bytes)) × (e' : Memory) × (memory_put dec s key value expiry
              purge_time now
            ≡ some (record s { memory_cache = m' }))
          × MemoryHolds dec m' e'
          × (e'.room ≡ e.room)
          × Only key value e'
    unfolding memory_put get_expiry_for_memory_cache
    memory_put-Only s e key value expiry purge_time now h small storable =
        elim (Option-cases s.memory_cache) [
          | inl gone ↦
              let empty : e.items ≡ [] = subst (λ m. MemoryHolds dec m e) gone h in
              let step : memory_put dec s key value expiry purge_time now ≡ some s = ground arith in
              (s.memory_cache, e, step, h, refl, λ w there. ground arith)
          | inr (m, at_m) ↦
              let (held, bound) = subst (λ m. MemoryHolds dec m e) at_m h in
              let z = get_expiry_for_memory_cache s key expiry in
              let z_storable : Storable z now =
                elim (Bool-cases (is_protected s.protected_keys key)) [
                  | inl protects ↦ inl (rw protects refl)
                  | inr free ↦ rw free storable
                ] in
              let (m', e', added, done, held', room, only) =
                put-Only e m key value z purge_time now held small z_storable in
              (
                some m',
                e',
                rw (memory_put, at_m, done) refl,
                (held', omega (arith, room)),
                room,
                only,
              )
        ]

    pub memory_get-Only :
        (s : DefaultCacheImpl D) (e : Memory) (key : Key) (value : Bytes) (now : ℕ)
        → MemoryHolds dec s.memory_cache e
        → Only key value e
        → (m' : Option (InMemoryCache Bytes)) × (e' : Memory) × (r : Option Bytes) × (memory_get dec
              s key now
            ≡ some (record s { memory_cache = m' }, r))
          × MemoryHolds dec m' e'
          × (e'.room ≡ e.room)
          × ((r ≡ none) ⊎ (r ≡ some value))
    unfolding memory_get
    memory_get-Only s e key value now h only = elim (Option-cases s.memory_cache) [
      | inl gone ↦
          let step : memory_get dec s key now ≡ some (s, none) = ground arith in
          (s.memory_cache, e, none, step, h, refl, inl refl)
      | inr (m, at_m) ↦
          let (held, bound) = subst (λ m. MemoryHolds dec m e) at_m h in
          elim (Option-cases (lookup dec key e.items)) [
            | inl absent ↦
                let done = get_absent dec default_cache_cost e m key now held absent in
                (some m, e, none, rw (memory_get, at_m, done) refl, (held, bound), refl, inl refl)
            | inr (w, there) ↦ elim (Bool-cases (ltb w.expiry now)) [
              | inl over ↦
                  let (m', done, held') =
                    get_expired dec default_cache_cost e m key now w held bound there
                      (ground arith) in
                  (
                    some m',
                    _,
                    none,
                    rw (memory_get, at_m, done) refl,
                    (held', bound),
                    refl,
                    inl refl,
                  )
              | inr fresh ↦
                  let (m', done, held') =
                    get_present dec default_cache_cost e m key now w held there (ground arith) in
                  (
                    some m',
                    _,
                    some w.item,
                    rw (memory_get, at_m, done) refl,
                    (held', bound),
                    refl,
                    inr (ap some (only w there)),
                  )
            ]
          ]
    ]
