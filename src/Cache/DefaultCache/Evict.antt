-- ===== src/Cache/DefaultCache/Evict.antt =====
-- The eviction of `DefaultCacheImpl`: `MaybeEvictData`, `EvictExpiredDataPortion` and
-- `EvictDataPortion` of DefaultCacheImpl.cpp. The comparison and the rounding of the source's
-- floating-point thresholds are parameters. Loops are on fuel: each round of a portion erases an
-- element or goes on to the next.
use here_data_sdk_cpp.Common.{
  ℕ, zero, suc, ◌+◌, ◌^◌, Bool, true, false, ◌&&◌, List, [], ◌∷◌, ◌++◌, Option, none, some, length,
  ltb, leb, if◌then◌else◌, ◌>>=◌,
}
use here_data_sdk_cpp.Common.Bits.{u64}
use here_data_sdk_cpp.Common.Signed.{minus_time, is_positive}
use here_data_sdk_cpp.Cache.ProtectedKeyList.{Key}
use here_data_sdk_cpp.Cache.Lru
use here_data_sdk_cpp.Cache.DiskCache.{
  BatchOp, batch_delete, success, failure, LevelDb, apply_batch, compact,
}
use here_data_sdk_cpp.Cache.DefaultCache.{
  DefaultCacheImpl, ValueProperties, expiry_value_size, create_expiry_key, is_expiry_valid,
  disk_cost, less, memory_remove,
}

-- `size < kMaxDiskUsedThreshold * max_disk_storage`, and
-- `llroundl(max_disk_storage * kMinDiskUsedThreshold)`.
pub record Thresholds : Type 0 where
  pub below_max : ℕ → ℕ → Bool
  pub min_used : ℕ → ℕ

-- `EvictionResult`, and with the batch what a portion has gathered so far.
pub record Portion : Type 0 where
  pub batch : List BatchOp
  pub count : ℕ
  pub size : ℕ

abbrev pub no_portion : Portion
no_portion = record { batch = []; count = 0; size = 0 }

-- `it != end()` with less than the target evicted.
unfoldable pub next_to_evict : Option Key → ℕ → ℕ → Option Key
next_to_evict it evicted target = if ltb evicted target then it else none

-- The records for the key and for its expiry key, and their sizes; `with_expiry` is whether the
-- expiry key is deleted too.
unfoldable pub evict_item : Portion → Key → ValueProperties → Bool → Portion
evict_item p key props with_expiry = record {
  batch =
      p.batch
      ++ batch_delete key ∷ (if with_expiry then batch_delete (create_expiry_key key) ∷ [] else []);
  count = p.count + 1;
  size = u64 (
      p.size
      + (length key + props.size)
      + (if with_expiry then length (create_expiry_key key) + expiry_value_size else 0));
}

module _ {D : Type 0} (dec : Discrete Key) where
  -- The element leaves the memory cache and then the LRU cache; the result has the next iterator.
  unfoldable pub drop_item : DefaultCacheImpl D → Key → Option (DefaultCacheImpl D × Option Key)
  drop_item s key = do
    (s1, _) ← memory_remove dec s key
    lru ← s1.mutable_cache_lru
    (lru1, next) ← Lru.erase_iterator dec disk_cost lru key
    some (record s1 { mutable_cache_lru = some lru1 }, next)

  unfoldable pub last_key : DefaultCacheImpl D → Option Key
  last_key s = do lru ← s.mutable_cache_lru; lru.last

  unfoldable pub first_key : DefaultCacheImpl D → Option Key
  first_key s = do lru ← s.mutable_cache_lru; lru.first

  -- The loop of `EvictDataPortion`, on the last element.
  unfoldable pub evict_loop :
      ℕ → DefaultCacheImpl D → ℕ → Portion → Option Key → Option (DefaultCacheImpl D × Portion)
  evict_loop fuel s target p none = some (s, p)
  evict_loop zero s target p (some key) = none
  evict_loop (suc fuel) s target p (some key) = do
    lru ← s.mutable_cache_lru
    props ← Lru.value_at dec lru key
    (s1, _) ← drop_item s key
    let p1 = evict_item p key props (is_expiry_valid props.expiry)
    evict_loop fuel s1 target p1 (next_to_evict (last_key s1) p1.size target)

  unfoldable pub evict_data_portion : DefaultCacheImpl D → ℕ → Option (DefaultCacheImpl D × Portion)
  evict_data_portion s target = do
    lru ← s.mutable_cache_lru
    evict_loop lru.count s target no_portion (next_to_evict lru.last 0 target)

  -- The loop of `EvictExpiredDataPortion`, from the first element on.
  unfoldable pub expired_loop :
      ℕ → DefaultCacheImpl D → ℕ → ℕ → Portion → Option Key → Option (DefaultCacheImpl D × Portion)
  expired_loop fuel s now target p none = some (s, p)
  expired_loop zero s now target p (some key) = none
  expired_loop (suc fuel) s now target p (some key) = do
    lru ← s.mutable_cache_lru
    props ← Lru.value_at dec lru key
    left ← minus_time props.expiry now
    next ← Lru.next_of dec lru key
    elim (is_positive left) [
      | true ↦ expired_loop fuel s now target p (next_to_evict next p.size target)
      | false ↦ drop_item s key >>= λ (s1, it).
          let p1 = evict_item p key props true in
          expired_loop fuel s1 now target p1 (next_to_evict it p1.size target)
    ]

  unfoldable pub evict_expired_data_portion :
      ℕ → DefaultCacheImpl D → ℕ → Option (DefaultCacheImpl D × Portion)
  evict_expired_data_portion now s target = do
    lru ← s.mutable_cache_lru
    expired_loop lru.count s now target no_portion (next_to_evict lru.first 0 target)

-- `left_to_evict > 0` of an `int64_t`, on the pattern of its bits.
unfoldable pub is_left : ℕ → Bool
is_left left = ltb 0 left && ltb left (2 ^ 63)

unfoldable pub eviction_target : ℕ → ℕ → ℕ
eviction_target left portion = if ltb left portion then left else portion

module _ {D S : Type 0} (db : LevelDb D S) where
  -- The batch of a portion is applied and the database compacted, or the loop ends.
  unfoldable pub apply_portion : DefaultCacheImpl D → Portion → Option (DefaultCacheImpl D × Bool)
  apply_portion s p = do
    c ← s.mutable_cache
    let done = apply_batch db c p.batch
    elim done.1 [
      | success u ↦ some (record s { mutable_cache = some (compact db done.0) }, true)
      | failure e ↦ some (record s { mutable_cache = some done.0 }, false)
    ]

  -- `call_evict_method`, on fuel: the state, what is left to evict, and what is evicted. The method
  -- is called with the number of the round.
  unfoldable pub call_evict_method :
      ℕ
      → (ℕ → DefaultCacheImpl D → ℕ → Option (DefaultCacheImpl D × Portion))
      → ℕ
      → DefaultCacheImpl D
      → ℕ
      → ℕ
      → Option (DefaultCacheImpl D × (ℕ × ℕ))
  call_evict_method zero evict_method round s left evicted = none
  call_evict_method (suc fuel) evict_method round s left evicted = do
    let target = eviction_target left s.eviction_portion
    (s1, p) ← evict_method round s target
    (s2, applied) ← apply_portion s1 p
    elim applied [
      | false ↦ some (s2, (left, evicted))
      | true ↦ elim (leb target p.size && is_left (less left p.size)) [
        | true ↦
            call_evict_method fuel evict_method (round + 1) s2 (less left p.size)
              (u64 (evicted + p.size))
        | false ↦ some (s2, (less left p.size, u64 (evicted + p.size)))
      ]
    ]

  module _ (dec : Discrete Key) (thresholds : Thresholds) where
    -- Each round that another one follows erases an element at least, so that this fuel is enough.
    unfoldable pub rounds : DefaultCacheImpl D → ℕ
    rounds s = elim s.mutable_cache_lru [ none ↦ 1 | some lru ↦ lru.count + 1 ]

    -- The lambda of `MaybeEvictData`: the expired elements, and then the last ones. `clock` is the
    -- time that each portion of expired elements reads.
    unfoldable pub evict_data : DefaultCacheImpl D → ℕ → (ℕ → ℕ) → Option (DefaultCacheImpl D × ℕ)
    evict_data s left clock = do
      (s1, (left1, evicted1)) ←
          call_evict_method (rounds s) (λ i. evict_expired_data_portion dec (clock i)) 0 s left 0
      (if is_left left1
          then (do
            (s2, (_, evicted2)) ←
                call_evict_method (rounds s1) (λ i. evict_data_portion dec) 0 s1 left1 evicted1
            some (s2, evicted2))
          else some (s1, evicted1))

    -- `MaybeEvictData`: the size that it has evicted.
    unfoldable pub maybe_evict_data : DefaultCacheImpl D → (ℕ → ℕ) → Option (DefaultCacheImpl D × ℕ)
    maybe_evict_data s clock = elim s.mutable_cache [
      | none ↦ some (s, 0)
      | some c ↦ elim s.mutable_cache_lru [
        | none ↦ some (s, 0)
        | some lru ↦
            if thresholds.below_max s.mutable_cache_data_size s.max_disk_storage
            then some (s, 0)
            else evict_data s
                (less s.mutable_cache_data_size (thresholds.min_used s.max_disk_storage)) clock
      ]
    ]
