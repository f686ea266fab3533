-- ===== src/Cache/DefaultCache/Put.antt =====
-- The calls of `DefaultCacheImpl` that store items: `Write`, `PutMutableCache`,
-- `MaybeUpdatedProtectedKeys` and `Size(new_size)` of DefaultCacheImpl.cpp.
use here_data_sdk_cpp.Common.{
  ℕ, ◌+◌, Bool, false, not, List, [], ◌∷◌, ◌++◌, Option, none, some, length, ltb, leb,
  if◌then◌else◌, ◌>>=◌,
}
use here_data_sdk_cpp.Common.Int.{ℤ}
use here_data_sdk_cpp.Common.Bits.{u64}
use here_data_sdk_cpp.Common.Signed.{plus_time}
use here_data_sdk_cpp.Common.Signed
use here_data_sdk_cpp.Cache.ProtectedKeyList.{Key, is_protected, serialize}
use here_data_sdk_cpp.Cache.Lru
use here_data_sdk_cpp.Cache.DiskCache.{
  Bytes, BatchOp, batch_put, batch_delete, ErrorCode, Outcome, success, failure, LevelDb,
  apply_batch, compact,
}
use here_data_sdk_cpp.Cache.DefaultCache.{
  DefaultCacheImpl, Times, expiry_suffix, expiry_value_size, protected_keys_key, create_expiry_key,
  is_expiry_valid, disk_cost, less, memory_put,
}
use here_data_sdk_cpp.Cache.DefaultCache.Evict.{Thresholds, maybe_evict_data}

-- What the item adds to the batch: its value, and the text of the time at which it expires.
unfoldable pub store_expiry : Key → ℤ → List BatchOp
store_expiry key expiry = batch_put (create_expiry_key key) (Signed.to_string expiry) ∷ []

unfoldable pub store_item : Key → Bytes → Bool → ℤ → List BatchOp
store_item key value expires expiry =
    batch_put key value ∷ (if expires then store_expiry key expiry else [])

unfoldable pub added_size : Key → Bytes → Bool → ℤ → ℕ
added_size key value expires expiry =
    length key
    + length value
    + (if expires then length (create_expiry_key key) + length (Signed.to_string expiry) else 0)

-- The size that the item may need at most.
unfoldable pub expected_size : ℕ → Key → Bytes → ℕ
expected_size data_size key value =
    u64 (
      data_size + length value + length key + length key + length expiry_suffix + expiry_value_size)

-- The time at which the item expires, if it does.
unfoldable pub expiry_at : ℤ → ℕ → Option ℤ
expiry_at expiry now = if is_expiry_valid expiry then plus_time expiry now else some expiry

module _ {D : Type 0} where
  -- The batch with the list of protected keys where that has changed, and by how much the size
  -- changes, modulo 2 ^ 64.
  unfoldable pub maybe_updated_protected_keys :
      DefaultCacheImpl D → List BatchOp → Option (DefaultCacheImpl D × (List BatchOp × ℕ))
  maybe_updated_protected_keys s batch =
      if not s.protected_keys.dirty then some (s, (batch, 0)) else do
        let prev_size = s.protected_keys.size_written
        (keys, value) ← serialize s.protected_keys
        let key_size = if ltb 0 prev_size then 0 else length protected_keys_key
        let s1 = record s { protected_keys = keys }
        (if ltb 0 (length value)
            then some (
              s1,
              (
                batch ++ batch_put protected_keys_key value ∷ [],
                less (key_size + keys.size_written) prev_size,
              ),
            )
            else if ltb 0 prev_size
            then some (
              s1,
              (
                batch ++ batch_delete protected_keys_key ∷ [],
                less 0 (prev_size + length protected_keys_key),
              ),
            )
            else some (s1, (batch, 0)))

module _ {D : Type 0} (dec : Discrete Key) where
  -- The end of `PutMutableCache`: the key comes into the LRU cache.
  unfoldable pub put_lru :
      DefaultCacheImpl D → Key → ℕ → ℤ → Option (DefaultCacheImpl D × Outcome Unit)
  put_lru s key size expiry = elim s.mutable_cache_lru [
    | none ↦ some (s, success tt)
    | some lru ↦ if is_protected s.protected_keys key then some (s, success tt) else do
      (lru1, (it, added)) ←
          Lru.insert_or_assign dec disk_cost lru key (record { size = size; expiry = expiry })
      some (
        record s { mutable_cache_lru = some lru1 },
        elim it [
          | some k ↦ success tt
          | none ↦ if added then success tt else failure ErrorCode.cache_io
        ],
      )
  ]

-- `!mutable_cache_lru_ && expected_size > settings_.max_disk_storage`.
unfoldable pub is_full : {D : Type 0} → DefaultCacheImpl D → Key → Bytes → Bool
is_full s key value = elim s.mutable_cache_lru [
  | some lru ↦ false
  | none ↦ ltb s.max_disk_storage (expected_size s.mutable_cache_data_size key value)
]

module _ {D S : Type 0} (db : LevelDb D S) where
  -- The batch is applied, and the sizes are counted where that succeeds.
  unfoldable pub put_batch :
      DefaultCacheImpl D → List BatchOp → ℕ → Option (DefaultCacheImpl D × Outcome Unit)
  put_batch s batch change = do
    c ← s.mutable_cache
    let done = apply_batch db c batch
    elim done.1 [
      | failure e ↦ some (record s { mutable_cache = some done.0 }, failure e)
      | success u ↦ some (
        record s {
          mutable_cache = some done.0;
          mutable_cache_data_size = u64 (s.mutable_cache_data_size + change);
        },
        success tt,
      )
    ]

module _ {D S : Type 0} (db : LevelDb D S) (dec : Discrete Key) (thresholds : Thresholds) where
  -- `PutMutableCache` of a cache that is not full; `clock` is read by the eviction.
  unfoldable pub put_evicting :
      DefaultCacheImpl D
      → Key
      → Bytes
      → Bool
      → ℤ
      → (ℕ → ℕ)
      → Option (DefaultCacheImpl D × Outcome Unit)
  put_evicting s key value expires expiry clock = do
    (s1, removed) ← maybe_evict_data db dec thresholds s clock
    (s2, (batch, updated)) ← maybe_updated_protected_keys s1 (store_item key value expires expiry)
    (s3, done) ←
        put_batch db s2 batch (less (added_size key value expires expiry + updated) removed)
    elim done [
      | failure e ↦ some (s3, failure e)
      | success u ↦ put_lru dec s3 key (length value) expiry
    ]

  unfoldable pub put_mutable_cache :
      DefaultCacheImpl D
      → Key
      → Bytes
      → ℤ
      → ℕ
      → (ℕ → ℕ)
      → Option (DefaultCacheImpl D × Outcome Unit)
  put_mutable_cache s key value expiry now clock = elim s.mutable_cache [
    | none ↦ some (s, success tt)
    | some c ↦ if is_full s key value then some (s, failure ErrorCode.cache_io) else do
      expiry1 ← expiry_at expiry now
      put_evicting s key value (is_expiry_valid expiry) expiry1 clock
  ]

  -- `Write`; a null value is `none`.
  unfoldable pub write :
      DefaultCacheImpl D
      → Key
      → Option Bytes
      → ℤ
      → Times
      → (ℕ → ℕ)
      → Option (DefaultCacheImpl D × Outcome Unit)
  write s key none expiry t clock = some (s, failure ErrorCode.invalid_argument)
  write s key (some value) expiry t clock =
      if not s.is_open then some (s, failure ErrorCode.precondition_failed) else do
        s1 ← memory_put dec s key value expiry t.purge_time t.put_time
        put_mutable_cache s1 key value expiry t.mutable_time clock

  -- `Size(new_size)`: the size that it has evicted.
  unfoldable pub set_size : DefaultCacheImpl D → ℕ → (ℕ → ℕ) → Option (DefaultCacheImpl D × ℕ)
  set_size s new_size clock = if not s.is_open then some (s, 0) else elim s.mutable_cache [
    | none ↦ some (s, 0)
    | some _ ↦ elim s.mutable_cache_lru [
      | none ↦ some (s, 0)
      | some lru ↦
          let s1 : DefaultCacheImpl D = record s { max_disk_storage = new_size } in
          if leb s.max_disk_storage new_size then some (s1, 0) else do
            (s2, evicted) ← maybe_evict_data db dec thresholds s1 clock
            c ← s2.mutable_cache
            some (
              record s2 {
                mutable_cache_data_size = less s2.mutable_cache_data_size evicted;
                mutable_cache = some (compact db c);
              },
              evicted,
            )
    ]
  ]
