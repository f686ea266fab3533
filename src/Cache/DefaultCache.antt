-- ===== src/Cache/DefaultCache.antt =====
-- `DefaultCacheImpl` of olp-cpp-sdk-core/src/cache/DefaultCacheImpl.cpp and .h: a memory cache in
-- front of a protected and a mutable disk cache, with an LRU cache of the keys of the mutable one.
-- A method holds `cache_lock_` from its first step to its last, so that a call is one function
-- here. Values are those of `Read` and `Write`. The times that the clock returns in a call are
-- arguments, and `none` is a fault of a cache, an exception of `std::stoll` or an overflow of a
-- `time_t`.
pub mod Disk
pub mod Calls
pub mod Keys
pub mod Parts
pub mod Evict
pub mod Weights
pub mod EvictLast
pub mod Sweep
pub mod Swept
pub mod EvictExpired
pub mod Ready
pub mod EvictAll
pub mod Put
pub mod Stored
pub mod PutLeaves
pub mod PutGet
pub mod MemoryCalls
pub mod WriteRead
pub mod Overwrite
pub mod Storage
pub mod Restore
pub mod OpenFault
pub mod Lifecycle
pub mod Cleared
pub mod ClearFault
pub mod Loaded
pub mod Answer
pub mod Reopen
pub mod Delete
pub mod DeletePrefix
pub mod Expired
pub mod Protection
pub mod Sample
pub mod Tests
pub mod PutTests
pub mod StorageTests
use mathlib.Core.Logic.{ite}
use here_data_sdk_cpp.Common.{
  ℕ, zero, suc, ◌+◌, ◌-◌, ◌^◌, Bool, true, false, not, ◌&&◌, ◌||◌, List, [], ◌∷◌, ◌++◌, Option,
  none, some, length, ltb, ◌==◌, if◌then◌else◌, ◌>>=◌, take,
}
use here_data_sdk_cpp.Common.Int.{ℤ, pos, negsuc}
use here_data_sdk_cpp.Common.Bits.{u64}
use here_data_sdk_cpp.Common.Signed.{stoll, minus_time, is_positive}
use here_data_sdk_cpp.Cache.ProtectedKeyList
use here_data_sdk_cpp.Cache.ProtectedKeyList.{Key, ProtectedKeyList, is_protected}
use here_data_sdk_cpp.Cache.Lru
use here_data_sdk_cpp.Cache.Lru.{LruCache}
use here_data_sdk_cpp.Cache.InMemoryCache
use here_data_sdk_cpp.Cache.InMemoryCache.{
  InMemoryCache, expiry_max, default_cache_cost, has_prefix, clear_memory,
}
use here_data_sdk_cpp.Cache.DiskCache
use here_data_sdk_cpp.Cache.DiskCache.{
  Bytes, Entries, ErrorCode, Outcome, success, failure, LevelDb, DiskCache, seek, run_of,
}

-- `kExpirySuffix`, `kInternalKeysPrefix` and `kProtectedKeys`.
abbrev pub expiry_suffix : Key
expiry_suffix = b':' ∷ b':' ∷ b'e' ∷ b'x' ∷ b'p' ∷ b'i' ∷ b'r' ∷ b'y' ∷ []

abbrev pub internal_keys_prefix : Key
internal_keys_prefix = b'i' ∷ b'n' ∷ b't' ∷ b'e' ∷ b'r' ∷ b'n' ∷ b'a' ∷ b'l' ∷ b':' ∷ b':' ∷ []

abbrev pub protected_keys_key : Key
protected_keys_key =
    internal_keys_prefix
    ++ b'p' ∷ b'r' ∷ b'o' ∷ b't' ∷ b'e' ∷ b'c' ∷ b't' ∷ b'e' ∷ b'd' ∷ b':' ∷ b':' ∷ []
    ++ b'p' ∷ b'r' ∷ b'o' ∷ b't' ∷ b'e' ∷ b'c' ∷ b't' ∷ b'e' ∷ b'd' ∷ b'_' ∷ []
    ++ b'd' ∷ b'a' ∷ b't' ∷ b'a' ∷ []

-- `kExpiryValueSize`.
abbrev pub expiry_value_size : ℕ
expiry_value_size = 10

-- `kDefaultExpiry`.
abbrev pub default_expiry : ℤ
default_expiry = pos expiry_max

unfoldable pub create_expiry_key : Key → Key
create_expiry_key key = key ++ expiry_suffix

-- `rfind(text) != npos`: the text stands somewhere in the key.
unfoldable pub occurs_in : Key → Key → Bool
occurs_in text [] = has_prefix [] text
occurs_in text (x ∷ key) = has_prefix (x ∷ key) text || occurs_in text key

unfoldable pub is_expiry_key : Key → Bool
is_expiry_key key = occurs_in expiry_suffix key

unfoldable pub is_expiry_valid : ℤ → Bool
is_expiry_valid (pos n) = ltb n expiry_max
is_expiry_valid (negsuc n) = true

unfoldable pub is_internal_key : Key → Bool
is_internal_key key = has_prefix key internal_keys_prefix

pub record ValueProperties : Type 0 where
  pub size : ℕ
  pub expiry : ℤ

abbrev pub no_properties : ValueProperties
no_properties = record { size = 0; expiry = default_expiry }

-- The LRU cache counts its elements.
abbrev pub disk_cost : ValueProperties → ℕ
disk_cost v = 1

abbrev pub DiskLruCache : Type 0
DiskLruCache = LruCache Key ValueProperties

pub record DefaultCacheImpl (D : Type 0) : Type 0 where
  pub max_disk_storage : ℕ
  pub is_open : Bool
  pub memory_cache : Option (InMemoryCache Bytes)
  pub mutable_cache : Option (DiskCache D)
  pub mutable_cache_lru : Option DiskLruCache
  pub protected_cache : Option (DiskCache D)
  pub mutable_cache_data_size : ℕ
  pub protected_keys : ProtectedKeyList
  pub eviction_portion : ℕ

-- The clock in a call of `Read`: in `Get` of the memory cache, for the protected and for the
-- mutable cache, and in `Put` of the memory cache for the purge and for the item.
pub record Times : Type 0 where
  pub get_time : ℕ
  pub protected_time : ℕ
  pub mutable_time : ℕ
  pub purge_time : ℕ
  pub put_time : ℕ

-- `size -= removed` of a `uint64_t`.
unfoldable pub less : ℕ → ℕ → ℕ
less size removed = u64 (size + 2 ^ 64 - removed)

-- The key of the item of an entry: `resize` of an expiry key.
unfoldable pub original_key : Key → Key
original_key key = if is_expiry_key key then take (length key - length expiry_suffix) key else key

-- The properties that an entry gives: that of an expiry key the time, and another its size.
unfoldable pub with_value : Bool → ValueProperties → Bytes → Option ValueProperties
with_value expiration_key props value =
    if expiration_key
    then (do expiry ← stoll value; some (record props { expiry = expiry }))
    else some (record props { size = length value })

module _ (dec : Discrete Key) where
  -- The properties that the LRU cache has for the key, or those of a new `ValueProperties`.
  unfoldable pub properties_of : DiskLruCache → Key → ValueProperties
  properties_of lru key = elim (Lru.value_at dec lru key) [ none ↦ no_properties | some p ↦ p ]

  -- The loop of `RemoveKeysWithPrefixLru`, on fuel, and one of its rounds.
  unfoldable pub lru_prefix_round : DiskLruCache → Key → Key → Option (DiskLruCache × Option Key)
  lru_prefix_round lru key element_key =
      if has_prefix element_key key
      then Lru.erase_iterator dec disk_cost lru element_key
      else do next ← Lru.next_of dec lru element_key; some (lru, next)

  unfoldable pub lru_prefix_loop : ℕ → DiskLruCache → Key → Option Key → Option DiskLruCache
  lru_prefix_loop fuel lru key none = some lru
  lru_prefix_loop zero lru key (some k) = none
  lru_prefix_loop (suc fuel) lru key (some k) = do
    (lru1, it) ← lru_prefix_round lru key k
    lru_prefix_loop fuel lru1 key it

module _ {D : Type 0} where
  unfoldable pub get_expiry_for_memory_cache : DefaultCacheImpl D → Key → ℤ → ℤ
  get_expiry_for_memory_cache s key expiry =
      if is_protected s.protected_keys key then default_expiry else expiry

module _ {D : Type 0} (dec : Discrete Key) where
  -- The calls of the memory cache, if there is one.
  unfoldable pub memory_get :
      DefaultCacheImpl D → Key → ℕ → Option (DefaultCacheImpl D × Option Bytes)
  memory_get s key now = elim s.memory_cache [
    | none ↦ some (s, none)
    | some m ↦ do
      (m1, value) ← InMemoryCache.get dec default_cache_cost m key now
      some (record s { memory_cache = some m1 }, value)
  ]

  unfoldable pub memory_put :
      DefaultCacheImpl D → Key → Bytes → ℤ → ℕ → ℕ → Option (DefaultCacheImpl D)
  memory_put s key value expiry purge_time now = elim s.memory_cache [
    | none ↦ some s
    | some m ↦ do
      (m1, _) ←
          InMemoryCache.put dec default_cache_cost m key value
            (get_expiry_for_memory_cache s key expiry) (length value) purge_time now
      some (record s { memory_cache = some m1 })
  ]

  unfoldable pub memory_remove : DefaultCacheImpl D → Key → Option (DefaultCacheImpl D × Bool)
  memory_remove s key = elim s.memory_cache [
    | none ↦ some (s, false)
    | some m ↦ do
      (m1, r) ← InMemoryCache.remove dec default_cache_cost m key
      some (record s { memory_cache = some m1 }, r)
  ]

  unfoldable pub memory_remove_prefix :
      DefaultCacheImpl D → Key → (Key → Bool) → Option (DefaultCacheImpl D)
  memory_remove_prefix s key filter = elim s.memory_cache [
    | none ↦ some s
    | some m ↦ do
      m1 ← InMemoryCache.remove_keys_with_prefix dec default_cache_cost m key filter
      some (record s { memory_cache = some m1 })
  ]

  unfoldable pub remove_key_lru : DefaultCacheImpl D → Key → Option (DefaultCacheImpl D × Bool)
  remove_key_lru s key = elim s.mutable_cache_lru [
    | none ↦ some (s, false)
    | some lru ↦ do
      (lru1, r) ← Lru.erase dec disk_cost lru key
      some (record s { mutable_cache_lru = some lru1 }, r)
  ]

  unfoldable pub remove_keys_with_prefix_lru :
      DefaultCacheImpl D → Key → Option (DefaultCacheImpl D)
  remove_keys_with_prefix_lru s key = elim s.mutable_cache_lru [
    | none ↦ some s
    | some lru ↦ do
      lru1 ← lru_prefix_loop dec lru.count lru key lru.first
      some (record s { mutable_cache_lru = some lru1 })
  ]

  unfoldable pub promote_key_lru : DefaultCacheImpl D → Key → Option (DefaultCacheImpl D × Bool)
  promote_key_lru s key = elim s.mutable_cache_lru [
    | none ↦ some (s, true)
    | some lru ↦ do
      (lru1, it) ← Lru.find dec lru key
      some (
        record s { mutable_cache_lru = some lru1 },
        elim it [ none ↦ is_protected s.protected_keys key | some k ↦ true ],
      )
  ]

  unfoldable pub promote : DefaultCacheImpl D → Key → Option (DefaultCacheImpl D)
  promote s key = elim s.mutable_cache_lru [
    | none ↦ some s
    | some lru ↦ do
      (lru1, _) ← Lru.find dec lru key
      some (record s { mutable_cache_lru = some lru1 })
  ]

  unfoldable pub add_key_lru : DefaultCacheImpl D → Key → Bytes → Option (DefaultCacheImpl D × Bool)
  add_key_lru s key value = elim s.mutable_cache_lru [
    | none ↦ some (s, false)
    | some lru ↦
        if is_protected s.protected_keys key || is_internal_key key then some (s, false) else do
          changed ← with_value (is_expiry_key key) (properties_of dec lru (original_key key)) value
          (lru1, (_, added)) ← Lru.insert_or_assign dec disk_cost lru (original_key key) changed
          some (record s { mutable_cache_lru = some lru1 }, added)
  ]

  -- The loop over the entries that an iterator of the mutable cache reads.
  unfoldable pub add_keys_lru : DefaultCacheImpl D → Entries → Option (DefaultCacheImpl D)
  add_keys_lru s [] = some s
  add_keys_lru s ((key, value) ∷ l) = do (s1, _) ← add_key_lru s key value; add_keys_lru s1 l
