-- ===== src/Cache/InMemoryCache.antt =====
-- `InMemoryCache` of olp-cpp-sdk-core/src/cache/InMemoryCache.cpp and .h: an LRU cache of items
-- with a time after which they expire. The times that `time_provider_` returns in a call are
-- arguments, and so is the cost of an item. A time is a `time_t`: seconds that are not negative,
-- below 2 ^ 63. A function returns `none` where the LRU cache would follow `end()`, and where the
-- sum of two times is no `time_t`.
pub mod Expiries
pub mod Purge
pub mod Put
pub mod Get
pub mod Prefix
pub mod Run
pub mod Tests
use here_data_sdk_cpp.Common.{
  ℕ, zero, suc, ◌+◌, ◌-◌, ◌^◌, Bool, true, false, not, ◌&&◌, List, [], ◌∷◌, ◌++◌, Option, none,
  some, length, ltb, leb, ◌==◌, if◌then◌else◌, ◌>>=◌,
}
use here_data_sdk_cpp.Common.Int.{ℤ, pos, negsuc}
use here_data_sdk_cpp.Cache.ProtectedKeyList.{Key, starts_with}
use here_data_sdk_cpp.Cache.Lru
use here_data_sdk_cpp.Cache.Lru.{LruCache}

-- `kExpiryMax`.
abbrev pub expiry_max : ℕ
expiry_max = 2 ^ 63 - 1

pub record ItemTuple (A : Type 0) : Type 0 where
  pub key : Key
  pub expiry : ℕ
  pub item : A
  pub size : ℕ

abbrev pub ItemTuples : Type 0 → Type 0
ItemTuples A = List (ItemTuple A)

-- `item_expiries_` is a `std::map`: its entries in the order of their times.
abbrev pub Expiries : Type 0 → Type 0
Expiries A = List (ℕ × ItemTuples A)

pub record InMemoryCache (A : Type 0) : Type 0 where
  pub item_tuples : LruCache Key (ItemTuple A)
  pub item_expiries : Expiries A

-- `DefaultCacheCost`.
unfoldable pub default_cache_cost : {A : Type 0} → ItemTuple A → ℕ
default_cache_cost value = if value.size == 0 then 1 else value.size

unfoldable pub has_expiry : ℕ → Bool
has_expiry expiry_seconds = not (expiry_seconds == expiry_max)

unfoldable pub has_prefix : Key → Key → Bool
has_prefix key prefix = if leb (length prefix) (length key) then starts_with prefix key else false

module _ {A : Type 0} where
  -- `item_expiries_[t]`: an entry that is missing is made, and the vector of the entry.
  unfoldable pub with_entry : ℕ → Expiries A → Expiries A
  with_entry t [] = (t, []) ∷ []
  with_entry t ((u, v) ∷ m) =
      if u == t
      then (u, v) ∷ m
      else if ltb t u
      then (t, []) ∷ (u, v) ∷ m
      else (u, v) ∷ with_entry t m

  unfoldable pub vector_at : ℕ → Expiries A → ItemTuples A
  vector_at t [] = []
  vector_at t ((u, v) ∷ m) = if u == t then v else vector_at t m

  -- `item_expiries_.erase(t)`.
  unfoldable pub erase_entry : ℕ → Expiries A → Expiries A
  erase_entry t [] = []
  erase_entry t ((u, v) ∷ m) = if u == t then m else (u, v) ∷ erase_entry t m

  unfoldable pub append_to : ℕ → ItemTuple A → Expiries A → Expiries A
  append_to t tuple [] = []
  append_to t tuple ((u, v) ∷ m) =
      if u == t then (u, v ++ tuple ∷ []) ∷ m else (u, v) ∷ append_to t tuple m

  -- `item_expiries_[t].push_back(tuple)`.
  unfoldable pub push_back : ℕ → ItemTuple A → Expiries A → Expiries A
  push_back t tuple m = append_to t tuple (with_entry t m)

  -- The element is erased from a copy of the vector, which nothing reads afterwards.
  unfoldable pub on_eviction : Expiries A → ItemTuple A → Expiries A
  on_eviction m value =
      if has_expiry value.expiry
      then (let m1 = with_entry value.expiry m in
          if length (vector_at value.expiry m1) == 0 then erase_entry value.expiry m1 else m1)
      else m

  -- The calls of the eviction callback, of which the list holds the latest first.
  unfoldable pub on_evictions : Expiries A → List (Key × ItemTuple A) → Expiries A
  on_evictions m [] = m
  on_evictions m ((key, value) ∷ earlier) = on_eviction (on_evictions m earlier) value

  -- The LRU cache after an operation, with the calls that it has made to `OnEviction`.
  unfoldable pub settle : InMemoryCache A → LruCache Key (ItemTuple A) → InMemoryCache A
  settle c tuples = record {
    item_tuples = record tuples { evicted = [] };
    item_expiries = on_evictions c.item_expiries tuples.evicted;
  }

  unfoldable pub expired_keys : ℕ → Expiries A → List ℕ
  expired_keys now [] = []
  expired_keys now ((t, v) ∷ m) = if ltb t now then t ∷ expired_keys now m else []

  unfoldable pub empty_memory : ℕ → InMemoryCache A
  empty_memory max_size = record { item_tuples = Lru.empty_cache max_size; item_expiries = [] }

  unfoldable pub clear_memory : InMemoryCache A → InMemoryCache A
  clear_memory c = record { item_tuples = Lru.clear c.item_tuples; item_expiries = [] }

module _ {A : Type 0} (dec : Discrete Key) (cost : ItemTuple A → ℕ) where
  unfoldable pub erase_items :
      LruCache Key (ItemTuple A) → ItemTuples A → Option (LruCache Key (ItemTuple A) × Bool)
  erase_items tuples [] = some (tuples, true)
  erase_items tuples (i ∷ items) = do
    (tuples1, r) ← Lru.erase dec cost tuples i.key
    (tuples2, rest) ← erase_items tuples1 items
    some (tuples2, r && rest)

  -- `PurgeExpired(expire_time)`.
  unfoldable pub purge_at : InMemoryCache A → ℕ → Option (InMemoryCache A × Bool)
  purge_at c t = do
    (tuples, r) ← erase_items c.item_tuples (vector_at t c.item_expiries)
    some (
      record { item_tuples = tuples; item_expiries = erase_entry t (with_entry t c.item_expiries) },
      r,
    )

  unfoldable pub purge_all : InMemoryCache A → List ℕ → Option (InMemoryCache A × Bool)
  purge_all c [] = some (c, true)
  purge_all c (t ∷ times) = do
    (c1, r) ← purge_at c t
    (c2, rest) ← purge_all c1 times
    some (c2, r && rest)

  unfoldable pub purge_expired : InMemoryCache A → ℕ → Option (InMemoryCache A × Bool)
  purge_expired c now = purge_all c (expired_keys now c.item_expiries)

  unfoldable pub put_tuple : InMemoryCache A → ItemTuple A → Bool → Option (InMemoryCache A × Bool)
  put_tuple c tuple expires = do
    (tuples, (_, added)) ← Lru.insert_or_assign dec cost c.item_tuples tuple.key tuple
    let c1 = settle c tuples
    let registered = record c1 { item_expiries = push_back tuple.expiry tuple c1.item_expiries }
    some (if added && expires then registered else c1, added)

  -- `Put` after it has purged, with the time that it adds to `expire_seconds`.
  unfoldable pub put_item : InMemoryCache A → Key → A → ℤ → ℕ → ℕ → Option (InMemoryCache A × Bool)
  put_item c key item (negsuc _) size now = some (c, false)
  put_item c key item (pos n) size now =
      if has_expiry n
      then if n == 0
        then some (c, false)
        else if ltb (n + now) (2 ^ 63)
        then put_tuple c (record { key = key; expiry = n + now; item = item; size = size }) true
        else none
      else put_tuple c (record { key = key; expiry = n; item = item; size = size }) false

  unfoldable pub put : InMemoryCache A → Key → A → ℤ → ℕ → ℕ → ℕ → Option (InMemoryCache A × Bool)
  put c key item expire_seconds size purge_time now = do
    (c1, _) ← purge_expired c purge_time
    put_item c1 key item expire_seconds size now

  unfoldable pub get : InMemoryCache A → Key → ℕ → Option (InMemoryCache A × Option A)
  get c key now = do
    (tuples, it) ← Lru.find dec c.item_tuples key
    let c1 = record c { item_tuples = tuples }
    elim it [
      | none ↦ some (c1, none)
      | some k ↦ do
        value ← Lru.value_at dec tuples k
        (if ltb value.expiry now
            then (do (c2, _) ← purge_at c1 value.expiry; some (c2, none))
            else some (c1, some value.item))
    ]

  unfoldable pub remove : InMemoryCache A → Key → Option (InMemoryCache A × Bool)
  remove c key = do
    (tuples, r) ← Lru.erase dec cost c.item_tuples key
    some (record c { item_tuples = tuples }, r)

  unfoldable pub contains : InMemoryCache A → Key → ℕ → Option Bool
  contains c key now = elim (Lru.find_no_promote dec c.item_tuples key) [
    | none ↦ some false
    | some k ↦ do value ← Lru.value_at dec c.item_tuples k; some (ltb now value.expiry)
  ]

  -- A round of the loop of `RemoveKeysWithPrefix`: the next state and the next iterator.
  unfoldable pub prefix_round :
      LruCache Key (ItemTuple A)
      → Key
      → (Key → Bool)
      → Key
      → Option (LruCache Key (ItemTuple A) × Option Key)
  prefix_round tuples key_prefix filter k =
      if has_prefix k key_prefix && not (filter k)
      then Lru.erase_iterator dec cost tuples k
      else do next ← Lru.next_of dec tuples k; some (tuples, next)

  -- The loop, on fuel.
  unfoldable pub prefix_loop :
      ℕ
      → LruCache Key (ItemTuple A)
      → Key
      → (Key → Bool)
      → Option Key
      → Option (LruCache Key (ItemTuple A))
  prefix_loop fuel tuples key_prefix filter none = some tuples
  prefix_loop zero tuples key_prefix filter (some k) = none
  prefix_loop (suc fuel) tuples key_prefix filter (some k) = do
    (tuples1, it) ← prefix_round tuples key_prefix filter k
    prefix_loop fuel tuples1 key_prefix filter it

  unfoldable pub remove_keys_with_prefix :
      InMemoryCache A → Key → (Key → Bool) → Option (InMemoryCache A)
  remove_keys_with_prefix c key_prefix filter = do
    tuples ← prefix_loop c.item_tuples.count c.item_tuples key_prefix filter c.item_tuples.first
    some (record c { item_tuples = tuples })
