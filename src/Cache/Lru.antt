-- ===== src/Cache/Lru.antt =====
-- `LruCache` of olp-cpp-sdk-core/include/olp/core/utils/LruCache.h: a `std::map` from keys to
-- buckets, which are linked in the order of use. An iterator of the map is the key of its element,
-- and `none` is `end()`. A function returns `none` where the source would follow `end()` or an
-- iterator of an erased element. Sizes are `size_t`.
pub mod Node
pub mod Links
pub mod Chain
pub mod Promote
pub mod Erase
pub mod Evict
pub mod Insert
pub mod Model
pub mod Simulate
pub mod Refine
pub mod Lookups
pub mod Tests
use mathlib.Core.Logic.{ite}
use here_data_sdk_cpp.Common.{
  ℕ, zero, suc, ◌+◌, ◌-◌, ◌^◌, Bool, true, false, List, [], ◌∷◌, Option, none, some, ltb, ◌==◌,
  if◌then◌else◌, ◌>>=◌,
}
use here_data_sdk_cpp.Common.Bits.{u64}

pub record Bucket (K V : Type 0) : Type 0 where
  pub next : Option K
  pub previous : Option K
  pub value : V

-- The map with its number of elements, the ends of the chain, and the calls that the eviction
-- callback has had, latest first.
pub record LruCache (K V : Type 0) : Type 0 where
  pub bucket : K → Option (Bucket K V)
  pub count : ℕ
  pub first : Option K
  pub last : Option K
  pub max_size : ℕ
  pub size : ℕ
  pub evicted : List (K × V)

-- `LruCache(maxSize)`.
unfoldable pub empty_cache : {K V : Type 0} → ℕ → LruCache K V
empty_cache max_size = record {
  bucket = λ _. none;
  count = 0;
  first = none;
  last = none;
  max_size = max_size;
  size = 0;
  evicted = [];
}

module _ {K V : Type 0} (dec : Discrete K) where
  abbrev pub update : (K → Option (Bucket K V)) → K → Option (Bucket K V) → K → Option (Bucket K V)
  update f k b q = ite (dec k q) b (f q)

  -- `it->second.setNext(next)` and `it->second.setPrevious(previous)`.
  unfoldable pub set_next : LruCache K V → Option K → Option K → Option (LruCache K V)
  set_next c none next = none
  set_next c (some k) next = do
    b ← c.bucket k
    some (record c { bucket = update c.bucket k (some (record b { next = next })) })

  unfoldable pub set_previous : LruCache K V → Option K → Option K → Option (LruCache K V)
  set_previous c none previous = none
  set_previous c (some k) previous = do
    b ← c.bucket k
    some (record c { bucket = update c.bucket k (some (record b { previous = previous })) })

  -- `it == first_`.
  unfoldable pub is_first : LruCache K V → K → Bool
  is_first c k = elim c.first [ none ↦ false | some j ↦ ite (dec j k) true false ]

  -- `if (next_ != end) next_->setPrevious(previous_) else last_ = previous_`.
  unfoldable pub relink_next : LruCache K V → Bucket K V → Option (LruCache K V)
  relink_next c b = elim b.next [
    | none ↦ some (record c { last = b.previous })
    | some n ↦ set_previous c (some n) b.previous
  ]

  -- `if (previous_ == end) first_ = next_ else previous_->setNext(next_)`.
  unfoldable pub relink_previous : LruCache K V → Bucket K V → Option (LruCache K V)
  relink_previous c b = elim b.previous [
    | none ↦ some (record c { first = b.next })
    | some p ↦ set_next c (some p) b.next
  ]

  unfoldable pub promote : LruCache K V → K → Option (LruCache K V)
  unfolding is_first relink_next
  promote c k = if is_first c k then some c else do
    b ← c.bucket k
    c1 ← set_next c b.previous b.next
    b1 ← c1.bucket k
    c2 ← relink_next c1 b1
    c3 ← set_previous c2 (some k) none
    c4 ← set_next c3 (some k) c3.first
    c5 ← set_previous c4 c4.first (some k)
    some (record c5 { first = some k })

  module _ (cost : V → ℕ) where
    -- The private `Erase(it, doEvictionCallback)`.
    unfoldable pub erase_at : LruCache K V → K → Bool → Option (LruCache K V)
    unfolding relink_next relink_previous
    erase_at c k do_eviction_callback = do
      b ← c.bucket k
      c1 ← relink_next c b
      b1 ← c1.bucket k
      c2 ← relink_previous c1 b1
      b2 ← c2.bucket k
      some (record c2 {
        evicted = if do_eviction_callback then (k, b2.value) ∷ c2.evicted else c2.evicted;
        bucket = update c2.bucket k none;
        count = c2.count - 1;
        size = u64 (c2.size + 2 ^ 64 - cost b.value);
      })

    unfoldable pub pop_last : LruCache K V → Option (LruCache K V)
    pop_last c = do k ← c.last; erase_at c k true

    -- The loop of `evict`, on fuel; each round removes an element.
    unfoldable pub evict : ℕ → LruCache K V → Option (LruCache K V)
    evict zero c = if ltb c.max_size c.size then none else some c
    evict (suc fuel) c = elim (ltb c.max_size c.size) [
      | true ↦ pop_last c >>= λ c'. evict fuel c'
      | false ↦ some c
    ]

    unfoldable pub resize : LruCache K V → ℕ → Option (LruCache K V)
    resize c max_size = evict c.count (record c { max_size = max_size })

    -- The part of `AddInternal` for a new element.
    unfoldable pub link_new : LruCache K V → K → Option (LruCache K V)
    link_new c k = if c.count == 1 then some (record c { last = some k; first = some k }) else do
      c1 ← set_next c (some k) c.first
      c2 ← set_previous c1 c1.first (some k)
      some (record c2 { first = some k })

    unfoldable pub add_internal : LruCache K V → K → ℕ → Option ℕ → Option (LruCache K V)
    unfolding link_new
    add_internal c k item_cost none = do
      c1 ← link_new c k
      evict c1.count (record c1 { size = u64 (c1.size + item_cost) })
    add_internal c k item_cost (some old_cost) = do
      c1 ← promote (record c { size = u64 (c.size + u64 (item_cost + 2 ^ 64 - old_cost)) }) k
      evict c1.count c1

    -- A new element of the map, not linked yet.
    unfoldable pub new_bucket : LruCache K V → K → V → LruCache K V
    new_bucket c k v = record c {
      bucket = update c.bucket k (some (record { next = none; previous = none; value = v }));
      count = c.count + 1;
    }

    -- The result is an iterator and whether the element is new.
    unfoldable pub insert : LruCache K V → K → V → Option (LruCache K V × (Option K × Bool))
    unfolding new_bucket
    insert c k v = if ltb c.max_size (cost v) then some (c, (none, false)) else elim (c.bucket k) [
      | none ↦ do c' ← add_internal (new_bucket c k v) k (cost v) none; some (c', (some k, true))
      | some _ ↦ do c' ← promote c k; some (c', (some k, false))
    ]

    unfoldable pub insert_or_assign :
        LruCache K V → K → V → Option (LruCache K V × (Option K × Bool))
    unfolding new_bucket
    insert_or_assign c k v = elim (c.bucket k) [
      | some b ↦ do
        c' ←
            add_internal (record c { bucket = update c.bucket k (some (record b { value = v })) }) k
              (cost v) (some (cost b.value))
        some (c', (some k, false))
      | none ↦
          if ltb c.max_size (cost v)
          then some (c, (none, false))
          else do c' ← add_internal (new_bucket c k v) k (cost v) none; some (c', (some k, true))
    ]

    unfoldable pub erase : LruCache K V → K → Option (LruCache K V × Bool)
    erase c k = elim (c.bucket k) [
      | none ↦ some (c, false)
      | some _ ↦ do c' ← erase_at c k false; some (c', true)
    ]

    -- `Erase(it)`: the result is the next iterator.
    unfoldable pub erase_iterator : LruCache K V → K → Option (LruCache K V × Option K)
    erase_iterator c k = do b ← c.bucket k; (c', _) ← erase c k; some (c', b.next)

  unfoldable pub find : LruCache K V → K → Option (LruCache K V × Option K)
  find c k = elim (c.bucket k) [
    | none ↦ some (c, none)
    | some _ ↦ do c' ← promote c k; some (c', some k)
  ]

  unfoldable pub find_no_promote : LruCache K V → K → Option K
  find_no_promote c k = elim (c.bucket k) [ none ↦ none | some _ ↦ some k ]

  -- `it.value()` and `++it`.
  unfoldable pub value_at : LruCache K V → K → Option V
  value_at c k = do b ← c.bucket k; some b.value

  unfoldable pub next_of : LruCache K V → K → Option (Option K)
  next_of c k = do b ← c.bucket k; some b.next

unfoldable pub clear : {K V : Type 0} → LruCache K V → LruCache K V
clear c = record c { bucket = λ _. none; count = 0; first = none; last = none; size = 0 }
