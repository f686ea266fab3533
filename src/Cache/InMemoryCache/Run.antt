-- ===== src/Cache/InMemoryCache/Run.antt =====
-- Sequences of operations on the in-memory cache.
use mathlib.Core.Path.{subst}
use here_data_sdk_cpp.Common.{
  ℕ, zero, suc, ◌+◌, ◌^◌, ◌≤◌, ◌<◌, ◌≡◌, inl, inr, refl, ◌∙◌, arith, Bool, true, false, List, [],
  ◌∷◌, Option, some, ltb, Bool-cases, ◌>>=◌,
}
use here_data_sdk_cpp.Cache.ProtectedKeyList.{Key}
use here_data_sdk_cpp.Cache.Lru.Node.{lookup}
use here_data_sdk_cpp.Cache.Lru.Model.{Elements}
use here_data_sdk_cpp.Cache.Lru.Lookups.{erase-Refines}
use here_data_sdk_cpp.Cache.InMemoryCache.{
  ItemTuple, ItemTuples, Expiries, InMemoryCache, with_entry, vector_at, erase_entry, expired_keys,
  erase_items, purge_at, purge_all, purge_expired,
}
use here_data_sdk_cpp.Cache.InMemoryCache.Expiries.{Ordered}
use here_data_sdk_cpp.Common.{Option-cases}
use here_data_sdk_cpp.Common.Int.{ℤ, pos, negsuc, pos_part}
use here_data_sdk_cpp.Cache.Lru.Evict.{total}
use here_data_sdk_cpp.Cache.Lru.Chain.{IsChain}
use here_data_sdk_cpp.Cache.InMemoryCache.{
  expiry_max, has_expiry, put, put_item, get, remove_keys_with_prefix, clear_memory, empty_memory,
}
use here_data_sdk_cpp.Cache.InMemoryCache
use here_data_sdk_cpp.Cache.Lru.Simulate.{clear-Refines}
use here_data_sdk_cpp.Cache.Lru.Refine.{empty_cache-Refines}
use here_data_sdk_cpp.Cache.InMemoryCache.Purge.{IsMemory, purge_expired-IsMemory}
use here_data_sdk_cpp.Cache.InMemoryCache.Put.{Stores, put-HasPut, expires-Stores, stays-Stores}
use here_data_sdk_cpp.Cache.InMemoryCache.Get.{get_absent, get_present, get_expired}
use here_data_sdk_cpp.Cache.InMemoryCache.Prefix.{remove_keys_with_prefix-staying}

pub data MemoryOp (A : Type 0) : Type 0 where
  -- The key, the item, `expire_seconds`, the size, and the times of the purge and of the sum.
  put_op : Key → A → ℤ → ℕ → ℕ → ℕ → MemoryOp A
  get_op : Key → ℕ → MemoryOp A
  remove_op : Key → MemoryOp A
  remove_prefix_op : Key → (Key → Bool) → MemoryOp A
  clear_op : MemoryOp A

module _ {A : Type 0} (dec : Discrete Key) (cost : ItemTuple A → ℕ) where
  unfoldable pub run_op : InMemoryCache A → MemoryOp A → Option (InMemoryCache A)
  run_op c (put_op key item z size p now) = do
    (c', _) ← put dec cost c key item z size p now
    some c'
  run_op c (get_op key now) = do (c', _) ← get dec cost c key now; some c'
  run_op c (remove_op key) = do (c', _) ← InMemoryCache.remove dec cost c key; some c'
  run_op c (remove_prefix_op key_prefix filter) =
      remove_keys_with_prefix dec cost c key_prefix filter
  run_op c clear_op = some (clear_memory c)

  unfoldable pub run_ops : InMemoryCache A → List (MemoryOp A) → Option (InMemoryCache A)
  run_ops c [] = some c
  run_ops c (op ∷ ops) = do c1 ← run_op c op; run_ops c1 ops

  -- The time of an item that is put is a `time_t`, and the bound and its cost are below 2 ^ 64.
  unfoldable pub Allowed : ℕ → MemoryOp A → Type 0
  Allowed room (put_op key item z size p now) =
      (pos_part z ≤ expiry_max)
      × (pos_part z < expiry_max → pos_part z + now < 2 ^ 63)
      × ((t : ℕ)
          → room + cost (record { key = key; expiry = t; item = item; size = size }) < 2 ^ 64)
  Allowed room (get_op key now) = Unit
  Allowed room (remove_op key) = Unit
  Allowed room (remove_prefix_op key_prefix filter) = Unit
  Allowed room clear_op = Unit

  abbrev pub AllAllowed : ℕ → List (MemoryOp A) → Type 0
  AllAllowed room [] = Unit
  AllAllowed room (op ∷ ops) = Allowed room op × AllAllowed room ops

  -- The cache stands for some elements within the bound.
  pub record Sound (room : ℕ) (c : InMemoryCache A) : Type 0 where
    pub elements : Elements Key (ItemTuple A)
    pub memory : IsMemory dec cost elements c
    pub room_is : elements.room ≡ room

  put_refused :
      (room : ℕ) (c : InMemoryCache A) (key : Key) (item : A) (z : ℤ) (size p now : ℕ)
      → Sound room c
      → room < 2 ^ 64
      → ((c1 : InMemoryCache A) → put_item dec cost c1 key item z size now ≡ some (c1, false))
      → (c' : InMemoryCache A) × (run_op c (put_op key item z size p now) ≡ some c') × Sound room c'
  unfolding run_op put
  put_refused room c key item z size p now h small refuses =
      let (c1, r, done, h1, _) =
        purge_expired-IsMemory dec cost h.elements c p h.memory (omega (arith, h.room_is)) in
      (c1, rw (done, refuses c1) refl, record { elements = _; memory = h1; room_is = h.room_is })

  put_stored :
      (room : ℕ) (c : InMemoryCache A) (key : Key) (item : A) (z : ℤ) (size p now : ℕ)
      (tuple : ItemTuple A) (expires : Bool)
      → Sound room c
      → room + cost tuple < 2 ^ 64
      → Stores dec cost key item z size now tuple expires
      → (c' : InMemoryCache A) × (run_op c (put_op key item z size p now) ≡ some c') × Sound room c'
  unfolding run_op
  put_stored room c key item z size p now tuple expires h small stores =
      let (e', c', r, done, h') =
        put-HasPut dec cost h.elements c key item z size p now tuple expires h.memory
          (omega (arith, h.room_is)) stores in
      (
        c',
        rw done refl,
        record { elements = e'; memory = h'.memory; room_is = h'.room_is ∙ h.room_is },
      )

  put-Sound :
      (room : ℕ) (c : InMemoryCache A) (key : Key) (item : A) (z : ℤ) (size p now : ℕ)
      → Sound room c
      → room < 2 ^ 64
      → Allowed room (put_op key item z size p now)
      → (c' : InMemoryCache A) × (run_op c (put_op key item z size p now) ≡ some c') × Sound room c'
  unfolding Allowed put_item has_expiry
  put-Sound room c key item (negsuc n) size p now h small ok =
      put_refused room c key item (negsuc n) size p now h small (λ c1. refl)
  put-Sound room c key item (pos zero) size p now h small ok =
      put_refused room c key item (pos 0) size p now h small (λ c1. refl)
  put-Sound room c key item (pos (suc n)) size p now h small (time_t, sum, fits) =
      elim (Bool-cases (ltb (suc n) expiry_max)) [
        | inl below ↦
            put_stored room c key item (pos (suc n)) size p now _ true h (fits (suc n + now)) (
              expires-Stores dec cost key item (suc n) size now (omega arith) (ground arith)
                (sum (ground arith)))
        | inr not_below ↦
            let same : expiry_max ≡ suc n = ground arith in
            subst
              (λ m.
                (c' : InMemoryCache A) × (run_op c (put_op key item (pos m) size p now) ≡ some c')
                × Sound room c')
              same
              (put_stored room c key item (pos expiry_max) size p now _ false h (fits expiry_max)
                (stays-Stores dec cost key item size now))
      ]

  get-Sound :
      (room : ℕ) (c : InMemoryCache A) (key : Key) (now : ℕ)
      → Sound room c
      → room < 2 ^ 64
      → (c' : InMemoryCache A) × (run_op c (get_op key now) ≡ some c') × Sound room c'
  unfolding run_op
  get-Sound room c key now h small = elim (Option-cases (lookup dec key h.elements.items)) [
    | inl gone ↦ (c, rw (get_absent dec cost h.elements c key now h.memory gone) refl, h)
    | inr (w, at_w) ↦ elim (Bool-cases (ltb w.expiry now)) [
      | inl old ↦
          let (c', done, h') =
            get_expired dec cost h.elements c key now w h.memory (omega (arith, h.room_is)) at_w
              (ground arith) in
          (c', rw done refl, record { elements = _; memory = h'; room_is = h.room_is })
      | inr fresh ↦
          let (c', done, h') =
            get_present dec cost h.elements c key now w h.memory at_w (ground arith) in
          (c', rw done refl, record { elements = _; memory = h'; room_is = h.room_is })
    ]
  ]

  run_op-Sound :
      (room : ℕ) (c : InMemoryCache A) (op : MemoryOp A)
      → Sound room c
      → room < 2 ^ 64
      → Allowed room op
      → (c' : InMemoryCache A) × (run_op c op ≡ some c') × Sound room c'
  unfolding run_op InMemoryCache.remove clear_memory
  run_op-Sound room c (put_op key item z size p now) h small ok =
      put-Sound room c key item z size p now h small ok
  run_op-Sound room c (get_op key now) h small ok = get-Sound room c key now h small
  run_op-Sound room c (remove_op key) h small ok =
      let (tuples, r, done, h') =
        erase-Refines dec cost h.elements c.item_tuples key h.memory.refines
          (omega (arith, h.room_is)) in
      (
        record c { item_tuples = tuples },
        rw done refl,
        record {
          elements = _;
          memory = record { refines = h'; ordered = h.memory.ordered };
          room_is = h.room_is;
        },
      )
  run_op-Sound room c (remove_prefix_op key_prefix filter) h small ok =
      let (c', done, h', _) =
        remove_keys_with_prefix-staying dec cost h.elements c key_prefix filter h.memory
          (omega (arith, h.room_is)) in
      (c', done, record { elements = _; memory = h'; room_is = h.room_is })
  run_op-Sound room c clear_op h small ok = (
    clear_memory c,
    refl,
    record {
      elements = _;
      memory = record {
        refines = clear-Refines dec cost h.elements c.item_tuples h.memory.refines;
        ordered = tt;
      };
      room_is = h.room_is;
    },
  )

  run_ops-Sound :
      (ops : List (MemoryOp A)) (room : ℕ) (c : InMemoryCache A)
      → Sound room c
      → room < 2 ^ 64
      → AllAllowed room ops
      → (c' : InMemoryCache A) × (run_ops c ops ≡ some c') × Sound room c'
  unfolding run_ops
  run_ops-Sound [] room c h small ok = (c, refl, h)
  run_ops-Sound (op ∷ ops) room c h small (now, later) =
      let (c1, done1, h1) = run_op-Sound room c op h small now in
      let (c2, done2, h2) = run_ops-Sound ops room c1 h1 small later in (c2, rw (done1) done2, h2)

  pub empty_memory-IsMemory :
      (room : ℕ)
      → IsMemory dec cost (record { room = room; items = []; gone = [] }) (empty_memory room)
  unfolding empty_memory
  empty_memory-IsMemory room = record { refines = empty_cache-Refines dec cost room; ordered = tt }

  -- Every sequence of calls of an in-memory cache that is new returns without a fault, and leaves
  -- the size of the LRU cache within its bound, and equal to the total cost of its elements, when
  -- the times are of the type `time_t` and the bound and the cost of each item that is put are
  -- together below 2 ^ 64.
  pub run_ops_lem :
      (room : ℕ) (ops : List (MemoryOp A))
      → room < 2 ^ 64
      → AllAllowed room ops
      → (c : InMemoryCache A) × (l : List (Key × ItemTuple A)) × (run_ops (empty_memory room) ops
          ≡ some c)
        × IsChain dec l c.item_tuples
        × (c.item_tuples.size ≡ total cost l)
        × (c.item_tuples.size ≤ room)
        × Ordered c.item_expiries
  run_ops_lem room ops small ok =
      let (c, done, h) =
        run_ops-Sound ops room (empty_memory room)
          (record { elements = _; memory = empty_memory-IsMemory room; room_is = refl }) small ok in
      let r = h.memory.refines in
      (
        c,
        h.elements.items,
        done,
        r.cache.chain,
        r.cache.sized,
        omega (arith, r.cache.sized, r.fits, h.room_is),
        h.memory.ordered,
      )
