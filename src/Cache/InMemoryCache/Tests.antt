-- ===== src/Cache/InMemoryCache/Tests.antt =====
-- Runs of the in-memory cache with numbers as items.
use native.Mathlib.Decide.{ℕ_discrete}
use here_data_sdk_cpp.Common.{
  ℕ, ◌+◌, ◌^◌, ◌≤◌, ◌<◌, ◌≡◌, ◌≢◌, refl, arith, Bool, true, false, List, [], ◌∷◌, none, some,
}
use here_data_sdk_cpp.Common.Int.{pos, negsuc}
use here_data_sdk_cpp.Cache.Keys.{key_discrete}
use here_data_sdk_cpp.Cache.ProtectedKeyList.{Key}
use here_data_sdk_cpp.Cache.Lru
use here_data_sdk_cpp.Cache.Lru.{update}
use here_data_sdk_cpp.Cache.Lru.Chain.{IsChain}
use here_data_sdk_cpp.Cache.Lru.Evict.{total}
use here_data_sdk_cpp.Cache.Lru.Model.{Elements}
use here_data_sdk_cpp.Cache.InMemoryCache.{
  ItemTuple, InMemoryCache, default_cache_cost, empty_memory, expiry_max, put, get, put_item,
  put_tuple, settle, has_expiry, on_evictions, push_back, with_entry, append_to, purge_expired,
  purge_all, expired_keys,
}
use here_data_sdk_cpp.Cache.InMemoryCache.Expiries.{Ordered}
use here_data_sdk_cpp.Cache.InMemoryCache.Purge.{IsMemory}
use here_data_sdk_cpp.Cache.InMemoryCache.Get.{get-put, put_overwritten}
use here_data_sdk_cpp.Cache.InMemoryCache.Run.{
  MemoryOp, put_op, get_op, remove_prefix_op, run_ops, Allowed, AllAllowed, empty_memory-IsMemory,
  run_ops_lem,
}

abbrev tile : Key
tile = b't' ∷ b'1' ∷ []

abbrev other_key : Key
other_key = b'x' ∷ []

abbrev no_items : Elements Key (ItemTuple ℕ)
no_items = record { room = 5; items = []; gone = [] }

abbrev no_memory : InMemoryCache ℕ
no_memory = empty_memory 5

no_memory-IsMemory : IsMemory key_discrete default_cache_cost no_items no_memory
no_memory-IsMemory = empty_memory-IsMemory key_discrete default_cache_cost 5

abbrev tile_tuple : ItemTuple ℕ
tile_tuple = record { key = tile; expiry = 110; item = 7; size = 1 }

abbrev one_memory : InMemoryCache ℕ
one_memory = record {
  item_tuples = record {
    bucket =
        update key_discrete (λ _. none) tile
          (some (record { next = none; previous = none; value = tile_tuple }));
    count = 1;
    first = some tile;
    last = some tile;
    max_size = 5;
    size = 1;
    evicted = [];
  };
  item_expiries = (110, tile_tuple ∷ []) ∷ [];
}

first_put :
    put key_discrete default_cache_cost no_memory tile 7 (pos 10) 1 90 100 ≡ some (one_memory, true)
unfolding put put_item put_tuple settle has_expiry on_evictions push_back with_entry append_to
    purge_expired purge_all expired_keys empty_memory default_cache_cost Lru.empty_cache
    Lru.insert_or_assign Lru.add_internal Lru.new_bucket Lru.link_new Lru.evict key_discrete
    ℕ_discrete
first_put = refl

get-put_example :
    (c1 : InMemoryCache ℕ) × (c2 : InMemoryCache ℕ) × (added : Bool) × (put key_discrete
        default_cache_cost no_memory tile 7
        (pos 10)
        1
        90
        100
      ≡ some (c1, added))
    × (get key_discrete default_cache_cost c1 tile 110 ≡ some (c2, some 7))
unfolding default_cache_cost
get-put_example =
    get-put key_discrete default_cache_cost no_items no_memory tile 7 10 1 90 100 110
      no_memory-IsMemory (omega arith) (omega arith) (omega arith) (omega arith) (omega arith)
      (omega arith)

cost-small : (i : ItemTuple ℕ) → i.size ≡ 1 → 5 + default_cache_cost i < 2 ^ 64
unfolding default_cache_cost
cost-small i e = ground arith

keys_differ : other_key ≢ tile
keys_differ e = cc

put_overwritten_example :
    (c2 : InMemoryCache ℕ) × (c3 : InMemoryCache ℕ) × (r2 : Bool) × (r3 : Bool) × (put key_discrete
        default_cache_cost one_memory tile 8
        (pos expiry_max)
        1
        105
        105
      ≡ some (c2, r2))
    × (put key_discrete default_cache_cost c2 other_key 9 (pos expiry_max) 1 200 200
        ≡ some (c3, r3))
    × (get key_discrete default_cache_cost c3 tile 201 ≡ some (c3, none))
put_overwritten_example =
    put_overwritten key_discrete default_cache_cost no_items no_memory one_memory tile other_key 7 8
      9 10 1 90 100 105 105 200 200 201 no_memory-IsMemory cost-small (omega arith) (omega arith)
      (omega arith) first_put (omega arith) (omega arith) keys_differ

abbrev calls : List (MemoryOp ℕ)
calls =
    put_op tile 7 (pos 10) 1 90 100
    ∷ get_op tile 105
    ∷ put_op tile 8 (pos expiry_max) 1 106 106
    ∷ put_op other_key 9 (negsuc 0) 1 107 107
    ∷ remove_prefix_op (b't' ∷ []) (λ k. false)
    ∷ []

calls_allowed : AllAllowed key_discrete default_cache_cost 5 calls
unfolding Allowed default_cache_cost
calls_allowed = (
  (omega arith, λ h. omega arith, λ t. omega arith),
  (
    tt,
    (
      (omega arith, λ h. omega arith, λ t. omega arith),
      ((omega arith, λ h. omega arith, λ t. omega arith), (tt, tt)),
    ),
  ),
)

run_ops_lem_example :
    (c : InMemoryCache ℕ) × (l : List (Key × ItemTuple ℕ)) × (run_ops key_discrete
        default_cache_cost
        (empty_memory 5)
        calls
      ≡ some c)
    × IsChain key_discrete l c.item_tuples
    × (c.item_tuples.size ≡ total default_cache_cost l)
    × (c.item_tuples.size ≤ 5)
    × Ordered c.item_expiries
run_ops_lem_example =
    run_ops_lem key_discrete default_cache_cost 5 calls (omega arith) calls_allowed
