-- ===== src/Cache/DefaultCache/Sample.antt =====
-- A default cache over a database in memory, with an LRU cache of two tiles.
use native.Mathlib.Decide.{ℕ_discrete}
use here_data_sdk_cpp.Common.{
  ℕ, ◌+◌, ◌*◌, ◌/◌, ◌^◌, refl, arith, Bool, true, false, [], ◌∷◌, none, some, ltb,
}
use here_data_sdk_cpp.Common.Int.{pos}
use here_data_sdk_cpp.Common.Signed.{minus_time}
use here_data_sdk_cpp.Cache.Keys.{key_discrete}
use here_data_sdk_cpp.Cache.ProtectedKeyList.{Key, string_less, no_keys}
use here_data_sdk_cpp.Cache.Lru.{update}
use here_data_sdk_cpp.Cache.InMemoryCache.{empty_memory, default_cache_cost}
use here_data_sdk_cpp.Cache.InMemoryCache.Run.{empty_memory-IsMemory}
use here_data_sdk_cpp.Cache.DiskCache.{LevelDb, DiskCache, size_max}
use here_data_sdk_cpp.Cache.DiskCache.Entries.{Answers}
use here_data_sdk_cpp.Cache.DiskCache.Instance.{Store, nothing, store, store-Answers}
use here_data_sdk_cpp.Cache.DefaultCache.{
  DefaultCacheImpl, ValueProperties, DiskLruCache, default_expiry, create_expiry_key,
}
use here_data_sdk_cpp.Cache.DefaultCache.Parts.{Memory, LruElements, LruHolds}
use here_data_sdk_cpp.Cache.DefaultCache.Evict.{Thresholds}
use here_data_sdk_cpp.Cache.DefaultCache.Ready.{Ready}

abbrev pub tile : Key
tile = b't' ∷ []

abbrev pub part : Key
part = b't' ∷ b'/' ∷ b'1' ∷ []

abbrev pub tile_time : Key
tile_time = b't' ∷ b':' ∷ b':' ∷ b'e' ∷ b'x' ∷ b'p' ∷ b'i' ∷ b'r' ∷ b'y' ∷ []

abbrev pub tile_properties : ValueProperties
tile_properties = record { size = 2; expiry = pos 50 }

abbrev pub part_properties : ValueProperties
part_properties = record { size = 1; expiry = default_expiry }

abbrev pub two_elements : LruElements
two_elements = record {
  room = 100;
  items = (tile, tile_properties) ∷ (part, part_properties) ∷ [];
  gone = [];
}

abbrev pub two_lru : DiskLruCache
two_lru = record {
  bucket =
      update key_discrete
        (update key_discrete (λ _. none) part
          (some (record { next = none; previous = some tile; value = part_properties })))
        tile (some (record { next = some part; previous = none; value = tile_properties }));
  count = 2;
  first = some tile;
  last = some part;
  max_size = 100;
  size = 2;
  evicted = [];
}

pub two_lru-LruHolds : LruHolds key_discrete (some two_lru) two_elements
unfolding key_discrete ℕ_discrete
two_lru-LruHolds = (
  record {
    cache = record {
      chain = record {
        buckets = λ q. refl;
        distinct = (refl, (refl, tt));
        first_is = refl;
        last_is = refl;
        counted = refl;
      };
      sized = refl;
    };
    bound = refl;
    log = refl;
    fits = omega arith;
  },
  omega arith,
)

abbrev pub no_memory : Memory
no_memory = record { room = 0; items = []; gone = [] }

-- `part`, `tile` and the time of `tile`.
unfoldable pub disk : Store
unfolding string_less
disk = (
  (tile, 1 ∷ 2 ∷ []) ∷ (part, 3 ∷ []) ∷ (tile_time, b'5' ∷ b'0' ∷ []) ∷ [],
  ((refl, (refl, tt)), ((refl, tt), (tt, tt))),
)

abbrev pub disk_cache : DiskCache Store
disk_cache = record { database = some disk; max_size = size_max; compacting = false }

abbrev pub two_tiles : DefaultCacheImpl Store
two_tiles = record {
  max_disk_storage = 20;
  is_open = true;
  memory_cache = none;
  mutable_cache = some disk_cache;
  mutable_cache_lru = some two_lru;
  protected_cache = none;
  mutable_cache_data_size = 20;
  protected_keys = no_keys;
  eviction_portion = 10;
}

abbrev pub db : LevelDb Store Bool
db = store key_discrete nothing

pub db-Answers : Answers key_discrete db
db-Answers = store-Answers key_discrete nothing

-- 0.9 and 0.85 in single precision, without the rounding of their products.
abbrev pub thresholds : Thresholds
thresholds = record {
  below_max = λ size max_size. ltb (size * 2 ^ 24) (max_size * 15099494);
  min_used = λ max_size. (max_size * 14260634 + 2 ^ 23) / 2 ^ 24;
}

-- A clock that goes on by a second for each reading.
abbrev pub seconds_from_60 : ℕ → ℕ
seconds_from_60 i = 60 + i

unfoldable pub two_tiles-Ready :
    Ready key_discrete seconds_from_60 100 2 no_memory none disk_cache two_lru
unfolding minus_time create_expiry_key
two_tiles-Ready = record {
  memory = no_memory;
  lru = two_elements;
  database = disk;
  in_memory = refl;
  within = (refl, λ q w e. e);
  in_lru = two_lru-LruHolds;
  is_room = refl;
  is_database = refl;
  light = omega arith;
  timely = λ i. ((_, refl), ((_, refl), tt));
  counted = refl;
}

abbrev pub no_items : Memory
no_items = record { room = 1000; items = []; gone = [] }

-- The same with a memory cache.
unfoldable pub with_memory-Ready :
    Ready key_discrete seconds_from_60 100 2 no_items (some (empty_memory 1000)) disk_cache two_lru
unfolding two_tiles-Ready
with_memory-Ready = record {
  memory = no_items;
  lru = two_elements;
  database = disk;
  in_memory = (empty_memory-IsMemory key_discrete default_cache_cost 1000, omega arith);
  within = (refl, λ q w e. e);
  in_lru = two_lru-LruHolds;
  is_room = refl;
  is_database = refl;
  light = two_tiles-Ready.light;
  timely = two_tiles-Ready.timely;
  counted = refl;
}
