-- ===== src/Cache/DefaultCache/PutTests.antt =====
-- Runs of the calls of the default cache that store and evict, over databases in memory.
use here_data_sdk_cpp.Common.{ℕ, ◌+◌, ◌-◌, ◌≡◌, refl, arith, true, [], ◌∷◌, Option, none, some}
use here_data_sdk_cpp.Common.Int.{pos}
use here_data_sdk_cpp.Common.Signed.{plus_time}
use here_data_sdk_cpp.Cache.Keys.{key_discrete}
use here_data_sdk_cpp.Cache.InMemoryCache.{InMemoryCache, empty_memory}
use here_data_sdk_cpp.Cache.DiskCache.{Bytes, success, DiskCache}
use here_data_sdk_cpp.Cache.DiskCache.Entries.{put_entry}
use here_data_sdk_cpp.Cache.DiskCache.Prefix.{stored_size}
use here_data_sdk_cpp.Cache.DiskCache.Lookup.{cost_at}
use here_data_sdk_cpp.Cache.DiskCache.Instance.{Store}
use here_data_sdk_cpp.Cache.DefaultCache.{
  DefaultCacheImpl, DiskLruCache, Times, default_expiry, create_expiry_key, is_expiry_valid,
}
use here_data_sdk_cpp.Cache.DefaultCache.Disk.{get_remaining_expiry_time, get_from_disk_cache}
use here_data_sdk_cpp.Cache.DefaultCache.Calls.{read}
use here_data_sdk_cpp.Cache.DefaultCache.Evict.{
  Thresholds, Portion, no_portion, evict_data_portion, evict_expired_data_portion, maybe_evict_data,
}
use here_data_sdk_cpp.Cache.DefaultCache.EvictLast.{IsEvicted, evict_data_portion-IsEvicted}
use here_data_sdk_cpp.Cache.DefaultCache.EvictExpired.{evict_expired_data_portion-IsSwept}
use here_data_sdk_cpp.Cache.DefaultCache.Swept.{IsSwept}
use here_data_sdk_cpp.Cache.DefaultCache.EvictAll.{maybe_evict_data-Ready}
use here_data_sdk_cpp.Cache.DefaultCache.Ready.{holding, Ready}
use here_data_sdk_cpp.Cache.DefaultCache.Put.{put_mutable_cache, write}
use here_data_sdk_cpp.Cache.DefaultCache.PutGet.{get_from_disk_cache-put_mutable_cache}
use here_data_sdk_cpp.Cache.DefaultCache.WriteRead.{read-write}
use here_data_sdk_cpp.Cache.DefaultCache.Overwrite.{put_mutable_cache_overwrites}
use here_data_sdk_cpp.Cache.DefaultCache.Answer.{stored_answer}
use here_data_sdk_cpp.Cache.DefaultCache.Sample.{
  seconds_from_60, tile, part, two_elements, two_lru, two_lru-LruHolds, no_memory, disk, disk_cache,
  two_tiles, db, db-Answers, thresholds, two_tiles-Ready, no_items, with_memory-Ready,
}

get_from_disk_cache-put_mutable_cache_example :
    (s' s'' : DefaultCacheImpl Store) × (put_mutable_cache db key_discrete thresholds
        (holding two_tiles none disk_cache two_lru)
        part
        (7 ∷ [])
        (pos 30)
        60
        seconds_from_60
      ≡ some (s', success tt))
    × (get_from_disk_cache db key_discrete s' part 61 62
        ≡ some (s'', success (7 ∷ [], pos (90 - 62))))
    × (c' : DiskCache Store) × (d' : Store) × (s'.mutable_cache ≡ some c')
    × (c'.database ≡ some d')
    × (stored_answer key_discrete s'.protected_keys (db.entries d') part 62
        ≡ some (success (7 ∷ [], pos (90 - 62))))
unfolding is_expiry_valid plus_time
get_from_disk_cache-put_mutable_cache_example =
    get_from_disk_cache-put_mutable_cache db key_discrete thresholds two_tiles no_memory none
      disk_cache two_lru 100 2 part (7 ∷ []) (pos 30) 90 60 seconds_from_60 61 62 db-Answers
      (λ d batch. refl) (omega arith) refl refl two_tiles-Ready (omega arith) (omega arith)
      (omega arith) refl refl (omega arith) (omega arith)

-- The clock in a write and in a later read.
abbrev at_60 : Times
at_60 = record {
  get_time = 60;
  protected_time = 60;
  mutable_time = 60;
  purge_time = 60;
  put_time = 60;
}

abbrev at_70 : Times
at_70 = record {
  get_time = 70;
  protected_time = 70;
  mutable_time = 70;
  purge_time = 70;
  put_time = 70;
}

read-write_example :
    (s' s'' : DefaultCacheImpl Store) × (write db key_discrete thresholds
        (holding two_tiles (some (empty_memory 1000)) disk_cache two_lru)
        part
        (some (7 ∷ []))
        (pos 30)
        at_60
        seconds_from_60
      ≡ some (s', success tt))
    × (read db key_discrete s' part at_70 ≡ some (s'', success (7 ∷ [])))
read-write_example =
    read-write db key_discrete thresholds two_tiles no_items (some (empty_memory 1000)) disk_cache
      two_lru 100 2 part (7 ∷ []) 30 at_60 at_70 seconds_from_60 db-Answers (λ d batch. refl)
      (omega arith) refl refl refl with_memory-Ready (omega arith) (omega arith) (omega arith)
      (omega arith) (omega arith) (omega arith) (omega arith) (omega arith) (omega arith)
      (omega arith)

maybe_evict_data-Ready_example :
    (m' : Option (InMemoryCache Bytes)) × (c' : DiskCache Store) × (t' : DiskLruCache) × (n'
      evicted : ℕ)
    × (maybe_evict_data db key_discrete thresholds
          (holding two_tiles none disk_cache two_lru)
          seconds_from_60
        ≡ some (holding two_tiles m' c' t', evicted))
    × Ready key_discrete seconds_from_60 100 n' no_memory m' c' t'
maybe_evict_data-Ready_example =
    maybe_evict_data-Ready db key_discrete thresholds two_tiles seconds_from_60 100 2 no_memory none
      disk_cache two_lru (omega arith) two_tiles-Ready

evict_data_portion-IsEvicted_example :
    (s' : DefaultCacheImpl Store) × (p : Portion) × (evict_data_portion key_discrete two_tiles 3
      ≡ some (s', p))
    × IsEvicted key_discrete two_tiles s' no_memory two_elements two_elements.items [] 3 p
unfolding create_expiry_key is_expiry_valid
evict_data_portion-IsEvicted_example =
    evict_data_portion-IsEvicted key_discrete two_tiles no_memory two_elements two_lru 3 refl refl
      two_lru-LruHolds (omega arith)

evict_expired_data_portion-IsSwept_example :
    (s' : DefaultCacheImpl Store) × (p : Portion) × (evict_expired_data_portion key_discrete 60
        two_tiles 30
      ≡ some (s', p))
    × IsSwept key_discrete two_tiles s' no_memory two_elements [] two_elements.items 60 30
        no_portion p
unfolding create_expiry_key two_tiles-Ready
evict_expired_data_portion-IsSwept_example =
    evict_expired_data_portion-IsSwept key_discrete two_tiles no_memory two_elements two_lru 60 30
      refl refl two_lru-LruHolds two_tiles-Ready.light (two_tiles-Ready.timely 0)

abbrev roomy : Thresholds
roomy = record { below_max = λ size max_size. true; min_used = λ max_size. 5 }

put_mutable_cache_overwrites_example :
    (s' : DefaultCacheImpl Store) × (c' : DiskCache Store) × (d' : Store) × (put_mutable_cache db
        key_discrete roomy two_tiles tile
        (9 ∷ [])
        default_expiry
        60
        seconds_from_60
      ≡ some (s', success tt))
    × (s'.mutable_cache ≡ some c')
    × (c'.database ≡ some d')
    × (d'.0 ≡ put_entry tile (9 ∷ []) disk.0)
    × (get_remaining_expiry_time db key_discrete tile c' 60
        ≡ get_remaining_expiry_time db key_discrete tile disk_cache 60)
    × (s'.mutable_cache_data_size ≡ stored_size d'.0 + 2 + cost_at key_discrete tile disk.0)
unfolding stored_size disk
put_mutable_cache_overwrites_example =
    put_mutable_cache_overwrites db key_discrete roomy two_tiles disk_cache disk two_elements
      two_lru tile (9 ∷ []) 2 60 seconds_from_60 60 db-Answers (λ d batch. refl) refl refl refl
      two_lru-LruHolds.0 (omega arith) (omega arith) refl refl refl (omega arith)
