-- ===== src/Cache/DiskCache/Tests.antt =====
-- Runs of the disk cache over a database in memory.
use here_data_sdk_cpp.Common.{ℕ, ◌≡◌, refl, Bool, true, false, [], ◌∷◌, none, some}
use here_data_sdk_cpp.Common.Bits.{u64}
use here_data_sdk_cpp.Cache.Keys.{key_discrete}
use here_data_sdk_cpp.Cache.ProtectedKeyList.{Key, string_less}
use here_data_sdk_cpp.Cache.InMemoryCache.Prefix.{staying}
use here_data_sdk_cpp.Cache.DiskCache
use here_data_sdk_cpp.Cache.DiskCache.{DiskCache, size_max}
use here_data_sdk_cpp.Cache.DiskCache.Prefix.{Removed, remove_keys_with_prefix-Removed}
use here_data_sdk_cpp.Cache.DiskCache.Instance.{Store, nothing, store, store-Answers}
use here_data_sdk_cpp.Cache.DiskCache.Open.{
  Attempts, open_disk_cache, has_opened, is_some, open_disk_cache-is_some,
}

abbrev tile : Key
tile = b't' ∷ b'1' ∷ []

abbrev other_tile : Key
other_tile = b't' ∷ b'2' ∷ []

abbrev first : Key
first = b'a' ∷ []

three_entries : Store
unfolding string_less
three_entries = (
  (first, 1 ∷ []) ∷ (tile, 2 ∷ 3 ∷ []) ∷ (other_tile, 4 ∷ []) ∷ [],
  ((refl, (refl, tt)), ((refl, tt), (tt, tt))),
)

abbrev three_cache : DiskCache Store
three_cache = record { database = some three_entries; max_size = size_max; compacting = false }

abbrev is_other_tile : Key → Bool
is_other_tile key = string_less tile key

remove_keys_with_prefix-Removed_example :
    (let done =
        DiskCache.remove_keys_with_prefix
          (store key_discrete nothing)
          three_cache
          (b't' ∷ [])
          is_other_tile in
      (n : ℕ) × Removed
        (store key_discrete nothing)
        key_discrete
        done.0
        three_entries.0
        (staying (b't' ∷ []) is_other_tile three_entries.0)
        done.1.0
        n
      × (done.1.1 ≡ u64 n))
remove_keys_with_prefix-Removed_example =
    remove_keys_with_prefix-Removed (store key_discrete nothing) key_discrete three_cache
      three_entries (b't' ∷ []) is_other_tile (store-Answers key_discrete nothing) refl

abbrev no_cache : DiskCache Store
no_cache = record { database = none; max_size = size_max; compacting = false }

abbrev broken_then_repaired : Attempts Store Bool
broken_then_repaired = record {
  directory = true;
  unexpected_dirs = false;
  first = (false, ([], tt));
  initialized = true;
  second = (false, ([], tt));
  repair = true;
  third = (true, ([], tt));
}

open_disk_cache-is_some_example :
    (let done =
        open_disk_cache
          (store key_discrete nothing)
          no_cache
          size_max
          false
          true
          broken_then_repaired in
      is_some done.0.database ≡ has_opened done.1)
open_disk_cache-is_some_example =
    open_disk_cache-is_some (store key_discrete nothing) no_cache size_max false true
      broken_then_repaired refl
