-- ===== src/Cache/DefaultCache/WriteRead.antt =====
-- `Write` and then `Read` of `DefaultCacheImpl`, through the memory cache and the mutable cache.
use here_data_sdk_cpp.Common.{
  ℕ, ◌+◌, ◌-◌, ◌^◌, ◌<◌, ◌≤◌, ◌≡◌, inl, inr, refl, sym, ap, arith, true, false, List, Option, none,
  some, length, ltb, Bool-cases,
}
use mathlib.Core.Path.{subst}
use here_data_sdk_cpp.Common.Int.{pos}
use here_data_sdk_cpp.Common.Signed.{plus_time}
use here_data_sdk_cpp.Cache.ProtectedKeyList.{Key}
use here_data_sdk_cpp.Cache.InMemoryCache.{InMemoryCache, expiry_max}
use here_data_sdk_cpp.Cache.DiskCache.{Bytes, BatchOp, success, LevelDb, DiskCache}
use here_data_sdk_cpp.Cache.DiskCache.Entries.{Answers}
use here_data_sdk_cpp.Cache.DefaultCache.{DefaultCacheImpl, DiskLruCache, Times, is_expiry_valid}
use here_data_sdk_cpp.Cache.DefaultCache.Calls.{read_disk, read}
use here_data_sdk_cpp.Cache.DefaultCache.Put.{write}
use here_data_sdk_cpp.Cache.DefaultCache.Evict.{Thresholds}
use here_data_sdk_cpp.Cache.DefaultCache.Ready.{holding, Ready}
use here_data_sdk_cpp.Cache.DefaultCache.Parts.{Memory, MemoryHolds}
use here_data_sdk_cpp.Cache.DefaultCache.Stored.{promote_known}
use here_data_sdk_cpp.Cache.DefaultCache.PutGet.{found_after}
use here_data_sdk_cpp.Cache.DefaultCache.PutLeaves.{IsStored, put_leaves}
use here_data_sdk_cpp.Cache.DefaultCache.MemoryCalls.{
  Only, Storable, memory_put-Only, memory_get-Only,
}

seconds_left : (k now : ℕ) → 0 < k → k + now < 2 ^ 63 → k < 2 ^ 63 → Storable (pos k) now
seconds_left k now positive sum below = elim (Bool-cases (ltb k expiry_max)) [
  | inl less ↦ inr (k, refl, positive, ground arith, sum)
  | inr most ↦ inl (ap pos (ground arith))
]

module _ {D S : Type 0} (db : LevelDb D S) (dec : Discrete Key) (thresholds : Thresholds) where
  -- `Read` where the item is stored, and the memory cache has it or nothing for the key.
  read_stored :
      (s : DefaultCacheImpl D) (base : Memory) (m : Option (InMemoryCache Bytes)) (c : DiskCache D)
      (t : DiskLruCache) (key : Key) (value : Bytes) (e : ℕ) (times : Times)
      → Answers dec db
      → s.is_open ≡ true
      → s.protected_cache ≡ none
      → IsStored db dec thresholds s.protected_keys base m c t key value e
      → Only dec key value base
      → base.room + length value + 1 < 2 ^ 64
      → 0 < length value
      → e < 2 ^ 63
      → times.mutable_time < e
      → e - times.mutable_time + times.put_time < 2 ^ 63
      → (s' : DefaultCacheImpl D) × (read db dec (holding s m c t) key times
          ≡ some (s', success value))
  unfolding read read_disk
  read_stored s base m c t key value e times answers opens unprotected h only small some_bytes
        e_small later sum =
      let s1 = holding s m c t in
      let left = e - times.mutable_time in
      let only1 : Only dec key value h.memory = λ w there. only w (h.within.1 key w there) in
      let (m2, memory2, r, got, held2, room2, which) =
        memory_get-Only dec s1 h.memory key value times.get_time h.in_memory only1 in
      let s2 : DefaultCacheImpl D = record s1 { memory_cache = m2 } in
      elim which [
        | inr hit ↦
            let (t', promoted) =
              promote_known dec s2 h.lru t key (record { size = length value; expiry = pos e }) refl
                h.in_lru h.known in
            (record s2 { mutable_cache_lru = some t' }, ground arith)
        | inl miss ↦
            let (s3, found, same_memory, same_keys) =
              found_after db dec thresholds s2 c h.database h.before h.lru t key value e
                times.mutable_time times.protected_time
                (record { size = length value; expiry = pos e }) answers unprotected refl
                h.is_database h.entries_are h.sorted refl h.in_lru h.known some_bytes e_small
                later in
            let (m4, _, stored, _, _, _) =
              memory_put-Only dec s3 memory2 key value (pos left) times.purge_time times.put_time
                (subst (λ x. MemoryHolds dec x memory2) (sym same_memory) held2)
                (omega (arith, room2, h.within.0))
                (seconds_left left times.put_time (omega arith) sum (omega arith)) in
            (record s3 { memory_cache = m4 }, ground arith)
      ]

  -- What `Write` stores for some seconds is what `Read` returns before they are over, whether
  -- the memory cache still has it, has lost it or had no room for it, and whatever value it
  -- had for the key before: `Write` evicts first if the cache is nearly full, and both calls
  -- end and succeed. The cache is open, the value is not empty, there is no protected cache,
  -- the list of protected keys has not changed since it was stored, LevelDB accepts the
  -- writes, the caches hold elements and their bounds and times are in range, the LRU cache
  -- has room for an element, and eviction works in portions above 0. The times of the clock
  -- are those that the calls and each portion of the eviction read, in any order; the
  -- thresholds of the eviction are any.
  pub read-write :
      (s : DefaultCacheImpl D) (base : Memory) (m : Option (InMemoryCache Bytes)) (c : DiskCache D)
      (t : DiskLruCache) (room n : ℕ) (key : Key) (value : Bytes) (seconds : ℕ)
      (written reads : Times) (clock : ℕ → ℕ)
      → Answers dec db
      → ((d : D) (batch : List BatchOp) → db.ok (db.write d batch).1 ≡ true)
      → 0 < s.eviction_portion
      → s.is_open ≡ true
      → s.protected_keys.dirty ≡ false
      → s.protected_cache ≡ none
      → (ready : Ready dec clock room n base m c t) → 1 ≤ room
      → room + 1 < 2 ^ 64
      → base.room + length value + 1 < 2 ^ 64
      → 0 < length value
      → 0 < seconds
      → seconds < expiry_max
      → seconds + written.put_time < 2 ^ 63
      → seconds + written.mutable_time < 2 ^ 63
      → reads.mutable_time < seconds + written.mutable_time
      → seconds + written.mutable_time - reads.mutable_time + reads.put_time < 2 ^ 63
      → (s' s'' : DefaultCacheImpl D) × (write db dec thresholds
            (holding s m c t)
            key
            (some value)
            (pos seconds)
            written
            clock
          ≡ some (s', success tt))
        × (read db dec s' key reads ≡ some (s'', success value))
  unfolding write is_expiry_valid plus_time
  read-write s base m c t room n key value seconds written reads clock answers accepts portion opens
        clean unprotected ready some_room room_small memory_small some_bytes positive below put_sum
        sum later read_sum =
      let e = seconds + written.mutable_time in
      let (m1, base1, put1, held1, room1, only1) =
        memory_put-Only dec (holding s m c t) ready.memory key value (pos seconds)
          written.purge_time written.put_time ready.in_memory (omega (arith, ready.within.0))
          (inr (seconds, refl, positive, below, put_sum)) in
      let ready1 : Ready dec clock room n base1 m1 c t = record {
        memory = base1;
        lru = ready.lru;
        database = ready.database;
        in_memory = held1;
        within = (refl, λ q w there. there);
        in_lru = ready.in_lru;
        is_room = ready.is_room;
        is_database = ready.is_database;
        light = ready.light;
        timely = ready.timely;
        counted = ready.counted;
      } in
      let expires : is_expiry_valid (pos seconds) ≡ true = ground arith in
      let adds : plus_time (pos seconds) written.mutable_time ≡ some (pos e) = ground arith in
      let (m2, c2, t2, size, put2, stored) =
        put_leaves db dec thresholds s base1 m1 c t room n key value (pos seconds) e
          written.mutable_time clock answers accepts portion clean ready1 some_room room_small
          expires adds in
      let s2 : DefaultCacheImpl D = record s { mutable_cache_data_size = size } in
      let (s3, got) =
        read_stored s2 base1 m2 c2 t2 key value e reads answers opens unprotected stored only1
          (omega (arith, room1, ready.within.0)) some_bytes sum later read_sum in
      (holding s2 m2 c2 t2, s3, ground arith, got)
