-- ===== src/Cache/DefaultCache/Answer.antt =====
-- What `GetFromDiskCache` of `DefaultCacheImpl` answers, from the entries of the database alone,
-- where the LRU cache knows the keys that it is to hold.
use mathlib.Core.Path.{subst}
use here_data_sdk_cpp.Common.{
  ℕ, ◌≡◌, ◌⊎◌, inl, inr, refl, sym, arith, Bool, true, false, ◌||◌, [], ◌∷◌, Option, none, some,
  if◌then◌else◌, ◌>>=◌, Bool-cases, Option-cases,
}
use here_data_sdk_cpp.Common.Int.{ℤ}
use here_data_sdk_cpp.Common.Signed.{stoll, minus_time, is_positive}
use here_data_sdk_cpp.Cache.ProtectedKeyList.{Key, ProtectedKeyList, is_protected}
use here_data_sdk_cpp.Cache.Lru.Node.{lookup}
use here_data_sdk_cpp.Cache.Lru.Model.{act, step, Simulates}
use here_data_sdk_cpp.Cache.Lru.Simulate.{find-Simulates}
use here_data_sdk_cpp.Cache.DiskCache.{
  Bytes, Entries, ErrorCode, Outcome, success, failure, LevelDb, DiskCache, non_empty,
}
use here_data_sdk_cpp.Cache.DiskCache.Entries.{Answers}
use here_data_sdk_cpp.Cache.DiskCache.Lookup.{get-lookup}
use here_data_sdk_cpp.Cache.DiskCache.Open.{is_some}
use here_data_sdk_cpp.Cache.DefaultCache.{
  DefaultCacheImpl, DiskLruCache, default_expiry, create_expiry_key, is_expiry_key, is_internal_key,
  original_key, disk_cost, promote_key_lru, remove_key_lru,
}
use here_data_sdk_cpp.Cache.DefaultCache.Disk.{
  get_remaining_expiry_time, get_item, get_in_use, get_expired, get_mutable, purge_mutable,
}
use here_data_sdk_cpp.Cache.DefaultCache.Parts.{LruElements, LruHolds, remove_key_lru-LruHolds}
use here_data_sdk_cpp.Cache.DefaultCache.Loaded.{skips, loads, is_known}

module _ (dec : Discrete Key) where
  -- The time that an item has left, as the entries say, and the answer for its key.
  unfoldable pub stored_expiry : Entries → Key → ℕ → Option ℤ
  stored_expiry l key now = elim (non_empty (lookup dec (create_expiry_key key) l)) [
    | success text ↦ do expiry ← stoll text; minus_time expiry now
    | failure e ↦ some default_expiry
  ]

  unfoldable pub stored_answer : ProtectedKeyList → Entries → Key → ℕ → Option (Outcome (Bytes × ℤ))
  stored_answer keys l key now = do
    expiry ← stored_expiry l key now
    some (
        if is_positive expiry || is_protected keys key
        then elim (non_empty (lookup dec key l)) [
          | success value ↦ success (value, expiry)
          | failure e ↦ failure ErrorCode.not_found
        ]
        else failure ErrorCode.not_found)

  loads_stored :
      (keys : ProtectedKeyList) (l : Entries) (key : Key) (v : Bytes)
      → lookup dec key l ≡ some v
      → is_expiry_key key ≡ false
      → skips keys key ≡ false
      → loads dec keys l key ≡ true
  unfolding loads original_key
  loads_stored keys [] key v e item takes = cc
  loads_stored keys ((k, w) ∷ l) key v e item takes = ground (arith, loads_stored keys l key v)

module _ {D S : Type 0} (db : LevelDb D S) (dec : Discrete Key) where
  -- The LRU cache is not there, or it knows the keys that it is to hold.
  abbrev pub Knows : DefaultCacheImpl D → Entries → Type 0
  Knows s l =
      (s.mutable_cache_lru ≡ none)
      ⊎ ((t : DiskLruCache) × (e : LruElements) × (s.mutable_cache_lru ≡ some t)
          × LruHolds dec (some t) e
          × ((q : Key) → is_known dec e q ≡ loads dec s.protected_keys l q))

  remaining_lem :
      (c : DiskCache D) (d : D) (key : Key) (now : ℕ)
      → Answers dec db
      → c.database ≡ some d
      → get_remaining_expiry_time db dec key c now ≡ stored_expiry dec (db.entries d) key now
  unfolding get_remaining_expiry_time stored_expiry
  remaining_lem c d key now answers opened =
      let text = get-lookup db dec c d (create_expiry_key key) answers opened in ground arith

  get_item_lem :
      (c : DiskCache D) (d : D) (key : Key) (expiry : ℤ)
      → Answers dec db
      → c.database ≡ some d
      → get_item db dec c key expiry ≡ elim (non_empty (lookup dec key (db.entries d))) [
        | success value ↦ success (value, expiry)
        | failure e ↦ failure ErrorCode.not_found
      ]
  unfolding get_item non_empty
  get_item_lem c d key expiry answers opened =
      let item = get-lookup db dec c d key answers opened in
      elim (Option-cases (lookup dec key (db.entries d))) [
        | inl absent ↦ ground arith
        | inr (v, there) ↦ ground arith
      ]

  promote_lem :
      (s : DefaultCacheImpl D) (l : Entries) (key : Key)
      → Knows s l
      → (s' : DefaultCacheImpl D) × (r : Bool) × (promote_key_lru dec s key ≡ some (s', r))
        × ((v : Bytes)
            → lookup dec key l ≡ some v
            → is_expiry_key key ≡ false
            → is_internal_key key ≡ false
            → r ≡ true)
  unfolding promote_key_lru Simulates step act is_some skips
  promote_lem s l key (inl no_lru) = (s, true, ground arith, λ v there item outer. refl)
  promote_lem s l key (inr (t, e, at_t, (h, small), known)) =
      let (t', done, h') = find-Simulates dec disk_cost e t key h in
      let s' : DefaultCacheImpl D = record s { mutable_cache_lru = some t' } in
      elim (Option-cases (lookup dec key e.items)) [
        | inl absent ↦ (
          s',
          is_protected s.protected_keys key,
          ground arith,
          λ v there item outer.
              ground (arith, known key, loads_stored dec s.protected_keys l key v there item),
        )
        | inr (v, present) ↦ (s', true, ground arith, λ v there item outer. refl)
      ]

  remove_total :
      (s : DefaultCacheImpl D) (l : Entries) (key : Key)
      → Knows s l
      → (s' : DefaultCacheImpl D) × (r : Bool) × (remove_key_lru dec s key ≡ some (s', r))
  unfolding remove_key_lru
  remove_total s l key (inl no_lru) = (s, false, ground arith)
  remove_total s l key (inr (t, e, at_t, h, known)) =
      let (t', r, done, _) =
        remove_key_lru-LruHolds dec s e key (subst (λ m. LruHolds dec m e) (sym at_t) h) in
      (record s { mutable_cache_lru = t' }, r, done)

  get_in_use_lem :
      (s : DefaultCacheImpl D) (c : DiskCache D) (d : D) (key : Key) (expiry : ℤ)
      → Answers dec db
      → c.database ≡ some d
      → Knows s (db.entries d)
      → is_expiry_key key ≡ false
      → (s' : DefaultCacheImpl D) × (get_in_use db dec s c key expiry
          ≡ some (
            s',
            elim (non_empty (lookup dec key (db.entries d))) [
              | success value ↦ success (value, expiry)
              | failure e ↦ failure ErrorCode.not_found
            ],
          ))
  unfolding get_in_use non_empty
  get_in_use_lem s c d key expiry answers opened knows item =
      let got = get_item_lem c d key expiry answers opened in
      let (s', r, promoted, true_for) = promote_lem s (db.entries d) key knows in
      elim (Bool-cases (is_internal_key key)) [
        | inl internal ↦ (s, ground arith)
        | inr outer ↦ elim (Option-cases (lookup dec key (db.entries d))) [
          | inl absent ↦ (s', ground arith)
          | inr (v, there) ↦ let known = true_for v there item outer in (s', ground arith)
        ]
      ]

  pub get_mutable_lem :
      (s : DefaultCacheImpl D) (c : DiskCache D) (d : D) (key : Key) (now : ℕ)
      → Answers dec db
      → s.mutable_cache ≡ some c
      → c.database ≡ some d
      → Knows s (db.entries d)
      → is_expiry_key key ≡ false
      → (do (s', answer) ← get_mutable db dec s key now; some answer)
        ≡ stored_answer dec s.protected_keys (db.entries d) key now
  unfolding get_mutable stored_answer get_expired purge_mutable
  get_mutable_lem s c d key now answers at_c opened knows item =
      let left = remaining_lem c d key now answers opened in
      elim (Option-cases (stored_expiry dec (db.entries d) key now)) [
        | inl fault ↦ ground arith
        | inr (expiry, is) ↦
            let (s1, got) = get_in_use_lem s c d key expiry answers opened knows item in
            let (s2, r, removed) =
              remove_total (purge_mutable db dec s c key).0 (db.entries d) key knows in
            ground arith
      ]
