-- ===== src/Cache/DefaultCache/Stored.antt =====
-- What `PutMutableCache` leaves in the entries of the database and in the LRU cache for a key.
use here_data_sdk_cpp.Common.{
  ℕ, ◌+◌, ◌^◌, ◌<◌, ◌≤◌, ◌≡◌, ◌⊎◌, inl, inr, arith, true, some, Bool-cases,
}
use here_data_sdk_cpp.Common.Int.{ℤ, pos}
use here_data_sdk_cpp.Common.Signed.{to_string, to_string_pos}
use here_data_sdk_cpp.Cache.ProtectedKeyList.{Key, is_protected}
use here_data_sdk_cpp.Cache.Lru.Node.{lookup}
use here_data_sdk_cpp.Cache.Lru.Model.{Op, keep, keep_at, act, step, Refines, Simulates}
use here_data_sdk_cpp.Cache.Lru.Simulate.{insert_or_assign-Simulates, find-Simulates}
use here_data_sdk_cpp.Cache.DiskCache.{Bytes, Entries, success, non_empty}
use here_data_sdk_cpp.Cache.DiskCache.Entries.{
  Sorted, after, put_entry, lookup-put_entry, Sorted-put_entry,
}
use here_data_sdk_cpp.Cache.DefaultCache.{
  DefaultCacheImpl, ValueProperties, DiskLruCache, create_expiry_key, disk_cost, promote_key_lru,
}
use here_data_sdk_cpp.Cache.DefaultCache.Keys.{create_expiry_key-ne}
use here_data_sdk_cpp.Cache.DefaultCache.Put.{store_expiry, store_item, put_lru}
use here_data_sdk_cpp.Cache.DefaultCache.Parts.{LruElements}

pub non_empty-to_string :
    (n : ℕ) → n < 2 ^ 63 → non_empty (some (to_string (pos n))) ≡ success (to_string (pos n))
unfolding non_empty
non_empty-to_string n small = let (c, cs, e) = to_string_pos n small in rw e (ground arith)

module _ (dec : Discrete Key) where
  -- The entries after the batch of an item with a time.
  pub stored :
      (key : Key) (value : Bytes) (expiry : ℤ) (l : Entries)
      → Sorted l
      → (lookup dec key (after dec (store_item key value true expiry) l) ≡ some value)
        × (lookup dec (create_expiry_key key) (after dec (store_item key value true expiry) l)
            ≡ some (to_string expiry))
  unfolding store_item store_expiry after
  stored key value expiry l s =
      let l1 = put_entry key value l in
      let ek = create_expiry_key key in
      let text = to_string expiry in
      let s1 = Sorted-put_entry dec key value l s in
      let first = lookup-put_entry dec key key value l s in
      let second = lookup-put_entry dec key ek text l1 s1 in
      let third = lookup-put_entry dec ek ek text l1 s1 in
      (ground (arith, create_expiry_key-ne key), ground arith)

  -- What the LRU cache answers.
  pub insert_answer :
      (e : LruElements) (key : Key) (v : ValueProperties)
      → 1 ≤ e.room
      → ((act dec disk_cost e (Op.insert_or_assign key v)).1.0 ≡ some key)
        × (lookup dec key (act dec disk_cost e (Op.insert_or_assign key v)).0.items ≡ some v)
  unfolding act keep_at keep
  insert_answer e key v h = (ground arith, ground arith)

  pub find_answer :
      (e : LruElements) (key : Key) (v : ValueProperties)
      → lookup dec key e.items ≡ some v
      → (act dec disk_cost e (Op.find key)).1.0 ≡ some key
  unfolding act
  find_answer e key v h = ground (arith, h)

  module _ {D : Type 0} where
    pub put_lru_lem :
        (s : DefaultCacheImpl D) (lru : LruElements) (t : DiskLruCache) (key : Key) (size : ℕ)
        (expiry : ℤ)
        → s.mutable_cache_lru ≡ some t
        → Refines dec disk_cost lru t
        → 1 ≤ lru.room
        → lru.room + 1 < 2 ^ 64
        → (t' : DiskLruCache) × (lru' : LruElements) × (put_lru dec s key size expiry
            ≡ some (record s { mutable_cache_lru = some t' }, success tt))
          × Refines dec disk_cost lru' t'
          × ((is_protected s.protected_keys key ≡ true)
              ⊎ (lookup dec key lru'.items ≡ some (record { size = size; expiry = expiry })))
    unfolding put_lru Simulates step
    put_lru_lem s lru t key size expiry at_t h some_room small =
        elim (Bool-cases (is_protected s.protected_keys key)) [
          | inl protects ↦ (t, lru, ground arith, h, inl protects)
          | inr free ↦
              let v : ValueProperties = record { size = size; expiry = expiry } in
              let (t', done, h') = insert_or_assign-Simulates dec disk_cost lru t key v h small in
              let (answer, there) = insert_answer lru key v some_room in
              (
                t',
                (act dec disk_cost lru (Op.insert_or_assign key v)).0,
                ground arith,
                h',
                inr there,
              )
        ]

    pub promote_known :
        (s : DefaultCacheImpl D) (lru : LruElements) (t : DiskLruCache) (key : Key)
        (v : ValueProperties)
        → s.mutable_cache_lru ≡ some t
        → Refines dec disk_cost lru t
        → (is_protected s.protected_keys key ≡ true) ⊎ (lookup dec key lru.items ≡ some v)
        → (t' : DiskLruCache) × (promote_key_lru dec s key
            ≡ some (record s { mutable_cache_lru = some t' }, true))
    unfolding promote_key_lru Simulates step
    promote_known s lru t key v at_t h known =
        let (t', done, h') = find-Simulates dec disk_cost lru t key h in
        elim known [
          | inl protects ↦ (t', ground arith)
          | inr there ↦ let answer = find_answer lru key v there in (t', ground arith)
        ]
