-- ===== src/Cache/DefaultCache/Loaded.antt =====
-- `InitializeLru` of `DefaultCacheImpl`: the elements that the LRU cache gets from the entries of
-- the database.
use mathlib.Core.Path.{subst}
use here_data_sdk_cpp.Common.{
  ℕ, ◌+◌, ◌^◌, ◌<◌, ◌≤◌, ◌≡◌, inl, inr, refl, ap, ◌∙◌, arith, Bool, true, false, not, ◌&&◌, ◌||◌,
  List, [], ◌∷◌, some, length, Bool-cases, Option-cases,
}
use here_data_sdk_cpp.Common.Bits.{u64}
use here_data_sdk_cpp.Common.Signed.{stoll}
use here_data_sdk_cpp.Cache.ProtectedKeyList.{Key, ProtectedKeyList, is_protected}
use here_data_sdk_cpp.Cache.Lru.Node.{lookup, remove, lookup-remove_ne}
use here_data_sdk_cpp.Cache.Lru.Evict.{total, fitting_all, unfitting_all}
use here_data_sdk_cpp.Cache.Lru.Promote.{promoted}
use here_data_sdk_cpp.Cache.Lru.Model.{Op, keep, keep_at, act, step, Refines, Simulates}
use here_data_sdk_cpp.Cache.Lru.Simulate.{insert_or_assign-Simulates}
use here_data_sdk_cpp.Cache.DiskCache.{Bytes, Entries, LevelDb, same_key}
use here_data_sdk_cpp.Cache.DiskCache.Open.{is_some}
use here_data_sdk_cpp.Cache.DiskCache.Prefix.{stored_size}
use here_data_sdk_cpp.Cache.DefaultCache.{
  DefaultCacheImpl, ValueProperties, DiskLruCache, disk_cost, is_expiry_key, is_internal_key,
  original_key, with_value, properties_of, add_key_lru,
}
use here_data_sdk_cpp.Cache.DefaultCache.Parts.{LruElements}
use here_data_sdk_cpp.Cache.DefaultCache.Storage.{initialize_keys}

-- The keys that the LRU cache does not hold.
unfoldable pub skips : ProtectedKeyList → Key → Bool
skips keys k = is_protected keys k || is_internal_key k

-- The entries that are read as times are numbers.
unfoldable pub readable : ProtectedKeyList → Entries → Bool
readable keys [] = true
readable keys ((k, v) ∷ l) =
    (skips keys k || not (is_expiry_key k) || is_some (stoll v)) && readable keys l

with_value_reads :
    (is_time : Bool) (p : ValueProperties) (v : Bytes)
    → (not is_time || is_some (stoll v)) ≡ true
    → (p' : ValueProperties) × (with_value is_time p v ≡ some p')
unfolding with_value is_some
with_value_reads false p v h = (record p { size = length v }, refl)
with_value_reads true p v h = elim (Option-cases (stoll v)) [
  | inl none_read ↦ absurd (ground arith)
  | inr (expiry, read) ↦ (record p { expiry = expiry }, ground arith)
]

total-disk_cost : (l : List (Key × ValueProperties)) → total disk_cost l ≡ length l
total-disk_cost [] = refl
total-disk_cost (x ∷ l) = omega (arith, total-disk_cost l)

module _ (dec : Discrete Key) where
  -- Whether an entry of the key, or of its time, is one that the LRU cache holds.
  unfoldable pub loads : ProtectedKeyList → Entries → Key → Bool
  loads keys [] q = false
  loads keys ((k, v) ∷ l) q =
      not (skips keys k) && same_key dec (original_key k) q || loads keys l q

  abbrev pub is_known : LruElements → Key → Bool
  is_known e q = is_some (lookup dec q e.items)

  length-remove-le :
      (k : Key) (l : List (Key × ValueProperties)) → length (remove dec k l) ≤ length l
  length-remove-le k [] = omega arith
  length-remove-le k ((j, v) ∷ l) = ground (arith, length-remove-le k l)

  keep_all :
      (e : LruElements) (l : List (Key × ValueProperties))
      → length l ≤ e.room
      → keep_at dec disk_cost e l ≡ record e { items = l }
  unfolding keep_at keep
  keep_all e l h =
      let small : total disk_cost l ≤ e.room = omega (arith, total-disk_cost l) in
      let stays = fitting_all disk_cost e.room l small in
      let none_left = unfitting_all disk_cost e.room l small in ground arith

  assigned :
      (e : LruElements) (k : Key) (v : ValueProperties)
      → length e.items + 1 ≤ e.room
      → (l : List (Key × ValueProperties)) × ((act dec disk_cost e (Op.insert_or_assign k v)).0
          ≡ record e { items = l })
        × (length l ≤ length e.items + 1)
        × ((q : Key)
            → is_some (lookup dec q l) ≡ (same_key dec k q || is_some (lookup dec q e.items)))
  unfolding act is_some
  assigned e k v h = elim (Option-cases (lookup dec k e.items)) [
    | inl absent ↦
        let kept = keep_all e ((k, v) ∷ e.items) (omega arith) in
        ((k, v) ∷ e.items, ground arith, omega arith, λ q. ground arith)
    | inr (w, present) ↦
        let l = promoted dec k v e.items in
        let short = length-remove-le k e.items in
        let kept = keep_all e l (omega arith) in
        (l, ground arith, omega arith, λ q. ground (arith, lookup-remove_ne dec k q e.items))
  ]

  module _ {D : Type 0} where
    -- A state with another LRU cache and data size.
    abbrev pub loaded : DefaultCacheImpl D → DiskLruCache → ℕ → DefaultCacheImpl D
    loaded s t n = record s { mutable_cache_lru = some t; mutable_cache_data_size = n }

    add_key_lru-loads :
        (s : DefaultCacheImpl D) (t : DiskLruCache) (e : LruElements) (n : ℕ) (k : Key) (v : Bytes)
        → Refines dec disk_cost e t
        → length e.items + 1 ≤ e.room
        → e.room + 1 < 2 ^ 64
        → (skips s.protected_keys k || not (is_expiry_key k) || is_some (stoll v)) ≡ true
        → (t' : DiskLruCache) × (l : List (Key × ValueProperties)) × (r : Bool) × (add_key_lru dec
              (loaded s t n)
              k
              v
            ≡ some (loaded s t' n, r))
          × Refines dec disk_cost (record e { items = l }) t'
          × (length l ≤ length e.items + 1)
          × ((q : Key)
              → is_some (lookup dec q l) ≡ (
                  not (skips s.protected_keys k) && same_key dec (original_key k) q
                  || is_some (lookup dec q e.items)))
    unfolding add_key_lru with_value is_some Simulates step skips
    add_key_lru-loads s t e n k v h some_room small reads =
        elim (Bool-cases (skips s.protected_keys k)) [
          | inl skip ↦ (t, e.items, false, ground arith, h, omega arith, λ q. ground arith)
          | inr takes ↦
              let (p, changed) =
                with_value_reads (is_expiry_key k) (properties_of dec t (original_key k)) v
                  (ground arith) in
              let (t', done, h') =
                insert_or_assign-Simulates dec disk_cost e t (original_key k) p h small in
              let (l, is, short, known) = assigned e (original_key k) p some_room in
              (
                t',
                l,
                (act dec disk_cost e (Op.insert_or_assign (original_key k) p)).1.1,
                ground arith,
                subst (λ e'. Refines dec disk_cost e' t') is h',
                short,
                λ q. ground (arith, known q),
              )
        ]

module _ {D S : Type 0} (db : LevelDb D S) (dec : Discrete Key) where
  -- The loop over the entries: it ends, counts the size of every entry, and the LRU cache gets
  -- exactly the keys that it is to hold.
  pub initialize_keys-loads :
      (s : DefaultCacheImpl D) (t : DiskLruCache) (e : LruElements) (n : ℕ) (m : Entries)
      → Refines dec disk_cost e t
      → length e.items + length m ≤ e.room
      → e.room + 1 < 2 ^ 64
      → n < 2 ^ 64
      → readable s.protected_keys m ≡ true
      → (t' : DiskLruCache) × (l : List (Key × ValueProperties)) × (initialize_keys db dec
            (loaded dec s t n)
            m
          ≡ some (loaded dec s t' (u64 (n + stored_size m))))
        × Refines dec disk_cost (record e { items = l }) t'
        × ((q : Key)
            → is_some (lookup dec q l)
              ≡ (loads dec s.protected_keys m q || is_some (lookup dec q e.items)))
  unfolding initialize_keys readable loads stored_size u64
  initialize_keys-loads s t e n [] h fit small bounded reads =
      (t, e.items, ground arith, h, λ q. refl)
  initialize_keys-loads s t e n ((k, v) ∷ m) h fit small bounded reads =
      let n1 = u64 (n + (length k + length v)) in
      let (t1, l1, r, done1, h1, short, known1) =
        add_key_lru-loads dec s t e n1 k v h (omega arith) small (ground arith) in
      let (t2, l2, done2, h2, known2) =
        initialize_keys-loads s t1 (record e { items = l1 }) n1 m h1 (omega arith) small
          (omega arith) (ground arith) in
      let sum : u64 (n1 + stored_size m) ≡ u64 (n + stored_size ((k, v) ∷ m)) = omega arith in
      (
        t2,
        l2,
        rw done1 (done2 ∙ ap (λ x. some (loaded dec s t2 x)) sum),
        h2,
        λ q. ground (arith, known1 q, known2 q),
      )
