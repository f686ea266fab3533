-- ===== src/Cache/InMemoryCache/Get.antt =====
-- `Get`, `Put` and `Contains` together.
use mathlib.Core.Path.{subst}
use here_data_sdk_cpp.Common.{
  ℕ, ◌+◌, ◌^◌, ◌≤◌, ◌<◌, ◌≡◌, ◌≢◌, refl, sym, ap, ◌∙◌, arith, Bool, true, false, ◌&&◌, none, some,
  ltb,
}
use here_data_sdk_cpp.Cache.ProtectedKeyList.{Key}
use here_data_sdk_cpp.Cache.Lru
use here_data_sdk_cpp.Cache.Lru.{LruCache}
use here_data_sdk_cpp.Cache.Lru.Node.{lookup}
use here_data_sdk_cpp.Cache.Lru.Promote.{promoted}
use here_data_sdk_cpp.Cache.Lru.Model.{Elements}
use here_data_sdk_cpp.Cache.InMemoryCache.{ItemTuple, InMemoryCache, vector_at}
use here_data_sdk_cpp.Common.Int.{pos}
use here_data_sdk_cpp.Cache.Lru.Lookups.{value_at-Refines}
use here_data_sdk_cpp.Cache.Lru.Simulate.{absent, present, promote-Refines}
use here_data_sdk_cpp.Cache.InMemoryCache.{put, get, expiry_max}
use here_data_sdk_cpp.Cache.InMemoryCache.Purge.{IsMemory, purge_at-IsMemory}
use here_data_sdk_cpp.Cache.InMemoryCache.Purge.{remove_each}
use here_data_sdk_cpp.Cache.InMemoryCache.Put.{put-HasPut, expires-Stores, stays-Stores}

module _ {A : Type 0} (dec : Discrete Key) (cost : ItemTuple A → ℕ) where
  find_absent :
      (e : Elements Key (ItemTuple A)) (c : InMemoryCache A) (key : Key)
      → IsMemory dec cost e c
      → lookup dec key e.items ≡ none
      → Lru.find dec c.item_tuples key ≡ some (c.item_tuples, none)
  unfolding Lru.find
  find_absent e c key h gone =
      rw (Lru.find, absent dec cost e c.item_tuples key h.refines gone) refl

  pub get_absent :
      (e : Elements Key (ItemTuple A)) (c : InMemoryCache A) (key : Key) (now : ℕ)
      → IsMemory dec cost e c
      → lookup dec key e.items ≡ none
      → get dec cost c key now ≡ some (c, none)
  unfolding get
  get_absent e c key now h gone = rw (find_absent e c key h gone) refl

  find_present :
      (e : Elements Key (ItemTuple A)) (c : InMemoryCache A) (key : Key) (w : ItemTuple A)
      → IsMemory dec cost e c
      → lookup dec key e.items ≡ some w
      → (tuples : LruCache Key (ItemTuple A)) × (Lru.find dec c.item_tuples key
          ≡ some (tuples, some key))
        × (Lru.value_at dec tuples key ≡ some w)
        × IsMemory dec cost
            (record e { items = promoted dec key w e.items })
            (record c { item_tuples = tuples })
  unfolding Lru.find
  find_present e c key w h at_w =
      let (b, at_k, _, _) = present dec cost e c.item_tuples key w h.refines at_w in
      let (tuples, done, h') = promote-Refines dec cost e c.item_tuples key w h.refines at_w in
      let e' : Elements Key (ItemTuple A) = record e { items = promoted dec key w e.items } in
      (
        tuples,
        rw (Lru.find, at_k, done) refl,
        value_at-Refines dec cost e' tuples key w h' (ground arith),
        record { refines = h'; ordered = h.ordered },
      )

  pub get_present :
      (e : Elements Key (ItemTuple A)) (c : InMemoryCache A) (key : Key) (now : ℕ) (w : ItemTuple A)
      → IsMemory dec cost e c
      → lookup dec key e.items ≡ some w
      → now ≤ w.expiry
      → (c' : InMemoryCache A) × (get dec cost c key now ≡ some (c', some w.item))
        × IsMemory dec cost (record e { items = promoted dec key w e.items }) c'
  unfolding get
  get_present e c key now w h at_w le =
      let (tuples, done, value, h') = find_present e c key w h at_w in
      let fresh : ltb w.expiry now ≡ false = ground arith in
      (record c { item_tuples = tuples }, rw (done, value, fresh) refl, h')

  pub get_expired :
      (e : Elements Key (ItemTuple A)) (c : InMemoryCache A) (key : Key) (now : ℕ) (w : ItemTuple A)
      → IsMemory dec cost e c
      → e.room < 2 ^ 64
      → lookup dec key e.items ≡ some w
      → w.expiry < now
      → (c' : InMemoryCache A) × (get dec cost c key now ≡ some (c', none))
        × IsMemory dec cost
            (record e {
              items =
                  remove_each dec (vector_at w.expiry c.item_expiries) (promoted dec key w e.items);
            })
            c'
  unfolding get
  get_expired e c key now w h small at_w lt =
      let (tuples, done, value, h1) = find_present e c key w h at_w in
      let e1 : Elements Key (ItemTuple A) = record e { items = promoted dec key w e.items } in
      let (c2, r, purges, h2, _) =
        purge_at-IsMemory dec cost e1 (record c { item_tuples = tuples }) w.expiry h1 small in
      let old : ltb w.expiry now ≡ true = ground arith in
      (c2, rw (done, value, old, purges) refl, h2)

  -- In a cache that stands for a list of elements, with a bound below 2 ^ 63, an item whose cost is
  -- within the bound, and that is put with a positive number of seconds whose sum with the clock is
  -- a `time_t`, is what `Get` of its key returns at every time up to that sum. Both calls return
  -- without a fault.
  pub get-put :
      (e : Elements Key (ItemTuple A)) (c : InMemoryCache A) (key : Key) (item : A)
      (n size purge_time now later : ℕ)
      → IsMemory dec cost e c
      → 0 < n
      → n < expiry_max
      → n + now < 2 ^ 63
      → later ≤ n + now
      → cost (record { key = key; expiry = n + now; item = item; size = size }) ≤ e.room
      → e.room + e.room < 2 ^ 64
      → (c1 : InMemoryCache A) × (c2 : InMemoryCache A) × (added : Bool) × (put dec cost c key item
            (pos n)
            size
            purge_time
            now
          ≡ some (c1, added))
        × (get dec cost c1 key later ≡ some (c2, some item))
  get-put e c key item n size p now later h positive below sum le fits small =
      let tuple : ItemTuple A = record { key = key; expiry = n + now; item = item; size = size } in
      let (e1, c1, added, done1, h1) =
        put-HasPut dec cost e c key item (pos n) size p now tuple true h (omega arith)
          (expires-Stores dec cost key item n size now positive below sum) in
      let (c2, done2, _) = get_present e1 c1 key later tuple h1.memory (h1.front fits) le in
      (c1, c2, added, done1, done2)

  -- In a cache that stands for a list of elements, an item is put as new with a time to expire, and
  -- before that time its key is put again with an item that never expires. Then the first `Put` of
  -- another key past that time removes the second item: `Get` of the key finds nothing at any later
  -- time. The times are of the type `time_t`, and the bound and the cost of an item of the given
  -- size are together below 2 ^ 64.
  pub put_overwritten :
      (e : Elements Key (ItemTuple A)) (c c1 : InMemoryCache A) (key other : Key)
      (first second third : A) (n size p0 t0 p1 t1 p2 t2 later : ℕ)
      → IsMemory dec cost e c
      → ((i : ItemTuple A) → i.size ≡ size → e.room + cost i < 2 ^ 64)
      → 0 < n
      → n < expiry_max
      → n + t0 < 2 ^ 63
      → put dec cost c key first (pos n) size p0 t0 ≡ some (c1, true)
      → p1 ≤ n + t0
      → n + t0 < p2
      → other ≢ key
      → (c2 : InMemoryCache A) × (c3 : InMemoryCache A) × (r2 : Bool) × (r3 : Bool) × (put dec cost
            c1 key second
            (pos expiry_max)
            size
            p1
            t1
          ≡ some (c2, r2))
        × (put dec cost c2 other third (pos expiry_max) size p2 t2 ≡ some (c3, r3))
        × (get dec cost c3 key later ≡ some (c3, none))
  put_overwritten e c c1 key other first second third n size p0 t0 p1 t1 p2 t2 later h small
        positive below sum new le lt apart =
      let tuple : ItemTuple A = record { key = key; expiry = n + t0; item = first; size = size } in
      let (e1', c1', added, done1, h1) =
        put-HasPut dec cost e c key first (pos n) size p0 t0 tuple true h (small tuple refl)
          (expires-Stores dec cost key first n size t0 positive below sum) in
      let same = sym done1 ∙ new in
      let added_is : added ≡ true = ap (λ o. elim o [ none ↦ true | some x ↦ x.1 ]) same in
      let c1_is : c1' ≡ c1 = ap (λ o. elim o [ none ↦ c1' | some x ↦ x.0 ]) same in
      let listed1 = h1.registered (ap (λ b. b && true) added_is) in
      let kept : ItemTuple A = record {
        key = key;
        expiry = expiry_max;
        item = second;
        size = size;
      } in
      let (e2, c2, r2, done2, h2) =
        put-HasPut dec cost e1' c1' key second (pos expiry_max) size p1 t1 kept false h1.memory
          (omega (arith, small kept refl, h1.room_is)) (stays-Stores dec cost key second size t1) in
      let listed2 = h2.later key (n + t0) le listed1 in
      let last : ItemTuple A = record {
        key = other;
        expiry = expiry_max;
        item = third;
        size = size;
      } in
      let (e3, c3, r3, done3, h3) =
        put-HasPut dec cost e2 c2 other third (pos expiry_max) size p2 t2 last false h2.memory
          (omega (arith, small last refl, h1.room_is, h2.room_is))
          (stays-Stores dec cost other third size t2) in
      (
        c2,
        c3,
        r2,
        r3,
        subst (λ x. put dec cost x key second (pos expiry_max) size p1 t1 ≡ some (c2, r2)) c1_is
            done2,
        done3,
        get_absent e3 c3 key later h3.memory (h3.expired key (n + t0) lt apart listed2),
      )
