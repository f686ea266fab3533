-- ===== src/Cache/InMemoryCache/Put.antt =====
-- `Put` of an item.
use here_data_sdk_cpp.Common.{
  ℕ, ◌+◌, ◌^◌, ◌≤◌, ◌<◌, ◌≡◌, ◌≢◌, inl, inr, refl, ap, ◌∙◌, arith, Bool, true, false, ◌&&◌, [], ◌∷◌,
  Option, none, some, if◌then◌else◌, Bool-cases,
}
use here_data_sdk_cpp.Cache.ProtectedKeyList.{Key}
use here_data_sdk_cpp.Cache.Lru
use here_data_sdk_cpp.Cache.Lru.{LruCache}
use here_data_sdk_cpp.Cache.Lru.Node.{lookup}
use here_data_sdk_cpp.Cache.Lru.Model.{Elements, Refines}
use here_data_sdk_cpp.Cache.InMemoryCache.{
  ItemTuple, ItemTuples, InMemoryCache, vector_at, expired_keys,
}
use here_data_sdk_cpp.Cache.InMemoryCache.Expiries.{
  Ordered, listed, holds-expired_keys, holds-expired_keys_later,
}
use here_data_sdk_cpp.Common.Int.{ℤ, pos}
use here_data_sdk_cpp.Cache.Lru.Lookups.{insert_or_assign-Refines}
use here_data_sdk_cpp.Cache.InMemoryCache.{
  put_tuple, put_item, put, settle, expiry_max, has_expiry, push_back,
}
use here_data_sdk_cpp.Cache.InMemoryCache.Expiries.{
  on_evictions_lem, Ordered-push_back, listed-push_back, listed-push_back_self,
}
use here_data_sdk_cpp.Cache.InMemoryCache.Purge.{
  IsMemory, purged, lookup-purged, vector_at-entries_after, purge_expired-IsMemory,
}

module _ {A : Type 0} (dec : Discrete Key) (cost : ItemTuple A → ℕ) where
  settle-IsMemory :
      (e : Elements Key (ItemTuple A)) (c : InMemoryCache A) (tuples : LruCache Key (ItemTuple A))
      → Ordered c.item_expiries
      → Refines dec cost e tuples
      → IsMemory dec cost (record e { gone = [] }) (settle c tuples)
  unfolding settle
  settle-IsMemory e c tuples o h = record {
    refines = record {
      cache = record {
        chain = record {
          buckets = h.cache.chain.buckets;
          distinct = h.cache.chain.distinct;
          first_is = h.cache.chain.first_is;
          last_is = h.cache.chain.last_is;
          counted = h.cache.chain.counted;
        };
        sized = h.cache.sized;
      };
      bound = h.bound;
      log = refl;
      fits = h.fits;
    };
    ordered = (on_evictions_lem c.item_expiries tuples.evicted o).0;
  }

  -- What `Put` does, once the item has a time: the item is in front if it fits, no other key comes
  -- in, and the times list what they listed, and a new item that expires.
  pub record IsPut (e : Elements Key (ItemTuple A)) (c : InMemoryCache A) (tuple : ItemTuple A)
      (expires : Bool) (e' : Elements Key (ItemTuple A)) (c' : InMemoryCache A) (added : Bool)
      : Type 0 where
    pub memory : IsMemory dec cost e' c'
    pub room_is : e'.room ≡ e.room
    pub front : cost tuple ≤ e.room → lookup dec tuple.key e'.items ≡ some tuple
    pub mine : (w : ItemTuple A) → lookup dec tuple.key e'.items ≡ some w → w ≡ tuple
    pub others :
        (q : Key) → tuple.key ≢ q → lookup dec q e.items ≡ none → lookup dec q e'.items ≡ none
    pub lists :
        (q : Key) (t : ℕ)
        → listed dec q (vector_at t c.item_expiries) ≡ true
        → listed dec q (vector_at t c'.item_expiries) ≡ true
    pub registered :
        (added && expires) ≡ true
        → listed dec tuple.key (vector_at tuple.expiry c'.item_expiries) ≡ true

  put_tuple_steps :
      (c : InMemoryCache A) (tuple : ItemTuple A) (expires : Bool)
      (tuples : LruCache Key (ItemTuple A)) (r : Option Key × Bool)
      → Lru.insert_or_assign dec cost c.item_tuples tuple.key tuple ≡ some (tuples, r)
      → put_tuple dec cost c tuple expires
        ≡ some (
          if r.1 && expires
              then record (settle c tuples) {
                item_expiries = push_back tuple.expiry tuple (settle c tuples).item_expiries;
              }
              else settle c tuples,
          r.1,
        )
  unfolding put_tuple
  put_tuple_steps c tuple expires tuples r done = rw done refl

  settle-lists :
      (c : InMemoryCache A) (tuples : LruCache Key (ItemTuple A)) (q : Key) (t : ℕ)
      → Ordered c.item_expiries
      → listed dec q (vector_at t c.item_expiries) ≡ true
      → listed dec q (vector_at t (settle c tuples).item_expiries) ≡ true
  unfolding settle
  settle-lists c tuples q t o h =
      ap (listed dec q) ((on_evictions_lem c.item_expiries tuples.evicted o).1 t) ∙ h

  put_tuple-IsPut :
      (e : Elements Key (ItemTuple A)) (c : InMemoryCache A) (tuple : ItemTuple A) (expires : Bool)
      → IsMemory dec cost e c
      → e.room + cost tuple < 2 ^ 64
      → (e' : Elements Key (ItemTuple A)) × (c' : InMemoryCache A) × (added : Bool) × (put_tuple dec
            cost c tuple expires
          ≡ some (c', added))
        × IsPut e c tuple expires e' c' added
  unfolding put_tuple
  put_tuple-IsPut e c tuple expires h small =
      let (tuples, r, e1, done, h1, room, front, others, mine) =
        insert_or_assign-Refines dec cost e c.item_tuples tuple.key tuple h.refines small in
      let c1 = settle c tuples in
      let e2 : Elements Key (ItemTuple A) = record e1 { gone = [] } in
      let h2 = settle-IsMemory e1 c tuples h.ordered h1 in
      let steps = put_tuple_steps c tuple expires tuples r done in
      elim (Bool-cases (r.1 && expires)) [
        | inl new ↦
            let c2 : InMemoryCache A = record c1 {
              item_expiries = push_back tuple.expiry tuple c1.item_expiries;
            } in
            (
              e2,
              c2,
              r.1,
              steps ∙ rw new refl,
              record {
                memory = record {
                  refines = h2.refines;
                  ordered = Ordered-push_back tuple.expiry tuple c1.item_expiries h2.ordered;
                };
                room_is = room;
                front = front;
                mine = mine;
                others = others;
                lists = λ q t l.
                    listed-push_back dec q tuple.expiry t tuple c1.item_expiries h2.ordered
                      (settle-lists c tuples q t h.ordered l);
                registered = λ new. listed-push_back_self dec tuple c1.item_expiries;
              },
            )
        | inr old ↦ (
          e2,
          c1,
          r.1,
          steps ∙ rw old refl,
          record {
            memory = h2;
            room_is = room;
            front = front;
            mine = mine;
            others = others;
            lists = λ q t l. settle-lists c tuples q t h.ordered l;
            registered = λ new. cc;
          },
        )
      ]

  -- `Put` stores the tuple, after it has purged, whatever the cache is.
  pub Stores : Key → A → ℤ → ℕ → ℕ → ItemTuple A → Bool → Type 0
  Stores key item expire_seconds size now tuple expires =
      (c : InMemoryCache A)
      → put_item dec cost c key item expire_seconds size now ≡ put_tuple dec cost c tuple expires

  pub expires-Stores :
      (key : Key) (item : A) (n size now : ℕ)
      → 0 < n
      → n < expiry_max
      → n + now < 2 ^ 63
      → Stores key item
          (pos n)
          size
          now
          (record { key = key; expiry = n + now; item = item; size = size })
          true
  unfolding Stores put_item has_expiry
  expires-Stores key item n size now positive below sum c = ground arith

  pub stays-Stores :
      (key : Key) (item : A) (size now : ℕ)
      → Stores key item
          (pos expiry_max)
          size
          now
          (record { key = key; expiry = expiry_max; item = item; size = size })
          false
  unfolding Stores put_item has_expiry
  stays-Stores key item size now c = refl

  -- What a `Put` at the time `purge_time` does to the elements.
  pub record HasPut (e : Elements Key (ItemTuple A)) (c : InMemoryCache A) (tuple : ItemTuple A)
      (expires : Bool) (purge_time : ℕ) (e' : Elements Key (ItemTuple A)) (c' : InMemoryCache A)
      (added : Bool) : Type 0 where
    pub memory : IsMemory dec cost e' c'
    pub room_is : e'.room ≡ e.room
    pub front : cost tuple ≤ e.room → lookup dec tuple.key e'.items ≡ some tuple
    pub mine : (w : ItemTuple A) → lookup dec tuple.key e'.items ≡ some w → w ≡ tuple
    pub later :
        (q : Key) (t : ℕ)
        → purge_time ≤ t
        → listed dec q (vector_at t c.item_expiries) ≡ true
        → listed dec q (vector_at t c'.item_expiries) ≡ true
    pub expired :
        (q : Key) (t : ℕ)
        → t < purge_time
        → tuple.key ≢ q
        → listed dec q (vector_at t c.item_expiries) ≡ true
        → lookup dec q e'.items ≡ none
    pub registered :
        (added && expires) ≡ true
        → listed dec tuple.key (vector_at tuple.expiry c'.item_expiries) ≡ true

  listed_some : (q : Key) (v : ItemTuples A) → listed dec q v ≡ true → v ≢ []
  unfolding listed
  listed_some q [] h e = cc
  listed_some q (i ∷ v) h e = cc

  pub put-HasPut :
      (e : Elements Key (ItemTuple A)) (c : InMemoryCache A) (key : Key) (item : A)
      (expire_seconds : ℤ) (size purge_time now : ℕ) (tuple : ItemTuple A) (expires : Bool)
      → IsMemory dec cost e c
      → e.room + cost tuple < 2 ^ 64
      → Stores key item expire_seconds size now tuple expires
      → (e' : Elements Key (ItemTuple A)) × (c' : InMemoryCache A) × (added : Bool) × (put dec cost
            c key item expire_seconds size purge_time now
          ≡ some (c', added))
        × HasPut e c tuple expires purge_time e' c' added
  unfolding put Stores
  put-HasPut e c key item z size p now tuple expires h small stores =
      let (c1, r, done1, h1, m1) = purge_expired-IsMemory dec cost e c p h (omega arith) in
      let times = expired_keys p c.item_expiries in
      let e1 : Elements Key (ItemTuple A) = record e {
        items = purged dec c.item_expiries times e.items;
      } in
      let (e2, c2, added, done2, h2) = put_tuple-IsPut e1 c1 tuple expires h1 small in
      (
        e2,
        c2,
        added,
        rw (done1, stores c1) done2,
        record {
          memory = h2.memory;
          room_is = h2.room_is;
          front = h2.front;
          mine = h2.mine;
          later = λ q t le l. h2.lists q t (
              ap (listed dec q) (
                ap (vector_at t) m1
                ∙ vector_at-entries_after dec t c.item_expiries times h.ordered
                    (holds-expired_keys_later t p c.item_expiries le))
              ∙ l);
          expired = λ q t lt apart l. h2.others q apart (
              lookup-purged dec q t c.item_expiries times e.items h.ordered
                h.refines.cache.chain.distinct
                (holds-expired_keys t p c.item_expiries h.ordered lt
                  (listed_some q (vector_at t c.item_expiries) l))
                l);
          registered = h2.registered;
        },
      )
