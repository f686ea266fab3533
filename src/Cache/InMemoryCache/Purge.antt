-- ===== src/Cache/InMemoryCache/Purge.antt =====
-- `PurgeExpired`: the items that a past time lists are erased.
use mathlib.Core.Path.{subst}
use here_data_sdk_cpp.Common.{
  ℕ, ◌^◌, ◌<◌, ◌≡◌, ◌≢◌, inl, inr, refl, ap, ◌∙◌, arith, Bool, true, false, ◌&&◌, List, [], ◌∷◌,
  none, some, ◌==◌, Bool-cases,
}
use here_data_sdk_cpp.Cache.ProtectedKeyList.{Key}
use here_data_sdk_cpp.Cache.Lru.{LruCache}
use here_data_sdk_cpp.Cache.Lru.Node.{lookup, remove, Distinct, lookup-remove_self}
use here_data_sdk_cpp.Cache.Lru.Links.{Distinct-remove}
use here_data_sdk_cpp.Cache.Lru.Model.{Elements, Refines}
use here_data_sdk_cpp.Cache.Lru.Lookups.{lookup-remove-none, erase-Refines}
use here_data_sdk_cpp.Cache.InMemoryCache.{
  ItemTuple, ItemTuples, Expiries, InMemoryCache, with_entry, vector_at, erase_entry, expired_keys,
  erase_items, purge_at, purge_all, purge_expired,
}
use here_data_sdk_cpp.Cache.InMemoryCache.Expiries.{
  Ordered, Ordered-with_entry, Ordered-erase_entry, vector_at-with_entry, vector_at-erase_entry,
  listed, holds,
}

module _ {A : Type 0} (dec : Discrete Key) where
  abbrev pub remove_each : ItemTuples A → List (Key × ItemTuple A) → List (Key × ItemTuple A)
  remove_each [] l = l
  remove_each (i ∷ v) l = remove_each v (remove dec i.key l)

  -- The elements after the vectors of the times have been purged.
  abbrev pub purged : Expiries A → List ℕ → List (Key × ItemTuple A) → List (Key × ItemTuple A)
  purged m [] l = l
  purged m (t ∷ times) l =
      purged (erase_entry t (with_entry t m)) times (remove_each (vector_at t m) l)

  abbrev pub entries_after : Expiries A → List ℕ → Expiries A
  entries_after m [] = m
  entries_after m (t ∷ times) = entries_after (erase_entry t (with_entry t m)) times

  lookup-remove_each-none :
      (k : Key) (v : ItemTuples A) (l : List (Key × ItemTuple A))
      → lookup dec k l ≡ none
      → lookup dec k (remove_each v l) ≡ none
  lookup-remove_each-none k [] l h = h
  lookup-remove_each-none k (i ∷ v) l h =
      lookup-remove_each-none k v (remove dec i.key l) (lookup-remove-none dec i.key k l h)

  lookup-remove_each :
      (k : Key) (v : ItemTuples A) (l : List (Key × ItemTuple A))
      → Distinct dec l
      → listed dec k v ≡ true
      → lookup dec k (remove_each v l) ≡ none
  unfolding listed
  lookup-remove_each k [] l d h = cc
  lookup-remove_each k (i ∷ v) l d h = elim (dec i.key k) [
    | yes same ↦ lookup-remove_each-none k v (remove dec i.key l) (
        subst (λ q. lookup dec q (remove dec i.key l) ≡ none) same
          (lookup-remove_self dec i.key l d))
    | no other ↦
        lookup-remove_each k v (remove dec i.key l) (Distinct-remove dec i.key l d) (ground arith)
  ]

  Distinct-remove_each :
      (v : ItemTuples A) (l : List (Key × ItemTuple A))
      → Distinct dec l
      → Distinct dec (remove_each v l)
  Distinct-remove_each [] l d = d
  Distinct-remove_each (i ∷ v) l d =
      Distinct-remove_each v (remove dec i.key l) (Distinct-remove dec i.key l d)

  lookup-purged-none :
      (k : Key) (m : Expiries A) (times : List ℕ) (l : List (Key × ItemTuple A))
      → lookup dec k l ≡ none
      → lookup dec k (purged m times l) ≡ none
  lookup-purged-none k m [] l h = h
  lookup-purged-none k m (t ∷ times) l h =
      lookup-purged-none k (erase_entry t (with_entry t m)) times (remove_each (vector_at t m) l)
        (lookup-remove_each-none k (vector_at t m) l h)

  vector_at_other :
      (u t : ℕ) (m : Expiries A)
      → Ordered m
      → u ≢ t
      → vector_at t (erase_entry u (with_entry u m)) ≡ vector_at t m
  vector_at_other u t m o apart =
      vector_at-erase_entry u t (with_entry u m) apart ∙ vector_at-with_entry u t m o

  Ordered-next : (u : ℕ) (m : Expiries A) → Ordered m → Ordered (erase_entry u (with_entry u m))
  Ordered-next u m o = Ordered-erase_entry u (with_entry u m) (Ordered-with_entry u m o)

  -- A key that one of the times lists is gone.
  pub lookup-purged :
      (k : Key) (t : ℕ) (m : Expiries A) (times : List ℕ) (l : List (Key × ItemTuple A))
      → Ordered m
      → Distinct dec l
      → holds t times ≡ true
      → listed dec k (vector_at t m) ≡ true
      → lookup dec k (purged m times l) ≡ none
  unfolding holds
  lookup-purged k t m [] l o d h listed_k = cc
  lookup-purged k t m (u ∷ times) l o d h listed_k = elim (Bool-cases (u == t)) [
    | inl same ↦
        lookup-purged-none k (erase_entry u (with_entry u m)) times (remove_each (vector_at u m) l)
          (lookup-remove_each k (vector_at u m) l d (ground arith))
    | inr other ↦
        lookup-purged k t (erase_entry u (with_entry u m)) times (remove_each (vector_at u m) l)
          (Ordered-next u m o) (Distinct-remove_each (vector_at u m) l d) (ground arith)
          (ap (listed dec k) (vector_at_other u t m o (λ e. ground arith)) ∙ listed_k)
  ]

  -- The vector of a time that is not purged stays.
  pub vector_at-entries_after :
      (t : ℕ) (m : Expiries A) (times : List ℕ)
      → Ordered m
      → holds t times ≡ false
      → vector_at t (entries_after m times) ≡ vector_at t m
  unfolding holds
  vector_at-entries_after t m [] o h = refl
  vector_at-entries_after t m (u ∷ times) o h =
      vector_at-entries_after t (erase_entry u (with_entry u m)) times (Ordered-next u m o)
        (ground arith)
      ∙ vector_at_other u t m o (λ e. ground arith)

  Ordered-entries_after :
      (m : Expiries A) (times : List ℕ) → Ordered m → Ordered (entries_after m times)
  Ordered-entries_after m [] o = o
  Ordered-entries_after m (t ∷ times) o =
      Ordered-entries_after (erase_entry t (with_entry t m)) times (Ordered-next t m o)

  module _ (cost : ItemTuple A → ℕ) where
    -- The LRU cache stands for the elements, and the times are in their order.
    pub record IsMemory (e : Elements Key (ItemTuple A)) (c : InMemoryCache A) : Type 0 where
      pub refines : Refines dec cost e c.item_tuples
      pub ordered : Ordered c.item_expiries

    erase_items-Refines :
        (e : Elements Key (ItemTuple A)) (tuples : LruCache Key (ItemTuple A)) (v : ItemTuples A)
        → Refines dec cost e tuples
        → e.room < 2 ^ 64
        → (tuples' : LruCache Key (ItemTuple A)) × (r : Bool) × (erase_items dec cost tuples v
            ≡ some (tuples', r))
          × Refines dec cost (record e { items = remove_each v e.items }) tuples'
    unfolding erase_items
    erase_items-Refines e tuples [] h small = (tuples, true, refl, h)
    erase_items-Refines e tuples (i ∷ v) h small =
        let (t1, r1, done1, h1) = erase-Refines dec cost e tuples i.key h small in
        let (t2, r2, done2, h2) =
          erase_items-Refines (record e { items = remove dec i.key e.items }) t1 v h1 small in
        (t2, r1 && r2, rw (done1, done2) refl, h2)

    pub purge_at-IsMemory :
        (e : Elements Key (ItemTuple A)) (c : InMemoryCache A) (t : ℕ)
        → IsMemory e c
        → e.room < 2 ^ 64
        → (c' : InMemoryCache A) × (r : Bool) × (purge_at dec cost c t ≡ some (c', r))
          × IsMemory (record e { items = remove_each (vector_at t c.item_expiries) e.items }) c'
          × (c'.item_expiries ≡ erase_entry t (with_entry t c.item_expiries))
    unfolding purge_at
    purge_at-IsMemory e c t h small =
        let (tuples, r, done, h') =
          erase_items-Refines e c.item_tuples (vector_at t c.item_expiries) h.refines small in
        (
          record {
            item_tuples = tuples;
            item_expiries = erase_entry t (with_entry t c.item_expiries);
          },
          r,
          rw done refl,
          record { refines = h'; ordered = Ordered-next t c.item_expiries h.ordered },
          refl,
        )

    purge_all-IsMemory :
        (times : List ℕ) (e : Elements Key (ItemTuple A)) (c : InMemoryCache A)
        → IsMemory e c
        → e.room < 2 ^ 64
        → (c' : InMemoryCache A) × (r : Bool) × (purge_all dec cost c times ≡ some (c', r))
          × IsMemory (record e { items = purged c.item_expiries times e.items }) c'
          × (c'.item_expiries ≡ entries_after c.item_expiries times)
    unfolding purge_all
    purge_all-IsMemory [] e c h small = (c, true, refl, h, refl)
    purge_all-IsMemory (t ∷ times) e c h small =
        let (c1, r1, done1, h1, m1) = purge_at-IsMemory e c t h small in
        let e1 : Elements Key (ItemTuple A) = record e {
          items = remove_each (vector_at t c.item_expiries) e.items;
        } in
        let (c2, r2, done2, h2, m2) = purge_all-IsMemory times e1 c1 h1 small in
        (
          c2,
          r1 && r2,
          rw (done1, done2) refl,
          subst (λ m. IsMemory (record e { items = purged m times e1.items }) c2) m1 h2,
          m2 ∙ ap (λ m. entries_after m times) m1,
        )

    pub purge_expired-IsMemory :
        (e : Elements Key (ItemTuple A)) (c : InMemoryCache A) (now : ℕ)
        → IsMemory e c
        → e.room < 2 ^ 64
        → (c' : InMemoryCache A) × (r : Bool) × (purge_expired dec cost c now ≡ some (c', r))
          × IsMemory
              (record e {
                items = purged c.item_expiries (expired_keys now c.item_expiries) e.items;
              })
              c'
          × (c'.item_expiries ≡ entries_after c.item_expiries (expired_keys now c.item_expiries))
    unfolding purge_expired
    purge_expired-IsMemory e c now h small =
        purge_all-IsMemory (expired_keys now c.item_expiries) e c h small
