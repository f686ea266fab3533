-- ===== src/Cache/InMemoryCache/Prefix.antt =====
-- `RemoveKeysWithPrefix`: the loop over the chain while it erases.
use mathlib.Core.Path.{subst}
use here_data_sdk_cpp.Common.{
  ℕ, zero, suc, ◌^◌, ◌≤◌, ◌<◌, ◌≡◌, ◌≢◌, inl, inr, refl, sym, ap, ◌∙◌, arith, Bool, not, ◌&&◌, List,
  [], ◌∷◌, ◌++◌, Option, none, some, length, if◌then◌else◌, Bool-cases,
}
use here_data_sdk_cpp.Cache.ProtectedKeyList.{Key}
use here_data_sdk_cpp.Cache.Lru
use here_data_sdk_cpp.Cache.Lru.{LruCache}
use here_data_sdk_cpp.Cache.Lru.Node.{lookup, remove, Distinct}
use here_data_sdk_cpp.Cache.Lru.Model.{Elements, Refines}
use here_data_sdk_cpp.Cache.Lru.Lookups.{erase-Refines}
use here_data_sdk_cpp.Cache.InMemoryCache.{ItemTuple, InMemoryCache}
use mathlib.Core.List.{append_assoc}
use here_data_sdk_cpp.Cache.Lru.{Bucket}
use here_data_sdk_cpp.Cache.Lru.Node.{head_key, last_key, node}
use here_data_sdk_cpp.Cache.InMemoryCache.{
  has_prefix, prefix_round, prefix_loop, remove_keys_with_prefix,
}
use here_data_sdk_cpp.Cache.InMemoryCache.Purge.{IsMemory}

module _ {K V : Type 0} (dec : Discrete K) where
  lookup_middle :
      (j : K) (front : List (K × V)) (k : K) (v : V) (back : List (K × V))
      → lookup dec j (front ++ (k, v) ∷ back) ≡ none
      → j ≢ k
  lookup_middle j [] k v back h same = ground arith
  lookup_middle j ((i, w) ∷ front) k v back h same =
      lookup_middle j front k v back (ground arith) same

  Distinct-middle :
      (front : List (K × V)) (k : K) (v : V) (back : List (K × V))
      → Distinct dec (front ++ (k, v) ∷ back)
      → lookup dec k front ≡ none
  Distinct-middle [] k v back d = refl
  Distinct-middle ((j, w) ∷ front) k v back d =
      ground (arith, lookup_middle j front k v back d.0, Distinct-middle front k v back d.1)

  node_middle :
      (p : Option K) (front : List (K × V)) (k : K) (v : V) (back : List (K × V))
      → lookup dec k front ≡ none
      → node dec p (front ++ (k, v) ∷ back) k
        ≡ some (record { next = head_key back; previous = last_key p front; value = v })
  node_middle p [] k v back h = ground arith
  node_middle p ((j, w) ∷ front) k v back h = ground (arith, node_middle (some j) front k v back)

  remove_middle :
      (front : List (K × V)) (k : K) (v : V) (back : List (K × V))
      → lookup dec k front ≡ none
      → remove dec k (front ++ (k, v) ∷ back) ≡ front ++ back
  remove_middle [] k v back h = ground arith
  remove_middle ((j, w) ∷ front) k v back h = ground (arith, remove_middle front k v back)

  module _ (cost : V → ℕ) where
    pub round_erases :
        (e : Elements K V) (tuples : LruCache K V) (front back : List (K × V)) (k : K) (v : V)
        → Refines dec cost e tuples
        → e.room < 2 ^ 64
        → e.items ≡ front ++ (k, v) ∷ back
        → (tuples' : LruCache K V) × (Lru.erase_iterator dec cost tuples k
            ≡ some (tuples', head_key back))
          × Refines dec cost (record e { items = front ++ back }) tuples'
    unfolding Lru.erase_iterator
    round_erases e tuples front back k v h small is =
        let gone =
          Distinct-middle front k v back (subst (Distinct dec) is h.cache.chain.distinct) in
        let at_k =
          h.cache.chain.buckets k
          ∙ ap (λ l. node dec none l k) is
          ∙ node_middle none front k v back gone in
        let (tuples', r, done, h') = erase-Refines dec cost e tuples k h small in
        (
          tuples',
          rw (at_k, done) refl,
          subst (λ l. Refines dec cost (record e { items = l }) tuples')
              (ap (remove dec k) is ∙ remove_middle front k v back gone) h',
        )

    pub round_keeps :
        (e : Elements K V) (tuples : LruCache K V) (front back : List (K × V)) (k : K) (v : V)
        → Refines dec cost e tuples
        → e.items ≡ front ++ (k, v) ∷ back
        → Lru.next_of dec tuples k ≡ some (head_key back)
    unfolding Lru.next_of
    round_keeps e tuples front back k v h is =
        let gone =
          Distinct-middle front k v back (subst (Distinct dec) is h.cache.chain.distinct) in
        let at_k =
          h.cache.chain.buckets k
          ∙ ap (λ l. node dec none l k) is
          ∙ node_middle none front k v back gone in
        rw at_k refl

    pub round_value :
        (e : Elements K V) (tuples : LruCache K V) (front back : List (K × V)) (k : K) (v : V)
        → Refines dec cost e tuples
        → e.items ≡ front ++ (k, v) ∷ back
        → Lru.value_at dec tuples k ≡ some v
    unfolding Lru.value_at
    round_value e tuples front back k v h is =
        let gone =
          Distinct-middle front k v back (subst (Distinct dec) is h.cache.chain.distinct) in
        let at_k =
          h.cache.chain.buckets k
          ∙ ap (λ l. node dec none l k) is
          ∙ node_middle none front k v back gone in
        rw at_k refl

module _ {V : Type 0} where
  -- The elements that stay: those whose key has not the prefix, or is filtered.
  abbrev pub staying : Key → (Key → Bool) → List (Key × V) → List (Key × V)
  staying key_prefix filter [] = []
  staying key_prefix filter ((k, v) ∷ l) =
      if has_prefix k key_prefix && not (filter k)
      then staying key_prefix filter l
      else (k, v) ∷ staying key_prefix filter l

module _ {A : Type 0} (dec : Discrete Key) (cost : ItemTuple A → ℕ) where
  prefix_loop_lem :
      (back front : List (Key × ItemTuple A)) (fuel : ℕ) (e : Elements Key (ItemTuple A))
      (tuples : LruCache Key (ItemTuple A)) (key_prefix : Key) (filter : Key → Bool)
      → Refines dec cost e tuples
      → e.room < 2 ^ 64
      → e.items ≡ front ++ back
      → length back ≤ fuel
      → (tuples' : LruCache Key (ItemTuple A)) × (prefix_loop dec cost fuel tuples key_prefix filter
            (head_key back)
          ≡ some tuples')
        × Refines dec cost (record e { items = front ++ staying key_prefix filter back }) tuples'
  unfolding prefix_loop prefix_round
  prefix_loop_lem [] front fuel e tuples p filter h small is le =
      (tuples, refl, subst (λ l. Refines dec cost (record e { items = l }) tuples) is h)
  prefix_loop_lem ((k, v) ∷ back) front zero e tuples p filter h small is le = absurd (omega arith)
  prefix_loop_lem ((k, v) ∷ back) front (suc fuel) e tuples p filter h small is le =
      elim (Bool-cases (has_prefix k p && not (filter k))) [
        | inl goes ↦
            let (t1, done1, h1) = round_erases dec cost e tuples front back k v h small is in
            let (t2, done2, h2) =
              prefix_loop_lem back front fuel (record e { items = front ++ back }) t1 p filter h1
                small refl (omega arith) in
            (t2, rw (goes, done1) done2, rw goes h2)
        | inr stays ↦
            let next = round_keeps dec cost e tuples front back k v h is in
            let (t2, done2, h2) =
              prefix_loop_lem back (front ++ (k, v) ∷ []) fuel e tuples p filter h small
                (is ∙ sym (append_assoc front ((k, v) ∷ []) back)) (omega arith) in
            (
              t2,
              rw (stays, next) done2,
              rw stays (
                  subst (λ l. Refines dec cost (record e { items = l }) t2)
                    (append_assoc front ((k, v) ∷ []) (staying p filter back)) h2),
            )
      ]

  -- `RemoveKeysWithPrefix` returns without a fault, and leaves the elements whose key has not the
  -- prefix or is filtered, in their order of use; the times of the others stay in the table.
  pub remove_keys_with_prefix-staying :
      (e : Elements Key (ItemTuple A)) (c : InMemoryCache A) (key_prefix : Key)
      (filter : Key → Bool)
      → IsMemory dec cost e c
      → e.room < 2 ^ 64
      → (c' : InMemoryCache A) × (remove_keys_with_prefix dec cost c key_prefix filter ≡ some c')
        × IsMemory dec cost (record e { items = staying key_prefix filter e.items }) c'
        × (c'.item_expiries ≡ c.item_expiries)
  unfolding remove_keys_with_prefix
  remove_keys_with_prefix-staying e c p filter h small =
      let chain = h.refines.cache.chain in
      let (tuples, done, h') =
        prefix_loop_lem e.items [] c.item_tuples.count e c.item_tuples p filter h.refines small refl
          (omega (arith, chain.counted)) in
      (
        record c { item_tuples = tuples },
        rw
            (ap (prefix_loop dec cost c.item_tuples.count c.item_tuples p filter) chain.first_is
              ∙ done)
            refl,
        record { refines = h'; ordered = h.ordered },
        refl,
      )
