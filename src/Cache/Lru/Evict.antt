-- ===== src/Cache/Lru/Evict.antt =====
-- `evict`: elements leave at the end until the sizes fit.
use mathlib.Core.Path.{subst}
use mathlib.Core.List.{append_assoc}
use here_data_sdk_cpp.Common.{
  ℕ, zero, suc, ◌+◌, ◌-◌, ◌^◌, ◌≤◌, ◌<◌, ◌≡◌, ◌≢◌, inl, inr, refl, sym, ap, ◌∙◌, arith, true, false,
  List, [], ◌∷◌, ◌++◌, Option, none, some, length, length-append, if◌then◌else◌, ltb, leb,
  Bool-cases, ◌>>=◌, ltb→lt,
}
use here_data_sdk_cpp.Cache.Lru.{LruCache, erase_at, pop_last, evict}
use here_data_sdk_cpp.Cache.Lru.Node.{last_key, lookup, remove, Distinct, node}
use here_data_sdk_cpp.Cache.Lru.Chain.{IsChain}
use here_data_sdk_cpp.Cache.Lru.Erase.{erase_at_lem}

module _ {K V : Type 0} where
  split_last :
      (x : K × V) (l : List (K × V))
      → (m : List (K × V)) × (k : K) × (v : V) × (x ∷ l ≡ m ++ (k, v) ∷ [])
  split_last x [] = ([], x.0, x.1, refl)
  split_last x (y ∷ l) = let (m, k, v, e) = split_last y l in (x ∷ m, k, v, ap (λ t. x ∷ t) e)

  last_key-append :
      (p : Option K) (m : List (K × V)) (k : K) (v : V) → last_key p (m ++ (k, v) ∷ []) ≡ some k
  last_key-append p [] k v = refl
  last_key-append p ((j, w) ∷ m) k v = last_key-append (some j) m k v

module _ {K V : Type 0} (cost : V → ℕ) where
  abbrev pub total : List (K × V) → ℕ
  total [] = 0
  total ((k, v) ∷ l) = cost v + total l

  -- The longest list of first elements whose costs are at most `room`.
  abbrev pub fitting : ℕ → List (K × V) → List (K × V)
  fitting room [] = []
  fitting room ((k, v) ∷ l) = if leb (cost v) room then (k, v) ∷ fitting (room - cost v) l else []

  total-append : (m : List (K × V)) (k : K) (v : V) → total (m ++ (k, v) ∷ []) ≡ total m + cost v
  total-append [] k v = omega arith
  total-append ((j, w) ∷ m) k v = omega (arith, total-append m k v)

  pub fitting_all : (room : ℕ) (l : List (K × V)) → total l ≤ room → fitting room l ≡ l
  fitting_all room [] h = refl
  fitting_all room ((k, v) ∷ l) h = ground (arith, fitting_all (room - cost v) l)

  fitting_last :
      (room : ℕ) (m : List (K × V)) (k : K) (v : V)
      → room < total (m ++ (k, v) ∷ [])
      → fitting room (m ++ (k, v) ∷ []) ≡ fitting room m
  fitting_last room [] k v h = ground arith
  fitting_last room ((j, w) ∷ m) k v h = ground (arith, fitting_last (room - cost w) m k v)

  pub total-fitting-le : (room : ℕ) (l : List (K × V)) → total (fitting room l) ≤ room
  total-fitting-le room [] = omega arith
  total-fitting-le room ((k, v) ∷ l) = ground (arith, total-fitting-le (room - cost v) l)

  -- The elements behind them.
  abbrev pub unfitting : ℕ → List (K × V) → List (K × V)
  unfitting room [] = []
  unfitting room ((k, v) ∷ l) =
      if leb (cost v) room then unfitting (room - cost v) l else (k, v) ∷ l

  pub unfitting_all : (room : ℕ) (l : List (K × V)) → total l ≤ room → unfitting room l ≡ []
  unfitting_all room [] h = refl
  unfitting_all room ((k, v) ∷ l) h = ground (arith, unfitting_all (room - cost v) l)

  unfitting_last :
      (room : ℕ) (m : List (K × V)) (k : K) (v : V)
      → room < total (m ++ (k, v) ∷ [])
      → unfitting room (m ++ (k, v) ∷ []) ≡ unfitting room m ++ (k, v) ∷ []
  unfitting_last room [] k v h = ground arith
  unfitting_last room ((j, w) ∷ m) k v h = ground (arith, unfitting_last (room - cost w) m k v)

module _ {K V : Type 0} (dec : Discrete K) where
  lookup-append :
      (j : K) (m : List (K × V)) (k : K) (v : V)
      → lookup dec j (m ++ (k, v) ∷ []) ≡ none
      → (lookup dec j m ≡ none) × (k ≢ j)
  lookup-append j [] k v e = (refl, λ s. ground arith)
  lookup-append j ((i, w) ∷ m) k v e = ground (arith, lookup-append j m k v)

  remove_last :
      (m : List (K × V)) (k : K) (v : V)
      → Distinct dec (m ++ (k, v) ∷ [])
      → remove dec k (m ++ (k, v) ∷ []) ≡ m
  remove_last [] k v d = ground arith
  remove_last ((j, w) ∷ m) k v d = ground (arith, remove_last m k v, lookup-append j m k v)

  node_last :
      (p : Option K) (m : List (K × V)) (k : K) (v : V)
      → Distinct dec (m ++ (k, v) ∷ [])
      → node dec p (m ++ (k, v) ∷ []) k
        ≡ some (record { next = none; previous = last_key p m; value = v })
  node_last p [] k v d = ground arith
  node_last p ((j, w) ∷ m) k v d = ground (arith, node_last (some j) m k v, lookup-append j m k v)

  module _ (cost : V → ℕ) where
    -- The cache's elements are those of the list, and its size is their cost.
    pub record IsCache (l : List (K × V)) (c : LruCache K V) : Type 0 where
      pub chain : IsChain dec l c
      pub sized : c.size ≡ total cost l

    pop_last_at :
        (c : LruCache K V) (k : K)
        → c.last ≡ some k
        → pop_last dec cost c ≡ erase_at dec cost c k true
    unfolding pop_last
    pop_last_at c k e = ap (λ t. t >>= λ k. erase_at dec cost c k true) e

    pop_last_lem :
        (m : List (K × V)) (k : K) (v : V) (c : LruCache K V)
        → IsCache (m ++ (k, v) ∷ []) c
        → total cost (m ++ (k, v) ∷ []) < 2 ^ 64
        → (c' : LruCache K V) × (pop_last dec cost c ≡ some c')
          × IsCache m c'
          × (c'.max_size ≡ c.max_size)
          × (c'.evicted ≡ (k, v) ∷ c.evicted)
    pop_last_lem m k v c h small =
        let at_k = node_last none m k v h.chain.distinct in
        let (c', done, chain, rest) =
          erase_at_lem dec cost (m ++ (k, v) ∷ []) c k
            (record { next = none; previous = last_key none m; value = v }) true h.chain at_k in
        (
          c',
          pop_last_at c k (h.chain.last_is ∙ last_key-append none m k v) ∙ done,
          record {
            chain = rw (remove_last m k v h.chain.distinct) at chain;
            sized = ap (λ x. x.size) rest ∙ omega (arith, h.sized, total-append cost m k v);
          },
          ap (λ x. x.max_size) rest,
          ap (λ x. x.evicted) rest,
        )

    evict_done :
        (fuel : ℕ) (c : LruCache K V)
        → ltb c.max_size c.size ≡ false
        → evict dec cost fuel c ≡ some c
    unfolding evict
    evict_done zero c e = ground arith
    evict_done (suc fuel) c e = ground arith

    evict_step :
        (fuel : ℕ) (c c' : LruCache K V)
        → ltb c.max_size c.size ≡ true
        → pop_last dec cost c ≡ some c'
        → evict dec cost (suc fuel) c ≡ evict dec cost fuel c'
    unfolding evict
    evict_step fuel c c' e done = rw (e, evict) (rw done refl)

    -- With fuel for every element, `evict` ends with the longest list of first elements that fits,
    -- and calls the eviction callback for the others, the last element first.
    pub evict_lem :
        (fuel : ℕ) (l : List (K × V)) (c : LruCache K V)
        → IsCache l c
        → length l ≤ fuel
        → total cost l < 2 ^ 64
        → (c' : LruCache K V) × (evict dec cost fuel c ≡ some c')
          × IsCache (fitting cost c.max_size l) c'
          × (c'.max_size ≡ c.max_size)
          × (c'.evicted ≡ unfitting cost c.max_size l ++ c.evicted)
    evict_lem fuel [] c h enough small =
        (c, evict_done fuel c (ground (arith, h.sized)), h, refl, refl)
    evict_lem zero (x ∷ l) c h enough small = absurd (omega arith)
    evict_lem (suc fuel) (x ∷ l) c h enough small = elim (Bool-cases (ltb c.max_size c.size)) [
      | inl over ↦
          let (m, k, v, e) = split_last x l in
          let (c1, popped, h1, max1, log1) =
            pop_last_lem m k v c (subst (λ t. IsCache t c) e h)
              (subst (λ t. total cost t < 2 ^ 64) e small) in
          let shorter : suc (length m) ≡ length (x ∷ l) =
            omega (arith, ap length e, length-append m ((k, v) ∷ [])) in
          let costs : total cost m + cost v ≡ total cost (x ∷ l) =
            omega (arith, ap (total cost) e, total-append cost m k v) in
          let (c2, done, h2, max2, log2) = evict_lem fuel m c1 h1 (omega arith) (omega arith) in
          let over' : c.max_size < total cost (m ++ (k, v) ∷ []) =
            omega (arith, ltb→lt c.max_size c.size over, h.sized, costs, total-append cost m k v) in
          let same : fitting cost c.max_size (x ∷ l) ≡ fitting cost c1.max_size m =
            ap (fitting cost c.max_size) e
            ∙ fitting_last cost c.max_size m k v over'
            ∙ ap (λ r. fitting cost r m) (sym max1) in
          let others : unfitting cost c.max_size (x ∷ l)
              ≡ unfitting cost c1.max_size m ++ (k, v) ∷ [] =
            ap (unfitting cost c.max_size) e
            ∙ unfitting_last cost c.max_size m k v over'
            ∙ ap (λ r. unfitting cost r m ++ (k, v) ∷ []) (sym max1) in
          (
            c2,
            evict_step fuel c c1 over popped ∙ done,
            rw same h2,
            max2 ∙ max1,
            log2
                ∙ ap (λ t. unfitting cost c1.max_size m ++ t) log1
                ∙ sym (append_assoc (unfitting cost c1.max_size m) ((k, v) ∷ []) c.evicted)
                ∙ ap (λ t. t ++ c.evicted) (sym others),
          )
      | inr fits ↦
          let small' : total cost (x ∷ l) ≤ c.max_size = ground (arith, h.sized) in
          (
            c,
            evict_done (suc fuel) c fits,
            rw (fitting_all cost c.max_size (x ∷ l) small') h,
            refl,
            rw (unfitting_all cost c.max_size (x ∷ l) small') refl,
          )
    ]

    -- The same from a state whose bound and calls are known, with fuel for the elements counted.
    pub evict_from :
        (l : List (K × V)) (c : LruCache K V) (room : ℕ) (log : List (K × V))
        → IsCache l c
        → total cost l < 2 ^ 64
        → c.max_size ≡ room
        → c.evicted ≡ log
        → (c' : LruCache K V) × (evict dec cost c.count c ≡ some c')
          × IsCache (fitting cost room l) c'
          × (c'.max_size ≡ room)
          × (c'.evicted ≡ unfitting cost room l ++ log)
    evict_from l c room log h small bound same =
        let (c', done, h', kept, log') =
          evict_lem c.count l c h (omega (arith, h.chain.counted)) small in
        (
          c',
          done,
          subst (λ r. IsCache (fitting cost r l) c') bound h',
          kept ∙ bound,
          log'
              ∙ ap (λ r. unfitting cost r l ++ c.evicted) bound
              ∙ ap (λ t. unfitting cost room l ++ t) same,
        )
