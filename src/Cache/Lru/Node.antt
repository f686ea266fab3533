-- ===== src/Cache/Lru/Node.antt =====
-- The chain of an LRU cache as a list, the most recently used element first: the bucket that the
-- list determines for each key, and how it changes when an element is removed or put in front.
use mathlib.Core.Logic.{ite}
use here_data_sdk_cpp.Common.{◌≡◌, ◌≢◌, refl, arith, List, [], ◌∷◌, Option, none, some}
use here_data_sdk_cpp.Cache.Lru.{Bucket}

module _ {K V : Type 0} where
  abbrev pub head_key : List (K × V) → Option K
  head_key [] = none
  head_key ((k, v) ∷ l) = some k

  -- The key of the last element, or `p` before an empty list.
  abbrev pub last_key : Option K → List (K × V) → Option K
  last_key p [] = p
  last_key p ((k, v) ∷ l) = last_key (some k) l

  abbrev pub with_next : Option K → Bucket K V → Bucket K V
  with_next n b = record b { next = n }

  abbrev pub with_previous : Option K → Bucket K V → Bucket K V
  with_previous p b = record b { previous = p }

module _ {K V : Type 0} (dec : Discrete K) where
  abbrev pub lookup : K → List (K × V) → Option V
  lookup q [] = none
  lookup q ((k, v) ∷ l) = ite (dec k q) (some v) (lookup q l)

  abbrev pub remove : K → List (K × V) → List (K × V)
  remove q [] = []
  remove q ((k, v) ∷ l) = ite (dec k q) l ((k, v) ∷ remove q l)

  -- No key stands twice.
  abbrev pub Distinct : List (K × V) → Type 0
  Distinct [] = Unit
  Distinct ((k, v) ∷ l) = (lookup k l ≡ none) × Distinct l

  -- The bucket of `q` in a chain that `p` stands before.
  abbrev pub node : Option K → List (K × V) → K → Option (Bucket K V)
  node p [] q = none
  node p ((k, v) ∷ l) q =
      ite (dec k q) (some (record { next = head_key l; previous = p; value = v }))
        (node (some k) l q)

  -- Another element before the chain changes only what stands first.
  abbrev pub map_at :
      Option K → (Bucket K V → Bucket K V) → (K → Option (Bucket K V)) → K → Option (Bucket K V)
  map_at none f at q = at q
  map_at (some k) f at q = ite (dec k q) (elim (at q) [ none ↦ none | some b ↦ some (f b) ]) (at q)

  pub repoint :
      (p p' : Option K) (l : List (K × V)) (q : K)
      → Distinct l
      → node p' l q ≡ map_at (head_key l) (with_previous p') (node p l) q
  repoint p p' [] q d = refl
  repoint p p' ((k, v) ∷ l) q d = ground arith

  -- A key that is not in the list has no bucket.
  pub node-lookup :
      (p : Option K) (l : List (K × V)) (q : K) → lookup q l ≡ none → node p l q ≡ none
  node-lookup p [] q h = refl
  node-lookup p ((k, v) ∷ l) q h = ground (arith, node-lookup (some k) l q)

  pub lookup-remove_self : (k : K) (l : List (K × V)) → Distinct l → lookup k (remove k l) ≡ none
  lookup-remove_self k [] d = refl
  lookup-remove_self k ((j, v) ∷ l) d = ground (arith, lookup-remove_self k l)

  pub lookup-remove_ne : (k q : K) (l : List (K × V)) → k ≢ q → lookup q (remove k l) ≡ lookup q l
  lookup-remove_ne k q [] h = refl
  lookup-remove_ne k q ((j, v) ∷ l) h = ground (arith, lookup-remove_ne k q l)

  pub head_key-ne : (q : K) (l : List (K × V)) → lookup q l ≡ none → head_key l ≢ some q
  head_key-ne q [] h = λ e. ground arith
  head_key-ne q ((k, v) ∷ l) h = λ e. ground arith

  -- The neighbours of `k`, seen from a key that is not in the list.
  pub neighbours :
      (p : Option K) (k : K) (l : List (K × V)) (b : Bucket K V) (q : K)
      → Distinct l
      → node p l k ≡ some b
      → lookup q l ≡ none
      → (b.next ≢ some q)
        × (b.previous ≡ some q → (p ≡ some q) × (head_key (remove k l) ≡ b.next))
        × (p ≡ some q → b.previous ≢ some q → head_key (remove k l) ≡ head_key l)
  neighbours p k [] b q d e h = cc
  neighbours p k ((j, v) ∷ l) b q d e h =
      ground (arith, neighbours (some j) k l b q, head_key-ne q l)

  -- The bucket of another key once `k` is removed: the neighbours of `k` are linked to each other.
  pub node-remove :
      (p : Option K) (k : K) (l : List (K × V)) (b : Bucket K V) (q : K)
      → Distinct l
      → ((j : K) → p ≡ some j → lookup j l ≡ none)
      → node p l k ≡ some b
      → k ≢ q
      → node p (remove k l) q
        ≡ map_at b.previous
            (with_next b.next)
            (map_at b.next (with_previous b.previous) (node p l))
            q
  node-remove p k [] b q d fresh e ne = cc
  node-remove p k ((j, v) ∷ l) b q d fresh e ne = ground (
    arith,
    node-remove (some j) k l b q,
    neighbours (some j) k l b q,
    repoint (some j) p l q,
    fresh q,
    fresh k,
    node-lookup (some j) l q,
  )
