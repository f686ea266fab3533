-- ===== src/Cache/Lru/Links.antt =====
-- The links of a chain: the neighbours of an element are elements, and the ends after a removal.
use mathlib.Core.Logic.{if_pos, if_neg}
use here_data_sdk_cpp.Common.{
  suc, ◌≡◌, ◌≢◌, ◌⊎◌, inl, inr, refl, sym, ◌∙◌, arith, List, [], ◌∷◌, Option, none, some, length,
}
use here_data_sdk_cpp.Cache.Lru.{Bucket}
use here_data_sdk_cpp.Cache.Lru.Node.{
  head_key, last_key, lookup, remove, Distinct, node, node-lookup, lookup-remove_ne,
}

module _ {K V : Type 0} where
  -- What stands before a chain that is not empty does not show at its end.
  pub last_key-head_key :
      (p p' : Option K) (l : List (K × V)) {k : K}
      → head_key l ≡ some k
      → last_key p l ≡ last_key p' l
  last_key-head_key p p' [] e = cc
  last_key-head_key p p' ((j, v) ∷ l) e = refl

module _ {K V : Type 0} (dec : Discrete K) where
  pub head_key-remove :
      (k : K) (l : List (K × V)) → head_key l ≢ some k → head_key (remove dec k l) ≡ head_key l
  head_key-remove k [] h = refl
  head_key-remove k ((j, v) ∷ l) h = ground arith

  pub Distinct-remove : (k : K) (l : List (K × V)) → Distinct dec l → Distinct dec (remove dec k l)
  Distinct-remove k [] d = d
  Distinct-remove k ((j, v) ∷ l) d = elim (dec j k) [
    | yes same ↦ rw (if_pos _ same) d.1
    | no other ↦
        rw (if_neg _ other)
          (lookup-remove_ne dec k j l (λ e. other (sym e)) ∙ d.0, Distinct-remove k l d.1)
  ]

  pub length-remove :
      (p : Option K) (k : K) (l : List (K × V)) (b : Bucket K V)
      → node dec p l k ≡ some b
      → suc (length (remove dec k l)) ≡ length l
  length-remove p k [] b e = cc
  length-remove p k ((j, v) ∷ l) b e = ground (arith, length-remove (some j) k l b)

  -- The element has a bucket exactly when it is in the list, with its value.
  pub node-some :
      (p : Option K) (l : List (K × V)) (q : K) (b : Bucket K V)
      → node dec p l q ≡ some b
      → lookup dec q l ≡ some b.value
  node-some p [] q b e = cc
  node-some p ((k, v) ∷ l) q b e = ground (arith, node-some (some k) l q b)

  pub node_found :
      (p : Option K) (l : List (K × V)) (q : K) {v : V}
      → lookup dec q l ≡ some v
      → (b : Bucket K V) × (node dec p l q ≡ some b)
  node_found p [] q e = cc
  node_found p ((k, v) ∷ l) q e = elim (dec k q) [
    | yes same ↦ (record { next = head_key l; previous = p; value = v }, rw (if_pos _ same) refl)
    | no other ↦ rw (if_neg _ other) (node_found (some k) l q (rw (if_neg _ other) at e))
  ]

  -- The element before `k`: none or what stands before the chain for the first, else another
  -- element.
  pub linked_previous :
      (p : Option K) (l : List (K × V)) (k : K) (b : Bucket K V)
      → Distinct dec l
      → node dec p l k ≡ some b
      → ((b.previous ≡ p) × (head_key l ≡ some k))
        ⊎ ((j : K) × (bj : Bucket K V) × (b.previous ≡ some j)
            × (node dec p l j ≡ some bj)
            × (j ≢ k)
            × (head_key l ≢ some k))
  linked_previous p [] k b d e = cc
  linked_previous p ((j, v) ∷ l) k b d e = elim (dec j k) [
    | yes same ↦ inl (ground arith)
    | no other ↦ elim (linked_previous (some j) l k b d.1 (rw (if_neg _ other) at e)) [
      | inl first ↦ inr (
        j,
        record { next = head_key l; previous = p; value = v },
        ground arith,
        ground arith,
        other,
        ground arith,
      )
      | inr (i, bi, before, at_i, apart, rest) ↦
          inr (i, bi, before, ground (arith, node-lookup dec (some j) l j), apart, ground arith)
    ]
  ]

  pub linked_next :
      (p : Option K) (l : List (K × V)) (k : K) (b : Bucket K V)
      → Distinct dec l
      → node dec p l k ≡ some b
      → ((b.next ≡ none) × (last_key p l ≡ some k) × (last_key p (remove dec k l) ≡ b.previous))
        ⊎ ((j : K) × (bj : Bucket K V) × (b.next ≡ some j)
            × (node dec p l j ≡ some bj)
            × (j ≢ k)
            × (last_key p (remove dec k l) ≡ last_key p l))
  linked_next p [] k b d e = cc
  linked_next p ((j, v) ∷ []) k b d e = ground arith
  linked_next p ((j, v) ∷ (i, w) ∷ l) k b d e = elim (dec j k) [
    | yes same ↦ inr (
      i,
      record { next = head_key l; previous = some j; value = w },
      ground arith,
      ground arith,
      ground arith,
      ground arith,
    )
    | no other ↦ elim (linked_next (some j) ((i, w) ∷ l) k b d.1 (rw (if_neg _ other) at e)) [
      | inl end ↦ inl (ground arith)
      | inr (n, bn, after, at_n, apart, rest) ↦ inr (
        n,
        bn,
        after,
        ground (arith, node-lookup dec (some j) ((i, w) ∷ l) j),
        apart,
        ground arith,
      )
    ]
  ]
