-- ===== src/Cache/Lru/Insert.antt =====
-- `AddInternal`: a new element is linked in front, and a changed one goes to the front.
use mathlib.Core.Logic.{ite, if_pos, if_neg}
use mathlib.Core.Path.{subst}
use here_data_sdk_cpp.Common.{
  ℕ, ◌+◌, ◌-◌, ◌^◌, ◌<◌, ◌≡◌, ◌≢◌, refl, sym, ap, ◌∙◌, arith, false, List, [], ◌∷◌, ◌++◌, Option,
  none, some, length, ◌==◌, ◌>>=◌,
}
use here_data_sdk_cpp.Common.Bits.{u64}
use here_data_sdk_cpp.Cache.Lru.{
  Bucket, LruCache, update, set_next, set_previous, evict, link_new, add_internal, new_bucket,
}
use here_data_sdk_cpp.Cache.Lru.Node.{head_key, last_key, lookup, remove, Distinct, node, repoint}
use here_data_sdk_cpp.Cache.Lru.Chain.{IsChain, set_next_lem, set_previous_lem}
use here_data_sdk_cpp.Cache.Lru.Promote.{promoted, promote_lem}
use here_data_sdk_cpp.Cache.Lru.Evict.{total, fitting, unfitting, IsCache, evict_from}

module _ {K V : Type 0} (dec : Discrete K) (cost : V → ℕ) where
  link_new_steps :
      (c c1 c2 : LruCache K V) (k : K)
      → (c.count == 1) ≡ false
      → set_next dec c (some k) c.first ≡ some c1
      → set_previous dec c1 c1.first (some k) ≡ some c2
      → link_new dec cost c k ≡ some (record c2 { first = some k })
  unfolding link_new
  link_new_steps c c1 c2 k e do1 do2 = rw (e, do1, do2) refl

  link_new_lem :
      (l : List (K × V)) (c : LruCache K V) (k : K) (v : V)
      → IsChain dec l c
      → lookup dec k l ≡ none
      → (c' : LruCache K V) × (link_new dec cost (new_bucket dec cost c k v) k ≡ some c')
        × IsChain dec ((k, v) ∷ l) c'
        × (c' ≡ record c {
          bucket = c'.bucket;
          first = c'.first;
          last = c'.last;
          count = c.count + 1;
        })
  unfolding new_bucket link_new
  link_new_lem [] c k v h e =
      let c' : LruCache K V = record (new_bucket dec cost c k v) {
        last = some k;
        first = some k;
      } in
      (
        c',
        ground (arith, h.counted),
        record {
          buckets = λ q. ground (arith, h.buckets q);
          distinct = (refl, tt);
          first_is = refl;
          last_is = refl;
          counted = omega (arith, h.counted);
        },
        refl,
      )
  link_new_lem ((j, w) ∷ m) c k v h e =
      let b : Bucket K V = record { next = none; previous = none; value = v } in
      let apart : j ≢ k = λ s. ground arith in
      let c0 = new_bucket dec cost c k v in
      let (g1, do1, l1) = set_next_lem dec c0 k c.first b (ground arith) in
      let c1 : LruCache K V = record c0 { bucket = g1 } in
      let bj : Bucket K V = record { next = head_key m; previous = none; value = w } in
      let (g2, do2, l2) =
        set_previous_lem dec c1 j (some k) bj (ground (arith, l1 j, h.buckets j)) in
      let c2 : LruCache K V = record c1 { bucket = g2 } in
      (
        record c2 { first = some k },
        link_new_steps c0 c1 c2 k (ground (arith, h.counted)) do1
            (ap (λ t. set_previous dec c1 t (some k)) h.first_is ∙ do2),
        record {
          buckets = λ q. ground (
            arith,
            l1 q,
            l2 q,
            h.buckets q,
            h.first_is,
            repoint dec none (some k) ((j, w) ∷ m) q h.distinct,
          );
          distinct = (e, h.distinct);
          first_is = refl;
          last_is = h.last_is;
          counted = omega (arith, h.counted);
        },
        refl,
      )

  -- `AddInternal` for a new element.
  pub add_internal_new :
      (l : List (K × V)) (c : LruCache K V) (k : K) (v : V)
      → IsCache dec cost l c
      → lookup dec k l ≡ none
      → total cost l + cost v < 2 ^ 64
      → (c' : LruCache K V) × (add_internal dec cost (new_bucket dec cost c k v) k (cost v) none
          ≡ some c')
        × IsCache dec cost (fitting cost c.max_size ((k, v) ∷ l)) c'
        × (c'.max_size ≡ c.max_size)
        × (c'.evicted ≡ unfitting cost c.max_size ((k, v) ∷ l) ++ c.evicted)
  unfolding add_internal
  add_internal_new l c k v h fresh small =
      let (c1, linked, chain, rest) = link_new_lem l c k v h.chain fresh in
      let c2 : LruCache K V = record c1 { size = u64 (c1.size + cost v) } in
      let h2 : IsCache dec cost ((k, v) ∷ l) c2 = record {
        chain = record {
          buckets = chain.buckets;
          distinct = chain.distinct;
          first_is = chain.first_is;
          last_is = chain.last_is;
          counted = chain.counted;
        };
        sized = omega (arith, ap (λ x. x.size) rest, h.sized);
      } in
      let (c3, done, h3, max3, log3) =
        evict_from dec cost ((k, v) ∷ l) c2 c.max_size c.evicted h2 (omega arith)
          (ap (λ x. x.max_size) rest) (ap (λ x. x.evicted) rest) in
      (
        c3,
        ap (λ t. t >>= λ c1. evict dec cost c1.count (record c1 { size = u64 (c1.size + cost v) }))
              linked
            ∙ done,
        h3,
        max3,
        log3,
      )

  -- The list with another value for `k`.
  assigned : K → V → List (K × V) → List (K × V)
  assigned k v [] = []
  assigned k v ((j, w) ∷ l) = ite (dec j k) ((j, v) ∷ l) ((j, w) ∷ assigned k v l)

  remove-assigned :
      (k : K) (v : V) (l : List (K × V)) → remove dec k (assigned k v l) ≡ remove dec k l
  unfolding assigned
  remove-assigned k v [] = refl
  remove-assigned k v ((j, w) ∷ l) = ground (arith, remove-assigned k v l)

  lookup-assigned :
      (k q : K) (v : V) (l : List (K × V))
      → lookup dec q l ≡ none
      → lookup dec q (assigned k v l) ≡ none
  unfolding assigned
  lookup-assigned k q v [] e = refl
  lookup-assigned k q v ((j, w) ∷ l) e = ground (arith, lookup-assigned k q v l)

  head_key-assigned : (k : K) (v : V) (l : List (K × V)) → head_key (assigned k v l) ≡ head_key l
  unfolding assigned
  head_key-assigned k v [] = refl
  head_key-assigned k v ((j, w) ∷ l) = ground arith

  last_key-assigned :
      (p : Option K) (k : K) (v : V) (l : List (K × V)) → last_key p (assigned k v l) ≡ last_key p l
  unfolding assigned
  last_key-assigned p k v [] = refl
  last_key-assigned p k v ((j, w) ∷ l) = ground (arith, last_key-assigned (some j) k v l)

  length-assigned : (k : K) (v : V) (l : List (K × V)) → length (assigned k v l) ≡ length l
  unfolding assigned
  length-assigned k v [] = refl
  length-assigned k v ((j, w) ∷ l) = ground (arith, length-assigned k v l)

  Distinct-assigned :
      (k : K) (v : V) (l : List (K × V)) → Distinct dec l → Distinct dec (assigned k v l)
  unfolding assigned
  Distinct-assigned k v [] d = d
  Distinct-assigned k v ((j, w) ∷ l) d = elim (dec j k) [
    | yes same ↦ rw (if_pos _ same) d
    | no other ↦ rw (if_neg _ other) (lookup-assigned k j v l d.0, Distinct-assigned k v l d.1)
  ]

  node-assigned :
      (p : Option K) (k : K) (v : V) (l : List (K × V)) (b : Bucket K V) (q : K)
      → Distinct dec l
      → node dec p l k ≡ some b
      → node dec p (assigned k v l) q
        ≡ ite (dec k q) (some (record b { value = v })) (node dec p l q)
  unfolding assigned
  node-assigned p k v [] b q d e = cc
  node-assigned p k v ((j, w) ∷ l) b q d e =
      ground (arith, node-assigned (some j) k v l b q, head_key-assigned k v l)

  total-assigned :
      (p : Option K) (k : K) (v : V) (l : List (K × V)) (b : Bucket K V)
      → node dec p l k ≡ some b
      → total cost (assigned k v l) + cost b.value ≡ total cost l + cost v
  unfolding assigned
  total-assigned p k v [] b e = cc
  total-assigned p k v ((j, w) ∷ l) b e = ground (arith, total-assigned (some j) k v l b)

  pub total-remove :
      (p : Option K) (k : K) (l : List (K × V)) (b : Bucket K V)
      → node dec p l k ≡ some b
      → total cost (remove dec k l) + cost b.value ≡ total cost l
  total-remove p k [] b e = cc
  total-remove p k ((j, w) ∷ l) b e = ground (arith, total-remove (some j) k l b)

  assigned-IsChain :
      (l : List (K × V)) (c : LruCache K V) (k : K) (v : V) (b : Bucket K V) (size : ℕ)
      → IsChain dec l c
      → node dec none l k ≡ some b
      → IsChain dec
          (assigned k v l)
          (record c { bucket = update dec c.bucket k (some (record b { value = v })); size = size })
  assigned-IsChain l c k v b size h at_k = record {
    buckets = λ q. ground (arith, h.buckets q, node-assigned none k v l b q h.distinct at_k);
    distinct = Distinct-assigned k v l h.distinct;
    first_is = h.first_is ∙ sym (head_key-assigned k v l);
    last_is = h.last_is ∙ sym (last_key-assigned none k v l);
    counted = h.counted ∙ sym (length-assigned k v l);
  }

  -- `AddInternal` for an element that has got another value.
  pub add_internal_changed :
      (l : List (K × V)) (c : LruCache K V) (k : K) (v : V) (b : Bucket K V)
      → IsCache dec cost l c
      → node dec none l k ≡ some b
      → total cost l + cost v < 2 ^ 64
      → (c' : LruCache K V) × (add_internal dec cost
            (record c { bucket = update dec c.bucket k (some (record b { value = v })) })
            k
            (cost v)
            (some (cost b.value))
          ≡ some c')
        × IsCache dec cost (fitting cost c.max_size (promoted dec k v l)) c'
        × (c'.max_size ≡ c.max_size)
        × (c'.evicted ≡ unfitting cost c.max_size (promoted dec k v l) ++ c.evicted)
  unfolding add_internal
  add_internal_changed l c k v b h at_k small =
      let size = u64 (c.size + u64 (cost v + 2 ^ 64 - cost b.value)) in
      let c0 : LruCache K V = record c {
        bucket = update dec c.bucket k (some (record b { value = v }));
        size = size;
      } in
      let at_k0 : node dec none (assigned k v l) k ≡ some (record b { value = v }) =
        ground (arith, node-assigned none k v l b k h.chain.distinct at_k) in
      let (c1, moved, chain, rest) =
        promote_lem dec (assigned k v l) c0 k (record b { value = v })
          (assigned-IsChain l c k v b size h.chain at_k) at_k0 in
      let same : promoted dec k v (assigned k v l) ≡ promoted dec k v l =
        ap (λ t. (k, v) ∷ t) (remove-assigned k v l) in
      let removed = total-remove none k l b at_k in
      let h1 : IsCache dec cost (promoted dec k v l) c1 = record {
        chain = subst (λ t. IsChain dec t c1) same chain;
        sized = ap (λ x. x.size) rest ∙ omega (arith, h.sized, removed);
      } in
      let (c2, done, h2, max2, log2) =
        evict_from dec cost (promoted dec k v l) c1 c.max_size c.evicted h1 (omega (arith, removed))
          (ap (λ x. x.max_size) rest) (ap (λ x. x.evicted) rest) in
      (c2, ap (λ t. t >>= λ c1. evict dec cost c1.count c1) moved ∙ done, h2, max2, log2)
