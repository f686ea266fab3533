-- ===== src/Cache/Lru/Erase.antt =====
-- `Erase` and `PopLast`: an element leaves the chain.
use here_data_sdk_cpp.Common.{
  ℕ, ◌+◌, ◌-◌, ◌^◌, ◌≡◌, ◌≢◌, inl, inr, refl, sym, ◌∙◌, arith, Bool, List, [], ◌∷◌, Option, none,
  some, if◌then◌else◌,
}
use here_data_sdk_cpp.Common.Bits.{u64}
use here_data_sdk_cpp.Cache.Lru.{Bucket, LruCache, update, relink_next, relink_previous, erase_at}
use here_data_sdk_cpp.Cache.Lru.Node.{
  head_key, last_key, with_next, with_previous, remove, Distinct, node, map_at, node-remove,
  lookup-remove_self, node-lookup,
}
use here_data_sdk_cpp.Cache.Lru.Links.{
  head_key-remove, Distinct-remove, length-remove, linked_previous,
}
use here_data_sdk_cpp.Cache.Lru.Chain.{IsChain, set_next_lem}
use here_data_sdk_cpp.Cache.Lru.Promote.{relink_next_lem, map_at_found, next_ne}

module _ {K V : Type 0} (dec : Discrete K) where
  head_key-remove_first :
      (k : K) (l : List (K × V)) (b : Bucket K V)
      → head_key l ≡ some k
      → node dec none l k ≡ some b
      → head_key (remove dec k l) ≡ b.next
  head_key-remove_first k [] b e at_k = cc
  head_key-remove_first k ((j, v) ∷ l) b e at_k = ground arith

  relink_previous_lem :
      (l : List (K × V)) (c : LruCache K V) (k : K) (b : Bucket K V)
      → Distinct dec l
      → ((q : K) (bq : Bucket K V)
          → node dec none l q ≡ some bq
          → (b' : Bucket K V) × (c.bucket q ≡ some b'))
      → c.first ≡ head_key l
      → node dec none l k ≡ some b
      → (g : K → Option (Bucket K V)) × (relink_previous dec c b
          ≡ some (record c { bucket = g; first = head_key (remove dec k l) }))
        × ((q : K) → g q ≡ map_at dec b.previous (with_next b.next) c.bucket q)
        × (b.previous ≢ some k)
  unfolding relink_previous
  relink_previous_lem l c k b d has first_is at_k = elim (linked_previous dec none l k b d at_k) [
    | inl (alone, front) ↦ (
      c.bucket,
      rw (alone, head_key-remove_first k l b front at_k) refl,
      λ q. rw alone refl,
      λ e. cc,
    )
    | inr (j, bj, before, at_j, apart, behind) ↦
        let (bj', found) = has j bj at_j in
        let (g, done, links) = set_next_lem dec c j b.next bj' found in
        (
          g,
          rw (before, head_key-remove dec k l behind ∙ sym first_is) done,
          λ q. rw before (links q),
          λ e. ground arith,
        )
  ]

  module _ (cost : V → ℕ) where
    -- The state after an element has been erased.
    abbrev pub erased : LruCache K V → K → V → Bool → LruCache K V → LruCache K V
    erased c k v do_eviction_callback c' = record c {
      bucket = c'.bucket;
      first = c'.first;
      last = c'.last;
      count = c.count - 1;
      size = u64 (c.size + 2 ^ 64 - cost v);
      evicted = if do_eviction_callback then (k, v) ∷ c.evicted else c.evicted;
    }

    erase_at_steps :
        (c c1 c2 : LruCache K V) (k : K) (b : Bucket K V) (do_eviction_callback : Bool)
        → c.bucket k ≡ some b
        → relink_next dec c b ≡ some c1
        → c1.bucket k ≡ some b
        → relink_previous dec c1 b ≡ some c2
        → c2.bucket k ≡ some b
        → erase_at dec cost c k do_eviction_callback
          ≡ some (record c2 {
            evicted = if do_eviction_callback then (k, b.value) ∷ c2.evicted else c2.evicted;
            bucket = update dec c2.bucket k none;
            count = c2.count - 1;
            size = u64 (c2.size + 2 ^ 64 - cost b.value);
          })
    unfolding erase_at
    erase_at_steps c c1 c2 k b flag at_k do1 at_k1 do2 at_k2 =
        rw (at_k, do1, at_k1, do2, at_k2) refl

    pub erase_at_lem :
        (l : List (K × V)) (c : LruCache K V) (k : K) (b : Bucket K V) (flag : Bool)
        → IsChain dec l c
        → node dec none l k ≡ some b
        → (c' : LruCache K V) × (erase_at dec cost c k flag ≡ some c')
          × IsChain dec (remove dec k l) c'
          × (c' ≡ erased c k b.value flag c')
    erase_at_lem l c k b flag h at_k =
        let (g1, do1, l1) =
          relink_next_lem dec l c k b h.distinct (λ q bq e. (bq, h.buckets q ∙ e)) h.last_is at_k in
        let c1 : LruCache K V = record c { bucket = g1; last = last_key none (remove dec k l) } in
        let b_k = h.buckets k ∙ at_k in
        let next_apart = next_ne dec l k b h.distinct at_k in
        let g1_k : g1 k ≡ some b = ground (arith, l1 k, b_k) in
        let (g2, do2, l2, apart) =
          relink_previous_lem l c1 k b h.distinct
            (λ q bq e.
              map_at_found dec g1 c.bucket b.next (with_previous b.previous) q bq (l1 q)
                (h.buckets q ∙ e))
            h.first_is at_k in
        let c2 : LruCache K V = record c1 { bucket = g2; first = head_key (remove dec k l) } in
        let g2_k : g2 k ≡ some b = ground (arith, l2 k, g1_k) in
        let c3 : LruCache K V = record c2 {
          evicted = if flag then (k, b.value) ∷ c.evicted else c.evicted;
          bucket = update dec g2 k none;
          count = c.count - 1;
          size = u64 (c.size + 2 ^ 64 - cost b.value);
        } in
        (
          c3,
          erase_at_steps c c1 c2 k b flag b_k do1 g1_k do2 g2_k,
          record {
            buckets = λ q.
                let moved = node-remove dec none k l b q h.distinct (λ i e. cc) at_k in
                let gone = node-lookup dec none (remove dec k l) q in
                let self = lookup-remove_self dec k l h.distinct in
                ground (arith, l1 q, l2 q, h.buckets q);
            distinct = Distinct-remove dec k l h.distinct;
            first_is = refl;
            last_is = refl;
            counted = omega (arith, h.counted, length-remove dec none k l b at_k);
          },
          refl,
        )
