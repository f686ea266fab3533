-- ===== src/Cache/Lru/Promote.antt =====
-- `Promote`: the element goes to the front.
use here_data_sdk_cpp.Common.{
  ◌≡◌, ◌≢◌, inl, inr, refl, sym, ap, ◌∙◌, arith, false, List, [], ◌∷◌, Option, none, some,
}
use here_data_sdk_cpp.Cache.Lru.{
  Bucket, LruCache, set_next, set_previous, is_first, relink_next, promote,
}
use here_data_sdk_cpp.Cache.Lru.Node.{
  head_key, last_key, with_next, with_previous, remove, Distinct, node, map_at, repoint,
  node-remove, lookup-remove_self,
}
use here_data_sdk_cpp.Cache.Lru.Links.{
  last_key-head_key, head_key-remove, Distinct-remove, length-remove, linked_previous, linked_next,
}
use here_data_sdk_cpp.Cache.Lru.Chain.{IsChain, set_next_lem, set_previous_lem}

module _ {K V : Type 0} (dec : Discrete K) where
  -- The list with `k` in front.
  abbrev pub promoted : K → V → List (K × V) → List (K × V)
  promoted k v l = (k, v) ∷ remove dec k l

  promoted_first :
      (k : K) (l : List (K × V)) (b : Bucket K V)
      → head_key l ≡ some k
      → node dec none l k ≡ some b
      → promoted k b.value l ≡ l
  promoted_first k [] b e h = cc
  promoted_first k ((j, v) ∷ l) b e h = ground arith

  -- The links to the next and the previous element, relinked past `b`.
  pub relink_next_lem :
      (l : List (K × V)) (c : LruCache K V) (k : K) (b : Bucket K V)
      → Distinct dec l
      → ((q : K) (bq : Bucket K V)
          → node dec none l q ≡ some bq
          → (b' : Bucket K V) × (c.bucket q ≡ some b'))
      → c.last ≡ last_key none l
      → node dec none l k ≡ some b
      → (g : K → Option (Bucket K V)) × (relink_next dec c b
          ≡ some (record c { bucket = g; last = last_key none (remove dec k l) }))
        × ((q : K) → g q ≡ map_at dec b.next (with_previous b.previous) c.bucket q)
  unfolding relink_next
  relink_next_lem l c k b d has last_is at_k = elim (linked_next dec none l k b d at_k) [
    | inl (end, is_last, left) ↦ (c.bucket, rw (end, left) refl, λ q. rw end refl)
    | inr (n, bn, after, at_n, apart, same) ↦
        let (bn', found) = has n bn at_n in
        let (g, done, links) = set_previous_lem dec c n b.previous bn' found in
        (g, rw (after, same ∙ sym last_is) done, λ q. rw after (links q))
  ]

  pub map_at_found :
      (g at : K → Option (Bucket K V)) (k : Option K) (f : Bucket K V → Bucket K V) (q : K)
      (b : Bucket K V)
      → g q ≡ map_at dec k f at q
      → at q ≡ some b
      → (b' : Bucket K V) × (g q ≡ some b')
  map_at_found g at none f q b e h = (b, e ∙ h)
  map_at_found g at (some k) f q b e h = elim (dec k q) [
    | yes same ↦ (f b, ground arith)
    | no other ↦ (b, ground arith)
  ]

  not_first : (c : LruCache K V) (k f : K) → c.first ≡ some f → f ≢ k → is_first dec c k ≡ false
  unfolding is_first
  not_first c k f e n = ground arith

  promote_steps :
      (c c1 c2 c3 c4 c5 : LruCache K V) (k f : K) (b : Bucket K V)
      → c.first ≡ some f
      → f ≢ k
      → c.bucket k ≡ some b
      → set_next dec c b.previous b.next ≡ some c1
      → c1.bucket k ≡ some b
      → relink_next dec c1 b ≡ some c2
      → set_previous dec c2 (some k) none ≡ some c3
      → set_next dec c3 (some k) c3.first ≡ some c4
      → set_previous dec c4 c4.first (some k) ≡ some c5
      → promote dec c k ≡ some (record c5 { first = some k })
  unfolding promote
  promote_steps c c1 c2 c3 c4 c5 k f b e n at_k do1 at_k1 do2 do3 do4 do5 =
      rw (not_first c k f e n, at_k, do1, at_k1, do2, do3, do4, do5) refl

  -- `Promote` on an element that is not the first.
  promote_relink :
      (l : List (K × V)) (c : LruCache K V) (k j f : K) (b bj bf : Bucket K V)
      → IsChain dec l c
      → node dec none l k ≡ some b
      → c.first ≡ some f
      → f ≢ k
      → b.previous ≡ some j
      → c.bucket j ≡ some bj
      → c.bucket f ≡ some bf
      → j ≢ k
      → (g : K → Option (Bucket K V)) × (promote dec c k
          ≡ some (record c { bucket = g; first = some k; last = last_key none (remove dec k l) }))
        × ((q : K)
            → g q
              ≡ map_at dec
                  (some f)
                  (with_previous (some k))
                  (map_at dec
                    (some k)
                    (λ b. record b { next = some f; previous = none })
                    (map_at dec b.next
                      (with_previous b.previous)
                      (map_at dec (some j) (with_next b.next) (node dec none l))))
                  q)
  promote_relink l c k j f b bj bf h at_k e n p at_j at_f ne =
      let (g1, do1, l1) = set_next_lem dec c j b.next bj at_j in
      let c1 : LruCache K V = record c { bucket = g1 } in
      let b_k = h.buckets k ∙ at_k in
      let g1_k : g1 k ≡ some b = ground (arith, l1 k, b_k) in
      let (g2, do2, l2) =
        relink_next_lem l c1 k b h.distinct
          (λ q bq e.
            map_at_found g1 c.bucket (some j) (with_next b.next) q bq (l1 q) (h.buckets q ∙ e))
          h.last_is at_k in
      let c2 : LruCache K V = record c1 { bucket = g2; last = last_key none (remove dec k l) } in
      let (b2, g2_k) = map_at_found g2 g1 b.next (with_previous b.previous) k b (l2 k) g1_k in
      let (g3, do3, l3) = set_previous_lem dec c2 k none b2 g2_k in
      let c3 : LruCache K V = record c2 { bucket = g3 } in
      let (b3, g3_k) = map_at_found g3 g2 (some k) (with_previous none) k b2 (l3 k) g2_k in
      let (g4, do4, l4) = set_next_lem dec c3 k (some f) b3 g3_k in
      let c4 : LruCache K V = record c3 { bucket = g4 } in
      let (f1, g1_f) = map_at_found g1 c.bucket (some j) (with_next b.next) f bf (l1 f) at_f in
      let (f2, g2_f) = map_at_found g2 g1 b.next (with_previous b.previous) f f1 (l2 f) g1_f in
      let (f3, g3_f) = map_at_found g3 g2 (some k) (with_previous none) f f2 (l3 f) g2_f in
      let (f4, g4_f) = map_at_found g4 g3 (some k) (with_next (some f)) f f3 (l4 f) g3_f in
      let (g5, do5, l5) = set_previous_lem dec c4 f (some k) f4 g4_f in
      let c5 : LruCache K V = record c4 { bucket = g5 } in
      (
        g5,
        promote_steps c c1 c2 c3 c4 c5 k f b e n b_k (ap (λ t. set_next dec c t b.next) p ∙ do1)
            g1_k do2 do3 (ap (λ t. set_next dec c3 (some k) t) e ∙ do4)
            (ap (λ t. set_previous dec c4 t (some k)) e ∙ do5),
        λ q. ground (arith, l1 q, l2 q, l3 q, l4 q, l5 q, h.buckets q),
      )

  head_found :
      (l : List (K × V)) (k : K) (b : Bucket K V)
      → node dec none l k ≡ some b
      → (f : K) × (bf : Bucket K V) × (head_key l ≡ some f) × (node dec none l f ≡ some bf)
  head_found [] k b e = cc
  head_found ((j, v) ∷ l) k b e =
      (j, record { next = head_key l; previous = none; value = v }, refl, ground arith)

  promote_same : (c : LruCache K V) (k : K) → c.first ≡ some k → promote dec c k ≡ some c
  unfolding promote is_first
  promote_same c k e = ground arith

  pub next_ne :
      (l : List (K × V)) (k : K) (b : Bucket K V)
      → Distinct dec l
      → node dec none l k ≡ some b
      → b.next ≢ some k
  next_ne l k b d at_k = elim (linked_next dec none l k b d at_k) [
    | inl (end, is_last, left) ↦ λ e. cc
    | inr (n, bn, after, at_n, apart, same) ↦ λ e. ground arith
  ]

  -- The buckets of the list with `k` in front.
  promoted-node :
      (l : List (K × V)) (k j f : K) (b : Bucket K V) (q : K)
      → Distinct dec l
      → node dec none l k ≡ some b
      → head_key l ≡ some f
      → f ≢ k
      → b.previous ≡ some j
      → j ≢ k
      → map_at dec
          (some f)
          (with_previous (some k))
          (map_at dec
            (some k)
            (λ b. record b { next = some f; previous = none })
            (map_at dec b.next
              (with_previous b.previous)
              (map_at dec (some j) (with_next b.next) (node dec none l))))
          q
        ≡ node dec none (promoted k b.value l) q
  promoted-node l k j f b q d at_k hd n p ne =
      let removed = node-remove dec none k l b q d (λ i e. cc) at_k in
      let moved = repoint dec none (some k) (remove dec k l) q (Distinct-remove dec k l d) in
      let first = head_key-remove dec k l (λ e. ground arith) in
      let apart = next_ne l k b d at_k in ground arith

  pub promote_lem :
      (l : List (K × V)) (c : LruCache K V) (k : K) (b : Bucket K V)
      → IsChain dec l c
      → node dec none l k ≡ some b
      → (c' : LruCache K V) × (promote dec c k ≡ some c')
        × IsChain dec (promoted k b.value l) c'
        × (c' ≡ record c { bucket = c'.bucket; first = c'.first; last = c'.last })
  promote_lem l c k b h at_k = elim (linked_previous dec none l k b h.distinct at_k) [
    | inl (alone, front) ↦
        (c, promote_same c k (h.first_is ∙ front), rw (promoted_first k l b front at_k) h, refl)
    | inr (j, bj, p, at_j, ne, behind) ↦
        let (f, bf, hd, at_f) = head_found l k b at_k in
        let n : f ≢ k = λ e. behind (hd ∙ ap some e) in
        let (g, done, links) =
          promote_relink l c k j f b bj bf h at_k (h.first_is ∙ hd) n p (h.buckets j ∙ at_j)
            (h.buckets f ∙ at_f) ne in
        (
          record c { bucket = g; first = some k; last = last_key none (remove dec k l) },
          done,
          record {
            buckets = λ q. links q ∙ promoted-node l k j f b q h.distinct at_k hd n p ne;
            distinct = (lookup-remove_self dec k l h.distinct, Distinct-remove dec k l h.distinct);
            first_is = refl;
            last_is =
                last_key-head_key none (some k) (remove dec k l)
                  (head_key-remove dec k l behind ∙ hd);
            counted = h.counted ∙ sym (length-remove dec none k l b at_k);
          },
          refl,
        )
  ]
