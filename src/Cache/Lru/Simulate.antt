-- ===== src/Cache/Lru/Simulate.antt =====
-- Each operation on the linked buckets does what it does on the list.
use mathlib.Core.Path.{subst}
use here_data_sdk_cpp.Common.{
  ℕ, ◌+◌, ◌^◌, ◌<◌, ◌≡◌, inl, inr, refl, sym, ap, ◌∙◌, arith, Bool, true, false, List, [], ◌∷◌,
  ◌++◌, Option, none, some, ltb, Bool-cases, Option-cases,
}
use here_data_sdk_cpp.Cache.Lru
use here_data_sdk_cpp.Cache.Lru.{Bucket, LruCache}
use here_data_sdk_cpp.Cache.Lru.Node.{lookup, remove, node, node-lookup}
use here_data_sdk_cpp.Cache.Lru.Links.{node_found, node-some}
use here_data_sdk_cpp.Cache.Lru.Chain.{IsChain}
use here_data_sdk_cpp.Cache.Lru.Promote.{promoted, promote_lem}
use here_data_sdk_cpp.Cache.Lru.Erase.{erase_at_lem}
use here_data_sdk_cpp.Cache.Lru.Evict.{fitting, unfitting, total-fitting-le, IsCache, evict_from}
use here_data_sdk_cpp.Cache.Lru.Insert.{add_internal_new, add_internal_changed, total-remove}
use here_data_sdk_cpp.Cache.Lru.Model.{Op, Elements, keep, keep_at, act, step, Refines, Simulates}

module _ {K V : Type 0} (dec : Discrete K) (cost : V → ℕ) where
  pub found :
      (l : List (K × V)) (k : K) (w : V)
      → lookup dec k l ≡ some w
      → (b : Bucket K V) × (node dec none l k ≡ some b) × (b.value ≡ w)
  found l k w e =
      let (b, at_k) = node_found dec none l k e in
      (b, at_k, ground (arith, node-some dec none l k b at_k))

  -- What `AddInternal` leaves.
  pub keep-Refines :
      (e : Elements K V) (l : List (K × V)) (c c' : LruCache K V)
      → Refines dec cost e c
      → IsCache dec cost (fitting cost c.max_size l) c'
      → c'.max_size ≡ c.max_size
      → c'.evicted ≡ unfitting cost c.max_size l ++ c.evicted
      → Refines dec cost (keep_at dec cost e l) c'
  unfolding keep_at
  keep-Refines e l c c' h h' kept log = record {
    cache = subst (λ r. IsCache dec cost (fitting cost r l) c') h.bound h';
    bound = kept ∙ h.bound;
    log =
        log
        ∙ ap (λ r. unfitting cost r l ++ c.evicted) h.bound
        ∙ ap (λ t. unfitting cost e.room l ++ t) h.log;
    fits = total-fitting-le cost e.room l;
  }

  pub promote-Refines :
      (e : Elements K V) (c : LruCache K V) (k : K) (w : V)
      → Refines dec cost e c
      → lookup dec k e.items ≡ some w
      → (c' : LruCache K V) × (Lru.promote dec c k ≡ some c')
        × Refines dec cost (record e { items = promoted dec k w e.items }) c'
  promote-Refines e c k w h at_w =
      let (b, at_k, same) = found e.items k w at_w in
      let (c', done, chain, rest) = promote_lem dec e.items c k b h.cache.chain at_k in
      let costs = total-remove dec cost none k e.items b at_k in
      let value = ap cost same in
      (
        c',
        done,
        record {
          cache = record {
            chain = subst (λ v. IsChain dec (promoted dec k v e.items) c') same chain;
            sized = omega (arith, ap (λ x. x.size) rest, h.cache.sized, costs, value);
          };
          bound = ap (λ x. x.max_size) rest ∙ h.bound;
          log = ap (λ x. x.evicted) rest ∙ h.log;
          fits = omega (arith, h.fits, costs, value);
        },
      )

  pub absent :
      (e : Elements K V) (c : LruCache K V) (k : K)
      → Refines dec cost e c
      → lookup dec k e.items ≡ none
      → c.bucket k ≡ none
  absent e c k h gone = h.cache.chain.buckets k ∙ node-lookup dec none e.items k gone

  pub present :
      (e : Elements K V) (c : LruCache K V) (k : K) (w : V)
      → Refines dec cost e c
      → lookup dec k e.items ≡ some w
      → (b : Bucket K V) × (c.bucket k ≡ some b)
        × (node dec none e.items k ≡ some b)
        × (b.value ≡ w)
  present e c k w h at_w =
      let (b, at_k, same) = found e.items k w at_w in
      (b, h.cache.chain.buckets k ∙ at_k, at_k, same)

  simulates :
      (e : Elements K V) (c c' : LruCache K V) (op : Op K V) (r : Elements K V × (Option K × Bool))
      → act dec cost e op ≡ r
      → step dec cost c op ≡ some (c', r.1)
      → Refines dec cost r.0 c'
      → Simulates dec cost e c op
  unfolding Simulates
  simulates e c c' op r acted steps h = (
    c',
    steps ∙ ap (λ t. some (c', t.1)) (sym acted),
    subst (λ t. Refines dec cost t.0 c') (sym acted) h,
  )

  pub find-Simulates :
      (e : Elements K V) (c : LruCache K V) (k : K)
      → Refines dec cost e c
      → Simulates dec cost e c (Op.find k)
  unfolding step act Lru.find
  find-Simulates e c k h = elim (Option-cases (lookup dec k e.items)) [
    | inl gone ↦
        simulates e c c (Op.find k) (e, (none, false)) (rw (gone, act) refl)
          (rw (step, Lru.find, absent e c k h gone) refl) h
    | inr (w, at_w) ↦
        let (b, at_k, _, _) = present e c k w h at_w in
        let (c', done, h') = promote-Refines e c k w h at_w in
        simulates e c c' (Op.find k)
          (record e { items = promoted dec k w e.items }, (some k, false)) (rw (at_w, act) refl)
          (rw (step, Lru.find, at_k, done) refl) h'
  ]

  pub insert-Simulates :
      (e : Elements K V) (c : LruCache K V) (k : K) (v : V)
      → Refines dec cost e c
      → e.room + cost v < 2 ^ 64
      → Simulates dec cost e c (Op.insert k v)
  unfolding step act Lru.insert
  insert-Simulates e c k v h small = elim (Bool-cases (ltb e.room (cost v))) [
    | inl large ↦
        simulates e c c (Op.insert k v) (e, (none, false)) (rw (large, act) refl)
          (rw (step, Lru.insert, h.bound, large) refl) h
    | inr room ↦ elim (Option-cases (lookup dec k e.items)) [
      | inl gone ↦
          let (c', done, h', kept, log) =
            add_internal_new dec cost e.items c k v h.cache gone (omega (arith, h.fits)) in
          simulates e c c' (Op.insert k v) (keep_at dec cost e ((k, v) ∷ e.items), (some k, true))
            (rw (room, gone, act) refl)
            (rw (step, Lru.insert, h.bound, room, absent e c k h gone, done) refl)
            (keep-Refines e ((k, v) ∷ e.items) c c' h h' kept log)
      | inr (w, at_w) ↦
          let (b, at_k, _, _) = present e c k w h at_w in
          let (c', done, h') = promote-Refines e c k w h at_w in
          simulates e c c' (Op.insert k v)
            (record e { items = promoted dec k w e.items }, (some k, false))
            (rw (room, at_w, act) refl) (rw (step, Lru.insert, h.bound, room, at_k, done) refl) h'
    ]
  ]

  pub insert_or_assign-Simulates :
      (e : Elements K V) (c : LruCache K V) (k : K) (v : V)
      → Refines dec cost e c
      → e.room + cost v < 2 ^ 64
      → Simulates dec cost e c (Op.insert_or_assign k v)
  unfolding step act Lru.insert_or_assign
  insert_or_assign-Simulates e c k v h small = elim (Option-cases (lookup dec k e.items)) [
    | inr (w, at_w) ↦
        let (b, at_k, in_list, _) = present e c k w h at_w in
        let (c', done, h', kept, log) =
          add_internal_changed dec cost e.items c k v b h.cache in_list (omega (arith, h.fits)) in
        simulates e c c' (Op.insert_or_assign k v)
          (keep_at dec cost e (promoted dec k v e.items), (some k, false)) (rw (at_w, act) refl)
          (rw (step, Lru.insert_or_assign, at_k, done) refl)
          (keep-Refines e (promoted dec k v e.items) c c' h h' kept log)
    | inl gone ↦ elim (Bool-cases (ltb e.room (cost v))) [
      | inl large ↦
          simulates e c c (Op.insert_or_assign k v) (e, (none, false)) (rw (gone, large, act) refl)
            (rw (step, Lru.insert_or_assign, absent e c k h gone, h.bound, large) refl) h
      | inr room ↦
          let (c', done, h', kept, log) =
            add_internal_new dec cost e.items c k v h.cache gone (omega (arith, h.fits)) in
          simulates e c c' (Op.insert_or_assign k v)
            (keep_at dec cost e ((k, v) ∷ e.items), (some k, true)) (rw (gone, room, act) refl)
            (rw
              (
                step,
                Lru.insert_or_assign,
                absent e c k h gone,
                ap (λ r. ltb r (cost v)) h.bound ∙ room,
                done,
              )
              refl)
            (keep-Refines e ((k, v) ∷ e.items) c c' h h' kept log)
    ]
  ]

  pub erase_at-Refines :
      (e : Elements K V) (c : LruCache K V) (k : K) (w : V)
      → Refines dec cost e c
      → e.room < 2 ^ 64
      → lookup dec k e.items ≡ some w
      → (c' : LruCache K V) × (Lru.erase_at dec cost c k false ≡ some c')
        × Refines dec cost (record e { items = remove dec k e.items }) c'
  erase_at-Refines e c k w h small at_w =
      let (b, at_k, in_list, _) = present e c k w h at_w in
      let (c', done, chain, rest) =
        erase_at_lem dec cost e.items c k b false h.cache.chain in_list in
      let costs = total-remove dec cost none k e.items b in_list in
      (
        c',
        done,
        record {
          cache = record {
            chain = chain;
            sized = omega (arith, ap (λ x. x.size) rest, h.cache.sized, costs, h.fits);
          };
          bound = ap (λ x. x.max_size) rest ∙ h.bound;
          log = ap (λ x. x.evicted) rest ∙ h.log;
          fits = omega (arith, h.fits, costs);
        },
      )

  pub erase-Simulates :
      (e : Elements K V) (c : LruCache K V) (k : K)
      → Refines dec cost e c
      → e.room < 2 ^ 64
      → Simulates dec cost e c (Op.erase k)
  unfolding step act Lru.erase
  erase-Simulates e c k h small = elim (Option-cases (lookup dec k e.items)) [
    | inl gone ↦
        simulates e c c (Op.erase k) (e, (none, false)) (rw (gone, act) refl)
          (rw (step, Lru.erase, absent e c k h gone) refl) h
    | inr (w, at_w) ↦
        let (_, at_k, _, _) = present e c k w h at_w in
        let (c', done, h') = erase_at-Refines e c k w h small at_w in
        simulates e c c' (Op.erase k) (record e { items = remove dec k e.items }, (none, true))
          (rw (at_w, act) refl) (rw (step, Lru.erase, at_k, done) refl) h'
  ]

  pub resize-Simulates :
      (e : Elements K V) (c : LruCache K V) (n : ℕ)
      → Refines dec cost e c
      → e.room < 2 ^ 64
      → Simulates dec cost e c (Op.resize n)
  unfolding step act Lru.resize keep
  resize-Simulates e c n h small =
      let c0 : LruCache K V = record c { max_size = n } in
      let h0 : IsCache dec cost e.items c0 = record {
        chain = record {
          buckets = h.cache.chain.buckets;
          distinct = h.cache.chain.distinct;
          first_is = h.cache.chain.first_is;
          last_is = h.cache.chain.last_is;
          counted = h.cache.chain.counted;
        };
        sized = h.cache.sized;
      } in
      let (c', done, h', kept, log) =
        evict_from dec cost e.items c0 n c.evicted h0 (omega (arith, h.fits)) refl refl in
      simulates e c c' (Op.resize n) (keep dec cost n e.items e.gone, (none, false)) refl
        (rw (step, Lru.resize, done) refl)
        (record {
          cache = h';
          bound = kept;
          log = log ∙ ap (λ t. unfitting cost n e.items ++ t) h.log;
          fits = total-fitting-le cost n e.items;
        })

  pub clear-Refines :
      (e : Elements K V) (c : LruCache K V)
      → Refines dec cost e c
      → Refines dec cost (record e { items = [] }) (Lru.clear c)
  unfolding Lru.clear
  clear-Refines e c h = record {
    cache = record {
      chain = record {
        buckets = λ q. refl;
        distinct = tt;
        first_is = refl;
        last_is = refl;
        counted = refl;
      };
      sized = refl;
    };
    bound = h.bound;
    log = h.log;
    fits = omega arith;
  }

  pub clear-Simulates :
      (e : Elements K V) (c : LruCache K V) → Refines dec cost e c → Simulates dec cost e c Op.clear
  unfolding step act
  clear-Simulates e c h =
      simulates e c (Lru.clear c) Op.clear (record e { items = [] }, (none, false)) refl refl
        (clear-Refines e c h)
