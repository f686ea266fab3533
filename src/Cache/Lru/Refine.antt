-- ===== src/Cache/Lru/Refine.antt =====
-- The operations of the cache refine operations on a list, the most recently used element first.
use mathlib.Core.Path.{subst}
use here_data_sdk_cpp.Common.{ℕ, ◌+◌, ◌^◌, ◌<◌, ◌≡◌, refl, arith, false, List, [], ◌∷◌, none, some}
use here_data_sdk_cpp.Cache.Lru
use here_data_sdk_cpp.Cache.Lru.{Bucket, LruCache}
use here_data_sdk_cpp.Cache.Lru.Node.{lookup}
use here_data_sdk_cpp.Cache.Lru.Promote.{promoted}
use here_data_sdk_cpp.Cache.Lru.Evict.{fitting, IsCache}
use here_data_sdk_cpp.Cache.Lru.Insert.{add_internal_changed}
use here_data_sdk_cpp.Cache.Lru.Model.{
  Op, Elements, act, Refines, Simulates, need, runs, acts, Small,
}
use here_data_sdk_cpp.Cache.Lru.Simulate.{
  present, find-Simulates, insert-Simulates, insert_or_assign-Simulates, erase-Simulates,
  resize-Simulates, clear-Simulates,
}

module _ {K V : Type 0} (dec : Discrete K) (cost : V → ℕ) where
  -- Each operation of `LruCache`, on linked buckets that stand for a list of elements within the
  -- bound, returns without a fault when the bound and the cost of the given value together are
  -- below 2 ^ 64, and it does what the operation does on the list, the most recently used element
  -- first: the result, the elements and their order, the total of their costs, and the calls of the
  -- eviction callback are the same, and the list stays within the bound.
  pub step-Simulates :
      (e : Elements K V) (c : LruCache K V) (op : Op K V)
      → Refines dec cost e c
      → e.room + need dec cost op < 2 ^ 64
      → Simulates dec cost e c op
  unfolding need
  step-Simulates e c (Op.insert k v) h small = insert-Simulates dec cost e c k v h small
  step-Simulates e c (Op.insert_or_assign k v) h small =
      insert_or_assign-Simulates dec cost e c k v h small
  step-Simulates e c (Op.find k) h small = find-Simulates dec cost e c k h
  step-Simulates e c (Op.erase k) h small = erase-Simulates dec cost e c k h (omega arith)
  step-Simulates e c (Op.resize n) h small = resize-Simulates dec cost e c n h (omega arith)
  step-Simulates e c Op.clear h small = clear-Simulates dec cost e c h

  pub empty_cache-Refines :
      (room : ℕ)
      → Refines dec cost (record { room = room; items = []; gone = [] }) (Lru.empty_cache room)
  unfolding Lru.empty_cache
  empty_cache-Refines room = record {
    cache = record {
      chain = record {
        buckets = λ q. refl;
        distinct = tt;
        first_is = refl;
        last_is = refl;
        counted = refl;
      };
      sized = refl;
    };
    bound = refl;
    log = refl;
    fits = omega arith;
  }

  -- A sequence of operations on a cache that stands for a list of elements returns without a fault,
  -- with the results that the operations have on the list, and the cache then stands for the list
  -- that they leave, when every bound that the sequence meets, with the cost of the value that is
  -- given then, is below 2 ^ 64.
  pub runs-acts :
      (ops : List (Op K V)) (e : Elements K V) (c : LruCache K V)
      → Refines dec cost e c
      → Small dec cost e ops
      → (c' : LruCache K V) × (runs dec cost c ops ≡ some (c', (acts dec cost e ops).1))
        × Refines dec cost (acts dec cost e ops).0 c'
  unfolding runs acts Small Simulates
  runs-acts [] e c h small = (c, refl, h)
  runs-acts (op ∷ ops) e c h (now, later) =
      let (c1, done, h1) = step-Simulates e c op h now in
      let (c2, dones, h2) = runs-acts ops (act dec cost e op).0 c1 h1 later in
      (c2, rw (done, dones) refl, h2)

  -- `InsertOrAssign` with a value that costs more than the whole bound, for a key that the cache
  -- has, evicts every element, the new one included, and returns an iterator to that one.
  pub insert_or_assign_large :
      (e : Elements K V) (c : LruCache K V) (k : K) (v w : V)
      → Refines dec cost e c
      → lookup dec k e.items ≡ some w
      → e.room < cost v
      → e.room + cost v < 2 ^ 64
      → (c' : LruCache K V) × (Lru.insert_or_assign dec cost c k v ≡ some (c', (some k, false)))
        × (c'.bucket k ≡ none)
        × (c'.count ≡ 0)
  unfolding Lru.insert_or_assign
  insert_or_assign_large e c k v w h at_w large small =
      let (b, at_k, in_list, _) = present dec cost e c k w h at_w in
      let (c', done, h', _, _) =
        add_internal_changed dec cost e.items c k v b h.cache in_list (omega (arith, h.fits)) in
      let gone : fitting cost c.max_size (promoted dec k v e.items) ≡ [] =
        ground (arith, h.bound) in
      let h2 : IsCache dec cost [] c' = subst (λ l. IsCache dec cost l c') gone h' in
      (c', rw (Lru.insert_or_assign, at_k, done) refl, h2.chain.buckets k, h2.chain.counted)
