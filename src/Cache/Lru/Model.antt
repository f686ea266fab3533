-- ===== src/Cache/Lru/Model.antt =====
-- The operations of the cache on a list of elements, the most recently used one first, and the
-- caches that stand for such a list.
use here_data_sdk_cpp.Common.{
  ℕ, ◌+◌, ◌^◌, ◌≤◌, ◌<◌, ◌≡◌, Bool, true, false, List, [], ◌∷◌, ◌++◌, Option, none, some,
  if◌then◌else◌, ltb, ◌>>=◌,
}
use here_data_sdk_cpp.Cache.Lru
use here_data_sdk_cpp.Cache.Lru.{Bucket, LruCache}
use here_data_sdk_cpp.Cache.Lru.Node.{lookup, remove}
use here_data_sdk_cpp.Cache.Lru.Promote.{promoted}
use here_data_sdk_cpp.Cache.Lru.Evict.{total, fitting, unfitting, IsCache}

pub data Op (K V : Type 0) : Type 0 where
  insert : K → V → Op K V
  insert_or_assign : K → V → Op K V
  find : K → Op K V
  erase : K → Op K V
  resize : ℕ → Op K V
  clear : Op K V

-- What the operations are to do: the bound, the elements, and the calls of the eviction callback.
pub record Elements (K V : Type 0) : Type 0 where
  pub room : ℕ
  pub items : List (K × V)
  pub gone : List (K × V)

module _ {K V : Type 0} (dec : Discrete K) (cost : V → ℕ) where
  -- The first elements that fit stay, and the others are evicted.
  unfoldable pub keep : ℕ → List (K × V) → List (K × V) → Elements K V
  keep room l gone = record {
    room = room;
    items = fitting cost room l;
    gone = unfitting cost room l ++ gone;
  }

  unfoldable pub keep_at : Elements K V → List (K × V) → Elements K V
  unfolding keep
  keep_at e l = keep e.room l e.gone

  -- An operation on the list, with the iterator that it returns and whether it has inserted or
  -- erased.
  unfoldable pub act : Elements K V → Op K V → Elements K V × (Option K × Bool)
  act e (insert k v) =
      if ltb e.room (cost v) then (e, (none, false)) else elim (lookup dec k e.items) [
        | none ↦ (keep_at e ((k, v) ∷ e.items), (some k, true))
        | some w ↦ (record e { items = promoted dec k w e.items }, (some k, false))
      ]
  act e (insert_or_assign k v) = elim (lookup dec k e.items) [
    | some w ↦ (keep_at e (promoted dec k v e.items), (some k, false))
    | none ↦
        if ltb e.room (cost v)
        then (e, (none, false))
        else (keep_at e ((k, v) ∷ e.items), (some k, true))
  ]
  act e (find k) = elim (lookup dec k e.items) [
    | none ↦ (e, (none, false))
    | some w ↦ (record e { items = promoted dec k w e.items }, (some k, false))
  ]
  act e (erase k) = elim (lookup dec k e.items) [
    | none ↦ (e, (none, false))
    | some w ↦ (record e { items = remove dec k e.items }, (none, true))
  ]
  act e (resize n) = (keep n e.items e.gone, (none, false))
  act e clear = (record e { items = [] }, (none, false))

  -- The same operation on the linked buckets; `none` is a fault.
  unfoldable pub step : LruCache K V → Op K V → Option (LruCache K V × (Option K × Bool))
  step c (insert k v) = Lru.insert dec cost c k v
  step c (insert_or_assign k v) = Lru.insert_or_assign dec cost c k v
  step c (find k) = do (c', it) ← Lru.find dec c k; some (c', (it, false))
  step c (erase k) = do (c', done) ← Lru.erase dec cost c k; some (c', (none, done))
  step c (resize n) = do c' ← Lru.resize dec cost c n; some (c', (none, false))
  step c clear = some (Lru.clear c, (none, false))

  -- The cache stands for the elements.
  pub record Refines (e : Elements K V) (c : LruCache K V) : Type 0 where
    pub cache : IsCache dec cost e.items c
    pub bound : c.max_size ≡ e.room
    pub log : c.evicted ≡ e.gone
    pub fits : total cost e.items ≤ e.room

  -- The operation on the buckets does what the operation on the list does.
  unfoldable pub Simulates : Elements K V → LruCache K V → Op K V → Type 0
  Simulates e c op =
      (c' : LruCache K V) × (step c op ≡ some (c', (act e op).1)) × Refines (act e op).0 c'

  -- The bytes that an operation can add before it evicts.
  unfoldable pub need : Op K V → ℕ
  need (insert k v) = cost v
  need (insert_or_assign k v) = cost v
  need (find k) = 0
  need (erase k) = 0
  need (resize n) = 0
  need clear = 0

  -- A sequence of operations, and its results.
  unfoldable pub runs :
      LruCache K V → List (Op K V) → Option (LruCache K V × List (Option K × Bool))
  runs c [] = some (c, [])
  runs c (op ∷ ops) = do (c1, r) ← step c op; (c2, rs) ← runs c1 ops; some (c2, r ∷ rs)

  unfoldable pub acts : Elements K V → List (Op K V) → Elements K V × List (Option K × Bool)
  acts e [] = (e, [])
  acts e (op ∷ ops) = let next = act e op in let rest = acts next.0 ops in (rest.0, next.1 ∷ rest.1)

  -- Every bound that the operations meet, with the cost of the given value, is below 2 ^ 64.
  unfoldable pub Small : Elements K V → List (Op K V) → Type 0
  Small e [] = Unit
  Small e (op ∷ ops) = (e.room + need op < 2 ^ 64) × Small (act e op).0 ops
