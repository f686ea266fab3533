-- ===== src/Cache/Lru/Chain.antt =====
-- A cache whose buckets are linked as a list says, the most recently used element first, and what a
-- write of one link does.
use here_data_sdk_cpp.Common.{ℕ, ◌≡◌, refl, arith, List, [], Option, none, some, length}
use here_data_sdk_cpp.Cache.Lru.{Bucket, LruCache, empty_cache, update, set_next, set_previous}
use here_data_sdk_cpp.Cache.Lru.Node.{
  head_key, last_key, with_next, with_previous, Distinct, node, map_at,
}

module _ {K V : Type 0} (dec : Discrete K) where
  pub record IsChain (l : List (K × V)) (c : LruCache K V) : Type 0 where
    pub buckets : (q : K) → c.bucket q ≡ node dec none l q
    pub distinct : Distinct dec l
    pub first_is : c.first ≡ head_key l
    pub last_is : c.last ≡ last_key none l
    pub counted : c.count ≡ length l

  pub set_next_lem :
      (c : LruCache K V) (k : K) (n : Option K) (b : Bucket K V)
      → c.bucket k ≡ some b
      → (g : K → Option (Bucket K V)) × (set_next dec c (some k) n ≡ some (record c { bucket = g }))
        × ((q : K) → g q ≡ map_at dec (some k) (with_next n) c.bucket q)
  unfolding set_next
  set_next_lem c k n b e =
      (update dec c.bucket k (some (with_next n b)), rw e refl, λ q. ground arith)

  pub set_previous_lem :
      (c : LruCache K V) (k : K) (p : Option K) (b : Bucket K V)
      → c.bucket k ≡ some b
      → (g : K → Option (Bucket K V)) × (set_previous dec c (some k) p
          ≡ some (record c { bucket = g }))
        × ((q : K) → g q ≡ map_at dec (some k) (with_previous p) c.bucket q)
  unfolding set_previous
  set_previous_lem c k p b e =
      (update dec c.bucket k (some (with_previous p b)), rw e refl, λ q. ground arith)

  empty_cache-IsChain : (max_size : ℕ) → IsChain [] (empty_cache max_size)
  unfolding empty_cache
  empty_cache-IsChain max_size = record {
    buckets = λ q. refl;
    distinct = tt;
    first_is = refl;
    last_is = refl;
    counted = refl;
  }
