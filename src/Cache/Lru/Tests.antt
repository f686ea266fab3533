-- ===== src/Cache/Lru/Tests.antt =====
-- Runs of `LruCache` with numbers as keys, and values that cost what they are.
use native.Mathlib.Decide.{ℕ_discrete}
use here_data_sdk_cpp.Common.{
  ℕ, ◌^◌, ◌+◌, ◌<◌, ◌≡◌, refl, arith, true, false, List, [], ◌∷◌, none, some,
}
use here_data_sdk_cpp.Cache.Lru
use here_data_sdk_cpp.Cache.Lru.{LruCache, update}
use here_data_sdk_cpp.Cache.Lru.Model.{
  Op, Elements, act, acts, need, keep, keep_at, runs, Small, Simulates, Refines,
}
use here_data_sdk_cpp.Cache.Lru.Refine.{empty_cache-Refines, runs-acts, step-Simulates}

abbrev cost : ℕ → ℕ
cost v = v

abbrev no_elements : Elements ℕ ℕ
no_elements = record { room = 5; items = []; gone = [] }

abbrev no_buckets : LruCache ℕ ℕ
no_buckets = Lru.empty_cache 5

abbrev use_all : List (Op ℕ ℕ)
use_all =
    Op.insert 1 2
    ∷ Op.insert 2 1
    ∷ Op.find 1
    ∷ Op.insert 3 2
    ∷ Op.insert_or_assign 4 1
    ∷ Op.erase 3
    ∷ Op.insert_or_assign 1 4
    ∷ Op.resize 4
    ∷ Op.find 4
    ∷ []

use_all-acts : acts ℕ_discrete cost no_elements use_all ≡ (
  record { room = 4; items = (1, 4) ∷ []; gone = (4, 1) ∷ (2, 1) ∷ [] },
  (some 1, true)
      ∷ (some 2, true)
      ∷ (some 1, false)
      ∷ (some 3, true)
      ∷ (some 4, true)
      ∷ (none, true)
      ∷ (some 1, false)
      ∷ (none, false)
      ∷ (none, false)
      ∷ [],
)
unfolding acts act need keep keep_at ℕ_discrete
use_all-acts = refl

use_all-Small : Small ℕ_discrete cost no_elements use_all
unfolding Small acts act need keep keep_at ℕ_discrete
use_all-Small = (
  omega arith,
  (
    omega arith,
    (
      omega arith,
      (omega arith, (omega arith, (omega arith, (omega arith, (omega arith, (omega arith, tt)))))),
    ),
  ),
)

runs-acts_example :
    (c' : LruCache ℕ ℕ) × (runs ℕ_discrete cost no_buckets use_all
      ≡ some (c', (acts ℕ_discrete cost no_elements use_all).1))
    × Refines ℕ_discrete cost (acts ℕ_discrete cost no_elements use_all).0 c'
runs-acts_example =
    runs-acts ℕ_discrete cost use_all no_elements no_buckets (empty_cache-Refines ℕ_discrete cost 5)
      use_all-Small

insert-small : 5 + need ℕ_discrete cost (Op.insert 1 2) < 2 ^ 64
unfolding need
insert-small = omega arith

step-Simulates_example : Simulates ℕ_discrete cost no_elements no_buckets (Op.insert 1 2)
step-Simulates_example =
    step-Simulates ℕ_discrete cost no_elements no_buckets (Op.insert 1 2)
      (empty_cache-Refines ℕ_discrete cost 5) insert-small
