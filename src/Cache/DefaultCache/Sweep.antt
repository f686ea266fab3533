-- ===== src/Cache/DefaultCache/Sweep.antt =====
-- The eviction of expired items as a sweep of the list of elements.
use here_data_sdk_cpp.Common.{
  ℕ, ◌+◌, ◌<◌, ◌≤◌, ◌≡◌, refl, arith, Bool, false, not, List, [], ◌∷◌, none, some, length, ltb,
  if◌then◌else◌,
}
use here_data_sdk_cpp.Common.Int.{ℤ}
use here_data_sdk_cpp.Common.Signed.{minus_time, is_positive}
use here_data_sdk_cpp.Cache.ProtectedKeyList.{Key}
use here_data_sdk_cpp.Cache.DiskCache.{BatchOp, batch_delete}
use here_data_sdk_cpp.Cache.DefaultCache.{ValueProperties, expiry_value_size, create_expiry_key}
use here_data_sdk_cpp.Cache.DefaultCache.Weights.{Items}

-- What the eviction of an expired item counts: the item and its time.
abbrev pub full_weight : Key → ValueProperties → ℕ
full_weight k v = length k + v.size + (length (create_expiry_key k) + expiry_value_size)

abbrev pub full_weights : Items → ℕ
full_weights [] = 0
full_weights ((k, v) ∷ l) = full_weight k v + full_weights l

-- `expiry - current_time` is a `time_t` for each item.
abbrev pub Timely : ℕ → Items → Type 0
Timely now [] = Unit
Timely now ((k, v) ∷ l) = ((z : ℤ) × (minus_time v.expiry now ≡ some z)) × Timely now l

abbrev pub is_expired : ℕ → ValueProperties → Bool
is_expired now v = elim (minus_time v.expiry now) [ none ↦ false | some z ↦ not (is_positive z) ]

-- The items without the expired ones that are met before the target is reached, and the size that
-- is then evicted.
abbrev pub sweep : ℕ → ℕ → ℕ → Items → Items × ℕ
sweep now target size [] = ([], size)
sweep now target size ((k, v) ∷ l) =
    if ltb size target
    then if is_expired now v
      then sweep now target (size + full_weight k v) l
      else ((k, v) ∷ (sweep now target size l).0, (sweep now target size l).1)
    else ((k, v) ∷ l, size)

-- The items that it evicts, in their order, and the records that its batch gets for them.
abbrev pub swept : ℕ → ℕ → ℕ → Items → Items
swept now target size [] = []
swept now target size ((k, v) ∷ l) =
    if ltb size target
    then if is_expired now v
      then (k, v) ∷ swept now target (size + full_weight k v) l
      else swept now target size l
    else []

abbrev pub full_deletions : Items → List BatchOp
full_deletions [] = []
full_deletions ((k, v) ∷ l) = batch_delete k ∷ batch_delete (create_expiry_key k) ∷ full_deletions l

-- A sweep that has reached its target evicts nothing.
pub sweep_none :
    (now target size : ℕ) (l : Items) → target ≤ size → (sweep now target size l).1 ≡ size
sweep_none now target size [] h = refl
sweep_none now target size ((k, v) ∷ l) h = ground arith

-- A sweep that evicts anything leaves fewer items, and it leaves their weights and their times.
pub length-sweep : (now target size : ℕ) (l : Items) → length (sweep now target size l).0 ≤ length l
length-sweep now target size [] = omega arith
length-sweep now target size ((k, v) ∷ l) =
    ground
      (arith, length-sweep now target size l, length-sweep now target (size + full_weight k v) l)

pub sweep_fewer :
    (now target size : ℕ) (l : Items)
    → size < (sweep now target size l).1
    → length (sweep now target size l).0 < length l
sweep_fewer now target size [] h = absurd (omega arith)
sweep_fewer now target size ((k, v) ∷ l) h =
    ground
      (arith, sweep_fewer now target size l, length-sweep now target (size + full_weight k v) l)

pub full_weights-sweep :
    (now target size : ℕ) (l : Items) → full_weights (sweep now target size l).0 ≤ full_weights l
full_weights-sweep now target size [] = omega arith
full_weights-sweep now target size ((k, v) ∷ l) = ground (
  arith,
  full_weights-sweep now target size l,
  full_weights-sweep now target (size + full_weight k v) l,
)

pub Timely-sweep :
    (time now target size : ℕ) (l : Items) → Timely time l → Timely time (sweep now target size l).0
Timely-sweep time now target size [] h = tt
Timely-sweep time now target size ((k, v) ∷ l) h = ground (
  arith,
  Timely-sweep time now target size l,
  Timely-sweep time now target (size + full_weight k v) l,
)
