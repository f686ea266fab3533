-- ===== src/Cache/ProtectedKeyList/Change.antt =====
-- `Protect`: the list stays in order, and exactly the given keys become protected.
use here_data_sdk_cpp.Common.{◌≡◌, refl, arith, Bool, true, false, List, [], ◌∷◌, if◌then◌else◌}
use here_data_sdk_cpp.Cache.ProtectedKeyList.{
  Key, ProtectedKeyList, starts_with, is_prefix, custom_compare, before_bound, from_bound, covered,
  erase_while, insert_here, protect_key, protect_loop, protect, is_protected,
}
use here_data_sdk_cpp.Cache.ProtectedKeyList.Order.{
  below, custom_compare_lem, below_trans, below-starts_with_right, below_total, is_prefix_iff,
  starts_with_trans,
}
use here_data_sdk_cpp.Cache.ProtectedKeyList.Protected.{
  has_prefix, all_above, all_above_trans, sorted, Sorted, is_protected_iff,
}

-- No element is below the key or a proper prefix of it.
unfoldable pub past : Key → List Key → Bool
past key [] = true
past key (e ∷ l) = if below e key then false else if is_prefix e key then false else past key l

pub past-all_above :
    (e key : Key) (l : List Key) → all_above e l ≡ true → below e key ≡ false → past key l ≡ true
unfolding all_above past
past-all_above e key [] a n = refl
past-all_above e key (f ∷ l) a n = ground (
  arith,
  past-all_above e key l,
  below_trans e f key,
  below-starts_with_right e f key,
  is_prefix_iff f key,
)

-- What `Protect` puts in the place of the elements from the bound on.
placed : Key → List Key → List Key × Bool
placed key l = insert_here key (erase_while (is_prefix key) l)

has_prefix-placed :
    (key : Key) (l : List Key) (q : Key)
    → past key l ≡ true
    → has_prefix (placed key l).0 q ≡ (if starts_with key q then true else has_prefix l q)
unfolding placed insert_here erase_while past has_prefix
has_prefix-placed key [] q h = refl
has_prefix-placed key (e ∷ l) q h = ground (
  arith,
  has_prefix-placed key l q,
  is_prefix_iff key e,
  is_prefix_iff e key,
  custom_compare_lem key e,
  below_total e key,
  starts_with_trans e key q,
  starts_with_trans key e q,
)

all_above-placed :
    (d key : Key) (l : List Key)
    → below d key ≡ true
    → all_above d l ≡ true
    → all_above d (placed key l).0 ≡ true
unfolding placed insert_here erase_while all_above
all_above-placed d key [] b a = ground arith
all_above-placed d key (e ∷ l) b a = ground (arith, all_above-placed d key l)

sorted-placed : (key : Key) (l : List Key) → sorted l ≡ true → sorted (placed key l).0 ≡ true
unfolding placed insert_here erase_while sorted all_above
sorted-placed key [] s = refl
sorted-placed key (e ∷ l) s =
    ground (arith, sorted-placed key l, all_above_trans key e l, custom_compare_lem key e)

protect_key-empty : (key : Key) → protect_key [] key ≡ (key ∷ [], true)
unfolding protect_key from_bound before_bound covered insert_here erase_while
protect_key-empty key = refl

protect_key-cons :
    (l : List Key) (e key : Key)
    → custom_compare e key ≡ true
    → protect_key (e ∷ l) key ≡ (e ∷ (protect_key l key).0, (protect_key l key).1)
unfolding protect_key from_bound before_bound
protect_key-cons l e key h = ground arith

-- The first element that is not below the key stands first.
protect_key-here :
    (l : List Key) (e key : Key)
    → custom_compare e key ≡ false
    → protect_key (e ∷ l) key ≡ (if is_prefix e key then (e ∷ l, false) else placed key (e ∷ l))
unfolding protect_key from_bound before_bound covered placed
protect_key-here l e key h = ground arith

all_above-protect_key :
    (d key : Key) (l : List Key)
    → below d key ≡ true
    → all_above d l ≡ true
    → all_above d (protect_key l key).0 ≡ true
unfolding all_above
all_above-protect_key d key [] b a = ground (arith, protect_key-empty key)
all_above-protect_key d key (e ∷ l) b a = ground (
  arith,
  all_above-protect_key d key l,
  protect_key-cons l e key,
  protect_key-here l e key,
  all_above-placed d key (e ∷ l),
)

protect_key-sorted :
    (l : List Key) (key : Key) → sorted l ≡ true → sorted (protect_key l key).0 ≡ true
unfolding sorted all_above
protect_key-sorted [] key s = ground (arith, protect_key-empty key)
protect_key-sorted (e ∷ l) key s = ground (
  arith,
  protect_key-sorted l key,
  protect_key-cons l e key,
  protect_key-here l e key,
  all_above-protect_key e key l,
  sorted-placed key (e ∷ l),
  custom_compare_lem e key,
)

has_prefix-protect_key :
    (l : List Key) (key q : Key)
    → sorted l ≡ true
    → has_prefix (protect_key l key).0 q ≡ (if starts_with key q then true else has_prefix l q)
unfolding sorted has_prefix past
has_prefix-protect_key [] key q s = ground (arith, protect_key-empty key)
has_prefix-protect_key (e ∷ l) key q s = ground (
  arith,
  has_prefix-protect_key l key q,
  protect_key-cons l e key,
  protect_key-here l e key,
  has_prefix-placed key (e ∷ l) q,
  past-all_above e key l,
  custom_compare_lem e key,
  is_prefix_iff e key,
  starts_with_trans e key q,
)

protect_loop-sorted : (l keys : List Key) → sorted l ≡ true → sorted (protect_loop l keys).0 ≡ true
unfolding protect_loop
protect_loop-sorted l [] s = s
protect_loop-sorted l (k ∷ keys) s =
    protect_loop-sorted (protect_key l k).0 keys (protect_key-sorted l k s)

has_prefix-protect_loop :
    (l keys : List Key) (q : Key)
    → sorted l ≡ true
    → has_prefix (protect_loop l keys).0 q ≡ (if has_prefix keys q then true else has_prefix l q)
unfolding protect_loop has_prefix
has_prefix-protect_loop l [] q s = refl
has_prefix-protect_loop l (k ∷ keys) q s = ground (
  arith,
  has_prefix-protect_loop (protect_key l k).0 keys q,
  protect_key-sorted l k,
  has_prefix-protect_key l k q,
)

pub Sorted-sorted : (l : List Key) → Sorted l → sorted l ≡ true
unfolding Sorted
Sorted-sorted l h = h

-- `Protect` keeps the list in order.
pub protect-Sorted :
    (s : ProtectedKeyList) (keys : List Key)
    → Sorted s.protected_data
    → Sorted (protect s keys).0.protected_data
unfolding protect Sorted
protect-Sorted s keys h = protect_loop-sorted s.protected_data keys h

-- After `Protect` on a list in order, a key is protected exactly when one of the given keys is a
-- prefix of it or it was protected before.
pub is_protected-protect :
    (s : ProtectedKeyList) (keys : List Key) (key : Key)
    → Sorted s.protected_data
    → is_protected (protect s keys).0 key
      ≡ (if has_prefix keys key then true else is_protected s key)
unfolding protect
is_protected-protect s keys key h = cc (
  is_protected_iff (protect s keys).0 key (protect-Sorted s keys h),
  is_protected_iff s key h,
  has_prefix-protect_loop s.protected_data keys key (Sorted-sorted s.protected_data h),
)
