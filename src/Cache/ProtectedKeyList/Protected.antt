-- ===== src/Cache/ProtectedKeyList/Protected.antt =====
-- `IsProtected` against the meaning of the list: a key is protected when the list has a prefix of
-- it.
use here_data_sdk_cpp.Common.{◌≡◌, refl, arith, Bool, true, false, List, [], ◌∷◌, if◌then◌else◌}
use here_data_sdk_cpp.Cache.ProtectedKeyList.{
  Key, ProtectedKeyList, starts_with, from_bound, is_empty, is_protected_at, is_protected,
}
use here_data_sdk_cpp.Cache.ProtectedKeyList.Order.{
  below, custom_compare_lem, is_equal_or_prefix_lem, below_trans, below-starts_with_right,
  below-starts_with, length-starts_with,
}

-- Some element is a prefix of the key.
unfoldable pub has_prefix : List Key → Key → Bool
has_prefix [] key = false
has_prefix (e ∷ l) key = if starts_with e key then true else has_prefix l key

-- Every element is above `e`.
unfoldable pub all_above : Key → List Key → Bool
all_above e [] = true
all_above e (f ∷ l) = if below e f then all_above e l else false

unfoldable pub sorted : List Key → Bool
sorted [] = true
sorted (e ∷ l) = if all_above e l then sorted l else false

-- The elements stand in strict order, so that none is a prefix of another.
unfoldable pub Sorted : List Key → Type 0
Sorted l = sorted l ≡ true

pub all_above_trans :
    (d e : Key) (l : List Key) → below d e ≡ true → all_above e l ≡ true → all_above d l ≡ true
unfolding all_above
all_above_trans d e [] h a = refl
all_above_trans d e (f ∷ l) h a = ground (arith, all_above_trans d e l, below_trans d e f)

-- An element that the key's prefix cannot stand behind.
has_prefix-all_above :
    (e : Key) (l : List Key) (key : Key)
    → all_above e l ≡ true
    → below e key ≡ false
    → has_prefix l key ≡ false
unfolding all_above has_prefix
has_prefix-all_above e [] key a n = refl
has_prefix-all_above e (f ∷ l) key a n =
    ground (arith, has_prefix-all_above e l key, below-starts_with_right e f key)

pub is_protected_at-from_bound :
    (l : List Key) (key : Key)
    → Sorted l
    → is_protected_at (from_bound l key) key ≡ has_prefix l key
unfolding Sorted sorted from_bound has_prefix is_protected_at
is_protected_at-from_bound [] key s = refl
is_protected_at-from_bound (e ∷ l) key s = ground (
  arith,
  is_protected_at-from_bound l key,
  custom_compare_lem e key,
  is_equal_or_prefix_lem e key,
  has_prefix-all_above e l key,
  below-starts_with e key,
  length-starts_with e key,
)

-- On a list in order, `IsProtected` holds exactly of the keys that some element of the list is a
-- prefix of.
pub is_protected_iff :
    (s : ProtectedKeyList) (key : Key)
    → Sorted s.protected_data
    → is_protected s key ≡ has_prefix s.protected_data key
unfolding is_protected is_empty has_prefix
is_protected_iff s key h =
    is_protected_data s.protected_data (is_protected_at-from_bound s.protected_data key h)
  where
    is_protected_data :
        (l : List Key)
        → is_protected_at (from_bound l key) key ≡ has_prefix l key
        → (if is_empty l then false else is_protected_at (from_bound l key) key) ≡ has_prefix l key
    is_protected_data [] e = refl
    is_protected_data (k ∷ l) e = e
