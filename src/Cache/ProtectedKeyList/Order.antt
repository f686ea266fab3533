-- ===== src/Cache/ProtectedKeyList/Order.antt =====
-- The order of `CustomCompare` on keys: two keys are ordered where they first differ, and a key is
-- not ordered against its own prefixes.
use here_data_sdk_cpp.Common.{
  ◌≤◌, ◌≡◌, ◌↔◌, refl, arith, Bool, true, false, [], ◌∷◌, ltb, ◌==◌, length, if◌then◌else◌,
}
use here_data_sdk_cpp.Cache.ProtectedKeyList.{
  Key, starts_with, is_prefix, is_equal_or_prefix, string_less, custom_compare,
}

-- The first byte in which the keys differ orders them.
abbrev pub below : Key → Key → Bool
below [] r = false
below (x ∷ l) [] = false
below (x ∷ l) (y ∷ r) = if ltb x y then true else if x == y then below l r else false

pub length-starts_with : (p k : Key) → starts_with p k ≡ true → length p ≤ length k
unfolding starts_with
length-starts_with [] k h = omega arith
length-starts_with (x ∷ p) [] h = ground arith
length-starts_with (x ∷ p) (y ∷ k) h = ground (arith, length-starts_with p k)

pub is_equal_or_prefix_lem : (p k : Key) → is_equal_or_prefix p k ≡ starts_with p k
unfolding is_equal_or_prefix
is_equal_or_prefix_lem p k = ground (arith, length-starts_with p k)

string_less-below : (l r : Key) → starts_with l r ≡ false → string_less l r ≡ below l r
unfolding starts_with string_less
string_less-below [] r h = ground arith
string_less-below (x ∷ l) [] h = refl
string_less-below (x ∷ l) (y ∷ r) h = ground (arith, string_less-below l r)

pub below-starts_with : (l r : Key) → starts_with l r ≡ true → below l r ≡ false
unfolding starts_with
below-starts_with [] r h = refl
below-starts_with (x ∷ l) [] h = refl
below-starts_with (x ∷ l) (y ∷ r) h = ground (arith, below-starts_with l r)

pub below-extended : (l r : Key) → starts_with r l ≡ true → below l r ≡ false
unfolding starts_with
below-extended [] r h = refl
below-extended (x ∷ l) [] h = refl
below-extended (x ∷ l) (y ∷ r) h = ground (arith, below-extended l r)

string_less-equal :
    (l r : Key) → length r ≤ length l → starts_with l r ≡ true → string_less l r ≡ false
unfolding starts_with string_less
string_less-equal [] [] h e = refl
string_less-equal [] (y ∷ r) h e = absurd (omega arith)
string_less-equal (x ∷ l) [] h e = refl
string_less-equal (x ∷ l) (y ∷ r) h e = ground (arith, string_less-equal l r)

pub custom_compare_lem : (l r : Key) → custom_compare l r ≡ below l r
unfolding custom_compare
custom_compare_lem l r = ground (
  arith,
  string_less-below l r,
  below-starts_with l r,
  below-extended l r,
  string_less-equal l r,
  length-starts_with l r,
  length-starts_with r l,
)

pub below_trans : (a b c : Key) → below a b ≡ true → below b c ≡ true → below a c ≡ true
below_trans [] b c h h' = cc
below_trans (x ∷ a) [] c h h' = cc
below_trans (x ∷ a) (y ∷ b) [] h h' = cc
below_trans (x ∷ a) (y ∷ b) (z ∷ c) h h' = ground (arith, below_trans a b c)

pub below_irrefl : (a : Key) → below a a ≡ false
below_irrefl [] = refl
below_irrefl (x ∷ a) = ground (arith, below_irrefl a)

-- What is below a prefix is below the key, and what a prefix is below the key is below.
pub below-starts_with_right :
    (e p k : Key) → starts_with p k ≡ true → below e p ≡ true → below e k ≡ true
unfolding starts_with
below-starts_with_right [] p k h h' = cc
below-starts_with_right (x ∷ e) [] k h h' = cc
below-starts_with_right (x ∷ e) (y ∷ p) [] h h' = cc
below-starts_with_right (x ∷ e) (y ∷ p) (z ∷ k) h h' = ground (arith, below-starts_with_right e p k)

pub below-starts_with_left :
    (p e k : Key) → starts_with p k ≡ true → below p e ≡ true → below k e ≡ true
unfolding starts_with
below-starts_with_left [] e k h h' = cc
below-starts_with_left (x ∷ p) [] k h h' = cc
below-starts_with_left (x ∷ p) (y ∷ e) [] h h' = cc
below-starts_with_left (x ∷ p) (y ∷ e) (z ∷ k) h h' = ground (arith, below-starts_with_left p e k)

-- Keys that are not ordered are a prefix of one another.
pub below_total :
    (a b : Key)
    → below a b ≡ false
    → below b a ≡ false
    → starts_with a b ≡ false
    → starts_with b a ≡ true
unfolding starts_with
below_total [] b h h' n = cc
below_total (x ∷ a) [] h h' n = refl
below_total (x ∷ a) (y ∷ b) h h' n = ground (arith, below_total a b)

pub starts_with_refl : (k : Key) → starts_with k k ≡ true
unfolding starts_with
starts_with_refl [] = refl
starts_with_refl (x ∷ k) = ground (arith, starts_with_refl k)

pub starts_with_trans :
    (a b c : Key) → starts_with a b ≡ true → starts_with b c ≡ true → starts_with a c ≡ true
unfolding starts_with
starts_with_trans [] b c h h' = refl
starts_with_trans (x ∷ a) [] c h h' = cc
starts_with_trans (x ∷ a) (y ∷ b) [] h h' = cc
starts_with_trans (x ∷ a) (y ∷ b) (z ∷ c) h h' = ground (arith, starts_with_trans a b c)

-- Two prefixes of one key are prefixes of one another.
pub starts_with_linear :
    (a b c : Key)
    → starts_with a c ≡ true
    → starts_with b c ≡ true
    → starts_with a b ≡ false
    → starts_with b a ≡ true
unfolding starts_with
starts_with_linear [] b c h h' n = cc
starts_with_linear (x ∷ a) [] c h h' n = refl
starts_with_linear (x ∷ a) (y ∷ b) [] h h' n = cc
starts_with_linear (x ∷ a) (y ∷ b) (z ∷ c) h h' n = ground (arith, starts_with_linear a b c)

starts_with_same :
    (p k : Key) → length p ≡ length k → starts_with p k ≡ true → starts_with k p ≡ true
unfolding starts_with
starts_with_same [] [] e h = refl
starts_with_same [] (y ∷ k) e h = absurd (omega arith)
starts_with_same (x ∷ p) [] e h = cc
starts_with_same (x ∷ p) (y ∷ k) e h = ground (arith, starts_with_same p k)

pub is_prefix_iff :
    (p k : Key) → (is_prefix p k ≡ true) ↔ ((starts_with p k ≡ true) × (starts_with k p ≡ false))
unfolding is_prefix
is_prefix_iff p k =
    ground (arith, starts_with_same p k, length-starts_with p k, length-starts_with k p)
