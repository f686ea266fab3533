-- ===== src/Geo/Levels/Lowest.antt =====
-- The lowest and the highest level of a set.
use Prim.Native.Nat.{bit_and}
use native.Mathlib.Nat.{div-one, div-eq_of_lt, le_trans}
use native.Mathlib.Decide.{ℕ_discrete, dec_lt}
use here_data_sdk_cpp.Common.{
  ℕ, zero, suc, ◌+◌, ◌-◌, ◌/◌, ◌%◌, ◌^◌, ◌≤◌, ◌<◌, ◌≡◌, refl, sym, ap, ◌∙◌, arith, true, some,
  Bool-cases, inl, inr, ltb, ◌==◌, ==_iff,
}
use here_data_sdk_cpp.Common.Bits.{bit_and_step, bit_and-zero, all_below, all_below_at}
use here_data_sdk_cpp.Common.Pow.{two-pow-suc, two-pow-le, shr-shr}
use here_data_sdk_cpp.Geo.Levels.{
  de_bruijn, get_min_tile_key_level, highest_bit, get_max_tile_key_level,
}

-- A number and its complement have no bit in common.
bit_and-complement : (w y : ℕ) → y < 2 ^ w → bit_and y (2 ^ w - 1 - y) ≡ 0
bit_and-complement zero y h = ground (arith, bit_and-zero y)
bit_and-complement (suc w) y h =
    ground (arith, two-pow-suc w, bit_and_step y (2 ^ suc w - 1 - y), bit_and-complement w (y / 2))

-- `m` is the place of the lowest bit of `x`.
pub record IsLowest (x m : ℕ) : Type 0 where
  pub is_set : x / 2 ^ m % 2 ≡ 1
  pub clear_below : (j : ℕ) → j < m → x / 2 ^ j % 2 ≡ 0

shr-suc : (x m : ℕ) → x / 2 / 2 ^ m ≡ x / 2 ^ suc m
shr-suc x m = shr-shr x 1 m ∙ ap (λ (n : ℕ). x / 2 ^ n) (one_more m)
  where
    one_more : (n : ℕ) → 1 + n ≡ suc n
    one_more n = omega arith

IsLowest-half : (x m : ℕ) → x % 2 ≡ 0 → IsLowest (x / 2) m → IsLowest x (suc m)
IsLowest-half x m even l = record {
  is_set = omega (arith, l.is_set, ap (λ (n : ℕ). n % 2) (shr-suc x m));
  clear_below = below;
}
  where
    below : (j : ℕ) → j < suc m → x / 2 ^ j % 2 ≡ 0
    below zero h = omega (arith, div-one x)
    below (suc j) h = ap (λ (n : ℕ). n % 2) (sym (shr-suc x j)) ∙ l.clear_below j (omega arith)

-- `x & -x` is the lowest bit.
bit_and-negated :
    (w x : ℕ) → 0 < x → x < 2 ^ w → (m : ℕ) × (bit_and x (2 ^ w - x) ≡ 2 ^ m) × IsLowest x m
bit_and-negated zero x p h = absurd (omega arith)
bit_and-negated (suc w) x p h = elim (ℕ_discrete (x % 2) 1) [
  | yes odd ↦ (
    0,
    ground (arith, two-pow-suc w, bit_and_step x (2 ^ suc w - x), bit_and-complement w (x / 2)),
    record { is_set = omega (arith, div-one x); clear_below = λ j k. absurd (omega arith) },
  )
  | no even ↦
      let (m, e, l) = bit_and-negated w (x / 2) (omega arith) (omega (arith, two-pow-suc w)) in
      (
        suc m,
        ground (arith, two-pow-suc w, two-pow-suc m, bit_and_step x (2 ^ suc w - x), e),
        IsLowest-half x m (omega arith) l,
      )
]

de_bruijn_table : all_below 32 (λ i. de_bruijn (2 ^ i) == i) ≡ true
unfolding all_below de_bruijn
de_bruijn_table = refl

de_bruijn_lem : (m : ℕ) → m < 32 → de_bruijn (2 ^ m) ≡ m
de_bruijn_lem m h = (==_iff _ m).0 (all_below_at 32 _ m h de_bruijn_table)

-- A bit that is set stands below the width.
pub bit-lt : (x m w : ℕ) → x < 2 ^ w → x / 2 ^ m % 2 ≡ 1 → m < w
bit-lt x m w h e = elim (dec_lt m w) [
  | yes below ↦ below
  | no above ↦
      absurd
        (omega (arith, div-eq_of_lt (le_trans h (two-pow-le {a = w} {b = m} (omega arith))), e))
]

-- On a set of levels that is not empty `GetMinTileKeyLevel` returns its lowest level.
pub get_min-IsLowest :
    (levels : ℕ)
    → 0 < levels
    → levels < 2 ^ 32
    → (m : ℕ) × (get_min_tile_key_level levels ≡ some m) × (m < 32) × IsLowest levels m
unfolding get_min_tile_key_level
get_min-IsLowest levels p h =
    let (m, e, l) = bit_and-negated 64 levels p (omega arith) in
    let lt = bit-lt levels m 32 h l.is_set in (m, ground (arith, e, de_bruijn_lem m lt), lt, l)

-- The place of the highest bit.
highest_bit_lem :
    (fuel x : ℕ)
    → 0 < x
    → x < 2 ^ fuel
    → (x / 2 ^ highest_bit fuel x % 2 ≡ 1) × (x < 2 ^ suc (highest_bit fuel x))
unfolding highest_bit
highest_bit_lem zero x p h = absurd (omega arith)
highest_bit_lem (suc fuel) x p h = elim (Bool-cases (ltb x 2)) [
  | inl one ↦ rw one (ground arith, ground arith)
  | inr more ↦
      let at_least : 2 ≤ x = ground arith in
      let (is_set, below) =
        highest_bit_lem fuel (x / 2) (omega arith) (omega (arith, two-pow-suc fuel)) in
      rw more (
        ap (λ (n : ℕ). n % 2) (sym (shr-suc x (highest_bit fuel (x / 2)))) ∙ is_set,
        omega (arith, below, two-pow-suc (suc (highest_bit fuel (x / 2)))),
      )
]

-- On a set of levels that is not empty `GetMaxTileKeyLevel` returns its highest level.
pub get_max_lem :
    (levels : ℕ)
    → 0 < levels
    → levels < 2 ^ 32
    → (m : ℕ) × (get_max_tile_key_level levels ≡ some m)
      × (levels / 2 ^ m % 2 ≡ 1)
      × (levels < 2 ^ suc m)
unfolding get_max_tile_key_level
get_max_lem levels p h =
    let (is_set, below) = highest_bit_lem 32 levels p h in
    (highest_bit 32 levels, ground arith, is_set, below)
