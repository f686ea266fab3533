-- ===== src/Geo/Levels/Nearest.antt =====
-- The level of a set that is nearest to a given one.
use Prim.Native.Nat.{min, max}
use native.Mathlib.Decide.{ℕ_discrete, dec_lt}
use here_data_sdk_cpp.Common.{
  ℕ, zero, suc, ◌+◌, ◌-◌, ◌/◌, ◌%◌, ◌^◌, ◌≤◌, ◌<◌, ◌≡◌, refl, inl, inr, ap, arith, false, ◌&&◌,
  none, some, Bool-cases, ltb, leb,
}
use here_data_sdk_cpp.Geo.Levels.{
  has_level, distance_between, nearest_loop, nearest_from, get_min_tile_key_level,
  get_nearest_available_tile_key_level,
}
use here_data_sdk_cpp.Geo.Levels.Lowest.{IsLowest, get_min-IsLowest, get_max_lem, bit-lt}

-- `r` is in the set, and no level of the set is nearer to `level`.
pub record IsClosest (levels level r : ℕ) : Type 0 where
  pub is_set : levels / 2 ^ r % 2 ≡ 1
  pub nearest :
      (j : ℕ) → levels / 2 ^ j % 2 ≡ 1 → distance_between level r ≤ distance_between level j

-- A level at the distance that both tests of a round refused is not in the set.
farther :
    (distance levels level j : ℕ)
    → levels < 2 ^ 32
    → (ltb (level + distance) 32 && has_level levels (level + distance)) ≡ false
    → (leb distance level && has_level levels (level - distance)) ≡ false
    → levels / 2 ^ j % 2 ≡ 1
    → distance ≤ distance_between level j
    → distance + 1 ≤ distance_between level j
farther distance levels level j h not_up not_down k far = elim (ℕ_discrete j (level + distance)) [
  | yes up ↦ ground (arith, ap (λ (n : ℕ). levels / 2 ^ n % 2) up, bit-lt levels j 32 h k)
  | no other ↦ elim (ℕ_discrete j (level - distance)) [
    | yes down ↦ ground (arith, ap (λ (n : ℕ). levels / 2 ^ n % 2) down)
    | no else ↦ omega arith
  ]
]

-- All levels of the set are `distance` away or more, and one of them is in reach of the rounds.
nearest_loop-IsClosest :
    (left distance levels level m : ℕ)
    → levels < 2 ^ 32
    → level < 32
    → levels / 2 ^ m % 2 ≡ 1
    → distance_between level m < distance + left
    → ((j : ℕ) → levels / 2 ^ j % 2 ≡ 1 → distance ≤ distance_between level j)
    → IsClosest levels level (nearest_loop left distance levels level)
unfolding nearest_loop
nearest_loop-IsClosest zero distance levels level m h hl e reach far =
    absurd (omega (arith, far m e))
nearest_loop-IsClosest (suc left) distance levels level m h hl e reach far =
    elim (Bool-cases (ltb (level + distance) 32 && has_level levels (level + distance))) [
      | inl up ↦ rw up (record { is_set = ground arith; nearest = λ j k. ground (arith, far j k) })
      | inr not_up ↦ elim (Bool-cases (leb distance level && has_level levels (level - distance))) [
        | inl down ↦
            rw (not_up, down)
              (record { is_set = ground arith; nearest = λ j k. ground (arith, far j k) })
        | inr not_down ↦
            rw (not_up, not_down)
              (nearest_loop-IsClosest left (distance + 1) levels level m h hl e (omega arith)
                (λ j k. farther distance levels level j h not_up not_down k (far j k)))
      ]
    ]

-- Clamping to the range of the set and then going to the nearest level of it is nearest to the
-- reference, too.
clamp-IsClosest :
    (levels reference lowest highest r : ℕ)
    → lowest ≤ highest
    → ((j : ℕ) → levels / 2 ^ j % 2 ≡ 1 → (lowest ≤ j) × (j ≤ highest))
    → IsClosest levels (max (min reference highest) lowest) r
    → IsClosest levels reference r
clamp-IsClosest levels reference lowest highest r h range n = record {
  is_set = n.is_set;
  nearest = λ j k. omega (arith, n.nearest j k, range j k, range r n.is_set);
}

set_range :
    (levels lowest highest j : ℕ)
    → IsLowest levels lowest
    → levels < 2 ^ suc highest
    → levels / 2 ^ j % 2 ≡ 1
    → (lowest ≤ j) × (j ≤ highest)
set_range levels lowest highest j l below k = (
  elim (dec_lt j lowest) [ yes p ↦ absurd (omega (arith, l.clear_below j p)) | no p ↦ omega arith ],
  omega (arith, bit-lt levels j (suc highest) below k),
)

nearest_from-IsClosest :
    (levels reference lowest highest : ℕ)
    → levels < 2 ^ 32
    → IsLowest levels lowest
    → levels / 2 ^ highest % 2 ≡ 1
    → levels < 2 ^ suc highest
    → IsClosest levels
        (max (min reference highest) lowest)
        (nearest_from levels reference lowest highest)
unfolding nearest_from
nearest_from-IsClosest levels reference lowest highest h l set below =
    let (le, _) = set_range levels lowest highest highest l below set in
    let lt = bit-lt levels highest 32 h set in
    nearest_loop-IsClosest _ 0 levels (max (min reference highest) lowest) lowest h (omega arith)
      l.is_set (omega arith) (λ j k. omega arith)

-- On a set of levels that is not empty `GetNearestAvailableTileKeyLevel` returns a level of the
-- set, and no level of the set is nearer to the reference level; on the empty set it returns
-- nothing.
pub get_nearest_available-IsClosest :
    (levels reference : ℕ)
    → levels < 2 ^ 32
    → (0 < levels
        → (r : ℕ) × (get_nearest_available_tile_key_level levels reference ≡ some r)
          × IsClosest levels reference r)
      × (get_nearest_available_tile_key_level 0 reference ≡ none)
unfolding get_nearest_available_tile_key_level
get_nearest_available-IsClosest levels reference h = (
  λ p.
      let (lo, min_is, lo_lt, l) = get_min-IsLowest levels p h in
      let (hi, max_is, hi_set, below) = get_max_lem levels p h in
      let range = λ (j : ℕ) (k : levels / 2 ^ j % 2 ≡ 1). set_range levels lo hi j l below k in
      (
        nearest_from levels reference lo hi,
        ground (arith, min_is, max_is),
        clamp-IsClosest levels reference lo hi (nearest_from levels reference lo hi)
            (omega (arith, range lo l.is_set)) range
            (nearest_from-IsClosest levels reference lo hi h l hi_set below),
      ),
  unfold get_min_tile_key_level in refl,
)
