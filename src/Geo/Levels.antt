-- ===== src/Geo/Levels.antt =====
-- The searches in a set of levels (`TileKeyLevels`, a `std::bitset<32>`) of
-- olp-cpp-sdk-core/src/geo/tiling/TileKey.cpp. The set is the number that `to_ulong` gives, below
-- 2 ^ 32; `std::log2` of such a number, truncated, is the place of its highest bit.
pub mod Lowest
pub mod Nearest
use Prim.Native.Nat.{bit_and, min, max}
use here_data_sdk_cpp.Common.{
  ℕ, zero, suc, ◌+◌, ◌-◌, ◌*◌, ◌/◌, ◌%◌, ◌^◌, Bool, true, false, not, ◌&&◌, List, [], ◌∷◌, Option,
  none, some, ltb, leb, ◌==◌, if◌then◌else◌, get_or,
}
use here_data_sdk_cpp.Common.Bits.{u32, u64, ◌>>>◌}

-- `levels[i]`.
abbrev pub has_level : ℕ → ℕ → Bool
has_level levels i = levels / 2 ^ i % 2 == 1

abbrev pub lookup_table : List ℕ
lookup_table =
    0 ∷ 1 ∷ 28 ∷ 2 ∷ 29 ∷ 14 ∷ 24 ∷ 3 ∷ 30 ∷ 22 ∷ 20 ∷ 15 ∷ 25 ∷ 17 ∷ 4 ∷ 8 ∷ 31 ∷ 27 ∷ 13 ∷ 23 ∷ 21
    ∷ 19 ∷ 16 ∷ 7 ∷ 26 ∷ 12 ∷ 18 ∷ 6 ∷ 11 ∷ 5 ∷ 10 ∷ 9 ∷ []

-- The place in the table by a product with a de Bruijn sequence.
de_bruijn : ℕ → ℕ
de_bruijn bit = get_or lookup_table (u32 (u64 (bit * 0x077CB531)) >>> 27) 0

-- `-level_bits` is taken in 64 bits.
unfoldable pub get_min_tile_key_level : ℕ → Option ℕ
unfolding de_bruijn
get_min_tile_key_level levels =
    if levels == 0 then none else some (de_bruijn (bit_and levels (u64 (2 ^ 64 - levels))))

-- The place of the highest bit, on fuel.
highest_bit : ℕ → ℕ → ℕ
highest_bit zero n = 0
highest_bit (suc fuel) n = let more = suc (highest_bit fuel (n / 2)) in if ltb n 2 then 0 else more

unfoldable pub get_max_tile_key_level : ℕ → Option ℕ
unfolding highest_bit
get_max_tile_key_level levels = if levels == 0 then none else some (highest_bit 32 levels)

-- `abs(static_cast<int>(a - b))`.
abbrev pub distance_between : ℕ → ℕ → ℕ
distance_between a b = (a - b) + (b - a)

-- The loop from `distance`, with `left` rounds to go.
nearest_loop : ℕ → ℕ → ℕ → ℕ → ℕ
nearest_loop zero distance levels level = level
nearest_loop (suc left) distance levels level =
    let rest = nearest_loop left (distance + 1) levels level in
    if ltb (level + distance) 32 && has_level levels (level + distance)
    then level + distance
    else if leb distance level && has_level levels (level - distance)
    then level - distance
    else rest

nearest_from : ℕ → ℕ → ℕ → ℕ → ℕ
unfolding nearest_loop
nearest_from levels reference_level min_level max_level =
    let level = max (min reference_level max_level) min_level in
    let max_distance = max (distance_between level min_level) (distance_between level max_level) in
    nearest_loop (max_distance + 1) 0 levels level

unfoldable pub get_nearest_available_tile_key_level : ℕ → ℕ → Option ℕ
unfolding nearest_from
get_nearest_available_tile_key_level levels reference_level = elim (get_min_tile_key_level levels) [
  | none ↦ none
  | some min_level ↦ elim (get_max_tile_key_level levels) [
    | none ↦ none
    | some max_level ↦ some (nearest_from levels reference_level min_level max_level)
  ]
]
