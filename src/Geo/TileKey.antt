-- ===== src/Geo/TileKey.antt =====
-- `TileKey` of olp-cpp-sdk-core/include/olp/core/geo/tiling/TileKey.h and
-- src/geo/tiling/TileKey.cpp: the key, its order and the moves between neighbours, parents and
-- children. The fields are `uint32_t`; a shift by 32 or more is undefined in C++ and is no case of
-- the theorems.
pub mod Shift
pub mod Family
pub mod Order
use Prim.Native.Nat.{bit_and, bit_or}
use here_data_sdk_cpp.Common.{
  ℕ, suc, ◌+◌, ◌-◌, ◌*◌, ◌/◌, ◌%◌, ◌^◌, Bool, true, false, not, ◌&&◌, ltb, leb, ◌==◌, if◌then◌else◌,
}
use here_data_sdk_cpp.Common.Bits.{u32, ◌<<<◌, ◌>>>◌}
use here_data_sdk_cpp.Common.Int.{ℤ, pos, negsuc, signed32, to_u32}

abbrev pub level_count : ℕ
level_count = 32

pub record TileKey : Type 0 where
  pub row : ℕ
  pub column : ℕ
  pub level : ℕ

pub data TileKeyQuadrant : Type 0 where
  sw se nw ne invalid : TileKeyQuadrant

-- The default constructor: an invalid key.
abbrev pub no_tile : TileKey
no_tile = record { row = 0; column = 0; level = level_count }

unfoldable pub is_valid : TileKey → Bool
is_valid t = ltb t.level level_count && (ltb t.row (1 <<< t.level) && ltb t.column (1 <<< t.level))

-- `operator==` and `operator<`.
unfoldable pub equals : TileKey → TileKey → Bool
equals a b = a.level == b.level && (a.row == b.row && a.column == b.column)

unfoldable pub less : TileKey → TileKey → Bool
less a b =
    if not (a.level == b.level)
    then ltb a.level b.level
    else if not (a.row == b.row)
    then ltb a.row b.row
    else ltb a.column b.column

unfoldable pub from_row_column_level : ℕ → ℕ → ℕ → TileKey
from_row_column_level row column level = record { row = row; column = column; level = level }

-- `RowCount` and `ColumnCount`.
pub row_count : TileKey → ℕ
row_count t = u32 (1 <<< t.level)

pub column_count : TileKey → ℕ
column_count t = u32 (1 <<< t.level)

unfoldable pub parent : TileKey → TileKey
unfolding from_row_column_level
parent t =
    if ltb 0 t.level
    then from_row_column_level (t.row >>> 1) (t.column >>> 1) (t.level - 1)
    else no_tile

-- `int level = level_ + delta; if (level < 0) level = 0;`, stored back as `uint32_t`.
clamp_level : ℤ → ℕ
clamp_level (pos n) = n
clamp_level (negsuc n) = 0

-- A negative `delta` is `negsuc n`, that is -(n + 1).
unfoldable pub changed_level_by : TileKey → ℤ → TileKey
unfolding clamp_level
changed_level_by t (pos ℕ.zero) = t
changed_level_by t (pos (ℕ.suc d)) = record {
  row = u32 (t.row <<< suc d);
  column = u32 (t.column <<< suc d);
  level = clamp_level (signed32 (u32 (t.level + to_u32 (pos (suc d)))));
}
changed_level_by t (negsuc n) = record {
  row = t.row >>> suc n;
  column = t.column >>> suc n;
  level = clamp_level (signed32 (u32 (t.level + to_u32 (negsuc n))));
}

-- `static_cast<int>(level) - level_` is computed in `uint32_t`.
unfoldable pub changed_level_to : TileKey → ℕ → TileKey
changed_level_to t level = changed_level_by t (signed32 (u32 (level + 2 ^ 32 - t.level)))

unfoldable pub is_child_of : TileKey → TileKey → Bool
is_child_of t key =
    if leb t.level key.level then false else equals (changed_level_to t key.level) key

unfoldable pub is_parent_of : TileKey → TileKey → Bool
is_parent_of t key = is_child_of key t

unfoldable pub has_next_row : TileKey → Bool
has_next_row t = ltb t.row (u32 (u32 (1 <<< t.level) + 2 ^ 32 - 1))

unfoldable pub has_next_column : TileKey → Bool
has_next_column t = ltb t.column (u32 (u32 (1 <<< t.level) + 2 ^ 32 - 1))

unfoldable pub has_previous_row : TileKey → Bool
has_previous_row t = ltb 0 t.row

unfoldable pub has_previous_column : TileKey → Bool
has_previous_column t = ltb 0 t.column

unfoldable pub next_row : TileKey → TileKey
unfolding from_row_column_level
next_row t = from_row_column_level (u32 (t.row + 1)) t.column t.level

unfoldable pub next_column : TileKey → TileKey
unfolding from_row_column_level
next_column t = from_row_column_level t.row (u32 (t.column + 1)) t.level

unfoldable pub previous_row : TileKey → TileKey
unfolding from_row_column_level
previous_row t = from_row_column_level (u32 (t.row + 2 ^ 32 - 1)) t.column t.level

unfoldable pub previous_column : TileKey → TileKey
unfolding from_row_column_level
previous_column t = from_row_column_level t.row (u32 (t.column + 2 ^ 32 - 1)) t.level

-- `GetChild` by an index, and by a quadrant.
unfoldable pub get_child : TileKey → ℕ → TileKey
get_child t index =
    let r = changed_level_by t (pos 1) in
    record r { row = bit_or r.row (index >>> 1); column = bit_or r.column (bit_and index 1) }

pub quadrant_index : TileKeyQuadrant → ℕ
quadrant_index sw = 0
quadrant_index se = 1
quadrant_index nw = 2
quadrant_index ne = 3
quadrant_index invalid = 4

unfoldable pub get_child_at : TileKey → TileKeyQuadrant → TileKey
unfolding quadrant_index
get_child_at t direction = get_child t (quadrant_index direction)

-- The cast of a number to the enumeration; 4 and what has no name is `invalid`.
pub quadrant_of : ℕ → TileKeyQuadrant
quadrant_of n =
    if n == 0
    then sw
    else if n == 1
    then se
    else if n == 2
    then nw
    else if n == 3
    then ne
    else invalid

unfoldable pub relationship_to_parent : TileKey → TileKeyQuadrant
unfolding quadrant_of
relationship_to_parent t =
    let sw_tile = get_child (parent t) 0 in
    if t.level == 0
    then invalid
    else quadrant_of
        (u32 (u32 (u32 (t.row + 2 ^ 32 - sw_tile.row) * 2 + t.column) + 2 ^ 32 - sw_tile.column))
