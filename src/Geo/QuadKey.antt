-- ===== src/Geo/QuadKey.antt =====
-- Quadkeys of tiles: the encodings of olp-cpp-sdk-core/src/geo/tiling/TileKey.cpp and the helper
-- `QuadKey64Helper`. A quadkey of 64 bits holds a leading 1 above the interleaved bits of the row
-- and the column. Texts are lists of bytes.
pub mod Table
pub mod Morton
pub mod RoundTrip
pub mod Text
pub mod Subkey
pub mod SubTile
use Prim.Native.Nat.{bit_and, bit_or}
use here_data_sdk_cpp.Common.{
  ℕ, zero, suc, ◌+◌, ◌-◌, ◌*◌, ◌/◌, ◌%◌, ◌^◌, Bool, true, false, not, List, [], ◌∷◌, Option, none,
  some, ltb, leb, ◌==◌, if◌then◌else◌, length, get_or, set, replicate,
}
use here_data_sdk_cpp.Common.Bits.{u32, u64, ◌<<<◌, ◌>>>◌}
use here_data_sdk_cpp.Common.Int.{ℤ, pos, signed32}
use here_data_sdk_cpp.Common.Decimal.{to_string, strtoull}
use here_data_sdk_cpp.Geo.TileKey.{
  TileKey, no_tile, is_valid, from_row_column_level, changed_level_by,
}
use Table.{morton_table_256}

-- `kMortonTable256[(x >> shift) & 0xFF]`.
unfoldable pub morton : ℕ → ℕ → ℕ
unfolding morton_table_256
morton x shift = get_or morton_table_256 (bit_and (x >>> shift) 0xff) 0

-- `ToQuadKey64`; nothing is shifted out of the 64 bits, but for the leading 1 at level 32.
unfoldable pub to_quad_key_64 : TileKey → ℕ
to_quad_key_64 t =
    let a = bit_or (u64 (1 <<< (2 * t.level))) (u64 (morton t.row 24 <<< 49)) in
    let b = bit_or a (u64 (morton t.row 16 <<< 33)) in
    let c = bit_or b (u64 (morton t.row 8 <<< 17)) in
    let d = bit_or c (u64 (morton t.row 0 <<< 1)) in
    let e = bit_or d (u64 (morton t.column 24 <<< 48)) in
    let f = bit_or e (u64 (morton t.column 16 <<< 32)) in
    let g = bit_or f (u64 (morton t.column 8 <<< 16)) in bit_or g (morton t.column 0)

-- The loop of `FromQuadKey64`, on fuel: 32 rounds use up 64 bits.
from_quad_key_64_loop : ℕ → ℕ → TileKey → TileKey
from_quad_key_64_loop zero quad_key result = result
from_quad_key_64_loop (suc fuel) quad_key result =
    let mask = u32 (1 <<< result.level) in
    let next : TileKey = record {
      row = if bit_and quad_key 2 == 0 then result.row else bit_or result.row mask;
      column = if bit_and quad_key 1 == 0 then result.column else bit_or result.column mask;
      level = u32 (result.level + 1);
    } in
    let rest = from_quad_key_64_loop fuel (quad_key >>> 2) next in
    if ltb 1 quad_key then rest else result

unfoldable pub from_quad_key_64 : ℕ → TileKey
unfolding from_quad_key_64_loop from_row_column_level
from_quad_key_64 quad_key = from_quad_key_64_loop 32 quad_key (from_row_column_level 0 0 0)

-- The loop of `ToQuadKey` from `index`, with `left` rounds to go.
to_quad_key_loop : ℕ → ℕ → ℕ → ℕ → List ℕ → List ℕ
to_quad_key_loop zero index level morton_key key = key
to_quad_key_loop (suc left) index level morton_key key =
    to_quad_key_loop left (index + 1) level morton_key
      (set key (level - index - 1) (morton_key / u64 (1 <<< (index * 2)) % 4 + b'0'))

unfoldable pub to_quad_key : TileKey → List ℕ
unfolding to_quad_key_loop
to_quad_key t =
    if not (is_valid t)
    then []
    else if t.level == 0
    then b'-' ∷ []
    else to_quad_key_loop t.level 0 t.level (to_quad_key_64 t) (replicate t.level 0)

-- The digit `quad_key[level - index - 1] - '0'`, an `int`, as the pattern of its 32 bits.
quad_digit : List ℕ → ℕ → ℕ → ℕ
quad_digit quad_key level index = u32 (get_or quad_key (level - index - 1) 0 + 2 ^ 32 - b'0')

-- The loop of `FromQuadKey` from `index`, with `left` rounds to go.
from_quad_key_loop : ℕ → ℕ → List ℕ → TileKey → TileKey
unfolding quad_digit
from_quad_key_loop zero index quad_key result = result
from_quad_key_loop (suc left) index quad_key result =
    let mask = u32 (1 <<< index) in
    let d = quad_digit quad_key result.level index in
    from_quad_key_loop left (index + 1) quad_key (record result {
      column = if bit_and d 1 == 0 then result.column else bit_or result.column mask;
      row = if bit_and d 2 == 0 then result.row else bit_or result.row mask;
    })

-- The text is "-".
is_root_key : List ℕ → Bool
is_root_key (c ∷ []) = c == b'-'
is_root_key _ = false

unfoldable pub from_quad_key : List ℕ → TileKey
unfolding from_quad_key_loop is_root_key from_row_column_level
from_quad_key [] = no_tile
from_quad_key (c ∷ cs) =
    let quad_key = c ∷ cs in
    let size = u32 (length quad_key) in
    let result = from_row_column_level 0 0 0 in
    if is_root_key quad_key
    then result
    else from_quad_key_loop (length quad_key) 0 quad_key (record result { level = size })

unfoldable pub to_here_tile : TileKey → List ℕ
to_here_tile t = to_string (to_quad_key_64 t)

unfoldable pub from_here_tile : List ℕ → TileKey
from_here_tile [] = no_tile
from_here_tile (c ∷ cs) = from_quad_key_64 (strtoull (c ∷ cs))

-- `QuadKey64Helper::Parent` and `QuadKey64Helper::Child`, on the key alone.
unfoldable pub helper_parent : ℕ → ℕ
helper_parent key = key >>> 2

unfoldable pub helper_child : ℕ → ℕ
helper_child key = u64 (key <<< 2)

-- `QuadKey64Helper::GetSubkey`, for a `delta` that is not negative.
unfoldable pub get_subkey : ℕ → ℕ → ℕ
get_subkey key delta =
    let msb = u64 (1 <<< (delta * 2)) in
    let mask = u64 (msb + 2 ^ 64 - 1) in bit_or (bit_and key mask) msb

-- The loop of `QuadKey64Helper::AddedSubkey`, on fuel; `none` means that it did not end.
added_subkey_loop : ℕ → ℕ → ℕ → ℕ → Option (ℕ × ℕ)
added_subkey_loop zero sub_key result mask = none
added_subkey_loop (suc fuel) sub_key result mask =
    let rest = added_subkey_loop fuel sub_key (u64 (result <<< 2)) (u64 (mask <<< 2)) in
    if leb (u64 (mask <<< 2)) sub_key then rest else some (result, mask)

-- `QuadKey64Helper::AddedSubkey` with the fuel for its loop.
unfoldable pub added_subkey : ℕ → ℕ → ℕ → Option ℕ
unfolding added_subkey_loop
added_subkey fuel key sub_key = elim (added_subkey_loop fuel sub_key key 1) [
  | none ↦ none
  | some (result, mask) ↦ some (bit_or result (bit_and sub_key (u64 (mask + 2 ^ 64 - 1))))
]

unfoldable pub get_subkey_64 : TileKey → ℕ → ℕ
get_subkey_64 t delta = get_subkey (to_quad_key_64 t) delta

unfoldable pub added_subkey_64 : ℕ → TileKey → ℕ → Option TileKey
added_subkey_64 fuel t sub_quad_key = elim (added_subkey fuel (to_quad_key_64 t) sub_quad_key) [
  | none ↦ none
  | some key ↦ some (from_quad_key_64 key)
]

-- `child = ChangedLevelBy(sub.Level())`, moved by the row and the column of `sub`.
add_sub_tile : TileKey → TileKey → TileKey
unfolding from_row_column_level
add_sub_tile t sub =
    let child = changed_level_by t (signed32 sub.level) in
    from_row_column_level (u32 (child.row + sub.row)) (u32 (child.column + sub.column)) child.level

unfoldable pub added_subkey_text : TileKey → List ℕ → TileKey
unfolding add_sub_tile
added_subkey_text t [] = add_sub_tile t (from_quad_key (b'-' ∷ []))
added_subkey_text t (c ∷ cs) = add_sub_tile t (from_quad_key (c ∷ cs))

unfoldable pub added_sub_here_tile : TileKey → List ℕ → TileKey
unfolding add_sub_tile
added_sub_here_tile t sub = add_sub_tile t (from_here_tile sub)
