-- ===== src/Geo/QuadKey/SubTile.antt =====
-- The three ways to name a tile below another by a subkey: as a number, as digits, as a HERE tile.
use native.Mathlib.Nat.{add_comm, mul-one, mul-add-div_right, div-eq_of_lt}
use here_data_sdk_cpp.Common.{
  ℕ, zero, suc, ◌+◌, ◌*◌, ◌/◌, ◌^◌, ◌<◌, ◌≡◌, refl, ap, ◌∙◌, arith, List, [], ◌∷◌, some,
}
use here_data_sdk_cpp.Common.Pow.{two-pow_pos, two-pow-suc, two-pow-le, shl-lt}
use here_data_sdk_cpp.Common.Int.{signed32}
use here_data_sdk_cpp.Geo.TileKey.{TileKey, changed_level_by}
use here_data_sdk_cpp.Geo.TileKey.Shift.{IsValid, changed_level_by_down}
use here_data_sdk_cpp.Geo.QuadKey.Morton.{spread, interleave}
use here_data_sdk_cpp.Geo.QuadKey.RoundTrip.{quad_key, from_quad_key_64-to_quad_key_64}
use here_data_sdk_cpp.Geo.QuadKey.Text.{from_quad_key-to_quad_key, from_here_tile-to_here_tile}
use here_data_sdk_cpp.Geo.QuadKey.Subkey.{
  quad_key-add, quad_key-lt, added_subkey_lem, tile_quad_key,
}
use here_data_sdk_cpp.Geo.QuadKey.{
  to_quad_key_64, from_quad_key, to_quad_key, to_here_tile, added_subkey_64, add_sub_tile,
  added_subkey_text, added_sub_here_tile,
}

-- The tile that stands at `s` within `t`.
pub sub_tile : TileKey → TileKey → TileKey
sub_tile t s = record {
  row = t.row * 2 ^ s.level + s.row;
  column = t.column * 2 ^ s.level + s.column;
  level = t.level + s.level;
}

pub sub_tile-IsValid :
    (t s : TileKey) → IsValid t → IsValid s → t.level + s.level < 32 → IsValid (sub_tile t s)
unfolding sub_tile
sub_tile-IsValid t s vt vs h = record {
  level_lt = h;
  row_lt = omega (arith, shl-lt t.row t.level s.level vt.row_lt, vs.row_lt);
  column_lt = omega (arith, shl-lt t.column t.level s.level vt.column_lt, vs.column_lt);
}

-- Only the lowest `n` digits are spread.
spread_low : (n q x : ℕ) → spread n (q * 2 ^ n + x) ≡ spread n x
unfolding spread
spread_low zero q x = refl
spread_low (suc n) q x =
    ground (arith, ap (λ (t : ℕ). q * t) (two-pow-suc n), spread_low n q (x / 2))

interleave_low : (n q q' r c : ℕ) → interleave n (q * 2 ^ n + r) (q' * 2 ^ n + c) ≡ interleave n r c
unfolding interleave
interleave_low n q q' r c = omega (arith, spread_low n q r, spread_low n q' c)

high_part : (q x n : ℕ) → x < 2 ^ n → (q * 2 ^ n + x) / 2 ^ n ≡ q
high_part q x n h = mul-add-div_right (two-pow_pos n) q x ∙ omega (arith, div-eq_of_lt h)

-- The quadkey of the tile below is the key shifted, with the digits of the subkey.
sub_tile_quad_key :
    (t s : TileKey)
    → IsValid t
    → IsValid s
    → t.level + s.level < 32
    → to_quad_key_64 t * 2 ^ (2 * s.level) + interleave s.level s.row s.column
      ≡ to_quad_key_64 (sub_tile t s)
unfolding sub_tile
sub_tile_quad_key t s vt vs h = ground (
  arith,
  tile_quad_key t vt,
  tile_quad_key (sub_tile t s) (sub_tile-IsValid t s vt vs h),
  ap (λ (n : ℕ). quad_key n (sub_tile t s).row (sub_tile t s).column) (add_comm t.level s.level),
  quad_key-add s.level t.level (sub_tile t s).row (sub_tile t s).column,
  high_part t.row s.row s.level vs.row_lt,
  high_part t.column s.column s.level vs.column_lt,
  interleave_low s.level t.row t.column s.row s.column,
)

descend :
    (t : TileKey) (d : ℕ)
    → IsValid t
    → t.level + d < 32
    → changed_level_by t (signed32 d)
      ≡ record { row = t.row * 2 ^ d; column = t.column * 2 ^ d; level = t.level + d }
unfolding changed_level_by
descend t zero v h = ground (arith, mul-one t.row, mul-one t.column)
descend t (suc d) v h = ground (arith, changed_level_by_down t d v h)

add_sub_tile_lem :
    (t s : TileKey)
    → IsValid t
    → IsValid s
    → t.level + s.level < 32
    → add_sub_tile t s ≡ sub_tile t s
unfolding add_sub_tile sub_tile
add_sub_tile_lem t s vt vs h = ground (
  arith,
  descend t s.level vt h,
  shl-lt t.row t.level s.level vt.row_lt,
  shl-lt t.column t.level s.level vt.column_lt,
  two-pow-le {a = t.level + s.level} {b = 31} (omega arith),
  vs.row_lt,
  vs.column_lt,
)

-- A text that names a valid tile is not empty.
added_subkey_text_lem :
    (t s : TileKey) (key : List ℕ)
    → IsValid s
    → from_quad_key key ≡ s
    → added_subkey_text t key ≡ add_sub_tile t s
unfolding added_subkey_text from_quad_key
added_subkey_text_lem t s [] v e =
    absurd (omega (arith, v.level_lt, ap (λ (x : TileKey). x.level) e))
added_subkey_text_lem t s (c ∷ cs) v e = ap (add_sub_tile t) e

-- For valid tiles `t` and `s` whose levels add up to less than 32, with the level of `s` below 31,
-- `AddedSubkey64`, `AddedSubkey` and `AddedSubHereTile`, each with its own name of `s`, lead from
-- `t` to the same valid tile, the one that stands at `s` within `t`.
pub added_subkey_agree :
    (fuel : ℕ) (t s : TileKey)
    → IsValid t
    → IsValid s
    → t.level + s.level < 32
    → s.level < 31
    → s.level < fuel
    → IsValid (sub_tile t s)
      × (added_subkey_64 fuel t (to_quad_key_64 s) ≡ some (sub_tile t s))
      × (added_subkey_text t (to_quad_key s) ≡ sub_tile t s)
      × (added_sub_here_tile t (to_here_tile s) ≡ sub_tile t s)
unfolding added_subkey_64 added_sub_here_tile
added_subkey_agree fuel t s vt vs h h31 hf =
    let v = sub_tile-IsValid t s vt vs h in
    let e = add_sub_tile_lem t s vt vs h in
    (
      v,
      ground (
        arith,
        tile_quad_key s vs,
        added_subkey_lem fuel s.level t.level (to_quad_key_64 t) s.row s.column hf h31
            (omega arith),
        tile_quad_key t vt,
        quad_key-lt t.level t.row t.column,
        sub_tile_quad_key t s vt vs h,
        from_quad_key_64-to_quad_key_64 (sub_tile t s) v,
      ),
      added_subkey_text_lem t s (to_quad_key s) vs (from_quad_key-to_quad_key s vs) ∙ e,
      ap (add_sub_tile t) (from_here_tile-to_here_tile s vs) ∙ e,
    )
