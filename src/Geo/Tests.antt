-- ===== src/Geo/Tests.antt =====
-- Runs of the tiling code at concrete inputs, and the theorems applied to them.
use here_data_sdk_cpp.Common.{ℕ, ◌<◌, ◌≡◌, refl, arith, [], ◌∷◌, none, some}
use here_data_sdk_cpp.Common.Decimal.{to_string}
use here_data_sdk_cpp.Geo.TileKey.{TileKey, is_valid}
use here_data_sdk_cpp.Geo.TileKey.Shift.{IsValid}
use here_data_sdk_cpp.Geo.QuadKey.{
  morton, to_quad_key_64, from_quad_key_64, to_quad_key, to_here_tile,
}
use here_data_sdk_cpp.Geo.QuadKey.RoundTrip
use here_data_sdk_cpp.Geo.Levels.{
  get_min_tile_key_level, get_max_tile_key_level, get_nearest_available_tile_key_level,
}
use here_data_sdk_cpp.Geo.Levels.Nearest
use here_data_sdk_cpp.Geo.Levels.Nearest.{IsClosest}

-- A tile over Berlin.
abbrev berlin : TileKey
berlin = record { row = 6481; column = 8800; level = 14 }

abbrev inner : TileKey
inner = record { row = 2; column = 5; level = 3 }

berlin-IsValid : IsValid berlin
berlin-IsValid = record { level_lt = omega arith; row_lt = omega arith; column_lt = omega arith }

inner-IsValid : IsValid inner
inner-IsValid = record { level_lt = omega arith; row_lt = omega arith; column_lt = omega arith }

berlin_key : to_quad_key_64 berlin ≡ 377894402
unfolding to_quad_key_64 morton
berlin_key = refl

berlin_text :
    to_here_tile berlin ≡ b'3' ∷ b'7' ∷ b'7' ∷ b'8' ∷ b'9' ∷ b'4' ∷ b'4' ∷ b'0' ∷ b'2' ∷ []
unfolding to_here_tile to_quad_key_64 morton to_string
berlin_text = refl

inner_text : to_quad_key inner ≡ b'1' ∷ b'2' ∷ b'1' ∷ []
unfolding to_quad_key to_quad_key_64 morton is_valid
inner_text = refl

levels_run : get_nearest_available_tile_key_level 0b1000010010 7 ≡ some 9
unfolding get_nearest_available_tile_key_level get_min_tile_key_level get_max_tile_key_level
levels_run = refl

abbrev region : TileKey
region = record { row = 12; column = 17; level = 5 }

from_quad_key_64-to_quad_key_64_example : from_quad_key_64 (to_quad_key_64 berlin) ≡ berlin
from_quad_key_64-to_quad_key_64_example =
    RoundTrip.from_quad_key_64-to_quad_key_64 berlin berlin-IsValid

get_nearest_available-IsClosest_example :
    (0 < 530 → (r : ℕ) × (get_nearest_available_tile_key_level 530 7 ≡ some r) × IsClosest 530 7 r)
    × (get_nearest_available_tile_key_level 0 7 ≡ none)
get_nearest_available-IsClosest_example =
    Nearest.get_nearest_available-IsClosest 530 7 (omega arith)
