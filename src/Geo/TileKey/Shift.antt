-- ===== src/Geo/TileKey/Shift.antt =====
-- Changing the level of a tile, as arithmetic on its row and column.
use here_data_sdk_cpp.Common.{ℕ, suc, ◌+◌, ◌-◌, ◌*◌, ◌/◌, ◌^◌, ◌<◌, ◌≡◌, ◌↔◌, true, arith}
use here_data_sdk_cpp.Common.Pow.{two-pow_pos, two-pow-le, shl-lt}
use here_data_sdk_cpp.Common.Int.{pos, negsuc}
use here_data_sdk_cpp.Geo.TileKey.{TileKey, is_valid, changed_level_by, changed_level_to}

-- What `IsValid` checks.
pub record IsValid (t : TileKey) : Type 0 where
  pub level_lt : t.level < 32
  pub row_lt : t.row < 2 ^ t.level
  pub column_lt : t.column < 2 ^ t.level

pub is_valid_iff : (t : TileKey) → (is_valid t ≡ true) ↔ IsValid t
unfolding is_valid
is_valid_iff t = (λ h. ground arith, λ h. ground arith)

-- Upwards: the low bits are dropped and the level is clamped at 0.
pub changed_level_by_up :
    (t : TileKey) (n : ℕ)
    → t.level < 32
    → n < 2 ^ 31
    → changed_level_by t (negsuc n)
      ≡ record { row = t.row / 2 ^ suc n; column = t.column / 2 ^ suc n; level = t.level - suc n }
unfolding changed_level_by
changed_level_by_up t n h k = ground arith

-- Downwards: the shift loses nothing as long as the level stays below 32.
pub changed_level_by_down :
    (t : TileKey) (d : ℕ)
    → IsValid t
    → t.level + suc d < 32
    → changed_level_by t (pos (suc d))
      ≡ record { row = t.row * 2 ^ suc d; column = t.column * 2 ^ suc d; level = t.level + suc d }
unfolding changed_level_by
changed_level_by_down t d v h = ground (
  arith,
  shl-lt t.row t.level (suc d) v.row_lt,
  shl-lt t.column t.level (suc d) v.column_lt,
  two-pow-le {a = t.level + suc d} {b = 31} (omega arith),
  two-pow_pos (suc d),
)

pub changed_level_to_up :
    (t : TileKey) (level : ℕ)
    → t.level < 32
    → level < t.level
    → changed_level_to t level ≡ record {
      row = t.row / 2 ^ (t.level - level);
      column = t.column / 2 ^ (t.level - level);
      level = level;
    }
unfolding changed_level_to
changed_level_to_up t level h k =
    ground (arith, changed_level_by_up t (t.level - level - 1) h (omega arith))
