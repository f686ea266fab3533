-- ===== src/Geo/TileKey/Order.antt =====
-- The order of tile keys, by which they are keys of maps, and the moves to a neighbour.
use here_data_sdk_cpp.Common.{◌≡◌, ◌↔◌, ◌⊎◌, true, false, arith}
use here_data_sdk_cpp.Common.Pow.{two-pow_pos, two-pow-le}
use here_data_sdk_cpp.Geo.TileKey.{
  TileKey, less, has_next_row, has_next_column, next_row, next_column, has_previous_row,
  has_previous_column, previous_row, previous_column,
}
use here_data_sdk_cpp.Geo.TileKey.Shift.{IsValid}

-- `operator<` is a strict total order: of two keys exactly one comes first unless they are equal,
-- and it is transitive.
less_total_order :
    (a b c : TileKey)
    → (less a a ≡ false)
      × ((less a b ≡ true) ⊎ ((a ≡ b) ⊎ (less b a ≡ true)))
      × (less a b ≡ true → less b a ≡ false)
      × (less a b ≡ true → less b c ≡ true → less a c ≡ true)
unfolding less
less_total_order a b c = (ground arith, ground arith, λ h. ground arith, λ h k. ground arith)

-- On a valid tile `HasNextRow` tells whether `NextRow` is valid, and `PreviousRow` undoes it; the
-- same for columns.
next_row-IsValid_iff :
    (t : TileKey)
    → IsValid t
    → ((has_next_row t ≡ true) ↔ IsValid (next_row t))
      × (previous_row (next_row t) ≡ t)
      × ((has_next_column t ≡ true) ↔ IsValid (next_column t))
      × (previous_column (next_column t) ≡ t)
unfolding has_next_row next_row previous_row has_next_column next_column previous_column
next_row-IsValid_iff t v =
    let bound = two-pow-le {a = t.level} {b = 31} (omega arith) in
    let pos = two-pow_pos t.level in
    (
      (λ h. ground arith, λ h. ground arith),
      ground arith,
      (λ h. ground arith, λ h. ground arith),
      ground arith,
    )

-- `HasPreviousRow` and `HasPreviousColumn` tell whether the move back stays valid; a move off the
-- first row wraps around to a row that is not valid.
previous_row-IsValid_iff :
    (t : TileKey)
    → IsValid t
    → ((has_previous_row t ≡ true) ↔ IsValid (previous_row t))
      × ((has_previous_column t ≡ true) ↔ IsValid (previous_column t))
unfolding has_previous_row previous_row has_previous_column previous_column
previous_row-IsValid_iff t v =
    let bound = two-pow-le {a = t.level} {b = 31} (omega arith) in
    ((λ h. ground arith, λ h. ground arith), (λ h. ground arith, λ h. ground arith))
