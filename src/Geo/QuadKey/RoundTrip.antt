-- ===== src/Geo/QuadKey/RoundTrip.antt =====
-- `ToQuadKey64` and `FromQuadKey64` are inverse to each other.
use Prim.Native.Nat.{bit_and, bit_or}
use native.Mathlib.Nat.{mul-zero, mul-one}
use here_data_sdk_cpp.Common.{
  ℕ, zero, suc, ◌+◌, ◌-◌, ◌*◌, ◌/◌, ◌%◌, ◌^◌, ◌≤◌, ◌<◌, ◌≡◌, refl, sym, ap, ◌∙◌, ◌⊎◌, ◌==◌,
  if◌then◌else◌, arith,
}
use here_data_sdk_cpp.Common.Bits.{u32, ◌<<<◌, bit_and-one, bit_and_two, bit_or_set}
use here_data_sdk_cpp.Common.Pow.{
  two-pow_pos, two-pow-suc, two-pow-add_one, two-pow-le, four-pow-suc,
}
use here_data_sdk_cpp.Geo.TileKey.{TileKey, parent}
use here_data_sdk_cpp.Geo.TileKey.Shift.{IsValid}
use here_data_sdk_cpp.Geo.TileKey.Family.{parent-IsValid}
use here_data_sdk_cpp.Geo.QuadKey.Morton.{spread, interleave, to_quad_key_64_sum}
use here_data_sdk_cpp.Geo.QuadKey.{
  to_quad_key_64, from_quad_key_64, from_quad_key_64_loop, helper_parent,
}

-- A quadkey of level `n`: a 1 above the interleaved bits.
unfoldable pub quad_key : ℕ → ℕ → ℕ → ℕ
quad_key n row column = 2 ^ (2 * n) + interleave n row column

pub quad_key-suc :
    (n row column : ℕ)
    → quad_key (suc n) row column
      ≡ column % 2 + 2 * (row % 2) + 4 * quad_key n (row / 2) (column / 2)
unfolding quad_key interleave spread
quad_key-suc n row column = omega (arith, four-pow-suc n)

quad_key_pos : (n row column : ℕ) → 0 < quad_key n row column
unfolding quad_key
quad_key_pos n row column = omega (arith, two-pow_pos (2 * n))

-- The bit that the round at level `l` sets, by a test `v` of the digit `b`.
pub set_bit :
    (l r b v : ℕ)
    → l < 32
    → r < 2 ^ l
    → b < 2
    → (v ≡ b) ⊎ (v ≡ b * 2)
    → (if v == 0 then r else bit_or r (u32 (1 <<< l))) ≡ r + 2 ^ l * b
set_bit l r zero v hl hr hb e = ground (arith, mul-zero (2 ^ l))
set_bit l r (suc b) v hl hr hb e =
    let one : b ≡ 0 = omega arith in
    ground (arith, bit_or_set l r hr, two-pow-le {a = l} {b = 31} (omega arith), mul-one (2 ^ l))

-- The digits of a row, put at their places.
pub digits_lem : (l r x : ℕ) → r + 2 ^ l * (x % 2) + 2 ^ (l + 1) * (x / 2) ≡ r + 2 ^ l * x
digits_lem l r x =
    omega
      (arith, ap (λ (t : ℕ). t * (x / 2)) (two-pow-add_one l), ap (λ (t : ℕ). 2 ^ l * t) (halves x))
  where
    halves : (n : ℕ) → n ≡ 2 * (n / 2) + n % 2
    halves n = omega arith

pub round_in_range : (l r x : ℕ) → r < 2 ^ l → r + 2 ^ l * (x % 2) < 2 ^ (l + 1)
round_in_range l r x h = grind (arith, two-pow-add_one l)

-- One round.
loop-suc :
    (n fuel l row column r c : ℕ)
    → l < 32
    → l + 1 < 2 ^ 32
    → r < 2 ^ l
    → c < 2 ^ l
    → from_quad_key_64_loop
        (suc fuel)
        (quad_key (suc n) row column)
        (record { row = r; column = c; level = l })
      ≡ from_quad_key_64_loop fuel
          (quad_key n (row / 2) (column / 2))
          (record { row = r + 2 ^ l * (row % 2); column = c + 2 ^ l * (column % 2); level = l + 1 })
unfolding from_quad_key_64_loop
loop-suc n fuel l row column r c hl hw hr hc = ground (
  arith,
  quad_key-suc n row column,
  quad_key_pos n (row / 2) (column / 2),
  bit_and-one (quad_key (suc n) row column),
  bit_and_two (quad_key (suc n) row column),
  set_bit l r (row % 2) (bit_and (quad_key (suc n) row column) 2),
  set_bit l c (column % 2) (bit_and (quad_key (suc n) row column) 1),
)

pub at_end :
    (l row column r c : ℕ)
    → row < 1
    → column < 1
    → ◌≡◌ {A = TileKey}
        (record { row = r; column = c; level = l })
        (record { row = r + 2 ^ l * row; column = c + 2 ^ l * column; level = l + 0 })
at_end l zero zero r c h k = ground (arith, mul-zero (2 ^ l))
at_end l (suc row) column r c h k = absurd (omega arith)
at_end l row (suc column) r c h k = absurd (omega arith)

-- The loop reads the digits from the lowest, and stops at the leading 1.
loop_lem :
    (n fuel l row column r c : ℕ)
    → n ≤ fuel
    → l + n < 33
    → r < 2 ^ l
    → c < 2 ^ l
    → row < 2 ^ n
    → column < 2 ^ n
    → from_quad_key_64_loop fuel (quad_key n row column) (record { row = r; column = c; level = l })
      ≡ record { row = r + 2 ^ l * row; column = c + 2 ^ l * column; level = l + n }
unfolding from_quad_key_64_loop quad_key interleave spread
loop_lem zero zero l row column r c h b hr hc hrow hcol = at_end l row column r c hrow hcol
loop_lem zero (suc fuel) l row column r c h b hr hc hrow hcol = at_end l row column r c hrow hcol
loop_lem (suc n) zero l row column r c h b hr hc hrow hcol = absurd (omega arith)
loop_lem (suc n) (suc fuel) l row column r c h b hr hc hrow hcol =
    loop-suc n fuel l row column r c (omega arith) (omega arith) hr hc
    ∙ loop_lem n fuel (l + 1) (row / 2) (column / 2) (r + 2 ^ l * (row % 2))
        (c + 2 ^ l * (column % 2)) (omega arith) (omega arith) (round_in_range l r row hr)
        (round_in_range l c column hc) (omega (arith, two-pow-suc n)) (omega (arith, two-pow-suc n))
    ∙ ground (arith, digits_lem l r row, digits_lem l c column)

-- `FromQuadKey64` gives back every valid tile from the quadkey that `ToQuadKey64` makes of it.
pub from_quad_key_64-to_quad_key_64 :
    (t : TileKey) → IsValid t → from_quad_key_64 (to_quad_key_64 t) ≡ t
unfolding from_quad_key_64 quad_key
from_quad_key_64-to_quad_key_64 t v =
    ap (λ q. from_quad_key_64_loop 32 q (record { row = 0; column = 0; level = 0 }))
      (to_quad_key_64_sum t v)
    ∙ loop_lem t.level 32 0 t.row t.column 0 0 (omega arith) (omega arith) (omega arith)
        (omega arith) v.row_lt v.column_lt
    ∙ ground arith

-- Every number whose highest bit stands at an even place is a quadkey.
quad_key_of :
    (l q : ℕ)
    → 2 ^ (2 * l) ≤ q
    → q < 2 * 2 ^ (2 * l)
    → (row : ℕ) × (column : ℕ) × (row < 2 ^ l) × (column < 2 ^ l) × (quad_key l row column ≡ q)
unfolding quad_key interleave spread
quad_key_of zero q lo hi = (0, 0, omega arith, omega arith, omega arith)
quad_key_of (suc l) q lo hi =
    let (row, column, hrow, hcolumn, e) =
      quad_key_of l (q / 4) (omega (arith, four-pow-suc l)) (omega (arith, four-pow-suc l)) in
    (
      2 * row + q / 2 % 2,
      2 * column + q % 2,
      omega (arith, two-pow-suc l),
      omega (arith, two-pow-suc l),
      ground (arith, quad_key-suc l (2 * row + q / 2 % 2) (2 * column + q % 2)),
    )

-- A number of 64 bits whose highest set bit is bit 2 * level, for a level below 32, is the quadkey
-- of a valid tile of that level: `FromQuadKey64` finds the tile, and `ToQuadKey64` gives the number
-- back.
pub to_quad_key_64-from_quad_key_64 :
    (level q : ℕ)
    → level < 32
    → 2 ^ (2 * level) ≤ q
    → q < 2 * 2 ^ (2 * level)
    → IsValid (from_quad_key_64 q)
      × ((from_quad_key_64 q).level ≡ level)
      × (to_quad_key_64 (from_quad_key_64 q) ≡ q)
to_quad_key_64-from_quad_key_64 level q h lo hi =
    let (row, column, hrow, hcolumn, e) = quad_key_of level q lo hi in
    let t : TileKey = record { row = row; column = column; level = level } in
    let v : IsValid t = record { level_lt = h; row_lt = hrow; column_lt = hcolumn } in
    let there : to_quad_key_64 t ≡ q = to_quad_key_64_sum t v ∙ unfold quad_key in e in
    let back : from_quad_key_64 q ≡ t =
      ap from_quad_key_64 (sym there) ∙ from_quad_key_64-to_quad_key_64 t v in
    rw back (v, refl, there)

-- `QuadKey64Helper::Parent` of a valid tile's quadkey is the quadkey of the tile's parent.
helper_parent-to_quad_key_64 :
    (t : TileKey)
    → IsValid t
    → 0 < t.level
    → helper_parent (to_quad_key_64 t) ≡ to_quad_key_64 (parent t)
unfolding helper_parent parent quad_key
helper_parent-to_quad_key_64 t v h = ground (
  arith,
  to_quad_key_64_sum t v,
  to_quad_key_64_sum (parent t) (parent-IsValid t v h),
  quad_key-suc (t.level - 1) t.row t.column,
)
