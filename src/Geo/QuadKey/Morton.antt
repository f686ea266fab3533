-- ===== src/Geo/QuadKey/Morton.antt =====
-- The interleaved bits of two numbers, and the proof that the table and the shifts of `ToQuadKey64`
-- compute them.
use Prim.Native.Nat.{bit_or}
use mathlib.Core.Path.{ap₂}
use native.Mathlib.Nat.{suc-add, div-eq_of_lt, div-one}
use here_data_sdk_cpp.Common.{
  ℕ, zero, suc, ◌+◌, ◌-◌, ◌*◌, ◌/◌, ◌%◌, ◌^◌, ◌≤◌, ◌<◌, ◌≡◌, refl, ap, ◌∙◌, ◌==◌, arith, ==_iff,
  get_or, true,
}
use here_data_sdk_cpp.Common.Bits.{
  u64, ◌<<<◌, bit_or_step, bit_or_assoc, bit_or_fields, bit_and_mask, all_below, all_below_at,
}
use here_data_sdk_cpp.Common.Pow.{two-pow-le, four-pow-suc, shr-shr}
use here_data_sdk_cpp.Geo.TileKey.{TileKey}
use here_data_sdk_cpp.Geo.TileKey.Shift.{IsValid}
use here_data_sdk_cpp.Geo.QuadKey.Table.{morton_table_256}
use here_data_sdk_cpp.Geo.QuadKey.{morton, to_quad_key_64}

-- The lowest `w` bits of `x` with a 0 above each.
unfoldable pub spread : ℕ → ℕ → ℕ
spread zero x = 0
spread (suc w) x = x % 2 + 4 * spread w (x / 2)

-- The bits of a row and a column in turn.
unfoldable pub interleave : ℕ → ℕ → ℕ → ℕ
interleave w row column = spread w column + 2 * spread w row

pub spread-lt : (w x : ℕ) → 3 * spread w x < 2 ^ (2 * w)
unfolding spread
spread-lt zero x = omega arith
spread-lt (suc w) x = omega (arith, four-pow-suc w, spread-lt w (x / 2))

-- A higher part is spread on its own.
pub spread-add : (w v x : ℕ) → spread (w + v) x ≡ spread w x + 2 ^ (2 * w) * spread v (x / 2 ^ w)
unfolding spread
spread-add zero v x = ground arith
spread-add (suc w) v x =
    ap (λ (n : ℕ). spread n x) (suc-add w v)
    ∙ omega (
      arith,
      spread-add w v (x / 2),
      ap (λ (t : ℕ). t * spread v (x / 2 ^ suc w)) (four-pow-suc w),
      ap (λ (t : ℕ). 2 ^ (2 * w) * spread v t)
          (shr-shr x 1 w ∙ ap (λ (t : ℕ). x / 2 ^ t) (one_more w)),
    )
  where
    one_more : (n : ℕ) → 1 + n ≡ suc n
    one_more n = omega arith

spread_zero : (v : ℕ) → spread v 0 ≡ 0
unfolding spread
spread_zero zero = refl
spread_zero (suc v) = omega (arith, spread_zero v)

-- Digits above those of `x` add nothing.
pub spread_wide : (w v x : ℕ) → x < 2 ^ w → spread (w + v) x ≡ spread w x
spread_wide w v x h = ground (arith, spread-add w v x, spread_zero v, div-eq_of_lt h)

table_is_spread : all_below 256 (λ x. get_or morton_table_256 x 0 == spread 8 x) ≡ true
unfolding all_below spread morton_table_256
table_is_spread = refl

morton-spread : (x shift : ℕ) → morton x shift ≡ spread 8 (x / 2 ^ shift % 256)
unfolding morton
morton-spread x shift =
    ap (λ (i : ℕ). get_or morton_table_256 i 0) (bit_and_mask 8 (x / 2 ^ shift))
    ∙ (==_iff _ _).0 (all_below_at 256 _ (x / 2 ^ shift % 256) (omega arith) table_is_spread)

-- Bits at even places and bits at odd places do not meet.
or-spread : (w c r : ℕ) → bit_or (2 * spread w r) (spread w c) ≡ spread w c + 2 * spread w r
unfolding spread
or-spread zero c r = refl
or-spread (suc w) c r = ground (
  arith,
  bit_or_step (2 * (r % 2 + 4 * spread w (r / 2))) (c % 2 + 4 * spread w (c / 2)),
  bit_or_step (r % 2 + 4 * spread w (r / 2)) (2 * spread w (c / 2)),
  or-spread w (c / 2) (r / 2),
)

-- The table is read at the lowest byte.
spread_byte : (x : ℕ) → spread 8 (x % 256) ≡ spread 8 x
unfolding spread
spread_byte x = omega arith

spread_bytes :
    (x : ℕ)
    → x < 2 ^ 32
    → spread 32 x
      ≡ spread 8 (x % 256)
        + 2 ^ 16
          * (spread 8 (x / 2 ^ 8 % 256)
              + 2 ^ 16 * (spread 8 (x / 2 ^ 16 % 256) + 2 ^ 16 * spread 8 (x / 2 ^ 24 % 256)))
spread_bytes x h = omega (
  arith,
  spread-add 8 24 x,
  spread-add 8 16 (x / 2 ^ 8),
  spread-add 8 8 (x / 2 ^ 16),
  spread_byte x,
  spread_byte (x / 2 ^ 8),
  spread_byte (x / 2 ^ 16),
  spread_byte (x / 2 ^ 24),
  ap (λ (t : ℕ). spread 16 t) (shr-shr x 8 8),
  ap (λ (t : ℕ). spread 8 t) (shr-shr x 16 8),
)

-- Four fields of 16 bits, `s` places up.
or_fields :
    (a b c d : ℕ)
    → a < 2 ^ 15
    → b < 2 ^ 15
    → c < 2 ^ 15
    → d < 2 ^ 15
    → (bit_or (a * 2 ^ 48) (bit_or (b * 2 ^ 32) (bit_or (c * 2 ^ 16) d))
        ≡ d + 2 ^ 16 * (c + 2 ^ 16 * (b + 2 ^ 16 * a)))
      × (bit_or (a * 2 ^ 49) (bit_or (b * 2 ^ 33) (bit_or (c * 2 ^ 17) (d * 2)))
          ≡ 2 * (d + 2 ^ 16 * (c + 2 ^ 16 * (b + 2 ^ 16 * a))))
or_fields a b c d ha hb hc hd = (
  ground (
    arith,
    bit_or_fields 16 c d (omega arith),
    bit_or_fields 32 b (c * 2 ^ 16 + d) (omega arith),
    bit_or_fields 48 a (b * 2 ^ 32 + (c * 2 ^ 16 + d)) (omega arith),
  ),
  ground (
    arith,
    bit_or_fields 17 c (d * 2) (omega arith),
    bit_or_fields 33 b (c * 2 ^ 17 + d * 2) (omega arith),
    bit_or_fields 49 a (b * 2 ^ 33 + (c * 2 ^ 17 + d * 2)) (omega arith),
  ),
)

or_regroup :
    (l a b c d e f g h : ℕ)
    → bit_or (bit_or (bit_or (bit_or (bit_or (bit_or (bit_or (bit_or l a) b) c) d) e) f) g) h
      ≡ bit_or l (bit_or (bit_or a (bit_or b (bit_or c d))) (bit_or e (bit_or f (bit_or g h))))
or_regroup l a b c d e f g h = simp bit_or_assoc

pub interleave-lt : (w r c : ℕ) → interleave w r c < 2 ^ (2 * w)
unfolding interleave
interleave-lt w r c = omega (arith, spread-lt w r, spread-lt w c)

interleave_wide : (w v r c : ℕ) → r < 2 ^ w → c < 2 ^ w → interleave (w + v) r c ≡ interleave w r c
unfolding interleave
interleave_wide w v r c hr hc = omega (arith, spread_wide w v r hr, spread_wide w v c hc)

spread_8-lt : (x : ℕ) → spread 8 x < 2 ^ 15
spread_8-lt x = omega (arith, spread-lt 8 x)

morton-lt : (x shift : ℕ) → morton x shift < 2 ^ 15
morton-lt x shift = omega (arith, morton-spread x shift, spread_8-lt (x / 2 ^ shift % 256))

morton_bytes :
    (x : ℕ)
    → x < 2 ^ 32
    → morton x 0 + 2 ^ 16 * (morton x 8 + 2 ^ 16 * (morton x 16 + 2 ^ 16 * morton x 24))
      ≡ spread 32 x
morton_bytes x h = omega (
  arith,
  spread_bytes x h,
  morton-spread x 0,
  morton-spread x 8,
  morton-spread x 16,
  morton-spread x 24,
  ap (λ (t : ℕ). spread 8 (t % 256)) (div-one x),
)

row_bytes :
    (r : ℕ)
    → r < 2 ^ 32
    → bit_or (u64 (morton r 24 <<< 49)) (
        bit_or
          (u64 (morton r 16 <<< 33))
          (bit_or (u64 (morton r 8 <<< 17)) (u64 (morton r 0 <<< 1))))
      ≡ 2 * spread 32 r
row_bytes r h = ground (
  arith,
  morton-lt r 24,
  morton-lt r 16,
  morton-lt r 8,
  morton-lt r 0,
  or_fields (morton r 24) (morton r 16) (morton r 8) (morton r 0),
  morton_bytes r h,
)

column_bytes :
    (c : ℕ)
    → c < 2 ^ 32
    → bit_or
        (u64 (morton c 24 <<< 48))
        (bit_or (u64 (morton c 16 <<< 32)) (bit_or (u64 (morton c 8 <<< 16)) (morton c 0)))
      ≡ spread 32 c
column_bytes c h = ground (
  arith,
  morton-lt c 24,
  morton-lt c 16,
  morton-lt c 8,
  morton-lt c 0,
  or_fields (morton c 24) (morton c 16) (morton c 8) (morton c 0),
  morton_bytes c h,
)

-- What `ToQuadKey64` computes on a valid tile: a 1 above the interleaved bits.
pub to_quad_key_64_sum :
    (t : TileKey)
    → IsValid t
    → to_quad_key_64 t ≡ 2 ^ (2 * t.level) + interleave t.level t.row t.column
unfolding to_quad_key_64
to_quad_key_64_sum t v =
    or_regroup (u64 (1 <<< (2 * t.level))) (u64 (morton t.row 24 <<< 49))
      (u64 (morton t.row 16 <<< 33)) (u64 (morton t.row 8 <<< 17)) (u64 (morton t.row 0 <<< 1))
      (u64 (morton t.column 24 <<< 48)) (u64 (morton t.column 16 <<< 32))
      (u64 (morton t.column 8 <<< 16)) (morton t.column 0)
    ∙ ap₂ (λ (x y : ℕ). bit_or (u64 (1 <<< (2 * t.level))) (bit_or x y)) (row_bytes t.row r_lt)
        (column_bytes t.column c_lt)
    ∙ ap (λ (x : ℕ). bit_or (u64 (1 <<< (2 * t.level))) x) (or-spread 32 t.column t.row)
    ∙ leading
  where
    bound : 2 ^ t.level ≤ 2 ^ 31
    bound = two-pow-le {b = 31} (omega arith)

    r_lt : t.row < 2 ^ 32
    r_lt = omega (arith, bound)

    c_lt : t.column < 2 ^ 32
    c_lt = omega (arith, bound)

    leading :
        bit_or (u64 (1 <<< (2 * t.level))) (spread 32 t.column + 2 * spread 32 t.row)
        ≡ 2 ^ (2 * t.level) + interleave t.level t.row t.column
    leading =
        unfold interleave in
        ground (
          arith,
          two-pow-le {a = 2 * t.level} {b = 62} (omega arith),
          bit_or_fields (2 * t.level) 1 (interleave t.level t.row t.column)
              (interleave-lt t.level t.row t.column),
          interleave_wide t.level (32 - t.level) t.row t.column v.row_lt v.column_lt,
        )
