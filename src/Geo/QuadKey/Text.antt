-- ===== src/Geo/QuadKey/Text.antt =====
-- The textual quadkeys and HERE tiles.
use Prim.Native.Nat.{bit_and}
use here_data_sdk_cpp.Common.{
  ℕ, zero, suc, ◌+◌, ◌-◌, ◌*◌, ◌/◌, ◌%◌, ◌^◌, ◌≤◌, ◌<◌, ◌≡◌, refl, sym, ap, ◌∙◌, ◌≢◌, arith, false,
  List, [], ◌∷◌, length, get_or, set, replicate, length-set, length-replicate,
}
use native.Mathlib.Decide.{dec_lt}
use here_data_sdk_cpp.Common.Bits.{u32, u64, ◌<<<◌, bit_and-one, bit_and_two}
use here_data_sdk_cpp.Common.Pow.{two-pow-suc, two-pow-le, shr-shr}
use here_data_sdk_cpp.Common.Decimal.{strtoull, to_string_nonempty, strtoull-to_string}
use here_data_sdk_cpp.Geo.TileKey.{TileKey}
use here_data_sdk_cpp.Geo.TileKey.Shift.{IsValid, is_valid_iff}
use here_data_sdk_cpp.Geo.QuadKey.Morton.{interleave-lt, to_quad_key_64_sum}
use here_data_sdk_cpp.Geo.QuadKey.RoundTrip.{
  quad_key, quad_key-suc, set_bit, digits_lem, round_in_range, at_end,
  from_quad_key_64-to_quad_key_64,
}
use here_data_sdk_cpp.Geo.QuadKey.{
  to_quad_key_64, from_quad_key_64, to_quad_key, to_quad_key_loop, from_quad_key,
  from_quad_key_loop, quad_digit, is_root_key, to_here_tile, from_here_tile,
}

module _ {ℓ} {A : Type ℓ} (d : A) where
  get_or-set_self : (xs : List A) (i : ℕ) (v : A) → i < length xs → get_or (set xs i v) i d ≡ v
  get_or-set_self [] i v h = absurd (omega arith)
  get_or-set_self (x ∷ xs) zero v h = refl
  get_or-set_self (x ∷ xs) (suc i) v h = get_or-set_self xs i v (omega arith)

  get_or-set_ne : (xs : List A) (i j : ℕ) (v : A) → i ≢ j → get_or (set xs i v) j d ≡ get_or xs j d
  get_or-set_ne [] i j v h = refl
  get_or-set_ne (x ∷ xs) zero zero v h = absurd (h refl)
  get_or-set_ne (x ∷ xs) zero (suc j) v h = refl
  get_or-set_ne (x ∷ xs) (suc i) zero v h = refl
  get_or-set_ne (x ∷ xs) (suc i) (suc j) v h = get_or-set_ne xs i j v (λ e. h (ap suc e))

-- The digit that stands for the bits `i` of the row and of the column.
abbrev digit : ℕ → ℕ → ℕ
digit q i = q / 2 ^ (i * 2) % 4 + 48

length-to_loop :
    (left index level q : ℕ) (key : List ℕ)
    → length (to_quad_key_loop left index level q key) ≡ length key
unfolding to_quad_key_loop
length-to_loop zero index level q key = refl
length-to_loop (suc left) index level q key =
    length-to_loop left (index + 1) level q (set key (level - index - 1) _)
    ∙ length-set key (level - index - 1) _

-- The loop leaves what earlier rounds wrote.
to_loop_keeps :
    (left index level q : ℕ) (key : List ℕ) (j : ℕ)
    → index + left ≡ level
    → j < index
    → get_or (to_quad_key_loop left index level q key) (level - j - 1) 0
      ≡ get_or key (level - j - 1) 0
unfolding to_quad_key_loop
to_loop_keeps zero index level q key j e h = refl
to_loop_keeps (suc left) index level q key j e h =
    to_loop_keeps left (index + 1) level q (set key (level - index - 1) _) j (omega arith)
      (omega arith)
    ∙ get_or-set_ne 0 key (level - index - 1) (level - j - 1) _ (omega arith)

-- The round at `index` writes the digit for bits `index`.
to_loop_digit :
    (left index level q : ℕ) (key : List ℕ) (j : ℕ)
    → index + left ≡ level
    → level < 32
    → length key ≡ level
    → index ≤ j
    → j < level
    → get_or (to_quad_key_loop left index level q key) (level - j - 1) 0 ≡ digit q j
unfolding to_quad_key_loop
to_loop_digit zero index level q key j e h l lo hi = absurd (omega arith)
to_loop_digit (suc left) index level q key j e h l lo hi = elim (dec_lt index j) [
  | yes later ↦
      to_loop_digit left (index + 1) level q (set key (level - index - 1) _) j (omega arith) h
        (length-set key (level - index - 1) _ ∙ l) (omega arith) hi
  | no now ↦
      let e' : index ≡ j = omega arith in
      to_loop_keeps left (index + 1) level q (set key (level - index - 1) _) j (omega arith)
        (omega arith)
      ∙ ap
          (λ (i : ℕ).
            get_or (set key (level - index - 1) (q / u64 (1 <<< (index * 2)) % 4 + 48))
              (level - i - 1) 0)
          (sym e')
      ∙ get_or-set_self 0 key (level - index - 1) _ (omega arith)
      ∙ ground (arith, two-pow-le {a = index * 2} {b = 62} (omega arith))
]

quad_digit_lem :
    (left index level row column : ℕ) (key : List ℕ)
    → get_or key (level - (index + 0) - 1) 0 ≡ digit (quad_key (suc left) row column) 0
    → quad_digit key level index ≡ column % 2 + 2 * (row % 2)
unfolding quad_digit
quad_digit_lem left index level row column key h = ground (arith, quad_key-suc left row column)

digit-suc :
    (left row column j : ℕ)
    → digit (quad_key (suc left) row column) (suc j)
      ≡ digit (quad_key left (row / 2) (column / 2)) j
digit-suc left row column j =
    ap (λ (n : ℕ). quad_key (suc left) row column / 2 ^ n % 4 + 48) (places j)
    ∙ ap (λ (n : ℕ). n % 4 + 48) (sym (shr-shr (quad_key (suc left) row column) 2 (j * 2)))
    ∙ ap (λ (n : ℕ). n / 2 ^ (j * 2) % 4 + 48) (omega (arith, quad_key-suc left row column))
  where
    places : (n : ℕ) → suc n * 2 ≡ 2 + n * 2
    places n = omega arith

-- One digit sets one bit of the row and one of the column.
from_loop-suc :
    (left index level row column r c : ℕ) (key : List ℕ)
    → index < 32
    → r < 2 ^ index
    → c < 2 ^ index
    → get_or key (level - (index + 0) - 1) 0 ≡ digit (quad_key (suc left) row column) 0
    → from_quad_key_loop (suc left) index key (record { row = r; column = c; level = level })
      ≡ from_quad_key_loop left (index + 1) key (record {
        row = r + 2 ^ index * (row % 2);
        column = c + 2 ^ index * (column % 2);
        level = level;
      })
unfolding from_quad_key_loop
from_loop-suc left index level row column r c key b hr hc h = ground (
  arith,
  quad_digit_lem left index level row column key h,
  bit_and-one (quad_digit key level index),
  bit_and_two (quad_digit key level index),
  set_bit index r (row % 2) (bit_and (quad_digit key level index) 2),
  set_bit index c (column % 2) (bit_and (quad_digit key level index) 1),
)

from_loop_lem :
    (left index level row column r c : ℕ) (key : List ℕ)
    → index + left < 33
    → r < 2 ^ index
    → c < 2 ^ index
    → row < 2 ^ left
    → column < 2 ^ left
    → ((j : ℕ)
        → j < left
        → get_or key (level - (index + j) - 1) 0 ≡ digit (quad_key left row column) j)
    → from_quad_key_loop left index key (record { row = r; column = c; level = level })
      ≡ record { row = r + 2 ^ index * row; column = c + 2 ^ index * column; level = level }
unfolding from_quad_key_loop
from_loop_lem zero index level row column r c key b hr hc hrow hcol digits =
    ground (arith, at_end index row column r c hrow hcol)
from_loop_lem (suc left) index level row column r c key b hr hc hrow hcol digits =
    from_loop-suc left index level row column r c key (omega arith) hr hc (digits 0 (omega arith))
    ∙ from_loop_lem left (index + 1) level (row / 2) (column / 2) (r + 2 ^ index * (row % 2))
        (c + 2 ^ index * (column % 2)) key (omega arith) (round_in_range index r row hr)
        (round_in_range index c column hc) (omega (arith, two-pow-suc left))
        (omega (arith, two-pow-suc left))
        (λ j h.
          ap (λ (n : ℕ). get_or key (level - n - 1) 0) (later index j)
          ∙ digits (suc j) (omega arith)
          ∙ digit-suc left row column j)
    ∙ ground (arith, digits_lem index r row, digits_lem index c column)
  where
    later : (n m : ℕ) → n + 1 + m ≡ n + suc m
    later n m = omega arith

-- The text of a valid tile below the root, as the loop leaves it.
loop_text : TileKey → List ℕ
loop_text t = to_quad_key_loop t.level 0 t.level (to_quad_key_64 t) (replicate t.level 0)

not_root : (key : List ℕ) → 48 ≤ get_or key 0 0 → is_root_key key ≡ false
unfolding is_root_key
not_root [] h = refl
not_root (c ∷ []) h = ground arith
not_root (c ∷ d ∷ key) h = refl

from_quad_key_digits :
    (key : List ℕ)
    → 0 < length key
    → is_root_key key ≡ false
    → from_quad_key key
      ≡ from_quad_key_loop
          (length key)
          0
          key
          (record { row = 0; column = 0; level = u32 (length key) })
unfolding from_quad_key
from_quad_key_digits [] h e = absurd (omega arith)
from_quad_key_digits (c ∷ cs) h e = rw e

-- The loop on the text of a tile.
from_loop_text :
    (t : TileKey)
    → IsValid t
    → 0 < t.level
    → from_quad_key_loop t.level 0 (loop_text t) (record { row = 0; column = 0; level = t.level })
      ≡ t
unfolding loop_text quad_key
from_loop_text t v h =
    from_loop_lem t.level 0 t.level t.row t.column 0 0 (loop_text t) (omega arith) (omega arith)
      (omega arith) v.row_lt v.column_lt
      (λ j k.
        ap (λ (n : ℕ). get_or (loop_text t) (t.level - n - 1) 0) (from_zero j)
        ∙ to_loop_digit t.level 0 t.level (to_quad_key_64 t) (replicate t.level 0) j (omega arith)
            v.level_lt (length-replicate t.level 0) (omega arith) k
        ∙ ap (λ (q : ℕ). digit q j) (to_quad_key_64_sum t v))
    ∙ ground arith
  where
    from_zero : (n : ℕ) → 0 + n ≡ n
    from_zero n = omega arith

loop_text_head : (t : TileKey) → IsValid t → 0 < t.level → 48 ≤ get_or (loop_text t) 0 0
unfolding loop_text
loop_text_head t v h =
    let e =
      to_loop_digit t.level 0 t.level (to_quad_key_64 t) (replicate t.level 0) (t.level - 1)
        (omega arith) v.level_lt (length-replicate t.level 0) (omega arith) (omega arith) in
    let z : t.level - (t.level - 1) - 1 ≡ 0 = omega arith in
    omega (arith, ap (λ (n : ℕ). get_or (loop_text t) n 0) z, e)

length-loop_text : (t : TileKey) → length (loop_text t) ≡ t.level
unfolding loop_text
length-loop_text t =
    length-to_loop t.level 0 t.level (to_quad_key_64 t) (replicate t.level 0)
    ∙ length-replicate t.level 0

-- `FromQuadKey` reads back what `ToQuadKey` writes for a valid tile.
pub from_quad_key-to_quad_key : (t : TileKey) → IsValid t → from_quad_key (to_quad_key t) ≡ t
unfolding from_quad_key to_quad_key loop_text
from_quad_key-to_quad_key t v = elim (dec_lt 0 t.level) [
  | no root ↦ ground (arith, (is_valid_iff t).1 v)
  | yes below ↦
      let e : to_quad_key t ≡ loop_text t = ground (arith, (is_valid_iff t).1 v) in
      ap from_quad_key e
      ∙ from_quad_key_digits (loop_text t) (omega (arith, length-loop_text t))
          (not_root (loop_text t) (loop_text_head t v below))
      ∙ ap
          (λ (n : ℕ).
            from_quad_key_loop n 0 (loop_text t) (record { row = 0; column = 0; level = u32 n }))
          (length-loop_text t)
      ∙ ap
          (λ (n : ℕ).
            from_quad_key_loop t.level 0 (loop_text t) (record { row = 0; column = 0; level = n }))
          (omega arith)
      ∙ from_loop_text t v below
]

pub to_quad_key_64-lt : (t : TileKey) → IsValid t → to_quad_key_64 t < 2 ^ 64
to_quad_key_64-lt t v = omega (
  arith,
  to_quad_key_64_sum t v,
  interleave-lt t.level t.row t.column,
  two-pow-le {a = 2 * t.level} {b = 62} (omega arith),
)

-- `FromHereTile` reads back what `ToHereTile` writes for a valid tile.
pub from_here_tile-to_here_tile : (t : TileKey) → IsValid t → from_here_tile (to_here_tile t) ≡ t
unfolding from_here_tile to_here_tile
from_here_tile-to_here_tile t v =
    let (c, cs, e) = to_string_nonempty (to_quad_key_64 t) (to_quad_key_64-lt t v) in
    rw e (
      ap from_quad_key_64
        (ap strtoull (sym e) ∙ strtoull-to_string (to_quad_key_64 t) (to_quad_key_64-lt t v))
      ∙ from_quad_key_64-to_quad_key_64 t v)
