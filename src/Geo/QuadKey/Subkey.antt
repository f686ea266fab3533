-- ===== src/Geo/QuadKey/Subkey.antt =====
-- `GetSubkey64` and the three forms of `AddedSubkey`.
use Prim.Native.Nat.{bit_and}
use native.Mathlib.Nat.{
  mul-one, mul-le-mul_left, mod-eq_of_lt, mul-add-mod_self_right, add-zero, add_comm, div-one,
  mul-lt-mul_of_pos_right,
}
use native.Mathlib.Decide.{dec_lt}
use here_data_sdk_cpp.Common.{
  ℕ, zero, suc, ◌+◌, ◌-◌, ◌*◌, ◌/◌, ◌%◌, ◌^◌, ◌≤◌, ◌<◌, ◌≡◌, refl, sym, ap, ◌∙◌, arith, none, some,
}
use here_data_sdk_cpp.Common.Bits.{u64, ◌<<<◌, bit_or_fields, bit_or_set, bit_and_mask}
use here_data_sdk_cpp.Common.Pow.{two-pow_pos, two-pow-le, two-pow-add, four-pow-suc, shr-lt}
use here_data_sdk_cpp.Geo.TileKey.{TileKey, changed_level_by, changed_level_to}
use here_data_sdk_cpp.Geo.TileKey.Shift.{IsValid, changed_level_to_up}
use here_data_sdk_cpp.Geo.QuadKey.Morton.{interleave, interleave-lt, spread-add, to_quad_key_64_sum}
use here_data_sdk_cpp.Geo.QuadKey.RoundTrip.{quad_key, from_quad_key_64-to_quad_key_64}
use here_data_sdk_cpp.Geo.QuadKey.{
  to_quad_key_64, get_subkey, added_subkey_loop, added_subkey, get_subkey_64, added_subkey_64,
}

-- The bits that the rounds still shift out stay within the word.
fits-suc :
    (k result : ℕ)
    → result * 2 ^ (2 * suc k) < 2 ^ 64
    → (result * 4 < 2 ^ 64) × (result * 4 * 2 ^ (2 * k) ≡ result * 2 ^ (2 * suc k))
fits-suc k result h =
    let e = ap (λ (t : ℕ). result * t) (four-pow-suc k) in
    let le = mul-le-mul_left (result * 4) (two-pow_pos (2 * k)) in
    (omega (arith, e, le), omega (arith, e))

-- From the mask 4 ^ i the loop makes `k` rounds for a subkey whose leading bit stands `k` levels
-- up.
loop_lem :
    (k i j fuel sub result : ℕ)
    → k < fuel
    → i + k ≡ j
    → j < 31
    → 2 ^ (2 * j) ≤ sub
    → sub < 4 * 2 ^ (2 * j)
    → result * 2 ^ (2 * k) < 2 ^ 64
    → added_subkey_loop fuel sub result (2 ^ (2 * i)) ≡ some (result * 2 ^ (2 * k), 2 ^ (2 * j))
unfolding added_subkey_loop
loop_lem k i j zero sub result f e h lo hi fits = absurd (omega arith)
loop_lem zero i j (suc fuel) sub result f e h lo hi fits =
    let e' : i ≡ j = omega arith in
    rw e' (ground (arith, mul-one result, two-pow-le {a = 2 * j} {b = 60} (omega arith)))
loop_lem (suc k) i j (suc fuel) sub result f e h lo hi fits = ground (
  arith,
  four-pow-suc i,
  two-pow-le {a = 2 * suc i} {b = 2 * j} (omega arith),
  two-pow-le {a = 2 * j} {b = 60} (omega arith),
  fits-suc k result fits,
  loop_lem k (suc i) j fuel sub (result * 4) (omega arith) (omega arith) h lo hi,
)

-- The mask wraps around to 0, and the loop goes on.
loop_at_zero : (fuel sub result : ℕ) → added_subkey_loop fuel sub result 0 ≡ none
unfolding added_subkey_loop
loop_at_zero zero sub result = refl
loop_at_zero (suc fuel) sub result = ground (arith, loop_at_zero fuel sub (u64 (result <<< 2)))

loop_stuck :
    (fuel i sub result : ℕ)
    → i < 32
    → 2 ^ 62 ≤ sub
    → added_subkey_loop fuel sub result (2 ^ (2 * i)) ≡ none
unfolding added_subkey_loop
loop_stuck zero i sub result h k = refl
loop_stuck (suc fuel) i sub result h k = elim (dec_lt i 31) [
  | yes below ↦ ground (
    arith,
    four-pow-suc i,
    two-pow-le {a = 2 * suc i} {b = 62} (omega arith),
    loop_stuck fuel (suc i) sub (u64 (result <<< 2)) (omega arith) k,
  )
  | no last ↦
      let e : i ≡ 31 = omega arith in
      rw e (ground (arith, loop_at_zero fuel sub (u64 (result <<< 2))))
]

-- A subkey of level 31, which is 2 ^ 62 or more, is never added: the loop of
-- `QuadKey64Helper::AddedSubkey` does not end, whatever the number of rounds.
pub added_subkey_64_stuck :
    (fuel : ℕ) (t : TileKey) (sub_quad_key : ℕ)
    → 2 ^ 62 ≤ sub_quad_key
    → added_subkey_64 fuel t sub_quad_key ≡ none
unfolding added_subkey_64 added_subkey
added_subkey_64_stuck fuel t sub h =
    ground (arith, loop_stuck fuel 0 sub (to_quad_key_64 t) (omega arith) h)

-- A tile's quadkey, cut `d` levels above its end.
pub quad_key-add :
    (d m row column : ℕ)
    → quad_key (d + m) row column
      ≡ quad_key m (row / 2 ^ d) (column / 2 ^ d) * 2 ^ (2 * d) + interleave d row column
unfolding quad_key interleave
quad_key-add d m row column = omega (
  arith,
  ap (λ (n : ℕ). 2 ^ n) (twice d m) ∙ two-pow-add (2 * d) (2 * m),
  spread-add d m row,
  spread-add d m column,
)
  where
    twice : (a b : ℕ) → 2 * (a + b) ≡ 2 * a + 2 * b
    twice a b = omega arith

pub quad_key-lt :
    (n row column : ℕ)
    → (2 ^ (2 * n) ≤ quad_key n row column) × (quad_key n row column < 2 * 2 ^ (2 * n))
unfolding quad_key
quad_key-lt n row column = omega (arith, interleave-lt n row column)

-- The digits below the mask.
low_part :
    (d m row column : ℕ)
    → d < 32
    → bit_and (quad_key (d + m) row column) (u64 (2 ^ (2 * d) + 2 ^ 64 - 1))
      ≡ interleave d row column
low_part d m row column h =
    ap (λ (n : ℕ). bit_and (quad_key (d + m) row column) n) mask
    ∙ bit_and_mask (2 * d) (quad_key (d + m) row column)
    ∙ ap (λ (n : ℕ). n % 2 ^ (2 * d)) (quad_key-add d m row column)
    ∙ mul-add-mod_self_right (quad_key m (row / 2 ^ d) (column / 2 ^ d)) (2 ^ (2 * d))
        (interleave d row column)
    ∙ mod-eq_of_lt (interleave-lt d row column)
  where
    mask : u64 (2 ^ (2 * d) + 2 ^ 64 - 1) ≡ 2 ^ (2 * d) - 1
    mask = omega (arith, two-pow_pos (2 * d), two-pow-le {a = 2 * d} {b = 62} (omega arith))

-- `GetSubkey64` keeps the lowest digits and puts the leading 1 above them.
get_subkey_lem :
    (d m row column : ℕ)
    → d < 32
    → get_subkey (quad_key (d + m) row column) d ≡ quad_key d row column
unfolding get_subkey quad_key
get_subkey_lem d m row column h = ground (
  arith,
  two-pow-le {a = 2 * d} {b = 62} (omega arith),
  low_part d m row column h,
  bit_or_set (2 * d) (interleave d row column) (interleave-lt d row column),
)

key_fits : (d m key : ℕ) → d + m < 32 → key < 2 * 2 ^ (2 * m) → key * 2 ^ (2 * d) < 2 ^ 64
key_fits d m key h hk = omega (
  arith,
  mul-lt-mul_of_pos_right hk (two-pow_pos (2 * d)),
  two-pow-add (2 * m) (2 * d),
  two-pow-le {a = 2 * m + 2 * d} {b = 62} (omega arith),
)

-- The subkey's digits go below those of the key.
pub added_subkey_lem :
    (fuel d m key row column : ℕ)
    → d < fuel
    → d < 31
    → d + m < 32
    → key < 2 * 2 ^ (2 * m)
    → added_subkey fuel key (quad_key d row column)
      ≡ some (key * 2 ^ (2 * d) + interleave d row column)
unfolding added_subkey
added_subkey_lem fuel d m key row column hf hd h hk = ground (
  arith,
  loop_lem d 0 d fuel (quad_key d row column) key hf (omega arith) hd (quad_key-lt d row column).0
      (omega (arith, quad_key-lt d row column)) (key_fits d m key h hk),
  low_part d 0 row column (omega arith),
  ap (λ (n : ℕ). quad_key n row column) (add-zero d),
  bit_or_fields (2 * d) key (interleave d row column) (interleave-lt d row column),
)

pub tile_quad_key : (t : TileKey) → IsValid t → to_quad_key_64 t ≡ quad_key t.level t.row t.column
unfolding quad_key
tile_quad_key t v = to_quad_key_64_sum t v

-- The ancestor of a tile, also at no distance.
ancestor_lem :
    (t : TileKey) (d m : ℕ)
    → IsValid t
    → d + m ≡ t.level
    → changed_level_to t m ≡ record { row = t.row / 2 ^ d; column = t.column / 2 ^ d; level = m }
unfolding changed_level_to changed_level_by
ancestor_lem t zero m v e = ground (arith, div-one t.row, div-one t.column)
ancestor_lem t (suc d) m v e =
    let e' : t.level - m ≡ suc d = omega arith in ground (arith, changed_level_to_up t m v.level_lt)

ancestor-IsValid :
    (t : TileKey) (d m : ℕ)
    → IsValid t
    → d + m ≡ t.level
    → IsValid (record { row = t.row / 2 ^ d; column = t.column / 2 ^ d; level = m })
ancestor-IsValid t d m v e = record {
  level_lt = omega arith;
  row_lt = shr-lt t.row m d (rw (add_comm m d, e) v.row_lt);
  column_lt = shr-lt t.column m d (rw (add_comm m d, e) v.column_lt);
}

-- The subkey of a valid tile below its ancestor `delta` levels up leads from that ancestor back to
-- the tile: `AddedSubkey64` undoes `GetSubkey64`, for a `delta` of 30 at most.
pub added_subkey_64-get_subkey_64 :
    (fuel delta : ℕ) (t : TileKey)
    → IsValid t
    → delta ≤ t.level
    → delta < 31
    → delta < fuel
    → added_subkey_64 fuel (changed_level_to t (t.level - delta)) (get_subkey_64 t delta) ≡ some t
unfolding added_subkey_64 get_subkey_64
added_subkey_64-get_subkey_64 fuel delta t v h h31 hf =
    let m = t.level - delta in
    let e : delta + m ≡ t.level = omega arith in
    let a : TileKey = record {
      row = t.row / 2 ^ delta;
      column = t.column / 2 ^ delta;
      level = m;
    } in
    let va : IsValid a = ancestor-IsValid t delta m v e in
    let key : to_quad_key_64 t ≡ quad_key (delta + m) t.row t.column =
      tile_quad_key t v ∙ ap (λ (n : ℕ). quad_key n t.row t.column) (sym e) in
    let whole : to_quad_key_64 a * 2 ^ (2 * delta) + interleave delta t.row t.column
        ≡ to_quad_key_64 t =
      ap (λ (n : ℕ). n * 2 ^ (2 * delta) + interleave delta t.row t.column) (tile_quad_key a va)
      ∙ sym (quad_key-add delta m t.row t.column)
      ∙ sym key in
    ground (
      arith,
      ancestor_lem t delta m v e,
      ap (λ (n : ℕ). get_subkey n delta) key,
      get_subkey_lem delta m t.row t.column (omega arith),
      added_subkey_lem fuel delta m (to_quad_key_64 a) t.row t.column hf h31 (omega arith),
      tile_quad_key a va,
      quad_key-lt m a.row a.column,
      whole,
      from_quad_key_64-to_quad_key_64 t v,
    )
