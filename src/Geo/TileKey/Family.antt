-- ===== src/Geo/TileKey/Family.antt =====
-- Parents, children and ancestors of tiles.
use here_data_sdk_cpp.Common.{
  ℕ, ◌+◌, ◌-◌, ◌*◌, ◌/◌, ◌%◌, ◌^◌, ◌<◌, ◌≡◌, ◌↔◌, sym, ap, ◌∙◌, true, arith,
}
use here_data_sdk_cpp.Common.Bits.{bit_and-one, bit_or_fields}
use here_data_sdk_cpp.Common.Pow.{two-pow-add_one, two-pow-le, shr-shr}
use here_data_sdk_cpp.Geo.TileKey.{
  TileKey, equals, parent, changed_level_to, is_child_of, get_child, quadrant_of, get_child_at,
  relationship_to_parent,
}
use here_data_sdk_cpp.Geo.TileKey.Shift.{IsValid, changed_level_by_down, changed_level_to_up}

pub equals_iff : (a b : TileKey) → (equals a b ≡ true) ↔ (a ≡ b)
unfolding equals
equals_iff a b = (λ h. ground arith, λ h. ground arith)

-- A child in terms of arithmetic.
pub get_child_sum :
    (t : TileKey) (i : ℕ)
    → IsValid t
    → t.level < 31
    → i < 4
    → get_child t i
      ≡ record { row = 2 * t.row + i / 2; column = 2 * t.column + i % 2; level = t.level + 1 }
unfolding get_child
get_child_sum t i v h k = ground (
  arith,
  changed_level_by_down t 0 v (omega arith),
  bit_and-one i,
  bit_or_fields 1 t.row (i / 2) (omega arith),
  bit_or_fields 1 t.column (i % 2) (omega arith),
)

pub get_child-IsValid :
    (t : TileKey) (i : ℕ) → IsValid t → t.level < 31 → i < 4 → IsValid (get_child t i)
get_child-IsValid t i v h k = rw (get_child_sum t i v h k) (record {
  level_lt = omega arith;
  row_lt = omega (arith, two-pow-add_one t.level, v.row_lt);
  column_lt = omega (arith, two-pow-add_one t.level, v.column_lt);
})

pub parent-IsValid : (t : TileKey) → IsValid t → 0 < t.level → IsValid (parent t)
unfolding parent
parent-IsValid t v h = ground (arith, two-pow-add_one (t.level - 1))

-- `IsChildOf` on valid tiles: a proper descendant, at any distance.
pub is_child_of_iff :
    (a b : TileKey)
    → IsValid a
    → (is_child_of a b ≡ true) ↔ (
        (b.level < a.level)
        × (a.row / 2 ^ (a.level - b.level) ≡ b.row)
        × (a.column / 2 ^ (a.level - b.level) ≡ b.column))
unfolding is_child_of
is_child_of_iff a b v = (
  λ h. ground (
    arith,
    changed_level_to_up a b.level v.level_lt,
    (equals_iff (changed_level_to a b.level) b).0,
  ),
  λ h. ground (
    arith,
    changed_level_to_up a b.level v.level_lt,
    (equals_iff (changed_level_to a b.level) b).1,
  ),
)

-- The quadrant is read off the lowest bits of the row and the column.
relationship_to_parent_bits :
    (t : TileKey)
    → IsValid t
    → 0 < t.level
    → relationship_to_parent t ≡ quadrant_of (t.row % 2 * 2 + t.column % 2)
unfolding relationship_to_parent parent
relationship_to_parent_bits t v h = ground (
  arith,
  get_child_sum (parent t) 0 (parent-IsValid t v h),
  two-pow-le {a = t.level} {b = 31} (omega arith),
)

-- The four children of a tile have it as their parent, and each stands in the quadrant by whose
-- index it was made.
parent-get_child :
    (t : TileKey) (i : ℕ)
    → IsValid t
    → t.level < 31
    → i < 4
    → (parent (get_child t i) ≡ t)
      × (relationship_to_parent (get_child t i) ≡ quadrant_of i)
      × (is_child_of (get_child t i) t ≡ true)
unfolding parent
parent-get_child t i v h k = (
  ground (arith, get_child_sum t i v h k),
  ground (
    arith,
    get_child_sum t i v h k,
    relationship_to_parent_bits (get_child t i) (get_child-IsValid t i v h k),
  ),
  ground (
    arith,
    get_child_sum t i v h k,
    (is_child_of_iff (get_child t i) t (get_child-IsValid t i v h k)).1,
  ),
)

-- Every valid tile below the root is the child of its parent in the quadrant that
-- `RelationshipToParent` names.
get_child_at-relationship_to_parent :
    (t : TileKey) → IsValid t → 0 < t.level → get_child_at (parent t) (relationship_to_parent t) ≡ t
unfolding get_child_at parent quadrant_of
get_child_at-relationship_to_parent t v h = ground (
  arith,
  relationship_to_parent_bits t v h,
  get_child_sum (parent t) (t.row % 2 * 2 + t.column % 2) (parent-IsValid t v h),
)

-- Descent is transitive: a child of a child of a tile is a child of it.
pub is_child_of_trans :
    (a b c : TileKey)
    → IsValid a
    → IsValid b
    → is_child_of a b ≡ true
    → is_child_of b c ≡ true
    → is_child_of a c ≡ true
is_child_of_trans a b c va vb h k =
    let (up, rows, columns) = (is_child_of_iff a b va).0 h in
    let (up', rows', columns') = (is_child_of_iff b c vb).0 k in
    let e : (a.level - b.level) + (b.level - c.level) ≡ a.level - c.level = omega arith in
    (is_child_of_iff a c va).1 (
      omega arith,
      ap (λ (n : ℕ). a.row / 2 ^ n) (sym e)
          ∙ sym (shr-shr a.row (a.level - b.level) (b.level - c.level))
          ∙ ap (λ (r : ℕ). r / 2 ^ (b.level - c.level)) rows
          ∙ rows',
      ap (λ (n : ℕ). a.column / 2 ^ n) (sym e)
          ∙ sym (shr-shr a.column (a.level - b.level) (b.level - c.level))
          ∙ ap (λ (r : ℕ). r / 2 ^ (b.level - c.level)) columns
          ∙ columns',
    )
