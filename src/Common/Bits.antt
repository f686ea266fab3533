-- ===== src/Common/Bits.antt =====
-- Words of fixed width and the laws of `|` and `&` that the bit code of the tile keys needs.
use Prim.Native.Nat.{
  ℕ, zero, suc, ◌+◌, ◌-◌, ◌*◌, ◌/◌, ◌%◌, ◌^◌, ◌≤◌, ◌<◌, min, max, bit_and, bit_or, digits, bitwise,
  bit_and-bitwise, bit_or-bitwise,
}
use mathlib.Core.Bool.{Bool, true, ◌&&◌}
use mathlib.Core.Path.{◌≡◌, refl, ap}
use native.Mathlib.Nat.{le_refl, pow-suc, one-le-pow}
use native.Mathlib.Omega.{arith}

-- `uint32_t` and `uint64_t`.
abbrev pub u32 : ℕ → ℕ
u32 n = n % 2 ^ 32

abbrev pub u64 : ℕ → ℕ
u64 n = n % 2 ^ 64

infixl 68 ◌<<<◌ ◌>>>◌
abbrev pub ◌<<<◌ : ℕ → ℕ → ℕ
x <<< k = x * 2 ^ k

abbrev pub ◌>>>◌ : ℕ → ℕ → ℕ
x >>> k = x / 2 ^ k

module _ (rest : ℕ → ℕ) (op : ℕ → ℕ → ℕ) where
  -- The recursion on digits is settled once its fuel reaches the word.
  settled : (x y f g : ℕ) → x ≤ f → x ≤ g → digits rest op f x y ≡ digits rest op g x y
  settled zero y zero zero hf hg = refl
  settled zero y zero (suc g) hf hg = refl
  settled zero y (suc f) zero hf hg = refl
  settled zero y (suc f) (suc g) hf hg = refl
  settled (suc x) y zero g hf hg = elim hf [ ]
  settled (suc x) y (suc f) zero hf hg = elim hg [ ]
  settled (suc x) y (suc f) (suc g) hf hg =
      let half = settled (suc x / 2) (y / 2) f g (omega arith) (omega arith) in omega (arith, half)

  lowest_digit :
      (x y : ℕ)
      → bitwise rest op (suc x) y ≡ op (suc x % 2) (y % 2) + 2 * bitwise rest op (suc x / 2) (y / 2)
  lowest_digit x y =
      let half = settled (suc x / 2) (y / 2) x (suc x / 2) in
      omega (arith, half (omega arith) (le_refl _))

-- The law of the lowest digit.
pub bit_or_step : (x y : ℕ) → bit_or x y ≡ max (x % 2) (y % 2) + 2 * bit_or (x / 2) (y / 2)
bit_or_step zero y = rw (bit_or-bitwise, bit_or-bitwise) (omega arith)
bit_or_step (suc x) y = rw (bit_or-bitwise, bit_or-bitwise) (lowest_digit (λ rest. rest) max x y)

pub bit_and_step : (x y : ℕ) → bit_and x y ≡ min (x % 2) (y % 2) + 2 * bit_and (x / 2) (y / 2)
bit_and_step zero y = rw (bit_and-bitwise, bit_and-bitwise) (omega arith)
bit_and_step (suc x) y = rw (bit_and-bitwise, bit_and-bitwise) (lowest_digit (λ _. 0) min x y)

zero-bit_or : (b : ℕ) → bit_or 0 b ≡ b
zero-bit_or b = simp bit_or-bitwise refl

-- Both with a bound on the word, since the step goes from the word to its half.
below_zero : (bound x : ℕ) → x ≤ bound → (bit_and x 0 ≡ 0) × (bit_or x 0 ≡ x)
below_zero bound zero h = (refl, refl)
below_zero zero (suc x) h = elim h [ ]
below_zero (suc bound) (suc x) h =
    let (and_half, or_half) = below_zero bound (suc x / 2) (omega arith) in
    (omega (arith, bit_and_step (suc x) 0, and_half), omega (arith, bit_or_step (suc x) 0, or_half))

pub bit_and-zero : (x : ℕ) → bit_and x 0 ≡ 0
bit_and-zero x = (below_zero x x (le_refl _)).0

pub bit_or-zero : (x : ℕ) → bit_or x 0 ≡ x
bit_or-zero x = (below_zero x x (le_refl _)).1

pub bit_and-one : (a : ℕ) → bit_and a 1 ≡ a % 2
bit_and-one a = omega (arith, bit_and_step a 1, bit_and-zero (a / 2))

pub bit_and_two : (a : ℕ) → bit_and a 2 ≡ a / 2 % 2 * 2
bit_and_two a = omega (arith, bit_and_step a 2, bit_and-one (a / 2))

-- `|` digit by digit.
bit_or-div : (a b : ℕ) → bit_or a b / 2 ≡ bit_or (a / 2) (b / 2)
bit_or-div a b = omega (arith, bit_or_step a b)

bit_or-mod : (a b : ℕ) → bit_or a b % 2 ≡ max (a % 2) (b % 2)
bit_or-mod a b = omega (arith, bit_or_step a b)

bit_or_assoc_fuel : (n a b c : ℕ) → a ≤ n → bit_or (bit_or a b) c ≡ bit_or a (bit_or b c)
bit_or_assoc_fuel n zero b c h = rw (zero-bit_or, zero-bit_or)
bit_or_assoc_fuel zero (suc a) b c h = absurd (omega arith)
bit_or_assoc_fuel (suc n) (suc a) b c h = ground (
  arith,
  bit_or_step (bit_or (suc a) b) c,
  bit_or_step (suc a) (bit_or b c),
  bit_or-div (suc a) b,
  bit_or-mod (suc a) b,
  bit_or-div b c,
  bit_or-mod b c,
  bit_or_assoc_fuel n (suc a / 2) (b / 2) (c / 2) (omega arith),
)

pub bit_or_assoc : (a b c : ℕ) → bit_or (bit_or a b) c ≡ bit_or a (bit_or b c)
bit_or_assoc a b c = bit_or_assoc_fuel a a b c (le_refl _)

bit_or_comm_fuel : (n a b : ℕ) → a ≤ n → bit_or a b ≡ bit_or b a
bit_or_comm_fuel n zero b h = rw (zero-bit_or, bit_or-zero)
bit_or_comm_fuel zero (suc a) b h = absurd (omega arith)
bit_or_comm_fuel (suc n) (suc a) b h = omega (
  arith,
  bit_or_step (suc a) b,
  bit_or_step b (suc a),
  bit_or_comm_fuel n (suc a / 2) (b / 2) (omega arith),
)

pub bit_or_comm : (a b : ℕ) → bit_or a b ≡ bit_or b a
bit_or_comm a b = bit_or_comm_fuel a a b (le_refl _)

even : (q k : ℕ) → q * 2 ^ suc k ≡ 2 * (q * 2 ^ k)
even q k = omega (arith, ap (λ (n : ℕ). q * n) (pow-suc 2 k))

-- `(q << k) | r` is a sum when `r` fits `k` bits.
pub bit_or_fields : (k q r : ℕ) → r < 2 ^ k → bit_or (q <<< k) r ≡ q * 2 ^ k + r
bit_or_fields zero q zero h = rw bit_or-zero (omega arith)
bit_or_fields zero q (suc r) h = absurd (omega arith)
bit_or_fields (suc k) q r h =
    let halves = bit_or_fields k q (r / 2) (omega (arith, pow-suc 2 k)) in
    ground (arith, even q k, bit_or_step (q * 2 ^ suc k) r, halves)

-- `r | (1 << k)` sets a bit above all those of `r`.
pub bit_or_set : (k r : ℕ) → r < 2 ^ k → bit_or r (2 ^ k) ≡ r + 2 ^ k
bit_or_set k r fits = omega (
  arith,
  bit_or_comm r (2 ^ k),
  bit_or_fields k 1 r fits,
  ap (λ (t : ℕ). bit_or t r) (one_times (2 ^ k)),
)
  where
    one_times : (n : ℕ) → 1 * n ≡ n
    one_times n = omega arith

-- A mask of `k` low bits is the remainder by `2 ^ k`, digit by digit.
mask_fields : (k q r : ℕ) → r < 2 ^ k → bit_and (q * 2 ^ k + r) (2 ^ k - 1) ≡ r
mask_fields zero q r h = rw bit_and-zero (omega arith)
mask_fields (suc k) q r h =
    let halves = mask_fields k q (r / 2) (omega (arith, pow-suc 2 k)) in
    let mask : (2 ^ suc k - 1) / 2 ≡ 2 ^ k - 1 = omega (arith, pow-suc 2 k) in
    let ones : (2 ^ suc k - 1) % 2 ≡ 1 = omega (arith, pow-suc 2 k, one-le-pow k 2) in
    ground (arith, even q k, bit_and_step (q * 2 ^ suc k + r) (2 ^ suc k - 1), halves, mask, ones)

pub bit_and_mask : (k x : ℕ) → bit_and x (2 ^ k - 1) ≡ x % 2 ^ k
bit_and_mask k x =
    let r_lt = one-le-pow k 2 in ground (arith, r_lt, mask_fields k (x / 2 ^ k) (x % 2 ^ k))

-- A test that holds at all numbers below a bound, by evaluation.
unfoldable pub all_below : ℕ → (ℕ → Bool) → Bool
all_below zero test = true
all_below (suc bound) test = all_below bound test && test bound

pub all_below_at :
    (bound : ℕ) (test : ℕ → Bool) (x : ℕ) → x < bound → all_below bound test ≡ true → test x ≡ true
unfolding all_below
all_below_at zero test x lt every = elim lt [ ]
all_below_at (suc bound) test x lt every = ground (arith, all_below_at bound test x)
