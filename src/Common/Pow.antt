-- ===== src/Common/Pow.antt =====
-- Powers of two: the widths and shifts of the tile keys.
use Prim.Native.Nat.{ℕ, zero, suc, ◌+◌, ◌*◌, ◌/◌, ◌^◌, ◌≤◌, ◌<◌}
use mathlib.Core.Path.{◌≡◌, sym, ◌∙◌, ap}
use native.Mathlib.Nat.{
  pow-zero, pow-suc, one-le-pow, pow-le-pow_right, add-suc, div-lt_iff_lt-mul, div-div-eq-div-mul,
  mul-div_cancel,
}
use native.Mathlib.Numerals.{add-one}
use native.Mathlib.Omega.{arith}

pub two-pow_pos : (k : ℕ) → 0 < 2 ^ k
two-pow_pos k = one-le-pow k 2 (omega arith)

pub two-pow-suc : (k : ℕ) → 2 ^ suc k ≡ 2 * 2 ^ k
two-pow-suc k = omega (arith, pow-suc 2 k)

pub two-pow-add_one : (k : ℕ) → 2 ^ (k + 1) ≡ 2 * 2 ^ k
two-pow-add_one k = simp add-one (two-pow-suc k)

pub two-pow-add : (a b : ℕ) → 2 ^ (a + b) ≡ 2 ^ a * 2 ^ b
two-pow-add a zero = grind (arith, pow-zero 2)
two-pow-add a (suc b) =
    ap (λ (t : ℕ). 2 ^ t) (add-suc a b)
    ∙ two-pow-suc (a + b)
    ∙ omega
        (arith, ap (λ (t : ℕ). 2 * t) (two-pow-add a b), ap (λ (t : ℕ). 2 ^ a * t) (two-pow-suc b))

pub two-pow-le : {a b : ℕ} → a ≤ b → 2 ^ a ≤ 2 ^ b
two-pow-le h = pow-le-pow_right (omega arith) h

-- A number of `a + b` bits shifted right by `b` has `a` bits.
pub shr-lt : (x a b : ℕ) → x < 2 ^ (a + b) → x / 2 ^ b < 2 ^ a
shr-lt x a b h = (div-lt_iff_lt-mul (two-pow_pos b)).1 (rw (← two-pow-add a b) h)

-- A number of `a` bits shifted left by `b` has `a + b` bits.
pub shl-lt : (x a b : ℕ) → x < 2 ^ a → x * 2 ^ b + 2 ^ b ≤ 2 ^ (a + b)
shl-lt x a b h = rw (two-pow-add a b) (grind (arith, two-pow_pos b))

pub shr-shr : (x a b : ℕ) → x / 2 ^ a / 2 ^ b ≡ x / 2 ^ (a + b)
shr-shr x a b = div-div-eq-div-mul x (2 ^ a) (2 ^ b) ∙ ap (λ (t : ℕ). x / t) (sym (two-pow-add a b))

pub shr-shl : (x b : ℕ) → x * 2 ^ b / 2 ^ b ≡ x
shr-shl x b = mul-div_cancel x (two-pow_pos b)

pub four-pow-suc : (k : ℕ) → 2 ^ (2 * suc k) ≡ 4 * 2 ^ (2 * k)
four-pow-suc k =
    ap (λ (t : ℕ). 2 ^ t) (two_more k)
    ∙ omega (arith, two-pow-suc (suc (2 * k)), two-pow-suc (2 * k))
  where
    two_more : (n : ℕ) → 2 * suc n ≡ suc (suc (2 * n))
    two_more n = omega arith
