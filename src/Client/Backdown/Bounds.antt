-- ===== src/Client/Backdown/Bounds.antt =====
-- The bounds of the waiting times.
use here_data_sdk_cpp.Common.{ℕ, suc, ◌+◌, ◌*◌, ◌/◌, ◌^◌, ◌≤◌, ◌<◌, ◌≡◌, refl, arith, some, lt→ltb}
use Prim.Native.Nat.{min}
use native.Mathlib.Nat.{mul-le-mul_left}
use here_data_sdk_cpp.Common.Bits.{u64}
use here_data_sdk_cpp.Common.Pow.{two-pow-le}
use here_data_sdk_cpp.Client.Backdown.{equal_jitter_backdown}

power_bound : (n : ℕ) → 2 ^ min n 30 ≤ 2 ^ 30
power_bound n = two-pow-le {a = min n 30} {b = 30} (omega arith)

product_bound : (a p : ℕ) → a < 2 ^ 33 → p ≤ 2 ^ 30 → a * p < 2 ^ 63
product_bound a p h h' = omega (arith, mul-le-mul_left {m = p} {n = 2 ^ 30} a h')

-- With a first period below 2^33 ms, and a draw within its bounds, the time is defined for every
-- number of retries; it is at most the cap and the exponential time, and at least half the smaller
-- of them.
pub equal_jitter_backdown-bounds :
    (draw : ℕ → ℕ) (cap initial retry_count : ℕ)
    → ((n : ℕ) → draw n ≤ n)
    → initial < 2 ^ 33
    → (time : ℕ) × (equal_jitter_backdown draw cap initial retry_count ≡ some time)
      × (time ≤ cap)
      × (time ≤ initial * 2 ^ min retry_count 30)
      × (min cap (initial * 2 ^ min retry_count 30) ≤ suc (2 * time))
unfolding equal_jitter_backdown
equal_jitter_backdown-bounds draw cap initial retry_count fair h =
    let p = initial * 2 ^ min retry_count 30 in
    let small = product_bound initial (2 ^ min retry_count 30) h (power_bound retry_count) in
    let temp = min cap p in
    let defined : u64 p ≡ p = omega (arith, small) in
    let drawn = fair (temp / 2) in
    (
      temp / 2 + draw (temp / 2),
      rw (defined, lt→ltb p (2 ^ 63) small) refl,
      omega (arith, drawn),
      omega (arith, drawn),
      omega (arith, drawn),
    )
