-- ===== src/Client/Backdown/Tests.antt =====
-- Concrete waiting times.
use Prim.Native.Nat.{min}
use here_data_sdk_cpp.Common.{ℕ, suc, ◌*◌, ◌/◌, ◌^◌, ◌≤◌, ◌<◌, ◌≡◌, arith, some}
use here_data_sdk_cpp.Client.Backdown.{equal_jitter_backdown}
use here_data_sdk_cpp.Client.Backdown.Bounds.{equal_jitter_backdown-bounds}

-- The draw in the middle.
abbrev middle : ℕ → ℕ
middle n = n / 2

middle_le : (n : ℕ) → middle n ≤ n
middle_le n = omega arith

two_hundred_small : ◌<◌ 200 (2 ^ 33)
two_hundred_small = omega arith

equal_jitter_backdown-bounds_example :
    (time : ℕ) × (equal_jitter_backdown middle 1000 200 5 ≡ some time)
    × (time ≤ 1000)
    × (time ≤ 200 * 2 ^ min 5 30)
    × (min 1000 (200 * 2 ^ min 5 30) ≤ suc (2 * time))
equal_jitter_backdown-bounds_example =
    equal_jitter_backdown-bounds middle 1000 200 5 middle_le two_hundred_small
