-- ===== src/Client/Backdown.antt =====
-- The waiting times between the retries of a request: olp-cpp-sdk-
-- core/include/olp/core/client/BackdownStrategy.h. Times are numbers of milliseconds. `draw n` is
-- `std::uniform_int_distribution(0, n)`, and `none` its undefined use with a negative bound.
pub mod Bounds
pub mod Tests
use here_data_sdk_cpp.Common.{
  ℕ, ◌+◌, ◌*◌, ◌/◌, ◌%◌, ◌^◌, Bool, ◌&&◌, Option, none, some, ltb, if◌then◌else◌,
}
use Prim.Native.Nat.{min}
use here_data_sdk_cpp.Common.Bits.{u64}

-- `ExponentialBackdownStrategy`; a shift by 64 places or more is undefined.
unfoldable pub exponential_backdown : (ℕ → ℕ) → ℕ → ℕ → Option ℕ
exponential_backdown draw initial_backdown_period retry_count =
    let exponential_wait_time = u64 (initial_backdown_period * 2 ^ retry_count) in
    if ltb retry_count 64 && ltb exponential_wait_time (2 ^ 63)
    then some (draw exponential_wait_time)
    else none

-- `EqualJitterBackdownStrategy` with its cap.
unfoldable pub equal_jitter_backdown : (ℕ → ℕ) → ℕ → ℕ → ℕ → Option ℕ
equal_jitter_backdown draw cap initial_backdown_period retry_count =
    let exponential_wait_time = u64 (initial_backdown_period * 2 ^ min retry_count 30) in
    let temp = min cap exponential_wait_time in
    if ltb exponential_wait_time (2 ^ 63) then some (temp / 2 + draw (temp / 2)) else none
