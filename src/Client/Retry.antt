-- ===== src/Client/Retry.antt =====
-- The retries of the blocking `CallApi` of olp-cpp-sdk-core/src/client/OlpClient.cpp. What the
-- network answers to a request that is sent, and what `IsCancelled` returns, are parameters:
-- functions of the number of the call. Times are milliseconds, and the settings are not negative.
pub mod Limits
pub mod Tests
use here_data_sdk_cpp.Common.{
  ℕ, zero, suc, ◌+◌, ◌-◌, ◌*◌, Bool, true, false, not, ◌&&◌, ◌||◌, leb, ◌==◌, if◌then◌else◌, ltb,
}
use Prim.Native.Nat.{min}
use here_data_sdk_cpp.Common.Int.{ℤ, pos, negsuc}
use here_data_sdk_cpp.Common.Bits.{u64}

pub record NetworkStatistics : Type 0 where
  pub bytes_uploaded : ℕ
  pub bytes_downloaded : ℕ

-- The part of an `HttpResponse` that the retries read.
pub record Response : Type 0 where
  pub status : ℤ
  pub statistics : NetworkStatistics

-- `backdown_strategy` is with its initial period; the timeout is in seconds.
pub record RetrySettings : Type 0 where
  pub max_attempts : ℕ
  pub timeout : ℕ
  pub initial_backdown_period : ℕ
  pub retry_condition : Response → Bool
  pub backdown_strategy : ℕ → ℕ

-- The variables of the loop, with the requests that have been sent, the time slept, and the calls
-- of `IsCancelled`.
pub record Attempt : Type 0 where
  pub backdown_period : ℕ
  pub accumulated_wait_time : ℕ
  pub response : Response
  pub accumulated_statistics : NetworkStatistics
  pub sent : ℕ
  pub slept : ℕ
  pub checks : ℕ

unfoldable pub status_success : ℤ → Bool
status_success (pos n) = ltb n 400
status_success (negsuc n) = false

unfoldable pub is_retried : ℤ → Bool
is_retried (pos n) = leb 500 n && leb n 599 || n == 429
is_retried (negsuc n) = n == 0 || n == 3 || n == 6 || n == 7

-- `DefaultRetryCondition`: the statuses from 500 to 599 and 429, and four errors of the network.
unfoldable pub default_retry_condition : Response → Bool
default_retry_condition response = is_retried response.status

unfoldable pub add_statistics : NetworkStatistics → NetworkStatistics → NetworkStatistics
add_statistics a b = record {
  bytes_uploaded = u64 (a.bytes_uploaded + b.bytes_uploaded);
  bytes_downloaded = u64 (a.bytes_downloaded + b.bytes_downloaded);
}

module _ (send : ℕ → Response) (is_cancelled : ℕ → Bool) (settings : RetrySettings) where
  abbrev pub max_wait_time : ℕ
  max_wait_time = settings.timeout * 1000

  -- The time slept, and the calls of `IsCancelled`; each round takes a millisecond at least.
  unfoldable pub sleep_loop : ℕ → ℕ → ℕ → ℕ × ℕ
  sleep_loop zero duration checks = (0, checks)
  sleep_loop (suc fuel) duration checks =
      let sleep_ms = min 1000 duration in
      let rest = sleep_loop fuel (duration - sleep_ms) (suc checks) in
      if ltb 0 duration
      then if is_cancelled checks then (0, suc checks) else (sleep_ms + rest.0, rest.1)
      else (0, checks)

  unfoldable pub retry : ℕ → Attempt → Attempt
  retry i a =
      let duration = min a.backdown_period (max_wait_time - a.accumulated_wait_time) in
      let sleeps = sleep_loop duration duration (suc a.checks) in
      let response = send a.sent in
      record {
        backdown_period = settings.backdown_strategy i;
        accumulated_wait_time = a.accumulated_wait_time + duration;
        response = response;
        accumulated_statistics = add_statistics a.accumulated_statistics response.statistics;
        sent = suc a.sent;
        slept = a.slept + sleeps.0;
        checks = sleeps.1;
      }

  -- Behind the loop.
  unfoldable pub finish : Attempt → Attempt
  finish a = record a { response = record a.response { statistics = a.accumulated_statistics } }

  unfoldable pub retry_loop : ℕ → ℕ → Attempt → Attempt
  retry_loop zero i a = finish a
  retry_loop (suc rounds) i a =
      let rest = retry_loop rounds (suc i) (retry i a) in
      if is_cancelled a.checks || not (ltb a.accumulated_wait_time max_wait_time)
      then finish a
      else if status_success a.response.status
      then a
      else if not (settings.retry_condition a.response)
      then a
      else rest

  unfoldable pub first_attempt : Attempt
  first_attempt = record {
    backdown_period = settings.initial_backdown_period;
    accumulated_wait_time = settings.initial_backdown_period;
    response = send 0;
    accumulated_statistics = (send 0).statistics;
    sent = 1;
    slept = 0;
    checks = 0;
  }

  unfoldable pub call_with_retries : Attempt
  call_with_retries = retry_loop settings.max_attempts 1 first_attempt
