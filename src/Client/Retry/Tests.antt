-- ===== src/Client/Retry/Tests.antt =====
-- A request that is answered with 503 once, and then with 200.
use here_data_sdk_cpp.Common.{ℕ, zero, suc, ◌≡◌, refl, arith, Bool, true, false}
use here_data_sdk_cpp.Common.Int.{pos}
use here_data_sdk_cpp.Client.Retry.{
  NetworkStatistics, Response, RetrySettings, status_success, is_retried, default_retry_condition,
  add_statistics, call_with_retries,
}
use here_data_sdk_cpp.Client.Retry.Limits.{
  IsResult, call_with_retries-IsResult, call_with_retries-statistics,
}

abbrev ten_bytes : NetworkStatistics
ten_bytes = record { bytes_uploaded = 10; bytes_downloaded = 10 }

abbrev answers : ℕ → Response
answers zero = record { status = pos 503; statistics = ten_bytes }
answers (suc n) = record { status = pos 200; statistics = ten_bytes }

abbrev never : ℕ → Bool
never k = false

abbrev settings : RetrySettings
settings = record {
  max_attempts = 3;
  timeout = 60;
  initial_backdown_period = 200;
  retry_condition = default_retry_condition;
  backdown_strategy = λ i. 200;
}

call_with_retries-IsResult_example :
    IsResult answers never settings 4 (call_with_retries answers never settings)
call_with_retries-IsResult_example = call_with_retries-IsResult answers never settings

fails : status_success (answers 0).status ≡ false
unfolding status_success
fails = refl

again : default_retry_condition (answers 0) ≡ true
unfolding default_retry_condition is_retried
again = refl

succeeds : status_success (answers 1).status ≡ true
unfolding status_success
succeeds = refl

call_with_retries-statistics_example :
    ((call_with_retries answers never settings).response ≡ answers 1)
    × ((call_with_retries answers never settings).accumulated_statistics
        ≡ add_statistics ten_bytes ten_bytes)
call_with_retries-statistics_example =
    call_with_retries-statistics answers never settings 1 refl (λ k. refl) (omega arith) fails again
      succeeds
