-- ===== src/Client/Retry/Limits.antt =====
-- How often a request is sent again, how long the retries wait, and what they return.
use here_data_sdk_cpp.Common.{
  ℕ, zero, suc, ◌+◌, ◌-◌, ◌≤◌, ◌<◌, ◌≡◌, ◌⊎◌, inl, inr, refl, sym, ap, ◌∙◌, arith, Bool, true,
  false, not, ◌||◌, ltb, Bool-cases,
}
use Prim.Native.Nat.{min}
use here_data_sdk_cpp.Client.Retry.{
  Response, RetrySettings, Attempt, status_success, is_retried, default_retry_condition,
  add_statistics, max_wait_time, sleep_loop, retry, finish, retry_loop, first_attempt,
  call_with_retries,
}

default_retry_condition-status_success :
    (response : Response)
    → default_retry_condition response ≡ true
    → status_success response.status ≡ false
unfolding default_retry_condition is_retried status_success
default_retry_condition-status_success response h = ground arith

module _ (send : ℕ → Response) (is_cancelled : ℕ → Bool) (settings : RetrySettings) where
  sleep_loop-le :
      (fuel duration checks : ℕ)
      → (sleep_loop send is_cancelled settings fuel duration checks).0 ≤ duration
  unfolding sleep_loop
  sleep_loop-le zero duration checks = omega arith
  sleep_loop-le (suc fuel) duration checks =
      ground (arith, sleep_loop-le fuel (duration - min 1000 duration) (suc checks))

  -- The last response is the one that the network has sent, those before it have failed in a way
  -- that may be retried, and the waits are within the limit.
  record IsAttempt (a : Attempt) : Type 0 where
    sent_some : 1 ≤ a.sent
    last_is : (j : ℕ) → suc j ≡ a.sent → a.response ≡ send j
    failed :
        (j : ℕ)
        → suc j < a.sent
        → (status_success (send j).status ≡ false) × (settings.retry_condition (send j) ≡ true)
    waited : a.slept + settings.initial_backdown_period ≤ a.accumulated_wait_time
    within : (a.accumulated_wait_time ≤ max_wait_time send is_cancelled settings) ⊎ (a.slept ≡ 0)

  first_attempt-IsAttempt : IsAttempt (first_attempt send is_cancelled settings)
  unfolding first_attempt
  first_attempt-IsAttempt = record {
    sent_some = omega arith;
    last_is = λ j e. ap send (omega (arith, e));
    failed = λ j lt. absurd (omega (arith, lt));
    waited = omega arith;
    within = inr refl;
  }

  failed_now :
      (a : Attempt)
      → IsAttempt a
      → status_success a.response.status ≡ false
      → settings.retry_condition a.response ≡ true
      → (j : ℕ) → j < a.sent
      → (status_success (send j).status ≡ false) × (settings.retry_condition (send j) ≡ true)
  failed_now a h fails again j lt = elim (Bool-cases (ltb (suc j) a.sent)) [
    | inl before ↦ h.failed j (ground arith)
    | inr last ↦
        let same = h.last_is j (ground arith) in
        (
          ap (λ r. status_success r.status) (sym same) ∙ fails,
          ap settings.retry_condition (sym same) ∙ again,
        )
  ]

  retry-IsAttempt :
      (i : ℕ) (a : Attempt)
      → IsAttempt a
      → status_success a.response.status ≡ false
      → settings.retry_condition a.response ≡ true
      → a.accumulated_wait_time < max_wait_time send is_cancelled settings
      → IsAttempt (retry send is_cancelled settings i a)
  unfolding retry
  retry-IsAttempt i a h fails again room =
      let duration =
        min a.backdown_period
          (max_wait_time send is_cancelled settings - a.accumulated_wait_time) in
      let sleeps = sleep_loop-le duration duration (suc a.checks) in
      record {
        sent_some = omega arith;
        last_is = λ j e. ap send (omega (arith, e));
        failed = λ j lt. failed_now a h fails again j (omega (arith, lt));
        waited = omega (arith, sleeps, h.waited);
        within = inl (omega (arith, room));
      }

  retry_sent : (i : ℕ) (a : Attempt) → (retry send is_cancelled settings i a).sent ≡ suc a.sent
  unfolding retry
  retry_sent i a = refl

  first_attempt_sent : (first_attempt send is_cancelled settings).sent ≡ 1
  unfolding first_attempt
  first_attempt_sent = refl

  -- What the loop leaves, with at most `n` requests sent.
  pub record IsResult (n : ℕ) (a : Attempt) : Type 0 where
    pub sent_some : 1 ≤ a.sent
    pub sent_le : a.sent ≤ n
    pub status_is : (j : ℕ) → suc j ≡ a.sent → a.response.status ≡ (send j).status
    pub failed :
        (j : ℕ)
        → suc j < a.sent
        → (status_success (send j).status ≡ false) × (settings.retry_condition (send j) ≡ true)
    pub slept_le :
        a.slept ≤ max_wait_time send is_cancelled settings - settings.initial_backdown_period

  attempt-IsResult : (n : ℕ) (a : Attempt) → IsAttempt a → a.sent ≤ n → IsResult n a
  attempt-IsResult n a h le = record {
    sent_some = h.sent_some;
    sent_le = le;
    status_is = λ j e. ap (λ r. r.status) (h.last_is j e);
    failed = h.failed;
    slept_le = ground (arith, h.waited, h.within);
  }

  finish-IsResult :
      (n : ℕ) (a : Attempt)
      → IsAttempt a
      → a.sent ≤ n
      → IsResult n (finish send is_cancelled settings a)
  unfolding finish
  finish-IsResult n a h le =
      let r = attempt-IsResult n a h le in
      record {
        sent_some = r.sent_some;
        sent_le = r.sent_le;
        status_is = r.status_is;
        failed = r.failed;
        slept_le = r.slept_le;
      }

  retry_loop-IsResult :
      (rounds i n : ℕ) (a : Attempt)
      → IsAttempt a
      → a.sent + rounds ≤ n
      → IsResult n (retry_loop send is_cancelled settings rounds i a)
  unfolding retry_loop
  retry_loop-IsResult zero i n a h le = finish-IsResult n a h (omega (arith, le))
  retry_loop-IsResult (suc rounds) i n a h le =
      elim (Bool-cases (
        is_cancelled a.checks
        || not (ltb a.accumulated_wait_time (max_wait_time send is_cancelled settings)))) [
          | inl stop ↦ rw stop (finish-IsResult n a h (omega (arith, le)))
          | inr go ↦ elim (Bool-cases (status_success a.response.status)) [
            | inl done ↦ rw (go, done) (attempt-IsResult n a h (omega (arith, le)))
            | inr fails ↦ elim (Bool-cases (settings.retry_condition a.response)) [
              | inr never ↦ rw (go, fails, never) (attempt-IsResult n a h (omega (arith, le)))
              | inl again ↦
                  let h1 = retry-IsAttempt i a h fails again (ground arith) in
                  rw (go, fails, again)
                    (retry_loop-IsResult rounds (suc i) n (retry send is_cancelled settings i a) h1
                      (omega (arith, le, retry_sent i a)))
            ]
          ]
        ]

  -- The blocking `CallApi` sends a request at most once more than the attempts that its settings
  -- allow, and sleeps no longer than the timeout less the initial waiting time; it returns the
  -- status of the last answer, and each earlier one has been a failure that the retry condition
  -- accepts.
  pub call_with_retries-IsResult :
      IsResult (suc settings.max_attempts) (call_with_retries send is_cancelled settings)
  unfolding call_with_retries
  call_with_retries-IsResult =
      retry_loop-IsResult settings.max_attempts 1 (suc settings.max_attempts)
        (first_attempt send is_cancelled settings) first_attempt-IsAttempt
        (omega (arith, first_attempt_sent))

  stops : Attempt → Bool
  stops a =
      is_cancelled a.checks
      || not (ltb a.accumulated_wait_time (max_wait_time send is_cancelled settings))

  going :
      (a : Attempt)
      → is_cancelled a.checks ≡ false
      → a.accumulated_wait_time < max_wait_time send is_cancelled settings
      → stops a ≡ false
  unfolding stops
  going a go room = ground (arith, go, room)

  loop_success :
      (rounds i : ℕ) (a : Attempt)
      → stops a ≡ false
      → status_success a.response.status ≡ true
      → retry_loop send is_cancelled settings (suc rounds) i a ≡ a
  unfolding retry_loop stops
  loop_success rounds i a go done = rw (go, done) refl

  loop_retry :
      (rounds i : ℕ) (a : Attempt)
      → stops a ≡ false
      → status_success a.response.status ≡ false
      → settings.retry_condition a.response ≡ true
      → retry_loop send is_cancelled settings (suc rounds) i a
        ≡ retry_loop send is_cancelled settings rounds
            (suc i)
            (retry send is_cancelled settings i a)
  unfolding retry_loop stops
  loop_retry rounds i a go fails again = rw (go, fails, again) refl

  first_goes :
      ((k : ℕ) → is_cancelled k ≡ false)
      → settings.initial_backdown_period < max_wait_time send is_cancelled settings
      → stops (first_attempt send is_cancelled settings) ≡ false
  unfolding stops first_attempt
  first_goes go room = ground (arith, go 0)

  second_goes :
      ((k : ℕ) → is_cancelled k ≡ false)
      → settings.initial_backdown_period + settings.initial_backdown_period
        < max_wait_time send is_cancelled settings
      → stops (retry send is_cancelled settings 1 (first_attempt send is_cancelled settings))
        ≡ false
  unfolding stops first_attempt retry
  second_goes go room =
      let a = retry send is_cancelled settings 1 (first_attempt send is_cancelled settings) in
      let wait : a.accumulated_wait_time < max_wait_time send is_cancelled settings =
        omega (arith, room) in
      going a (go a.checks) wait

  -- When the first answer is a failure that is retried and the second a success, and the task is
  -- not cancelled and the timeout not reached, the response has the statistics of the second
  -- request alone, although the loop has added up those of both.
  pub call_with_retries-statistics :
      (m : ℕ)
      → settings.max_attempts ≡ suc (suc m)
      → ((k : ℕ) → is_cancelled k ≡ false)
      → settings.initial_backdown_period + settings.initial_backdown_period
        < max_wait_time send is_cancelled settings
      → status_success (send 0).status ≡ false
      → settings.retry_condition (send 0) ≡ true
      → status_success (send 1).status ≡ true
      → ((call_with_retries send is_cancelled settings).response ≡ send 1)
        × ((call_with_retries send is_cancelled settings).accumulated_statistics
            ≡ add_statistics (send 0).statistics (send 1).statistics)
  unfolding call_with_retries first_attempt retry
  call_with_retries-statistics m enough go room fails again succeeds =
      let first = first_attempt send is_cancelled settings in
      let second = retry send is_cancelled settings 1 first in
      let loop : call_with_retries send is_cancelled settings ≡ second =
        ap (λ n. retry_loop send is_cancelled settings n 1 first) enough
        ∙ loop_retry (suc m) 1 first (first_goes go (omega (arith, room))) fails again
        ∙ loop_success m 2 second (second_goes go room) succeeds in
      (ap (λ a. a.response) loop, ap (λ a. a.accumulated_statistics) loop)
