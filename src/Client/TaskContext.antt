-- ===== src/Client/TaskContext.antt =====
-- `TaskContextImpl` of olp-cpp-sdk-core/include/olp/core/client/TaskContext.h, with the `Condition`
-- of olp-cpp-sdk-core/include/olp/core/client/Condition.h and its `CancellationContext`. Several
-- threads use a task at once, so an event is one access that the others see whole: an atomic
-- operation, or what is done under a mutex. The thread whose `compare_exchange_strong` succeeds has
-- its place in `Execute` in `progress`; the threads in `BlockingCancel` are counted by their place.
-- The response of the function comes with the event of its return, and whether it is a failure by
-- timeout is a parameter.
pub mod Once
pub mod Cancelled
pub mod Wait
pub mod Tests
use here_data_sdk_cpp.Common.{
  ℕ, zero, suc, Bool, true, false, not, ◌&&◌, ◌||◌, List, [], ◌∷◌, ◌++◌, Option, none, some,
  if◌then◌else◌,
}
use here_data_sdk_cpp.Client.PendingUrlRequest.{CancellationContext, cancel_operation}

-- `State`.
pub data State : Type 0 where
  pending : State
  in_progress : State
  completed : State

-- The next access of `Execute`.
pub data Progress (R : Type 0) : Type 0 where
  not_started : Progress R
  takes_function : Progress R
  -- With whether the function is there.
  checks_cancelled : Bool → Progress R
  runs_function : Progress R
  checks_response : R → Progress R
  resets_context : R → Progress R
  calls_back : R → Progress R
  notifies : Progress R
  stores_completed : Progress R
  finished : Progress R

pub record Task (T R : Type 0) : Type 0 where
  pub state : State
  -- Whether `execute_func_` and `callback_` are there.
  pub execute_func : Bool
  pub callback : Bool
  pub context : CancellationContext T
  pub signaled : Bool
  pub progress : Progress R
  -- Whether the thread in `Execute` holds the callback.
  pub holds_callback : Bool
  -- The threads in `BlockingCancel`: before the cancellation, before the reset of the function, and
  -- in `Wait`.
  pub cancelling : ℕ
  pub resetting : ℕ
  pub waiting : ℕ
  -- What has been seen outside: the calls of the callback, the tokens cancelled, and what
  -- `BlockingCancel` has returned, each in order.
  pub calls : List R
  pub tokens : List T
  pub returned : List Bool

pub data Event (T R : Type 0) : Type 0 where
  -- A call of `Execute`, and the next access of the one that runs.
  executes : Event T R
  proceed : R → Event T R
  -- The running function starts a sub-operation with a token.
  sub_operation : T → Event T R
  -- `CancelToken().Cancel()`.
  cancel : Event T R
  -- `BlockingCancel` is called, cancels, resets the function, and wakes after a signal or the
  -- timeout.
  blocking_cancel : Event T R
  cancels_context : Event T R
  resets_function : Event T R
  wakes : Event T R
  times_out : Event T R

module _ {T R : Type 0} where
  unfoldable pub new_task : Task T R
  new_task = record {
    state = pending;
    execute_func = true;
    callback = true;
    context = record { is_cancelled = false; sub_operation_cancel_token = none };
    signaled = false;
    progress = not_started;
    holds_callback = false;
    cancelling = 0;
    resetting = 0;
    waiting = 0;
    calls = [];
    tokens = [];
    returned = [];
  }

  -- `ExecuteOrCancelled` with a function that returns `token`.
  unfoldable pub start_sub_operation : Option T → Task T R → Task T R
  start_sub_operation token t =
      if t.context.is_cancelled
      then t
      else record t { context = record t.context { sub_operation_cancel_token = token } }

  unfoldable pub cancel_task : Task T R → Task T R
  cancel_task t =
      let done = cancel_operation t.context in
      record t { context = done.0; tokens = t.tokens ++ done.1 }

  unfoldable pub start_execute : Task T R → Task T R
  start_execute t = elim t.state [
    | pending ↦ record t { state = in_progress; progress = takes_function }
    | in_progress ↦ t
    | completed ↦ t
  ]

  module _ (cancelled_error : R) (is_timeout : R → Bool) where
    -- The next access of `Execute`; `response` is what the function returns, if it runs.
    unfoldable pub proceed_execute : R → Task T R → Task T R
    proceed_execute response t = elim t.progress [
      | not_started ↦ t
      | takes_function ↦ record t {
        execute_func = false;
        callback = false;
        holds_callback = t.callback;
        progress = checks_cancelled t.execute_func;
      }
      | checks_cancelled function ↦ record t {
        progress =
            if function && not t.context.is_cancelled
            then runs_function
            else resets_context cancelled_error;
      }
      | runs_function ↦ record t { progress = checks_response response }
      | checks_response r ↦ record t {
        progress =
            resets_context
              (if not t.context.is_cancelled || is_timeout r then r else cancelled_error);
      }
      | resets_context r ↦ record (start_sub_operation none t) { progress = calls_back r }
      | calls_back r ↦ record t {
        calls = if t.holds_callback then t.calls ++ r ∷ [] else t.calls;
        holds_callback = false;
        progress = notifies;
      }
      | notifies ↦ record t { signaled = true; progress = stores_completed }
      | stores_completed ↦ record t { state = completed; progress = finished }
      | finished ↦ t
    ]

  -- `BlockingCancel` up to its first access.
  unfoldable pub enter_cancel : Task T R → Task T R
  enter_cancel t = elim t.state [
    | pending ↦ record t { cancelling = suc t.cancelling }
    | in_progress ↦ record t { cancelling = suc t.cancelling }
    | completed ↦ record t { returned = t.returned ++ true ∷ [] }
  ]

  unfoldable pub cancel_context : Task T R → Task T R
  cancel_context t = elim t.cancelling [
    | zero ↦ t
    | suc n ↦ record (cancel_task t) { cancelling = n; resetting = suc t.resetting }
  ]

  unfoldable pub reset_function : Task T R → Task T R
  reset_function t = elim t.resetting [
    | zero ↦ t
    | suc n ↦ record t { resetting = n; waiting = suc t.waiting; execute_func = false }
  ]

  -- The end of `Wait`, after a signal and at the timeout.
  unfoldable pub end_wait : Bool → Task T R → Task T R
  end_wait timeout t = elim t.waiting [
    | zero ↦ t
    | suc n ↦
        if timeout || t.signaled
        then record t { waiting = n; signaled = false; returned = t.returned ++ t.signaled ∷ [] }
        else t
  ]

  module _ (cancelled_error : R) (is_timeout : R → Bool) where
    unfoldable pub happen : Event T R → Task T R → Task T R
    happen executes t = start_execute t
    happen (proceed response) t = proceed_execute cancelled_error is_timeout response t
    happen (sub_operation token) t = elim t.progress [
      | runs_function ↦ start_sub_operation (some token) t
      | not_started ↦ t
      | takes_function ↦ t
      | checks_cancelled function ↦ t
      | checks_response r ↦ t
      | resets_context r ↦ t
      | calls_back r ↦ t
      | notifies ↦ t
      | stores_completed ↦ t
      | finished ↦ t
    ]
    happen cancel t = cancel_task t
    happen blocking_cancel t = enter_cancel t
    happen cancels_context t = cancel_context t
    happen resets_function t = reset_function t
    happen wakes t = end_wait false t
    happen times_out t = end_wait true t

    unfoldable pub run_task : List (Event T R) → Task T R → Task T R
    run_task [] t = t
    run_task (e ∷ events) t = run_task events (happen e t)
