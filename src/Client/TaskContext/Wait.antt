-- ===== src/Client/TaskContext/Wait.antt =====
-- The wait of `BlockingCancel` for the signal of the task.
use here_data_sdk_cpp.Common.{ℕ, ◌≤◌, ◌≡◌, ap, arith, Bool, true, false, List, [], ◌∷◌, ◌++◌}
use here_data_sdk_cpp.Client.PendingUrlRequest.{cancel_operation}
use here_data_sdk_cpp.Client.TaskContext.{
  Task, Event, completed, finished, new_task, start_sub_operation, cancel_task, start_execute,
  proceed_execute, enter_cancel, cancel_context, reset_function, end_wait, happen, run_task,
}
use here_data_sdk_cpp.Client.TaskContext.Once.{new_task-IsTask, run_task-IsTask, run_task-append}

module _ {T R : Type 0} (cancelled_error : R) (is_timeout : R → Bool) where
  abbrev pub no_timeout : List (Event T R) → Bool
  no_timeout [] = true
  no_timeout (Event.times_out ∷ events) = false
  no_timeout (Event.executes ∷ events) = no_timeout events
  no_timeout (Event.proceed r ∷ events) = no_timeout events
  no_timeout (Event.sub_operation token ∷ events) = no_timeout events
  no_timeout (Event.cancel ∷ events) = no_timeout events
  no_timeout (Event.blocking_cancel ∷ events) = no_timeout events
  no_timeout (Event.cancels_context ∷ events) = no_timeout events
  no_timeout (Event.resets_function ∷ events) = no_timeout events
  no_timeout (Event.wakes ∷ events) = no_timeout events

  -- The task is over, its signal has been taken, and at least `n` threads wait.
  record IsOver (n : ℕ) (t : Task T R) : Type 0 where
    over : t.progress ≡ finished
    done : t.state ≡ completed
    silent : t.signaled ≡ false
    waits : n ≤ t.waiting

  happen-IsOver :
      (n : ℕ) (e : Event T R) (t : Task T R)
      → no_timeout (e ∷ []) ≡ true
      → IsOver n t
      → IsOver n (happen cancelled_error is_timeout e t)
  unfolding happen start_execute proceed_execute start_sub_operation cancel_task cancel_operation
      enter_cancel cancel_context reset_function end_wait
  happen-IsOver n e t o h = record {
    over = ground (arith, h.over, h.done);
    done = ground (arith, h.over, h.done);
    silent = ground (arith, h.over, h.silent);
    waits = ground (arith, h.over, h.silent, h.waits);
  }

  no_timeout_first :
      (e : Event T R) (events : List (Event T R))
      → no_timeout (e ∷ events) ≡ true
      → (no_timeout (e ∷ []) ≡ true) × (no_timeout events ≡ true)
  no_timeout_first e events h = ground arith

  run_task-IsOver :
      (n : ℕ) (events : List (Event T R)) (t : Task T R)
      → no_timeout events ≡ true
      → IsOver n t
      → IsOver n (run_task cancelled_error is_timeout events t)
  unfolding run_task
  run_task-IsOver n [] t o h = h
  run_task-IsOver n (e ∷ events) t o h =
      let (now, later) = no_timeout_first e events o in
      run_task-IsOver n events _ later (happen-IsOver n e t now h)

  -- Once a task is over and its signal has been taken, the threads that still wait in
  -- `BlockingCancel` are never woken: in every order of accesses without a timeout, at least as
  -- many threads go on waiting, although the task is completed.
  pub run_task-waiting :
      (before after : List (Event T R))
      → (run_task cancelled_error is_timeout before new_task).progress ≡ finished
      → (run_task cancelled_error is_timeout before new_task).signaled ≡ false
      → no_timeout after ≡ true
      → ((run_task cancelled_error is_timeout before new_task).state ≡ completed)
        × ((run_task cancelled_error is_timeout before new_task).waiting
            ≤ (run_task cancelled_error is_timeout (before ++ after) new_task).waiting)
  run_task-waiting before after over silent o =
      let t = run_task cancelled_error is_timeout before new_task in
      let h = run_task-IsTask cancelled_error is_timeout before new_task new_task-IsTask in
      let done : t.state ≡ completed = ground (arith, h.state_is) in
      let rest =
        run_task-IsOver t.waiting after t o
          (record { over = over; done = done; silent = silent; waits = omega arith }) in
      (
        done,
        omega (
          arith,
          rest.waits,
          ap (λ x. x.waiting) (run_task-append cancelled_error is_timeout before after new_task),
        ),
      )
