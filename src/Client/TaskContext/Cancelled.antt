-- ===== src/Client/TaskContext/Cancelled.antt =====
-- A task that is cancelled before it starts.
use mathlib.Core.Path.{subst}
use here_data_sdk_cpp.Common.{◌≤◌, ◌≡◌, sym, ap, ◌∙◌, arith, Bool, true, false, List, [], ◌∷◌, ◌++◌}
use here_data_sdk_cpp.Client.PendingUrlRequest.{cancel_operation}
use here_data_sdk_cpp.Client.TaskContext.{
  Progress, Task, Event, completed, not_started, takes_function, checks_cancelled, runs_function,
  checks_response, resets_context, calls_back, notifies, stores_completed, finished, new_task,
  start_sub_operation, cancel_task, start_execute, proceed_execute, enter_cancel, cancel_context,
  reset_function, end_wait, happen, run_task,
}
use here_data_sdk_cpp.Client.TaskContext.Once.{
  no_calls, IsTask, called, new_task-IsTask, happen-IsTask, run_task-IsTask, run_task-append,
  run_task-completed, proceeds,
}

module _ {R : Type 0} where
  abbrev pub running : Progress R → Bool
  running not_started = false
  running takes_function = false
  running (checks_cancelled function) = false
  running runs_function = true
  running (checks_response r) = true
  running (resets_context r) = false
  running (calls_back r) = false
  running notifies = false
  running stores_completed = false
  running finished = false

  -- The response that waits for the callback, or `d`.
  abbrev pub answer_or : R → Progress R → R
  answer_or d not_started = d
  answer_or d takes_function = d
  answer_or d (checks_cancelled function) = d
  answer_or d runs_function = d
  answer_or d (checks_response r) = r
  answer_or d (resets_context r) = r
  answer_or d (calls_back r) = r
  answer_or d notifies = d
  answer_or d stores_completed = d
  answer_or d finished = d

  abbrev pub cancelled_calls : R → Progress R → List R
  cancelled_calls d notifies = d ∷ []
  cancelled_calls d stores_completed = d ∷ []
  cancelled_calls d finished = d ∷ []
  cancelled_calls d not_started = []
  cancelled_calls d takes_function = []
  cancelled_calls d (checks_cancelled function) = []
  cancelled_calls d runs_function = []
  cancelled_calls d (checks_response r) = []
  cancelled_calls d (resets_context r) = []
  cancelled_calls d (calls_back r) = []

module _ {T R : Type 0} (cancelled_error : R) (is_timeout : R → Bool) where
  -- The task is cancelled, and its function has not been started.
  pub record IsCancelled (t : Task T R) : Type 0 where
    pub cancelled : t.context.is_cancelled ≡ true
    pub idle : running t.progress ≡ false
    pub answer_is : answer_or cancelled_error t.progress ≡ cancelled_error
    pub calls_are : t.calls ≡ cancelled_calls cancelled_error t.progress

  happen-IsCancelled :
      (e : Event T R) (t : Task T R)
      → IsTask t
      → IsCancelled t
      → IsCancelled (happen cancelled_error is_timeout e t)
  unfolding happen start_execute proceed_execute start_sub_operation cancel_task cancel_operation
      enter_cancel cancel_context reset_function end_wait
  happen-IsCancelled e t h c = record {
    cancelled = ground (arith, c.cancelled);
    idle = ground (arith, c.idle, c.cancelled);
    answer_is = ground (arith, c.idle, c.cancelled, c.answer_is);
    calls_are = ground (arith, c.idle, c.answer_is, c.calls_are, h.holds_is, h.state_is);
  }

  run_task-IsCancelled :
      (events : List (Event T R)) (t : Task T R)
      → IsTask t
      → IsCancelled t
      → IsCancelled (run_task cancelled_error is_timeout events t)
  unfolding run_task
  run_task-IsCancelled [] t h c = c
  run_task-IsCancelled (e ∷ events) t h c =
      run_task-IsCancelled events _ (happen-IsTask cancelled_error is_timeout e t h)
        (happen-IsCancelled e t h c)

  cancel-IsCancelled :
      (t : Task T R)
      → IsTask t
      → t.progress ≡ not_started
      → IsCancelled (happen cancelled_error is_timeout Event.cancel t)
  unfolding happen cancel_task cancel_operation
  cancel-IsCancelled t h e = record {
    cancelled = ground arith;
    idle = ap running e;
    answer_is = ap (answer_or cancelled_error) e;
    calls_are =
        no_calls t.calls (h.calls_are ∙ ap called e) ∙ sym (ap (cancelled_calls cancelled_error) e);
  }

  completed_calls :
      (t : Task T R)
      → IsTask t
      → IsCancelled t
      → t.state ≡ completed
      → t.calls ≡ cancelled_error ∷ []
  completed_calls t h c done = ground (arith, h.state_is, c.calls_are)

  -- A task that is cancelled before a thread has started it calls its callback with the error for a
  -- cancellation, once `Execute` has been called and its thread goes on eight times, and with
  -- nothing else, whatever its function would return.
  pub run_task-cancelled :
      (before between after : List (Event T R))
      → (run_task cancelled_error is_timeout before new_task).progress ≡ not_started
      → 8 ≤ proceeds cancelled_error is_timeout after
      → (run_task cancelled_error is_timeout
          ((before ++ Event.cancel ∷ between) ++ Event.executes ∷ after)
          new_task).calls
        ≡ cancelled_error ∷ []
  unfolding run_task
  run_task-cancelled before between after e enough =
      let t1 = run_task cancelled_error is_timeout before new_task in
      let h1 = run_task-IsTask cancelled_error is_timeout before new_task new_task-IsTask in
      let h2 = happen-IsTask cancelled_error is_timeout Event.cancel t1 h1 in
      let first = before ++ Event.cancel ∷ between in
      let c2 = run_task-IsCancelled between _ h2 (cancel-IsCancelled t1 h1 e) in
      let c3 =
        subst IsCancelled
          (sym
            (run_task-append cancelled_error is_timeout before (Event.cancel ∷ between) new_task))
          c2 in
      let h3 = run_task-IsTask cancelled_error is_timeout first new_task new_task-IsTask in
      let c4 =
        subst IsCancelled
          (sym (run_task-append cancelled_error is_timeout first (Event.executes ∷ after) new_task))
          (run_task-IsCancelled (Event.executes ∷ after) _ h3 c3) in
      completed_calls _
        (run_task-IsTask cancelled_error is_timeout (first ++ Event.executes ∷ after) new_task
          new_task-IsTask)
        c4 (run_task-completed cancelled_error is_timeout first after enough).0
