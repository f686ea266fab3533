-- ===== src/Client/TaskContext/Tests.antt =====
-- Runs of a task with numbers as responses, where 408 is the failure by timeout.
use here_data_sdk_cpp.Common.{
  ℕ, ◌≤◌, ◌≡◌, refl, arith, Bool, true, false, List, [], ◌∷◌, ◌++◌, ◌==◌, length,
}
use here_data_sdk_cpp.Client.PendingUrlRequest.{cancel_operation}
use here_data_sdk_cpp.Client.TaskContext.{
  Event, Task, completed, finished, not_started, new_task, start_sub_operation, cancel_task,
  start_execute, proceed_execute, enter_cancel, cancel_context, reset_function, end_wait, happen,
  run_task,
}
use here_data_sdk_cpp.Client.TaskContext.Once.{run_task-completed}
use here_data_sdk_cpp.Client.TaskContext.Cancelled.{run_task-cancelled}
use here_data_sdk_cpp.Client.TaskContext.Wait.{run_task-waiting}

abbrev is_timeout : ℕ → Bool
is_timeout r = r == 408

abbrev start : Task ℕ ℕ
start = new_task

abbrev go : Event ℕ ℕ
go = Event.proceed 200

abbrev go_on : List (Event ℕ ℕ)
go_on = go ∷ go ∷ go ∷ Event.sub_operation 5 ∷ go ∷ Event.cancel ∷ go ∷ go ∷ go ∷ go ∷ []

abbrev two_cancels : List (Event ℕ ℕ)
two_cancels =
    Event.blocking_cancel ∷ Event.blocking_cancel ∷ Event.cancels_context ∷ Event.cancels_context
    ∷ Event.resets_function ∷ Event.resets_function ∷ []

run_task-completed_example :
    ((run_task 0 is_timeout (two_cancels ++ Event.executes ∷ go_on) start).state ≡ completed)
    × (length (run_task 0 is_timeout (two_cancels ++ Event.executes ∷ go_on) start).calls ≡ 1)
run_task-completed_example = run_task-completed 0 is_timeout two_cancels go_on (omega arith)

not_started_yet : (run_task 0 is_timeout two_cancels start).progress ≡ not_started
unfolding run_task happen new_task enter_cancel cancel_context cancel_task cancel_operation
    reset_function
not_started_yet = refl

run_task-cancelled_example :
    (run_task 0 is_timeout
      ((two_cancels ++ Event.cancel ∷ []) ++ Event.executes ∷ go_on)
      start).calls
    ≡ 0 ∷ []
run_task-cancelled_example =
    run_task-cancelled 0 is_timeout two_cancels [] go_on not_started_yet (omega arith)

-- One of two threads that wait has been woken after the task.
abbrev one_woken : List (Event ℕ ℕ)
one_woken = Event.executes ∷ two_cancels ++ go_on ++ Event.wakes ∷ []

one_woken-run :
    ((run_task 0 is_timeout one_woken start).progress ≡ finished)
    × ((run_task 0 is_timeout one_woken start).signaled ≡ false)
    × ((run_task 0 is_timeout one_woken start).waiting ≡ 1)
    × ((run_task 0 is_timeout one_woken start).returned ≡ true ∷ [])
unfolding run_task happen new_task enter_cancel cancel_context cancel_task cancel_operation
    reset_function start_execute proceed_execute start_sub_operation end_wait
one_woken-run = (refl, refl, refl, refl)

run_task-waiting_example :
    ((run_task 0 is_timeout one_woken start).state ≡ completed)
    × ((run_task 0 is_timeout one_woken start).waiting
        ≤ (run_task 0 is_timeout (one_woken ++ Event.wakes ∷ []) start).waiting)
run_task-waiting_example =
    run_task-waiting 0 is_timeout one_woken (Event.wakes ∷ []) one_woken-run.0 one_woken-run.1 refl
