-- ===== src/Thread/Tests.antt =====
-- Runs of the queue of the thread pool with letters as functions.
use here_data_sdk_cpp.Common.{ℕ, ◌≡◌, refl, arith, false, List, [], ◌∷◌, none, some}
use here_data_sdk_cpp.Thread.PriorityQueue.{
  is_below, top, without_top, has_no_elements, get_next_id, push, front, pop,
}
use here_data_sdk_cpp.Thread.SyncQueue.{open_queue, normal, push_sync, pull, close, enqueue_task}
use here_data_sdk_cpp.Thread.SyncQueue.Run.{
  QueueOp, enqueues, pulls, closes, run_queue, run_tasks, run_queue-run_tasks,
}

abbrev ops : List (QueueOp ℕ)
ops =
    pulls
    ∷ enqueues 1 normal
    ∷ enqueues 2 1000
    ∷ enqueues 3 normal
    ∷ pulls
    ∷ pulls
    ∷ enqueues 4 100
    ∷ closes
    ∷ enqueues 5 normal
    ∷ pulls
    ∷ []

ops_run :
    run_queue open_queue ops
    ≡ some (record { function = 2; priority = 1000 })
      ∷ some (record { function = 1; priority = 500 })
      ∷ none
      ∷ []
unfolding run_queue pull push_sync close enqueue_task push get_next_id has_no_elements front pop top
    without_top is_below
ops_run = refl

run_queue-run_tasks_example : run_queue open_queue ops ≡ run_tasks [] false ops
run_queue-run_tasks_example = run_queue-run_tasks ops (omega arith)
