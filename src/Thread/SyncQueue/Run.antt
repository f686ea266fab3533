-- ===== src/Thread/SyncQueue/Run.antt =====
-- Sequences of operations of the threads that enqueue tasks, pull them and close the queue.
use here_data_sdk_cpp.Common.{
  ℕ, suc, ◌+◌, ◌^◌, ◌<◌, ◌≡◌, refl, ap, arith, Bool, true, false, List, [], ◌∷◌, Option, none, some,
  if◌then◌else◌,
}
use here_data_sdk_cpp.Thread.PriorityQueue.{
  PriorityQueue, empty_queue, has_no_elements, push, front, pop,
}
use here_data_sdk_cpp.Thread.PriorityQueue.Order.{
  insert_last, Holds, push-Holds, empty_queue-Holds, front_empty, front-Holds,
}
use here_data_sdk_cpp.Thread.SyncQueue.{
  PrioritizedTask, SyncQueue, compare_tasks, open_queue, close, push_sync, pull, enqueue_task,
}

pub data QueueOp (F : Type 0) : Type 0 where
  -- A function and its priority.
  enqueues : F → ℕ → QueueOp F
  pulls : QueueOp F
  closes : QueueOp F

module _ {F : Type 0} where
  abbrev pub level : PrioritizedTask F → ℕ
  level t = t.priority

  -- What the pulls return, in their order; a pull that waits returns nothing.
  unfoldable pub run_queue : SyncQueue F → List (QueueOp F) → List (Option (PrioritizedTask F))
  run_queue q [] = []
  run_queue q (enqueues func priority ∷ ops) = run_queue (enqueue_task q func priority) ops
  run_queue q (pulls ∷ ops) = elim (pull q) [
    | none ↦ run_queue q ops
    | some (r, q') ↦ r ∷ run_queue q' ops
  ]
  run_queue q (closes ∷ ops) = run_queue (close q) ops

  -- The same on a list from the highest priority down, in the order of arrival within a priority.
  unfoldable pub run_tasks :
      List (PrioritizedTask F) → Bool → List (QueueOp F) → List (Option (PrioritizedTask F))
  run_tasks tasks closed [] = []
  run_tasks tasks closed (enqueues func priority ∷ ops) =
      let task : PrioritizedTask F = record { function = func; priority = priority } in
      run_tasks (if closed then tasks else insert_last level task tasks) closed ops
  run_tasks tasks true (pulls ∷ ops) = none ∷ run_tasks tasks true ops
  run_tasks [] false (pulls ∷ ops) = run_tasks [] false ops
  run_tasks (task ∷ tasks) false (pulls ∷ ops) = some task ∷ run_tasks tasks false ops
  run_tasks tasks closed (closes ∷ ops) = run_tasks [] true ops

  abbrev pub enqueued : List (QueueOp F) → ℕ
  enqueued [] = 0
  enqueued (enqueues func priority ∷ ops) = suc (enqueued ops)
  enqueued (pulls ∷ ops) = enqueued ops
  enqueued (closes ∷ ops) = enqueued ops

  pull_waits :
      (q : PriorityQueue (PrioritizedTask F))
      → has_no_elements q ≡ true
      → pull (record { queue = q; closed = false }) ≡ none
  unfolding pull
  pull_waits q e = rw e refl

  pull_takes :
      (q : PriorityQueue (PrioritizedTask F)) (task : PrioritizedTask F)
      → has_no_elements q ≡ false
      → front compare_tasks q ≡ some task
      → pull (record { queue = q; closed = false })
        ≡ some (some task, record { queue = pop compare_tasks q; closed = false })
  unfolding pull
  pull_takes q task e first = rw (e, first) refl

  run-simulates :
      (ops : List (QueueOp F)) (tasks : List (PrioritizedTask F))
      (q : PriorityQueue (PrioritizedTask F)) (closed : Bool)
      → Holds level tasks q
      → q.next_id + enqueued ops < 2 ^ 32
      → run_queue (record { queue = q; closed = closed }) ops ≡ run_tasks tasks closed ops
  unfolding run_queue run_tasks enqueue_task push_sync close pull
  run-simulates [] tasks q closed h small = refl
  run-simulates (enqueues func priority ∷ ops) tasks q true h small =
      run-simulates ops tasks q true h (omega (arith, small))
  run-simulates (enqueues func priority ∷ ops) tasks q false h small =
      let task : PrioritizedTask F = record { function = func; priority = priority } in
      let (h', counter) = push-Holds level tasks q task h (omega (arith, small)) in
      run-simulates ops (insert_last level task tasks) (push q task) false h'
        (omega (arith, counter, small))
  run-simulates (pulls ∷ ops) tasks q true h small =
      ap (λ l. none ∷ l) (run-simulates ops tasks q true h small)
  run-simulates (pulls ∷ ops) [] q false h small =
      rw (run_queue, pull_waits q (front_empty level q h)) (run-simulates ops [] q false h small)
  run-simulates (pulls ∷ ops) (task ∷ tasks) q false h small =
      let (some_there, first, h', counter) = front-Holds level task tasks q h in
      let rest =
        run-simulates ops tasks (pop compare_tasks q) false h' (omega (arith, small, counter)) in
      rw (run_queue, pull_takes q task some_there first) (ap (λ l. some task ∷ l) rest)
  run-simulates (closes ∷ ops) tasks q true h small =
      run-simulates ops [] empty_queue true (empty_queue-Holds level) (omega (arith, small))
  run-simulates (closes ∷ ops) tasks q false h small =
      run-simulates ops [] empty_queue true (empty_queue-Holds level) (omega (arith, small))

  -- The tasks that the threads pull from a new queue are those of a list that is kept from the
  -- highest priority down, and in the order of arrival within a priority: each pull returns the
  -- first of them, waits where there is none, and after the queue has been closed returns false;
  -- nothing is pulled that was enqueued before the close. The sequence enqueues fewer than 2 ^ 32
  -- tasks.
  pub run_queue-run_tasks :
      (ops : List (QueueOp F))
      → enqueued ops < 2 ^ 32
      → run_queue open_queue ops ≡ run_tasks [] false ops
  run_queue-run_tasks ops small =
      run-simulates ops [] empty_queue false (empty_queue-Holds level) (omega (arith, small))
