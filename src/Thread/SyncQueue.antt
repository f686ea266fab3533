-- ===== src/Thread/SyncQueue.antt =====
-- `SyncQueue` of olp-cpp-sdk-core/include/olp/core/thread/SyncQueue.h over the priority queue, as
-- `ThreadPoolTaskScheduler` of olp-cpp-sdk-core/src/thread/ThreadPoolTaskScheduler.cpp uses it.
-- Each operation holds the mutex of the queue, so it is one step; a `Pull` that waits is `none`,
-- and is tried again after a notification. What a task's function does is a parameter.
pub mod Run
use here_data_sdk_cpp.Common.{
  ℕ, Bool, true, false, List, [], ◌∷◌, Option, none, some, ltb, if◌then◌else◌,
}
use here_data_sdk_cpp.Thread.PriorityQueue.{
  PriorityQueue, empty_queue, has_no_elements, push, front, pop,
}

pub record PrioritizedTask (F : Type 0) : Type 0 where
  pub function : F
  pub priority : ℕ

-- `ComparePrioritizedTask`.
abbrev pub compare_tasks : {F : Type 0} → PrioritizedTask F → PrioritizedTask F → Bool
compare_tasks lhs rhs = ltb lhs.priority rhs.priority

pub record SyncQueue (F : Type 0) : Type 0 where
  pub queue : PriorityQueue (PrioritizedTask F)
  pub closed : Bool

-- The priority `NORMAL`.
abbrev pub normal : ℕ
normal = 500

module _ {F : Type 0} where
  abbrev pub open_queue : SyncQueue F
  open_queue = record { queue = empty_queue; closed = false }

  unfoldable pub close : SyncQueue F → SyncQueue F
  close q = record { queue = empty_queue; closed = true }

  unfoldable pub push_sync : SyncQueue F → PrioritizedTask F → SyncQueue F
  push_sync q element = if q.closed then q else record q { queue = push q.queue element }

  -- `some none` is the result `false` of a queue that is closed.
  unfoldable pub pull : SyncQueue F → Option (Option (PrioritizedTask F) × SyncQueue F)
  pull q =
      if q.closed
      then some (none, q)
      else if has_no_elements q.queue
      then none
      else some (front compare_tasks q.queue, record q { queue = pop compare_tasks q.queue })

  -- `EnqueueTask`, with a priority and without.
  unfoldable pub enqueue_task : SyncQueue F → F → ℕ → SyncQueue F
  enqueue_task q func priority = push_sync q (record { function = func; priority = priority })

  unfoldable pub enqueue_normal : SyncQueue F → F → SyncQueue F
  enqueue_normal q func = enqueue_task q func normal
