-- ===== src/Client/TaskContext/Once.antt =====
-- A task calls its callback once, whatever the order of the accesses is.
use here_data_sdk_cpp.Common.{
  ℕ, ◌+◌, ◌-◌, ◌≤◌, ◌≡◌, refl, sym, ap, ◌∙◌, arith, Bool, true, false, List, [], ◌∷◌, ◌++◌, length,
  leb,
}
use here_data_sdk_cpp.Client.PendingUrlRequest.{cancel_operation}
use here_data_sdk_cpp.Client.TaskContext.{
  State, Progress, Task, Event, pending, in_progress, completed, not_started, takes_function,
  checks_cancelled, runs_function, checks_response, resets_context, calls_back, notifies,
  stores_completed, finished, new_task, start_sub_operation, cancel_task, start_execute,
  proceed_execute, enter_cancel, cancel_context, reset_function, end_wait, happen, run_task,
}

module _ {R : Type 0} where
  -- The accesses of `Execute` that are left.
  abbrev pub left : Progress R → ℕ
  left not_started = 9
  left takes_function = 8
  left (checks_cancelled function) = 7
  left runs_function = 6
  left (checks_response r) = 5
  left (resets_context r) = 4
  left (calls_back r) = 3
  left notifies = 2
  left stores_completed = 1
  left finished = 0

  abbrev pub before_call : Progress R → Bool
  before_call not_started = false
  before_call takes_function = false
  before_call (checks_cancelled function) = true
  before_call runs_function = true
  before_call (checks_response r) = true
  before_call (resets_context r) = true
  before_call (calls_back r) = true
  before_call notifies = false
  before_call stores_completed = false
  before_call finished = false

  abbrev pub state_of : Progress R → State
  state_of not_started = pending
  state_of finished = completed
  state_of takes_function = in_progress
  state_of (checks_cancelled function) = in_progress
  state_of runs_function = in_progress
  state_of (checks_response r) = in_progress
  state_of (resets_context r) = in_progress
  state_of (calls_back r) = in_progress
  state_of notifies = in_progress
  state_of stores_completed = in_progress

  abbrev pub called : Progress R → ℕ
  called not_started = 0
  called takes_function = 0
  called (checks_cancelled function) = 0
  called runs_function = 0
  called (checks_response r) = 0
  called (resets_context r) = 0
  called (calls_back r) = 0
  called notifies = 1
  called stores_completed = 1
  called finished = 1

module _ {R : Type 0} where
  pub no_calls : (l : List R) → length l ≡ 0 → l ≡ []
  no_calls [] h = refl
  no_calls (r ∷ l) h = absurd (omega arith)

module _ {T R : Type 0} where
  -- The state, the callback and the calls are those of the place in `Execute`.
  pub record IsTask (t : Task T R) : Type 0 where
    pub state_is : t.state ≡ state_of t.progress
    pub callback_is : t.callback ≡ leb 8 (left t.progress)
    pub holds_is : t.holds_callback ≡ before_call t.progress
    pub calls_are : length t.calls ≡ called t.progress

  pub new_task-IsTask : IsTask new_task
  unfolding new_task
  new_task-IsTask = record {
    state_is = refl;
    callback_is = refl;
    holds_is = refl;
    calls_are = refl;
  }

  module _ (cancelled_error : R) (is_timeout : R → Bool) where
    proceed-state :
        (r : R) (t : Task T R)
        → IsTask t
        → (proceed_execute cancelled_error is_timeout r t).state
          ≡ state_of (proceed_execute cancelled_error is_timeout r t).progress
    unfolding proceed_execute start_sub_operation
    proceed-state r t h = ground (arith, h.state_is)

    proceed-callback :
        (r : R) (t : Task T R)
        → IsTask t
        → (proceed_execute cancelled_error is_timeout r t).callback
          ≡ leb 8 (left (proceed_execute cancelled_error is_timeout r t).progress)
    unfolding proceed_execute start_sub_operation
    proceed-callback r t h = ground (arith, h.callback_is)

    proceed-holds :
        (r : R) (t : Task T R)
        → IsTask t
        → (proceed_execute cancelled_error is_timeout r t).holds_callback
          ≡ before_call (proceed_execute cancelled_error is_timeout r t).progress
    unfolding proceed_execute start_sub_operation
    proceed-holds r t h = ground (arith, h.holds_is, h.callback_is)

    proceed-calls :
        (r : R) (t : Task T R)
        → IsTask t
        → length (proceed_execute cancelled_error is_timeout r t).calls
          ≡ called (proceed_execute cancelled_error is_timeout r t).progress
    unfolding proceed_execute start_sub_operation
    proceed-calls r t h = ground (arith, h.holds_is, h.calls_are, no_calls t.calls)

    proceed-left :
        (r : R) (t : Task T R)
        → left t.progress ≤ 8
        → left (proceed_execute cancelled_error is_timeout r t).progress ≤ left t.progress - 1
    unfolding proceed_execute start_sub_operation
    proceed-left r t h = ground arith

    proceed-IsTask :
        (r : R) (t : Task T R) → IsTask t → IsTask (proceed_execute cancelled_error is_timeout r t)
    proceed-IsTask r t h = record {
      state_is = proceed-state r t h;
      callback_is = proceed-callback r t h;
      holds_is = proceed-holds r t h;
      calls_are = proceed-calls r t h;
    }

    start_execute-IsTask : (t : Task T R) → IsTask t → IsTask (start_execute t)
    unfolding start_execute
    start_execute-IsTask t h = record {
      state_is = ground (arith, h.state_is);
      callback_is = ground (arith, h.state_is, h.callback_is);
      holds_is = ground (arith, h.state_is, h.holds_is);
      calls_are = ground (arith, h.state_is, h.calls_are);
    }

    -- The thread in `Execute` is where it was.
    record Keeps (t t' : Task T R) : Type 0 where
      state_kept : t'.state ≡ t.state
      callback_kept : t'.callback ≡ t.callback
      holds_kept : t'.holds_callback ≡ t.holds_callback
      calls_kept : t'.calls ≡ t.calls
      progress_kept : t'.progress ≡ t.progress

    Keeps-IsTask : (t t' : Task T R) → Keeps t t' → IsTask t → IsTask t'
    Keeps-IsTask t t' k h = record {
      state_is = k.state_kept ∙ h.state_is ∙ ap state_of (sym k.progress_kept);
      callback_is =
          k.callback_kept ∙ h.callback_is ∙ ap (λ p. leb 8 (left p)) (sym k.progress_kept);
      holds_is = k.holds_kept ∙ h.holds_is ∙ ap before_call (sym k.progress_kept);
      calls_are = ap length k.calls_kept ∙ h.calls_are ∙ ap called (sym k.progress_kept);
    }

    -- What no thread in `Execute` does.
    abbrev pub outside : Event T R → Bool
    outside Event.executes = false
    outside (Event.proceed r) = false
    outside (Event.sub_operation token) = true
    outside Event.cancel = true
    outside Event.blocking_cancel = true
    outside Event.cancels_context = true
    outside Event.resets_function = true
    outside Event.wakes = true
    outside Event.times_out = true

    happen-Keeps :
        (e : Event T R) (t : Task T R)
        → outside e ≡ true
        → Keeps t (happen cancelled_error is_timeout e t)
    unfolding happen start_sub_operation cancel_task cancel_operation enter_cancel cancel_context
        reset_function end_wait
    happen-Keeps e t o = record {
      state_kept = ground arith;
      callback_kept = ground arith;
      holds_kept = ground arith;
      calls_kept = ground arith;
      progress_kept = ground arith;
    }

    pub happen-IsTask :
        (e : Event T R) (t : Task T R) → IsTask t → IsTask (happen cancelled_error is_timeout e t)
    unfolding happen
    happen-IsTask Event.executes t h = start_execute-IsTask t h
    happen-IsTask (Event.proceed r) t h = proceed-IsTask r t h
    happen-IsTask (Event.sub_operation token) t h =
        Keeps-IsTask t _ (happen-Keeps (Event.sub_operation token) t refl) h
    happen-IsTask Event.cancel t h = Keeps-IsTask t _ (happen-Keeps Event.cancel t refl) h
    happen-IsTask Event.blocking_cancel t h =
        Keeps-IsTask t _ (happen-Keeps Event.blocking_cancel t refl) h
    happen-IsTask Event.cancels_context t h =
        Keeps-IsTask t _ (happen-Keeps Event.cancels_context t refl) h
    happen-IsTask Event.resets_function t h =
        Keeps-IsTask t _ (happen-Keeps Event.resets_function t refl) h
    happen-IsTask Event.wakes t h = Keeps-IsTask t _ (happen-Keeps Event.wakes t refl) h
    happen-IsTask Event.times_out t h = Keeps-IsTask t _ (happen-Keeps Event.times_out t refl) h

    pub run_task-IsTask :
        (events : List (Event T R)) (t : Task T R)
        → IsTask t
        → IsTask (run_task cancelled_error is_timeout events t)
    unfolding run_task
    run_task-IsTask [] t h = h
    run_task-IsTask (e ∷ events) t h = run_task-IsTask events _ (happen-IsTask e t h)

    -- How often the thread in `Execute` goes on.
    abbrev pub proceeds_of : Event T R → ℕ
    proceeds_of Event.executes = 0
    proceeds_of (Event.proceed r) = 1
    proceeds_of (Event.sub_operation token) = 0
    proceeds_of Event.cancel = 0
    proceeds_of Event.blocking_cancel = 0
    proceeds_of Event.cancels_context = 0
    proceeds_of Event.resets_function = 0
    proceeds_of Event.wakes = 0
    proceeds_of Event.times_out = 0

    abbrev pub proceeds : List (Event T R) → ℕ
    proceeds [] = 0
    proceeds (e ∷ events) = proceeds_of e + proceeds events

    happen-left :
        (e : Event T R) (t : Task T R)
        → IsTask t
        → left t.progress ≤ 8
        → left (happen cancelled_error is_timeout e t).progress ≤ left t.progress - proceeds_of e
    unfolding happen start_execute proceed_execute start_sub_operation cancel_task cancel_operation
        enter_cancel cancel_context reset_function end_wait
    happen-left e t h started = ground (arith, h.state_is)

    run_task-left :
        (events : List (Event T R)) (t : Task T R)
        → IsTask t
        → left t.progress ≤ 8
        → left (run_task cancelled_error is_timeout events t).progress
          ≤ left t.progress - proceeds events
    unfolding run_task
    run_task-left [] t h started = omega arith
    run_task-left (e ∷ events) t h started =
        let now = happen-left e t h started in
        omega (
          arith,
          now,
          run_task-left events (happen cancelled_error is_timeout e t) (happen-IsTask e t h)
              (omega (arith, now)),
        )

    pub run_task-append :
        (before after : List (Event T R)) (t : Task T R)
        → run_task cancelled_error is_timeout (before ++ after) t
          ≡ run_task cancelled_error is_timeout after (run_task cancelled_error is_timeout before t)
    unfolding run_task
    run_task-append [] after t = refl
    run_task-append (e ∷ before) after t =
        run_task-append before after (happen cancelled_error is_timeout e t)

    executed_left :
        (t : Task T R)
        → IsTask t
        → left (happen cancelled_error is_timeout Event.executes t).progress ≤ 8
    unfolding happen start_execute
    executed_left t h = ground (arith, h.state_is)

    -- In every order of the accesses of the threads, a task has called its callback at most once,
    -- and exactly once where its state is completed.
    pub run_task-calls :
        (events : List (Event T R))
        → (length (run_task cancelled_error is_timeout events new_task).calls ≤ 1)
          × ((run_task cancelled_error is_timeout events new_task).state ≡ completed
              → length (run_task cancelled_error is_timeout events new_task).calls ≡ 1)
    run_task-calls events =
        let h = run_task-IsTask events new_task new_task-IsTask in
        (ground (arith, h.calls_are), λ done. ground (arith, h.calls_are, h.state_is))

    finished_all :
        (events : List (Event T R))
        → left (run_task cancelled_error is_timeout events new_task).progress ≡ 0
        → ((run_task cancelled_error is_timeout events new_task).state ≡ completed)
          × (length (run_task cancelled_error is_timeout events new_task).calls ≡ 1)
    finished_all events none_left =
        let h = run_task-IsTask events new_task new_task-IsTask in
        (ground (arith, h.state_is), ground (arith, h.calls_are))

    -- When `Execute` has been called, and the thread whose call has started the task goes on at
    -- least eight times, in any order with cancellations and waits before, between and after, then
    -- the task is completed, and it has called its callback exactly once.
    pub run_task-completed :
        (before after : List (Event T R))
        → 8 ≤ proceeds after
        → let t = run_task cancelled_error is_timeout (before ++ Event.executes ∷ after) new_task in
          (t.state ≡ completed) × (length t.calls ≡ 1)
    unfolding run_task
    run_task-completed before after enough =
        let events = before ++ Event.executes ∷ after in
        let t1 = run_task cancelled_error is_timeout before new_task in
        let h1 = run_task-IsTask before new_task new_task-IsTask in
        let t2 = happen cancelled_error is_timeout Event.executes t1 in
        let rest =
          run_task-left after t2 (happen-IsTask Event.executes t1 h1) (executed_left t1 h1) in
        let split =
          ap (λ t. left t.progress) (run_task-append before (Event.executes ∷ after) new_task) in
        finished_all events (omega (arith, rest, split, enough, executed_left t1 h1))
