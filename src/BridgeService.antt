-- ===== src/BridgeService.antt =====
-- The tasks that other threads hand to an event loop, of asio/src/details/bridge_service.cc. The
-- mutex makes each critical section one step, so that threads interleave as a sequence of steps.
pub mod Order
mod Tests
use lcy.Prelude.{
  ℕ, suc, ◌+◌, ◌-◌, ◌^◌, ◌<◌, ◌≡◌, Bool, true, false, List, [], ◌∷◌, ◌++◌, ltb, if◌then◌else◌,
}

-- The value of the eventfd, the tasks in the list, and those that `execute` has taken over and has
-- not run yet; and what was pushed and what was run so far, in order.
pub record Bridge (Task : Type 0) : Type 0 where
  pub event_fd : ℕ
  pub task_list : List Task
  pub tmp_task_list : List Task
  pub pushed : List Task
  pub done : List Task

abbrev pub fresh : {Task : Type 0} → Bridge Task
fresh = record { event_fd = 0; task_list = []; tmp_task_list = []; pushed = []; done = [] }

-- `write_eventfd`: a counter of 64 bits, whose write fails, unseen, at its greatest value 2 ^ 64 - 2.
unfoldable pub write_eventfd : ℕ → ℕ
write_eventfd n = if ltb n (2 ^ 64 - 2) then n + 1 else n

module _ {Task : Type 0} where
  -- `push`
  unfoldable pub push : Task → Bridge Task → Bridge Task
  push t s = record s {
    event_fd = write_eventfd s.event_fd;
    task_list = s.task_list ++ (t ∷ []);
    pushed = s.pushed ++ (t ∷ []);
  }

  -- `batch`
  unfoldable pub batch : List Task → Bridge Task → Bridge Task
  batch ts s = record s {
    event_fd = write_eventfd s.event_fd;
    task_list = s.task_list ++ ts;
    pushed = s.pushed ++ ts;
  }

  -- The critical section of `execute`: the counter is read, which clears it, and the list is moved.
  unfoldable pub take_over : Bridge Task → Bridge Task
  take_over s = record s { event_fd = 0; task_list = []; tmp_task_list = s.task_list }

  -- A round of the loop of `execute`
  unfoldable pub run_task : Task → List Task → Bridge Task → Bridge Task
  run_task t ts s = record s { tmp_task_list = ts; done = s.done ++ (t ∷ []) }

  -- A step of any thread. The reactor calls `execute` without an error while the eventfd can be
  -- read, and calls nothing else until it ends; a call with an error does nothing.
  pub data Step (s : Bridge Task) : Bridge Task → Type 0 where
    pushes : (t : Task) → Step s (push t s)
    batches : (ts : List Task) → Step s (batch ts s)
    executes : 0 < s.event_fd → s.tmp_task_list ≡ [] → Step s (take_over s)
    runs : (t : Task) (ts : List Task) → s.tmp_task_list ≡ t ∷ ts → Step s (run_task t ts s)

  -- The states that are reached from one.
  pub data Reach (s : Bridge Task) : Bridge Task → Type 0 where
    here : Reach s s
    next : {t u : Bridge Task} → Reach s t → Step t u → Reach s u
