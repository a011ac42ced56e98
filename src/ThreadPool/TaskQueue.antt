-- ===== src/ThreadPool/TaskQueue.antt =====
-- src/ThreadPool/TaskQueue.cpp. Each operation is one critical section.
use echo_net.Base.{ℕ, List, [], ◌∷◌, ◌++◌, Bool, true, false, if◌then◌else◌}

-- include/ThreadPool/Task.h: a task by its number, and whether its two functions are there.
pub record Task : Type 0 where
  pub id : ℕ
  pub has_run : Bool
  pub has_complete : Bool

pub record TaskQueue : Type 0 where
  pub queue : List Task
  pub stopped : Bool

unfoldable pub new_queue : TaskQueue
new_queue = record { queue = []; stopped = false }

unfoldable pub push : TaskQueue → Task → TaskQueue
push q t = record q { queue = q.queue ++ t ∷ [] }

-- `tryPush`
unfoldable pub try_push : TaskQueue → Task → Bool × TaskQueue
try_push q t = if q.stopped then (false, q) else (true, record q { queue = q.queue ++ t ∷ [] })

-- What `pop` does in this state: it waits, it returns an empty task, or it returns a task.
pub data Popped : Type 0 where
  waits : Popped
  empty_task : Popped
  popped : Task → TaskQueue → Popped

unfoldable pub pop_from : Bool → List Task → Popped
pop_from stopped [] = if stopped then empty_task else waits
pop_from stopped (t ∷ ts) = popped t (record { queue = ts; stopped = stopped })

unfoldable pub pop : TaskQueue → Popped
unfolding pop_from
pop q = pop_from q.stopped q.queue

unfoldable pub stop : TaskQueue → TaskQueue
stop q = record q { stopped = true }
