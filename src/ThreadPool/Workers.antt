-- ===== src/ThreadPool/Workers.antt =====
-- src/ThreadPool/WorkThreadPool.cpp: submission, and the threads, whose steps may come in any order.
-- What a task throws is caught and logged, so that a step is the same whether it throws or not.
use echo_net.Base.{
  ℕ, List, [], ◌∷◌, ◌++◌, Option, some, none, if◌then◌else◌, ◌==◌, get_elem?, set, replicate,
}
use echo_net.ThreadPool.TaskQueue.{
  Task, TaskQueue, new_queue, try_push, Popped, waits, empty_task, popped, pop, stop,
}

-- Where a thread is in `worker`: about to pop, with a task to execute, or out of its loop.
pub data Worker : Type 0 where
  waiting : Worker
  busy : Task → Worker
  ended : Worker

-- `ran`, `refused` and `completed` record the tasks, by number, that were executed or rejected, and
-- those whose `onComplete_` was called.
pub record WorkThreadPool : Type 0 where
  pub tasks : TaskQueue
  pub workers : List Worker
  pub ran : List ℕ
  pub refused : List ℕ
  pub completed : List ℕ

-- The constructor; a number that is not positive is given as 0.
unfoldable pub new_pool : ℕ → WorkThreadPool
unfolding new_queue
new_pool num = record {
  tasks = new_queue;
  workers = replicate (if num == 0 then 4 else num) waiting;
  ran = [];
  refused = [];
  completed = [];
}

abbrev pub call_complete : Task → List ℕ → List ℕ
call_complete t done = if t.has_complete then done ++ t.id ∷ [] else done

unfoldable pub submit : WorkThreadPool → Task → WorkThreadPool
unfolding try_push
submit p t =
    let (taken, q) = try_push p.tasks t in
    if taken
    then record p { tasks = q }
    else record p { refused = p.refused ++ t.id ∷ []; completed = call_complete t p.completed }

-- What a thread does with what `pop` gave it.
unfoldable pub after_pop : WorkThreadPool → ℕ → Popped → WorkThreadPool
after_pop p i waits = p
after_pop p i empty_task = record p { workers = set p.workers i ended }
after_pop p i (popped t q) = record p {
  tasks = q;
  workers = set p.workers i (if t.has_run then busy t else ended);
}

-- One step of the thread `i`.
unfoldable pub work : WorkThreadPool → ℕ → Option Worker → WorkThreadPool
unfolding pop after_pop
work p i none = p
work p i (some waiting) = after_pop p i (pop p.tasks)
work p i (some (busy t)) = record p {
  workers = set p.workers i waiting;
  ran = p.ran ++ t.id ∷ [];
  completed = call_complete t p.completed;
}
work p i (some ended) = p

-- `stop`, up to the threads' joining: a second call changes nothing.
unfoldable pub stop_pool : WorkThreadPool → WorkThreadPool
unfolding stop
stop_pool p = record p { tasks = stop p.tasks }

pub data Event : Type 0 where
  submits : Task → Event
  works : ℕ → Event
  stops : Event

unfoldable pub step : WorkThreadPool → Event → WorkThreadPool
unfolding submit work stop_pool
step p (submits t) = submit p t
step p (works i) = work p i (get_elem? p.workers i)
step p stops = stop_pool p

unfoldable pub run : WorkThreadPool → List Event → WorkThreadPool
unfolding step
run p [] = p
run p (e ∷ es) = run (step p e) es
