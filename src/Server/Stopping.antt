-- ===== src/Server/Stopping.antt =====
-- `Server::stop`, from the close of all connections on, as a thread among the workers and the event
-- loops. Each of its waits is a step that is taken when what it waits for is there. The steps before,
-- about the acceptor and the listening socket, touch neither.
use echo_net.Base.{
  ℕ, zero, suc, List, [], ◌∷◌, Bool, true, false, ◌&&◌, ◌||◌, if◌then◌else◌, ◌==◌, length,
}
use echo_net.ThreadPool.TaskQueue.{Task}
use echo_net.ThreadPool.Workers.{WorkThreadPool, Worker, ended, new_pool}
use echo_net.ThreadPool.Workers as Workers
use echo_net.ThreadPool.Conserve.{all_ended}
use echo_net.ThreadPool.IoPool.{
  Callback, closing, reached, from_connection, IoThreadPool, new_io_pool, post_at, submit,
  stop_pool,
}
use echo_net.Reactor.Callbacks.{Loop, signalled, checked, polled, interrupted, failed, swapped, ran}
use echo_net.Reactor.Callbacks as Callbacks

-- Where `stop` is: not called; posting the close to the loops, with those that have it; waiting for
-- them; about to stop the workers; joining them; posting the barrier; waiting for it; past it.
pub data Stage : Type 0 where
  serving waiting_closed stopping_workers joining waiting_reached stopping_io stopped : Stage
  closing_at posting : ℕ → Stage

pub record System : Type 0 where
  pub workers : WorkThreadPool
  pub io : IoThreadPool
  pub stage : Stage

unfoldable pub new_system : ℕ → ℕ → System
new_system work_threads io_threads = record {
  workers = new_pool work_threads;
  io = new_io_pool io_threads;
  stage = serving;
}

-- Whether a callback fulfils the promise of the barrier, or that of the close.
unfoldable pub is_reached : Callback → Bool
is_reached (reached n) = true
is_reached _ = false

unfoldable pub is_closing : Callback → Bool
is_closing (closing n) = true
is_closing _ = false

unfoldable pub has : (Callback → Bool) → List Callback → Bool
has p [] = false
has p (c ∷ cs) = p c || has p cs

-- The promises of all loops are fulfilled.
unfoldable pub all_ran : (Callback → Bool) → List (Loop Callback) → Bool
unfolding has
all_ran p [] = true
all_ran p (l ∷ ls) = has p l.executed && all_ran p ls

unfoldable pub post : ℕ → Callback → System → System
unfolding post_at
post j c s = record s { io = record s.io { loops = post_at s.io.loops j c } }

-- The next step of `stop`.
unfoldable pub go_on : Stage → System → System
unfolding post all_ran is_reached is_closing stop_pool
go_on serving s = record s { stage = closing_at 0 }
go_on (closing_at j) s =
    if j == length s.io.loops
    then record s { stage = waiting_closed }
    else record (post j (closing 0) s) { stage = closing_at (suc j) }
go_on waiting_closed s =
    if all_ran is_closing s.io.loops then record s { stage = stopping_workers } else s
go_on stopping_workers s = record s { workers = Workers.stop_pool s.workers; stage = joining }
go_on joining s = if all_ended s.workers.workers then record s { stage = posting 0 } else s
go_on (posting j) s =
    if j == length s.io.loops
    then record s { stage = waiting_reached }
    else record (post j (reached 1) s) { stage = posting (suc j) }
go_on waiting_reached s =
    if all_ran is_reached s.io.loops then record s { stage = stopping_io } else s
go_on stopping_io s = record s { io = stop_pool s.io; stage = stopped }
go_on stopped s = s

-- A step of the thread of a loop, or of a thread that writes to its eventfd.
pub data LoopStep : Type 0 where
  signals checks polls is_interrupted fails swaps runs : LoopStep

unfoldable pub loop_event : LoopStep → Callbacks.Event Callback
loop_event signals = signalled
loop_event checks = checked
loop_event polls = polled
loop_event is_interrupted = interrupted
loop_event fails = failed
loop_event swaps = swapped
loop_event runs = ran

unfoldable pub step_at : List (Loop Callback) → ℕ → LoopStep → List (Loop Callback)
unfolding loop_event
step_at [] i e = []
step_at (l ∷ ls) zero e = Callbacks.step l (loop_event e) ∷ ls
step_at (l ∷ ls) (suc i) e = l ∷ step_at ls i e

-- What may happen next in the server: a task is submitted, a worker or a loop makes a step, a
-- connection hands something to its loop, a descriptor is accepted, or `stop` goes on.
pub data Event : Type 0 where
  submits : Task → Event
  works : ℕ → Event
  loops : ℕ → LoopStep → Event
  hands_over : ℕ → ℕ → Event
  accepts : ℕ → Event
  goes_on : Event

unfoldable pub step : System → Event → System
unfolding post go_on step_at submit
step s (submits t) = record s { workers = Workers.step s.workers (Workers.submits t) }
step s (works i) = record s { workers = Workers.step s.workers (Workers.works i) }
step s (loops j e) = record s { io = record s.io { loops = step_at s.io.loops j e } }
step s (hands_over j n) = post j (from_connection n) s
step s (accepts fd) = record s { io = submit fd s.io }
step s goes_on = go_on s.stage s

unfoldable pub run : System → List Event → System
unfolding step
run s [] = s
run s (e ∷ es) = run (step s e) es
