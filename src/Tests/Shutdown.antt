-- ===== src/Tests/Shutdown.antt =====
-- The end of the server at a concrete input: one worker, one event loop, a task and a response.
use echo_net.Base.{◌≡◌, refl, List, [], ◌∷◌, ◌++◌, true}
use echo_net.Base.Counts.{count}
use echo_net.ThreadPool.TaskQueue.{Task}
use echo_net.ThreadPool.Counts.{submitted}
use echo_net.Server.Stopping.{
  Event, submits, works, loops, hands_over, goes_on, signals, checks, polls, swaps, runs, run,
  new_system,
}
use echo_net.Server.Quiet.{worker_events, AllRun, stop_leaves_nothing}
use echo_net.Server.Stopping.{
  go_on, post, step_at, loop_event, all_ran, has, is_reached, is_closing,
}
use echo_net.Server.Stopping
use echo_net.Server.Quiet.{worker_event, stop_event}
use echo_net.Reactor.Callbacks
use echo_net.Reactor.Callbacks.{new_loop, wake_up, check_stop, poll, swap, run_next}
use echo_net.ThreadPool.Workers
use echo_net.ThreadPool.Workers.{new_pool, submit, work, after_pop, stop_pool}
use echo_net.ThreadPool.TaskQueue.{new_queue, pop, try_push}
use echo_net.ThreadPool.IoPool.{new_io_pool, post_at}
use Prim.{tt}

abbrev job : Task
job = record { id = 1; has_run = true; has_complete = true }

-- The loop wakes up and takes what is in its queue.
abbrev wakes : List Event
wakes = loops 0 signals ∷ loops 0 checks ∷ loops 0 polls ∷ loops 0 swaps ∷ loops 0 runs ∷ []

-- Up to the join: the worker hands a response to the loop before it ends.
abbrev before : List Event
before =
    (submits job ∷ goes_on ∷ goes_on ∷ goes_on ∷ [])
    ++ wakes
    ++ goes_on ∷ goes_on ∷ works 0 ∷ hands_over 0 5 ∷ works 0 ∷ works 0 ∷ []

abbrev after : List Event
after = (goes_on ∷ goes_on ∷ goes_on ∷ loops 0 runs ∷ []) ++ wakes ++ loops 0 runs ∷ []

stop_leaves_nothing_example :
    let s = run (new_system 1 1) before in
    (s.workers.tasks.queue ≡ [])
    × (count 1 s.workers.completed ≡ count 1 (submitted (worker_events (new_system 1 1) before)))
    × AllRun s.io.loops (run s after).io.loops
unfolding worker_events worker_event stop_event run echo_net.Server.Stopping.step new_system
    new_io_pool new_pool new_queue go_on post post_at step_at loop_event all_ran has is_reached
    is_closing echo_net.Reactor.Callbacks.step new_loop wake_up check_stop poll swap run_next
    echo_net.ThreadPool.Workers.step submit work after_pop pop try_push stop_pool
stop_leaves_nothing_example =
    stop_leaves_nothing 1 1 before after 1 0 (refl, refl, tt) refl refl refl refl
