-- ===== src/Tests/Pool.antt =====
-- The worker threads.
use echo_net.Base.{ℕ, ◌+◌, ◌≡◌, refl, List, [], ◌∷◌, true}
use echo_net.Base.Counts.{count}
use echo_net.ThreadPool.TaskQueue.{Task}
use echo_net.ThreadPool.Workers.{Event, submits, works, stops, run, new_pool}
use echo_net.ThreadPool.Counts.{Whole, submitted, in_queue, in_hands}
use echo_net.ThreadPool.Conserve.{tasks_conserved, drained}
use Prim.{tt}

abbrev job : ℕ → Task
job n = record { id = n; has_run = true; has_complete = true }

-- Two threads, three tasks, the last of which comes too late.
abbrev history : List Event
history =
    submits (job 1)
    ∷ submits (job 2)
    ∷ works 0
    ∷ works 1
    ∷ stops
    ∷ submits (job 3)
    ∷ works 1
    ∷ works 1
    ∷ works 0
    ∷ works 0
    ∷ []

history-Whole : Whole history
history-Whole = (refl, refl, (refl, refl, (refl, refl, tt)))

tasks_conserved_example :
    let p = run (new_pool 2) history in
    (in_queue 3 p.tasks.queue + in_hands 3 p.workers + count 3 p.ran + count 3 p.refused
      ≡ count 3 (submitted history))
    × (count 3 p.completed ≡ count 3 p.ran + count 3 p.refused)
tasks_conserved_example = tasks_conserved 2 history 3 history-Whole

drained_example :
    let p = run (new_pool 2) history in
    (p.tasks.stopped ≡ true)
    × (p.tasks.queue ≡ [])
    × (count 2 p.ran + count 2 p.refused ≡ count 2 (submitted history))
    × (count 2 p.completed ≡ count 2 (submitted history))
unfolding run new_pool
drained_example = drained 2 history 2 1 history-Whole refl refl
