-- ===== src/Server/Quiet.antt =====
-- `Server::stop` ends with nothing left to do.
use echo_net.Base.{
  ℕ, ◌≡◌, refl, sym, ap, ◌∙◌, List, [], ◌∷◌, ◌++◌, Bool, true, false, some, arith, append_assoc,
  ◌==◌, get_or, drop, get_elem?, length, Bool-cases, inl, inr,
}
use echo_net.Base.Counts.{count}
use echo_net.ThreadPool.Workers.{ended, new_pool, WorkThreadPool}
use echo_net.ThreadPool.Workers as Workers
use echo_net.ThreadPool.Counts.{Whole, submitted}
use echo_net.ThreadPool.Conserve.{all_ended, drained}
use echo_net.ThreadPool.IoPool.{Callback}
use echo_net.Reactor.Callbacks.{Loop}
use echo_net.Reactor.Callbacks.Order.{all_of, taken}
use echo_net.Server.Grown.{Grown, run-Grown}
use echo_net.Server.Fresh.{Fresh, run-EarlyFresh, new_system-EarlyFresh, is_early}
use echo_net.Server.Stopping.{
  System, Stage, stopping_workers, joining, is_reached, has, all_ran, go_on, Event, submits, works,
  loops, hands_over, accepts, goes_on, step, run, new_system, serving, closing_at, waiting_closed,
  posting, waiting_reached, stopping_io, stopped, post, is_closing,
}

-- What has run, with an element of which all before has none of the kind, reaches over that.
reaches :
    (p : Callback → Bool) (done rest before more : List Callback)
    → done ++ rest ≡ before ++ more
    → has p done ≡ true
    → has p before ≡ false
    → (after : List Callback) × (done ≡ before ++ after)
unfolding has
reaches p [] rest before more e h k = absurd (ground arith)
reaches p (x ∷ done) rest [] more e h k = (x ∷ done, refl)
reaches p (x ∷ done) rest (y ∷ before) more e h k =
    let same : x ≡ y = ap (λ l. get_or l 0 x) e in
    let others : done ++ rest ≡ before ++ more = ap (drop 1) e in
    let none_here : p y ≡ false = ground (arith, k) in
    let (after, f) =
      reaches p done rest before more others (ground (arith, h, ap p same, none_here))
        (ground (arith, k)) in
    (after, ap (◌∷◌ x) f ∙ ap (λ z. z ∷ (before ++ after)) same)

-- Each loop has run all that the earlier one had in line.
abbrev pub AllRun : List (Loop Callback) → List (Loop Callback) → Type 0
AllRun [] ms = Unit {0}
AllRun (l ∷ ls) [] = ⊥
AllRun (l ∷ ls) (m ∷ ms) = ((more : List Callback) × (m.executed ≡ all_of l ++ more)) × AllRun ls ms

has_run_all :
    (ls ms : List (Loop Callback))
    → Grown ls ms
    → Fresh ls
    → all_ran is_reached ms ≡ true
    → AllRun ls ms
unfolding all_ran
has_run_all [] ms g f h = tt
has_run_all (l ∷ ls) [] g f h = elim g [ ]
has_run_all (l ∷ ls) (m ∷ ms) ((more, e), gs) (f, fs) h = (
  reaches is_reached m.executed (taken m.phase ++ m.task_queue) (all_of l) more
      (sym (append_assoc m.executed (taken m.phase) m.task_queue) ∙ e) (ground (arith, h)) f,
  has_run_all ls ms gs fs (ground (arith, h)),
)

-- The events of the worker pool.
unfoldable pub stop_event : Stage → List Workers.Event
stop_event stopping_workers = Workers.stops ∷ []
stop_event _ = []

unfoldable pub worker_event : System → Event → List Workers.Event
unfolding stop_event
worker_event s (submits t) = Workers.submits t ∷ []
worker_event s (works i) = Workers.works i ∷ []
worker_event s goes_on = stop_event s.stage
worker_event s _ = []

unfoldable pub worker_events : System → List Event → List Workers.Event
unfolding worker_event
worker_events s [] = []
worker_events s (e ∷ es) = worker_event s e ++ worker_events (step s e) es

Workers_run-append :
    (p : WorkThreadPool) (xs ys : List Workers.Event)
    → Workers.run p (xs ++ ys) ≡ Workers.run (Workers.run p xs) ys
unfolding Workers.run
Workers_run-append p [] ys = refl
Workers_run-append p (x ∷ xs) ys = Workers_run-append (Workers.step p x) xs ys

go_on-workers :
    (g : Stage) (s : System) → (go_on g s).workers ≡ Workers.run s.workers (stop_event g)
unfolding go_on post stop_event Workers.run Workers.step
go_on-workers serving s = refl
go_on-workers (closing_at j) s = elim (Bool-cases (j == length s.io.loops)) [
  | inl b ↦ rw b refl
  | inr b ↦ rw b refl
]
go_on-workers waiting_closed s = elim (Bool-cases (all_ran is_closing s.io.loops)) [
  | inl b ↦ rw b refl
  | inr b ↦ rw b refl
]
go_on-workers stopping_workers s = refl
go_on-workers joining s = elim (Bool-cases (all_ended s.workers.workers)) [
  | inl b ↦ rw b refl
  | inr b ↦ rw b refl
]
go_on-workers (posting j) s = elim (Bool-cases (j == length s.io.loops)) [
  | inl b ↦ rw b refl
  | inr b ↦ rw b refl
]
go_on-workers waiting_reached s = elim (Bool-cases (all_ran is_reached s.io.loops)) [
  | inl b ↦ rw b refl
  | inr b ↦ rw b refl
]
go_on-workers stopping_io s = refl
go_on-workers stopped s = refl

step-workers :
    (s : System) (e : Event) → (step s e).workers ≡ Workers.run s.workers (worker_event s e)
unfolding step post worker_event Workers.run
step-workers s (submits t) = refl
step-workers s (works i) = refl
step-workers s (loops j e) = refl
step-workers s (hands_over j n) = refl
step-workers s (accepts fd) = refl
step-workers s goes_on = go_on-workers s.stage s

run-workers :
    (s : System) (es : List Event) → (run s es).workers ≡ Workers.run s.workers (worker_events s es)
unfolding run worker_events Workers.run
run-workers s [] = refl
run-workers s (e ∷ es) =
    run-workers (step s e) es
    ∙ ap (λ p. Workers.run p (worker_events (step s e) es)) (step-workers s e)
    ∙ sym (Workers_run-append s.workers (worker_event s e) (worker_events (step s e) es))

from_new :
    (n m : ℕ) (es : List Event)
    → (run (new_system n m) es).workers
      ≡ Workers.run (new_pool n) (worker_events (new_system n m) es)
unfolding new_system
from_new n m es = run-workers (new_system n m) es

-- In every history of the server, with tasks that have both functions: where `stop` is joining the
-- workers and all of these have ended, one at least, no task is left in their queue, and each
-- submission so far was completed once. Where, after any further steps, every event loop has run the
-- callback of the barrier, which ends the last wait of `stop` before the loops are stopped, each loop
-- has run everything that was handed over to it before the joins ended, in its order: no response of a
-- worker and no end of a close is lost.
pub stop_leaves_nothing :
    (work_threads io_threads : ℕ) (es fs : List Event) (k i : ℕ)
    → Whole (worker_events (new_system work_threads io_threads) es)
    → (run (new_system work_threads io_threads) es).stage ≡ joining
    → all_ended (run (new_system work_threads io_threads) es).workers.workers ≡ true
    → get_elem? (run (new_system work_threads io_threads) es).workers.workers i ≡ some ended
    → all_ran is_reached (run (run (new_system work_threads io_threads) es) fs).io.loops ≡ true
    → let start = new_system work_threads io_threads in
      let s = run start es in
      (s.workers.tasks.queue ≡ [])
      × (count k s.workers.completed ≡ count k (submitted (worker_events start es)))
      × AllRun s.io.loops (run s fs).io.loops
unfolding is_early
stop_leaves_nothing work_threads io_threads es fs k i whole at all one ran_all =
    let start = new_system work_threads io_threads in
    let s = run start es in
    let pool = from_new work_threads io_threads es in
    let done =
      drained work_threads (worker_events start es) k i whole
        (ap (λ (p : WorkThreadPool). all_ended p.workers) (sym pool) ∙ all)
        (ap (λ (p : WorkThreadPool). get_elem? p.workers i) (sym pool) ∙ one) in
    (
      ap (λ (p : WorkThreadPool). p.tasks.queue) pool ∙ done.1,
      ap (λ (p : WorkThreadPool). count k p.completed) pool ∙ done.3,
      has_run_all s.io.loops (run s fs).io.loops (run-Grown s fs)
          (run-EarlyFresh start es (new_system-EarlyFresh work_threads io_threads) (ap is_early at))
          ran_all,
    )
