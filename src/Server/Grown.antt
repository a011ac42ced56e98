-- ===== src/Server/Grown.antt =====
-- What is handed to an event loop stays in line behind what was handed over before.
use echo_net.Base.{
  ℕ, zero, suc, ◌≡◌, refl, sym, ap, ◌∙◌, List, [], ◌∷◌, ◌++◌, append_assoc, append-nil, map, ◌==◌,
  length, Bool-cases, inl, inr,
}
use echo_net.ThreadPool.IoPool.{
  Callback, IoThreadPool, closing, reached, from_connection, post_at, submit, stop_pool,
}
use echo_net.ThreadPool.Conserve.{all_ended}
use echo_net.Reactor.Callbacks.{Loop, posted, stopping}
use echo_net.Reactor.Callbacks as Callbacks
use echo_net.Reactor.Callbacks.Order.{all_of, posts, step-all}
use echo_net.Server.Stopping.{
  System, Stage, serving, closing_at, waiting_closed, stopping_workers, joining, posting,
  waiting_reached, stopping_io, stopped, is_reached, is_closing, all_ran, post, go_on, LoopStep,
  signals, checks, polls, is_interrupted, fails, swaps, runs, loop_event, step_at, Event, submits,
  works, loops, hands_over, accepts, goes_on, step, run,
}

-- The callbacks of the second loop are those of the first, and more behind them.
abbrev pub Grows : Loop Callback → Loop Callback → Type 0
Grows l m = (more : List Callback) × (all_of m ≡ all_of l ++ more)

abbrev pub Grown : List (Loop Callback) → List (Loop Callback) → Type 0
Grown [] [] = Unit {0}
Grown [] (m ∷ ms) = ⊥
Grown (l ∷ ls) [] = ⊥
Grown (l ∷ ls) (m ∷ ms) = Grows l m × Grown ls ms

pub Grown-refl : (ls : List (Loop Callback)) → Grown ls ls
Grown-refl [] = tt
Grown-refl (l ∷ ls) = (([], sym (append-nil (all_of l))), Grown-refl ls)

Grows-trans : (l m n : Loop Callback) → Grows l m → Grows m n → Grows l n
Grows-trans l m n (xs, e) (ys, f) = (xs ++ ys, f ∙ ap (◌++ ys) e ∙ append_assoc (all_of l) xs ys)

pub Grown-trans : (ls ms ns : List (Loop Callback)) → Grown ls ms → Grown ms ns → Grown ls ns
Grown-trans [] [] [] g h = tt
Grown-trans [] [] (n ∷ ns) g h = elim h [ ]
Grown-trans [] (m ∷ ms) ns g h = elim g [ ]
Grown-trans (l ∷ ls) [] ns g h = elim g [ ]
Grown-trans (l ∷ ls) (m ∷ ms) [] g h = elim h [ ]
Grown-trans (l ∷ ls) (m ∷ ms) (n ∷ ns) (g, gs) (h, hs) =
    (Grows-trans l m n g h, Grown-trans ls ms ns gs hs)

pub post_at-Grown : (ls : List (Loop Callback)) (j : ℕ) (c : Callback) → Grown ls (post_at ls j c)
unfolding post_at
post_at-Grown [] j c = tt
post_at-Grown (l ∷ ls) zero c = ((c ∷ [], step-all l (posted c)), Grown-refl ls)
post_at-Grown (l ∷ ls) (suc j) c = (([], sym (append-nil (all_of l))), post_at-Grown ls j c)

-- A step of the loop hands nothing over.
pub no_posts : (e : LoopStep) → posts (loop_event e) ≡ []
unfolding loop_event
no_posts signals = refl
no_posts checks = refl
no_posts polls = refl
no_posts is_interrupted = refl
no_posts fails = refl
no_posts swaps = refl
no_posts runs = refl

pub step_at-Grown : (ls : List (Loop Callback)) (j : ℕ) (e : LoopStep) → Grown ls (step_at ls j e)
unfolding step_at
step_at-Grown [] j e = tt
step_at-Grown (l ∷ ls) zero e = ((posts (loop_event e), step-all l (loop_event e)), Grown-refl ls)
step_at-Grown (l ∷ ls) (suc j) e = (([], sym (append-nil (all_of l))), step_at-Grown ls j e)

stop_all-Grown : (ls : List (Loop Callback)) → Grown ls (map (λ l. Callbacks.step l stopping) ls)
stop_all-Grown [] = tt
stop_all-Grown (l ∷ ls) = (([], step-all l stopping), stop_all-Grown ls)

stop_pool-Grown : (p : IoThreadPool) → Grown p.loops (stop_pool p).loops
unfolding stop_pool
stop_pool-Grown p = elim (Bool-cases p.stop) [
  | inl b ↦ rw b (Grown-refl p.loops)
  | inr b ↦ rw b (stop_all-Grown p.loops)
]

go_on-Grown : (g : Stage) (s : System) → Grown s.io.loops (go_on g s).io.loops
unfolding go_on post
go_on-Grown serving s = Grown-refl s.io.loops
go_on-Grown (closing_at j) s = elim (Bool-cases (j == length s.io.loops)) [
  | inl b ↦ rw b (Grown-refl s.io.loops)
  | inr b ↦ rw b (post_at-Grown s.io.loops j (closing 0))
]
go_on-Grown waiting_closed s = elim (Bool-cases (all_ran is_closing s.io.loops)) [
  | inl b ↦ rw b (Grown-refl s.io.loops)
  | inr b ↦ rw b (Grown-refl s.io.loops)
]
go_on-Grown stopping_workers s = Grown-refl s.io.loops
go_on-Grown joining s = elim (Bool-cases (all_ended s.workers.workers)) [
  | inl b ↦ rw b (Grown-refl s.io.loops)
  | inr b ↦ rw b (Grown-refl s.io.loops)
]
go_on-Grown (posting j) s = elim (Bool-cases (j == length s.io.loops)) [
  | inl b ↦ rw b (Grown-refl s.io.loops)
  | inr b ↦ rw b (post_at-Grown s.io.loops j (reached 1))
]
go_on-Grown waiting_reached s = elim (Bool-cases (all_ran is_reached s.io.loops)) [
  | inl b ↦ rw b (Grown-refl s.io.loops)
  | inr b ↦ rw b (Grown-refl s.io.loops)
]
go_on-Grown stopping_io s = stop_pool-Grown s.io
go_on-Grown stopped s = Grown-refl s.io.loops

step-Grown : (s : System) (e : Event) → Grown s.io.loops (step s e).io.loops
unfolding step post submit
step-Grown s (submits t) = Grown-refl s.io.loops
step-Grown s (works i) = Grown-refl s.io.loops
step-Grown s (loops j e) = step_at-Grown s.io.loops j e
step-Grown s (hands_over j n) = post_at-Grown s.io.loops j (from_connection n)
step-Grown s (accepts fd) = post_at-Grown s.io.loops _ _
step-Grown s goes_on = go_on-Grown s.stage s

pub run-Grown : (s : System) (es : List Event) → Grown s.io.loops (run s es).io.loops
unfolding run
run-Grown s [] = Grown-refl s.io.loops
run-Grown s (e ∷ es) =
    Grown-trans s.io.loops (step s e).io.loops (run (step s e) es).io.loops (step-Grown s e)
      (run-Grown (step s e) es)
