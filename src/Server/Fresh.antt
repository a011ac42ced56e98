-- ===== src/Server/Fresh.antt =====
-- Until the workers have been joined, no event loop has the callback of the barrier.
use echo_net.Base.{
  ℕ, zero, suc, ◌≡◌, refl, ap, ◌∙◌, List, [], ◌∷◌, ◌++◌, Bool, true, false, ◌||◌, replicate, arith,
  ◌==◌, length, Bool-cases, inl, inr,
}
use echo_net.ThreadPool.IoPool.{Callback, closing, from_connection, post_at, submit, new_io_pool}
use echo_net.ThreadPool.Conserve.{all_ended}
use echo_net.Reactor.Callbacks.{Loop, posted, new_loop}
use echo_net.Reactor.Callbacks as Callbacks
use echo_net.Reactor.Callbacks.Order.{all_of, posts, step-all}
use echo_net.Server.Grown.{no_posts}
use echo_net.Server.Stopping.{
  System, Stage, serving, closing_at, waiting_closed, stopping_workers, joining, posting,
  waiting_reached, stopping_io, stopped, is_reached, is_closing, has, all_ran, post, go_on,
  LoopStep, loop_event, step_at, Event, submits, works, loops, hands_over, accepts, goes_on, step,
  run, new_system,
}

pub has-append :
    (p : Callback → Bool) (xs ys : List Callback) → has p (xs ++ ys) ≡ (has p xs || has p ys)
unfolding has
has-append p [] ys = refl
has-append p (x ∷ xs) ys = ground (arith, has-append p xs ys)

abbrev pub Fresh : List (Loop Callback) → Type 0
Fresh [] = Unit {0}
Fresh (l ∷ ls) = (has is_reached (all_of l) ≡ false) × Fresh ls

post-fresh :
    (l : Loop Callback) (c : Callback)
    → is_reached c ≡ false
    → has is_reached (all_of l) ≡ false
    → has is_reached (all_of (Callbacks.step l (posted c))) ≡ false
unfolding has
post-fresh l c e h =
    ap (has is_reached) (step-all l (posted c))
    ∙ has-append is_reached (all_of l) (c ∷ [])
    ∙ ground (arith, e, h)

post_at-Fresh :
    (ls : List (Loop Callback)) (j : ℕ) (c : Callback)
    → is_reached c ≡ false
    → Fresh ls
    → Fresh (post_at ls j c)
unfolding post_at
post_at-Fresh [] j c e f = tt
post_at-Fresh (l ∷ ls) zero c e f = (post-fresh l c e f.0, f.1)
post_at-Fresh (l ∷ ls) (suc j) c e f = (f.0, post_at-Fresh ls j c e f.1)

step-fresh :
    (l : Loop Callback) (e : LoopStep)
    → has is_reached (all_of l) ≡ false
    → has is_reached (all_of (Callbacks.step l (loop_event e))) ≡ false
unfolding has
step-fresh l e h =
    ap (has is_reached) (step-all l (loop_event e))
    ∙ has-append is_reached (all_of l) (posts (loop_event e))
    ∙ ap (λ ps. has is_reached (all_of l) || has is_reached ps) (no_posts e)
    ∙ ground (arith, h)

step_at-Fresh :
    (ls : List (Loop Callback)) (j : ℕ) (e : LoopStep) → Fresh ls → Fresh (step_at ls j e)
unfolding step_at
step_at-Fresh [] j e f = tt
step_at-Fresh (l ∷ ls) zero e f = (step-fresh l e f.0, f.1)
step_at-Fresh (l ∷ ls) (suc j) e f = (f.0, step_at-Fresh ls j e f.1)

-- `stop` has not begun to post the barrier.
unfoldable pub is_early : Stage → Bool
is_early serving = true
is_early (closing_at j) = true
is_early waiting_closed = true
is_early stopping_workers = true
is_early joining = true
is_early _ = false

abbrev pub EarlyFresh : System → Type 0
EarlyFresh s = is_early s.stage ≡ true → Fresh s.io.loops

go_on-EarlyFresh : (g : Stage) (s : System) → s.stage ≡ g → EarlyFresh s → EarlyFresh (go_on g s)
unfolding go_on post is_early is_reached
go_on-EarlyFresh serving s e f = λ h. f (ap is_early e)
go_on-EarlyFresh (closing_at j) s e f = elim (Bool-cases (j == length s.io.loops)) [
  | inl b ↦ rw b (λ h. f (ap is_early e))
  | inr b ↦ rw b (λ h. post_at-Fresh s.io.loops j (closing 0) refl (f (ap is_early e)))
]
go_on-EarlyFresh waiting_closed s e f = elim (Bool-cases (all_ran is_closing s.io.loops)) [
  | inl b ↦ rw b (λ h. f (ap is_early e))
  | inr b ↦ rw b f
]
go_on-EarlyFresh stopping_workers s e f = λ h. f (ap is_early e)
go_on-EarlyFresh joining s e f = elim (Bool-cases (all_ended s.workers.workers)) [
  | inl b ↦ rw b (λ h. absurd (ground arith))
  | inr b ↦ rw b f
]
go_on-EarlyFresh (posting j) s e f = elim (Bool-cases (j == length s.io.loops)) [
  | inl b ↦ rw b (λ h. absurd (ground arith))
  | inr b ↦ rw b (λ h. absurd (ground arith))
]
go_on-EarlyFresh waiting_reached s e f = elim (Bool-cases (all_ran is_reached s.io.loops)) [
  | inl b ↦ rw b (λ h. absurd (ground arith))
  | inr b ↦ rw b f
]
go_on-EarlyFresh stopping_io s e f = λ h. absurd (ground arith)
go_on-EarlyFresh stopped s e f = f

step-EarlyFresh : (s : System) (e : Event) → EarlyFresh s → EarlyFresh (step s e)
unfolding step post submit is_reached
step-EarlyFresh s (submits t) f = f
step-EarlyFresh s (works i) f = f
step-EarlyFresh s (loops j e) f = λ h. step_at-Fresh s.io.loops j e (f h)
step-EarlyFresh s (hands_over j n) f =
    λ h. post_at-Fresh s.io.loops j (from_connection n) refl (f h)
step-EarlyFresh s (accepts fd) f = λ h. post_at-Fresh s.io.loops _ _ refl (f h)
step-EarlyFresh s goes_on f = go_on-EarlyFresh s.stage s refl f

pub run-EarlyFresh : (s : System) (es : List Event) → EarlyFresh s → EarlyFresh (run s es)
unfolding run
run-EarlyFresh s [] f = f
run-EarlyFresh s (e ∷ es) f = run-EarlyFresh (step s e) es (step-EarlyFresh s e f)

new-Fresh : (n : ℕ) → Fresh (replicate n new_loop)
unfolding new_loop has
new-Fresh zero = tt
new-Fresh (suc n) = (refl, new-Fresh n)

pub new_system-EarlyFresh : (n m : ℕ) → EarlyFresh (new_system n m)
unfolding new_system new_io_pool
new_system-EarlyFresh n m = λ h. new-Fresh _
