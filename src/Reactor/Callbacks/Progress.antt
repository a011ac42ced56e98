-- ===== src/Reactor/Callbacks/Progress.antt =====
-- Every callback that was handed over is run.
use echo_net.Base.{
  ℕ, zero, suc, ◌+◌, ◌-◌, ◌≤◌, ◌<◌, ◌≡◌, refl, sym, ap, ◌∙◌, ◌⊎◌, inl, inr, List, [], ◌∷◌, ◌++◌,
  Bool, true, false, arith, if◌then◌else◌, ltb, ◌==◌, length, Bool-cases, append-nil,
}
use echo_net.Reactor.Callbacks.{
  Loop, Phase, Event, checking, waiting, draining, ended, running, step, run, check_stop, poll,
  swap, run_next, new_loop, advance, next_event,
}
use echo_net.Reactor.Callbacks.Order.{taken, all_of, all_posts, run-all, step-all, posts}
use echo_net.Reactor.Callbacks.Wakeup.{
  IsAwake, is_draining, step-IsAwake, run-IsAwake, new_loop-IsAwake,
}

module _ {A : Type 0} where
  abbrev pub is_ended : Phase A → Bool
  is_ended ended = true
  is_ended checking = false
  is_ended waiting = false
  is_ended draining = false
  is_ended (running ts) = false

  -- The loop goes on, and no thread is on its way to the eventfd.
  pub record IsGoing (l : Loop A) : Type 0 where
    pub awake : IsAwake l
    pub no_writers : l.writers ≡ 0
    pub going : l.stop ≡ false
    pub not_ended : is_ended l.phase ≡ false

  -- The steps up to the last callback, where `q` are in the queue.
  abbrev pub steps_left : ℕ → Phase A → ℕ
  steps_left q checking = if q == 0 then 0 else 3 + q
  steps_left q waiting = if q == 0 then 0 else 2 + q
  steps_left q draining = if q == 0 then 0 else 1 + q
  steps_left q ended = 0
  steps_left q (running ts) = length ts + (if q == 0 then 0 else 4 + q)

  abbrev pub left : Loop A → ℕ
  left l = steps_left (length l.task_queue) l.phase

  no_queue :
      (q : List A) (l : Loop A)
      → (0 < length q → (0 < l.counter + l.writers) ⊎ (is_draining l.phase ≡ true))
      → l.phase ≡ waiting
      → l.writers ≡ 0
      → ltb 0 l.counter ≡ false
      → length q ≡ 0
  no_queue [] l awake e w b = refl
  no_queue (t ∷ q) l awake e w b = elim (awake (omega arith)) [
    | inl k ↦ absurd (ground arith)
    | inr d ↦ absurd (ground (arith, d, ap is_draining e))
  ]

  -- A loop that waits with a counter of 0 has nothing to run.
  nothing_left :
      (l : Loop A)
      → l.phase ≡ waiting
      → IsGoing l
      → ltb 0 l.counter ≡ false
      → length l.task_queue ≡ 0
  nothing_left l e h b = no_queue l.task_queue l h.awake e h.no_writers b

  move-left :
      (l : Loop A) (p : Phase A)
      → l.phase ≡ p
      → IsGoing l
      → (left (step l (next_event p)) ≤ steps_left (length l.task_queue) p - 1)
        × ((step l (next_event p)).writers ≡ 0)
        × ((step l (next_event p)).stop ≡ false)
        × (is_ended (step l (next_event p)).phase ≡ false)
  unfolding step next_event check_stop poll swap run_next
  move-left l checking e h = rw (e, h.going) (ground arith, h.no_writers, refl, refl)
  move-left l waiting e h = elim (Bool-cases (ltb 0 l.counter)) [
    | inl b ↦ rw (e, b) (ground arith, h.no_writers, h.going, refl)
    | inr b ↦ rw (e, b) (ground (arith, nothing_left l e h b), h.no_writers, h.going, refl)
  ]
  move-left l draining e h = rw e (ground arith, h.no_writers, h.going, refl)
  move-left l ended e h = absurd (ground (arith, h.not_ended, ap is_ended e))
  move-left l (running []) e h = rw e (ground arith, h.no_writers, h.going, refl)
  move-left l (running (t ∷ ts)) e h = rw e (ground arith, h.no_writers, h.going, refl)

  next-IsGoing : (l : Loop A) → IsGoing l → IsGoing (step l (next_event l.phase))
  next-IsGoing l h =
      let (less, w, g, n) = move-left l l.phase refl h in
      record {
        awake = step-IsAwake l (next_event l.phase) h.awake;
        no_writers = w;
        going = g;
        not_ended = n;
      }

  two_empty : (x : List A) → x ≡ x ++ [] ++ []
  two_empty x = sym (append-nil (x ++ []) ∙ append-nil x)

  done-empty :
      (q : List A) (p : Phase A) (executed : List A)
      → is_ended p ≡ false
      → steps_left (length q) p ≡ 0
      → executed ≡ executed ++ taken p ++ q
  done-empty [] checking x n h = two_empty x
  done-empty [] waiting x n h = two_empty x
  done-empty [] draining x n h = two_empty x
  done-empty [] ended x n h = absurd (ground arith)
  done-empty [] (running []) x n h = two_empty x
  done-empty [] (running (t ∷ ts)) x n h = absurd (omega arith)
  done-empty (t ∷ q) checking x n h = absurd (ground arith)
  done-empty (t ∷ q) waiting x n h = absurd (ground arith)
  done-empty (t ∷ q) draining x n h = absurd (ground arith)
  done-empty (t ∷ q) ended x n h = absurd (ground arith)
  done-empty (t ∷ q) (running ts) x n h = absurd (ground arith)

  next-posts : (p : Phase A) → posts (next_event p) ≡ []
  unfolding next_event
  next-posts checking = refl
  next-posts waiting = refl
  next-posts draining = refl
  next-posts ended = refl
  next-posts (running ts) = refl

  next-all : (l : Loop A) → all_of (step l (next_event l.phase)) ≡ all_of l
  next-all l =
      step-all l (next_event l.phase)
      ∙ ap (◌++◌ (all_of l)) (next-posts l.phase)
      ∙ append-nil (all_of l)

  advance-executed :
      (n : ℕ) (l : Loop A) → IsGoing l → left l ≤ n → (advance n l).executed ≡ all_of l
  unfolding advance
  advance-executed zero l h k = done-empty l.task_queue l.phase l.executed h.not_ended (omega arith)
  advance-executed (suc n) l h k =
      let moved = move-left l l.phase refl h in
      advance-executed n (step l (next_event l.phase)) (next-IsGoing l h) (omega (arith, moved.0))
      ∙ next-all l

  -- In any order of the steps of the threads: once no thread is between the queue and its write to
  -- the eventfd, and the loop is neither stopped nor ended, the loop alone runs every callback that
  -- was handed over, each once and in order, within a bounded number of its steps. No wake-up is lost.
  pub posted_are_run :
      (es : List (Event A)) (n : ℕ)
      → (run new_loop es).writers ≡ 0
      → (run new_loop es).stop ≡ false
      → is_ended (run new_loop es).phase ≡ false
      → left (run new_loop es) ≤ n
      → (advance n (run new_loop es)).executed ≡ all_posts es
  unfolding new_loop
  posted_are_run es n w g e k =
      advance-executed n (run new_loop es)
        (record {
          awake = run-IsAwake new_loop es (new_loop-IsAwake A);
          no_writers = w;
          going = g;
          not_ended = e;
        })
        k
      ∙ run-all new_loop es
