-- ===== src/Reactor/Callbacks/Wakeup.antt =====
-- No wake-up is lost.
use echo_net.Base.{
  ℕ, zero, suc, ◌+◌, ◌<◌, ◌≡◌, refl, ◌⊎◌, inl, inr, List, [], ◌∷◌, Bool, true, false, arith, ltb,
  length, Bool-cases, ap,
}
use echo_net.Reactor.Callbacks.{
  interrupt, interrupted, Loop, Phase, Event, checking, waiting, draining, ended, running, posted,
  stopping, signalled, checked, polled, failed, swapped, ran, step, run, wake_up, check_stop, poll,
  fail, swap, run_next, new_loop,
}

module _ {A : Type 0} where
  abbrev pub is_draining : Phase A → Bool
  is_draining draining = true
  is_draining checking = false
  is_draining waiting = false
  is_draining ended = false
  is_draining (running ts) = false

  -- Whoever put a callback into the queue has written to the eventfd, or will, or the loop is about
  -- to take the queue.
  abbrev pub IsAwake : Loop A → Type 0
  IsAwake l = 0 < length l.task_queue → (0 < l.counter + l.writers) ⊎ (is_draining l.phase ≡ true)

  wake_up-IsAwake : (l : Loop A) (n : ℕ) → l.writers ≡ n → IsAwake l → IsAwake (wake_up l n)
  unfolding wake_up
  wake_up-IsAwake l zero e h = h
  wake_up-IsAwake l (suc n) e h = λ q. inl (ground arith)

  check_stop-IsAwake :
      (l : Loop A) (p : Phase A) → l.phase ≡ p → IsAwake l → IsAwake (check_stop l p)
  unfolding check_stop
  check_stop-IsAwake l checking e h =
      λ q. elim (h q) [ inl k ↦ inl k | inr d ↦ absurd (ground (arith, d, ap is_draining e)) ]
  check_stop-IsAwake l waiting e h = h
  check_stop-IsAwake l draining e h = h
  check_stop-IsAwake l ended e h = h
  check_stop-IsAwake l (running ts) e h = h

  poll-IsAwake : (l : Loop A) (p : Phase A) → l.phase ≡ p → IsAwake l → IsAwake (poll l p)
  unfolding poll
  poll-IsAwake l checking e h = h
  poll-IsAwake l waiting e h = elim (Bool-cases (ltb 0 l.counter)) [
    | inl b ↦ rw b (λ q. inr refl)
    | inr b ↦
        rw b
          (λ q. elim (h q) [ inl k ↦ inl k | inr d ↦ absurd (ground (arith, d, ap is_draining e)) ])
  ]
  poll-IsAwake l draining e h = h
  poll-IsAwake l ended e h = h
  poll-IsAwake l (running ts) e h = h

  interrupt-IsAwake : (l : Loop A) (p : Phase A) → l.phase ≡ p → IsAwake l → IsAwake (interrupt l p)
  unfolding interrupt
  interrupt-IsAwake l checking e h = h
  interrupt-IsAwake l waiting e h =
      λ q. elim (h q) [ inl k ↦ inl k | inr d ↦ absurd (ground (arith, d, ap is_draining e)) ]
  interrupt-IsAwake l draining e h = h
  interrupt-IsAwake l ended e h = h
  interrupt-IsAwake l (running ts) e h = h

  fail-IsAwake : (l : Loop A) (p : Phase A) → l.phase ≡ p → IsAwake l → IsAwake (fail l p)
  unfolding fail
  fail-IsAwake l checking e h = h
  fail-IsAwake l waiting e h =
      λ q. elim (h q) [ inl k ↦ inl k | inr d ↦ absurd (ground (arith, d, ap is_draining e)) ]
  fail-IsAwake l draining e h = h
  fail-IsAwake l ended e h = h
  fail-IsAwake l (running ts) e h = h

  swap-IsAwake : (l : Loop A) (p : Phase A) → IsAwake l → IsAwake (swap l p)
  unfolding swap
  swap-IsAwake l checking h = h
  swap-IsAwake l waiting h = h
  swap-IsAwake l draining h = λ q. absurd (omega arith)
  swap-IsAwake l ended h = h
  swap-IsAwake l (running ts) h = h

  run_next-IsAwake : (l : Loop A) (p : Phase A) → l.phase ≡ p → IsAwake l → IsAwake (run_next l p)
  unfolding run_next
  run_next-IsAwake l checking e h = h
  run_next-IsAwake l waiting e h = h
  run_next-IsAwake l draining e h = h
  run_next-IsAwake l ended e h = h
  run_next-IsAwake l (running []) e h =
      λ q. elim (h q) [ inl k ↦ inl k | inr d ↦ absurd (ground (arith, d, ap is_draining e)) ]
  run_next-IsAwake l (running (t ∷ ts)) e h =
      λ q. elim (h q) [ inl k ↦ inl k | inr d ↦ absurd (ground (arith, d, ap is_draining e)) ]

  pub step-IsAwake : (l : Loop A) (e : Event A) → IsAwake l → IsAwake (step l e)
  unfolding step
  step-IsAwake l (posted t) h = λ q. inl (omega arith)
  step-IsAwake l stopping h = λ q. inl (omega arith)
  step-IsAwake l signalled h = wake_up-IsAwake l l.writers refl h
  step-IsAwake l checked h = check_stop-IsAwake l l.phase refl h
  step-IsAwake l polled h = poll-IsAwake l l.phase refl h
  step-IsAwake l interrupted h = interrupt-IsAwake l l.phase refl h
  step-IsAwake l failed h = fail-IsAwake l l.phase refl h
  step-IsAwake l swapped h = swap-IsAwake l l.phase h
  step-IsAwake l ran h = run_next-IsAwake l l.phase refl h

  pub run-IsAwake : (l : Loop A) (es : List (Event A)) → IsAwake l → IsAwake (run l es)
  unfolding run
  run-IsAwake l [] h = h
  run-IsAwake l (e ∷ es) h = run-IsAwake (step l e) es (step-IsAwake l e h)

pub new_loop-IsAwake : (A : Type 0) → IsAwake (new_loop {A = A})
unfolding new_loop
new_loop-IsAwake A = λ q. absurd (omega arith)
