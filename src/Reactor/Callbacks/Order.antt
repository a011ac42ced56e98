-- ===== src/Reactor/Callbacks/Order.antt =====
-- No callback is lost, run twice or overtaken.
use echo_net.Base.{
  get_or, drop, ℕ, zero, suc, ◌≡◌, refl, sym, ap, ◌∙◌, List, [], ◌∷◌, ◌++◌, ltb, append_assoc,
  append-nil, Bool-cases, inl, inr,
}
use mathlib.Core.List.{Memᴰ}
use mathlib.Core.List.Memᴰ.{head, tail}
use echo_net.Reactor.Callbacks.{
  interrupt, interrupted, Loop, Phase, Event, checking, waiting, draining, ended, running, posted,
  stopping, signalled, checked, polled, failed, swapped, ran, step, run, wake_up, check_stop, poll,
  fail, swap, run_next, new_loop,
}

module _ {A : Type 0} where
  -- The callbacks that are taken from the queue, and not run.
  abbrev pub taken : Phase A → List A
  taken (running ts) = ts
  taken checking = []
  taken waiting = []
  taken draining = []
  taken ended = []

  -- Every callback so far, the oldest first.
  abbrev pub all_of : Loop A → List A
  all_of l = l.executed ++ taken l.phase ++ l.task_queue

  abbrev pub posts : Event A → List A
  posts (posted t) = t ∷ []
  posts stopping = []
  posts signalled = []
  posts checked = []
  posts polled = []
  posts interrupted = []
  posts failed = []
  posts swapped = []
  posts ran = []

  unfoldable pub all_posts : List (Event A) → List A
  all_posts [] = []
  all_posts (e ∷ es) = posts e ++ all_posts es

  -- A loop in which the phase is the one given.
  abbrev at_phase : Loop A → Phase A → List A
  at_phase l p = l.executed ++ taken p ++ l.task_queue

  wake_up-all : (l : Loop A) (n : ℕ) → all_of (wake_up l n) ≡ all_of l
  unfolding wake_up
  wake_up-all l zero = refl
  wake_up-all l (suc n) = refl

  check_stop-all : (l : Loop A) (p : Phase A) → l.phase ≡ p → all_of (check_stop l p) ≡ at_phase l p
  unfolding check_stop
  check_stop-all l checking e = elim (Bool-cases l.stop) [ inl b ↦ rw b refl | inr b ↦ rw b refl ]
  check_stop-all l waiting e = rw e refl
  check_stop-all l draining e = rw e refl
  check_stop-all l ended e = rw e refl
  check_stop-all l (running ts) e = rw e refl

  poll-all : (l : Loop A) (p : Phase A) → l.phase ≡ p → all_of (poll l p) ≡ at_phase l p
  unfolding poll
  poll-all l checking e = rw e refl
  poll-all l waiting e = elim (Bool-cases (ltb 0 l.counter)) [
    | inl b ↦ rw b refl
    | inr b ↦ rw b refl
  ]
  poll-all l draining e = rw e refl
  poll-all l ended e = rw e refl
  poll-all l (running ts) e = rw e refl

  interrupt-all : (l : Loop A) (p : Phase A) → l.phase ≡ p → all_of (interrupt l p) ≡ at_phase l p
  unfolding interrupt
  interrupt-all l checking e = rw e refl
  interrupt-all l waiting e = refl
  interrupt-all l draining e = rw e refl
  interrupt-all l ended e = rw e refl
  interrupt-all l (running ts) e = rw e refl

  fail-all : (l : Loop A) (p : Phase A) → l.phase ≡ p → all_of (fail l p) ≡ at_phase l p
  unfolding fail
  fail-all l checking e = rw e refl
  fail-all l waiting e = refl
  fail-all l draining e = rw e refl
  fail-all l ended e = rw e refl
  fail-all l (running ts) e = rw e refl

  swap-all : (l : Loop A) (p : Phase A) → l.phase ≡ p → all_of (swap l p) ≡ at_phase l p
  unfolding swap
  swap-all l checking e = rw e refl
  swap-all l waiting e = rw e refl
  swap-all l draining e =
      append-nil (l.executed ++ l.task_queue)
      ∙ ap (λ x. x ++ l.task_queue) (sym (append-nil l.executed))
  swap-all l ended e = rw e refl
  swap-all l (running ts) e = rw e refl

  run_next-all : (l : Loop A) (p : Phase A) → l.phase ≡ p → all_of (run_next l p) ≡ at_phase l p
  unfolding run_next
  run_next-all l checking e = rw e refl
  run_next-all l waiting e = rw e refl
  run_next-all l draining e = rw e refl
  run_next-all l ended e = rw e refl
  run_next-all l (running []) e = refl
  run_next-all l (running (t ∷ ts)) e =
      ap (λ x. x ++ l.task_queue) (append_assoc l.executed (t ∷ []) ts)

  pub step-all : (l : Loop A) (e : Event A) → all_of (step l e) ≡ all_of l ++ posts e
  unfolding step
  step-all l (posted t) = sym (append_assoc (l.executed ++ taken l.phase) l.task_queue (t ∷ []))
  step-all l stopping = sym (append-nil (all_of l))
  step-all l signalled = wake_up-all l l.writers ∙ sym (append-nil (all_of l))
  step-all l checked = check_stop-all l l.phase refl ∙ sym (append-nil (all_of l))
  step-all l polled = poll-all l l.phase refl ∙ sym (append-nil (all_of l))
  step-all l interrupted = interrupt-all l l.phase refl ∙ sym (append-nil (all_of l))
  step-all l failed = fail-all l l.phase refl ∙ sym (append-nil (all_of l))
  step-all l swapped = swap-all l l.phase refl ∙ sym (append-nil (all_of l))
  step-all l ran = run_next-all l l.phase refl ∙ sym (append-nil (all_of l))

  pub run-all : (l : Loop A) (es : List (Event A)) → all_of (run l es) ≡ all_of l ++ all_posts es
  unfolding run all_posts
  run-all l [] = sym (append-nil (all_of l))
  run-all l (e ∷ es) =
      run-all (step l e) es
      ∙ ap (λ x. x ++ all_posts es) (step-all l e)
      ∙ append_assoc (all_of l) (posts e) (all_posts es)

  all_posts-append : (es fs : List (Event A)) → all_posts (es ++ fs) ≡ all_posts es ++ all_posts fs
  unfolding all_posts
  all_posts-append [] fs = refl
  all_posts-append (e ∷ es) fs =
      ap (◌++◌ (posts e)) (all_posts-append es fs)
      ∙ sym (append_assoc (posts e) (all_posts es) (all_posts fs))

  cons-injective : (x y : A) (xs ys : List A) → x ∷ xs ≡ y ∷ ys → (x ≡ y) × (xs ≡ ys)
  cons-injective x y xs ys e = (ap (λ l. get_or l 0 x) e, ap (drop 1) e)

  -- A part of a sequence that has an element reaches over what stands before the first one of it.
  prefix-before :
      (done rest before after : List A) (b : A)
      → done ++ rest ≡ before ++ b ∷ after
      → Memᴰ b done
      → (Memᴰ b before → ⊥)
      → (more : List A) × (done ≡ before ++ more)
  prefix-before [] rest before after b e m n = elim m [ ]
  prefix-before (x ∷ done) rest [] after b e m n = (x ∷ done, refl)
  prefix-before (x ∷ done) rest (y ∷ before) after b e (head i) n =
      absurd (n (head (i ∙ (cons-injective x y (done ++ rest) (before ++ b ∷ after) e).0)))
  prefix-before (x ∷ done) rest (y ∷ before) after b e (tail m) n =
      let (same, others) = cons-injective x y (done ++ rest) (before ++ b ∷ after) e in
      let (more, k) = prefix-before done rest before after b others m (λ i. n (tail i)) in
      (more, rw same (ap (◌∷◌ y) k))

  -- In any order of the steps of the threads, once a callback has run that was not handed over
  -- before, those that were handed over before it have run too, in their order: a thread that waits
  -- for its own callback waits for all of them.
  pub barrier :
      (es fs : List (Event A)) (b : A)
      → Memᴰ b (run new_loop (es ++ posted b ∷ fs)).executed
      → (Memᴰ b (all_posts es) → ⊥)
      → (more : List A) × ((run new_loop (es ++ posted b ∷ fs)).executed ≡ all_posts es ++ more)
  unfolding new_loop all_posts
  barrier es fs b m fresh =
      let l = run new_loop (es ++ posted b ∷ fs) in
      prefix-before l.executed (taken l.phase ++ l.task_queue) (all_posts es) (all_posts fs) b
        (sym (append_assoc l.executed (taken l.phase) l.task_queue)
          ∙ run-all new_loop (es ++ posted b ∷ fs)
          ∙ all_posts-append es (posted b ∷ fs))
        m fresh
