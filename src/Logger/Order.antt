-- ===== src/Logger/Order.antt =====
-- Every line that is logged reaches the file once, in order.
use echo_net.Base.{
  Bool, Bool-cases, List, [], ap, append-nil, arith, false, inl, inr, length, length-append, refl,
  subst, suc, sym, true, zero, ℕ, ◌++◌, ◌∙◌, ◌∷◌, ◌≡◌, ◌≤◌, ◌⊎◌,
}
use echo_net.Logger.{
  Logger, Phase, unlocked, testing, settling, asleep, ended, writing, Event, logs, stops, notifies,
  wakes, goes_on, is_locked, wake, is_none, test, go_on, notify, step, run, new_logger,
}
use echo_net.Logger.Held.{held, taken, logged, is_none-nil, held-step, held-run}

-- Once the flag is set and the thread has ended, the file holds what was taken in before.
record Drained (n : ℕ) (l : Logger) : Type 0 where
  stopping : l.stopping ≡ true
  enough : n ≤ length (held l)
  written : (l.phase ≡ ended) → n ≤ length l.file

-- The thread ends with an empty queue.
test-ended :
    (l : Logger)
    → l.phase ≡ testing
    → (test l).phase ≡ ended
    → length (held l) ≤ length (test l).file
unfolding test
test-ended l e = elim (Bool-cases l.stopping) [
  | inl s ↦ elim (Bool-cases (is_none l.queue)) [
    | inl n ↦ rw (s, n, e, is_none-nil l.queue n) λ h. omega (arith, length-append l.file [])
    | inr n ↦ rw (s, n) λ h. absurd (ground arith)
  ]
  | inr s ↦ elim (Bool-cases (is_none l.queue)) [
    | inl n ↦ rw (s, n) λ h. absurd (ground arith)
    | inr n ↦ rw (s, n) λ h. absurd (ground arith)
  ]
]

wake-ended : (p : Phase) → wake p ≡ ended → p ≡ ended
unfolding wake
wake-ended asleep e = absurd (ground arith)
wake-ended unlocked e = e
wake-ended testing e = e
wake-ended settling e = e
wake-ended ended e = e
wake-ended (writing xs) e = e

go_on-ended :
    (p : Phase) (l : Logger)
    → l.phase ≡ p
    → (go_on p l).phase ≡ ended
    → (p ≡ ended) ⊎ (length (held l) ≤ length (go_on p l).file)
unfolding go_on
go_on-ended unlocked l e h = absurd (ground arith)
go_on-ended testing l e h = inr (test-ended l e h)
go_on-ended settling l e h = absurd (ground arith)
go_on-ended asleep l e h = absurd (ground arith)
go_on-ended ended l e h = inl refl
go_on-ended (writing []) l e h = absurd (ground arith)
go_on-ended (writing (x ∷ xs)) l e h = absurd (ground arith)

notify-ended :
    (n k : ℕ) (l : Logger)
    → (l.phase ≡ ended → n ≤ length l.file)
    → (notify k l).phase ≡ ended
    → n ≤ length (notify k l).file
unfolding notify
notify-ended n zero l w h = w h
notify-ended n (suc k) l w h = w (wake-ended l.phase h)

step-ended :
    (n : ℕ) (l : Logger) (e : Event)
    → Drained n l
    → (step l e).phase ≡ ended
    → n ≤ length (step l e).file
unfolding step
step-ended n l (logs line) d = elim (Bool-cases (is_locked l.phase)) [
  | inl b ↦ rw b d.written
  | inr b ↦ rw b d.written
]
step-ended n l stops d = elim (Bool-cases l.stopping) [
  | inl b ↦ rw b d.written
  | inr b ↦ rw b d.written
]
step-ended n l notifies d = notify-ended n l.owed l d.written
step-ended n l wakes d = λ h. d.written (wake-ended l.phase h)
step-ended n l goes_on d = λ h. elim (go_on-ended l.phase l refl h) [
  | inl e ↦ subst (λ p. n ≤ length (go_on p l).file) (sym e) (d.written e)
  | inr k ↦ omega (arith, k, d.enough)
]

test-stopping : (l : Logger) → (test l).stopping ≡ l.stopping
unfolding test
test-stopping l = elim (Bool-cases l.stopping) [
  | inl s ↦ elim (Bool-cases (is_none l.queue)) [ inl n ↦ rw (s, n) refl | inr n ↦ rw (s, n) refl ]
  | inr s ↦ elim (Bool-cases (is_none l.queue)) [ inl n ↦ rw (s, n) refl | inr n ↦ rw (s, n) refl ]
]

go_on-stopping : (p : Phase) (l : Logger) → (go_on p l).stopping ≡ l.stopping
unfolding go_on
go_on-stopping testing l = test-stopping l
go_on-stopping (writing []) l = refl
go_on-stopping (writing (x ∷ xs)) l = refl
go_on-stopping _ l = refl

notify-stopping : (k : ℕ) (l : Logger) → (notify k l).stopping ≡ l.stopping
unfolding notify
notify-stopping zero l = refl
notify-stopping (suc k) l = refl

step-stopping : (l : Logger) (e : Event) → l.stopping ≡ true → (step l e).stopping ≡ true
unfolding step
step-stopping l (logs line) h = elim (Bool-cases (is_locked l.phase)) [
  | inl b ↦ rw b h
  | inr b ↦ rw b h
]
step-stopping l stops h = rw h refl
step-stopping l notifies h = notify-stopping l.owed l ∙ h
step-stopping l wakes h = h
step-stopping l goes_on h = go_on-stopping l.phase l ∙ h

Drained-step : (n : ℕ) (l : Logger) (e : Event) → Drained n l → Drained n (step l e)
Drained-step n l e d = record {
  stopping = step-stopping l e d.stopping;
  enough = omega (arith, d.enough, ap length (held-step l e), length-append (held l) (taken l e));
  written = step-ended n l e d;
}

Drained-run : (n : ℕ) (l : Logger) (es : List Event) → Drained n l → Drained n (run l es)
unfolding run
Drained-run n l [] d = d
Drained-run n l (e ∷ es) d = Drained-run n (step l e) es (Drained-step n l e d)

-- The thread only ends after the flag is set.
abbrev EndsStopped : Logger → Type 0
EndsStopped l = l.phase ≡ ended → l.stopping ≡ true

test-EndsStopped : (l : Logger) → EndsStopped (test l)
unfolding test
test-EndsStopped l = elim (Bool-cases l.stopping) [
  | inl s ↦ λ h. test-stopping l ∙ s
  | inr s ↦ elim (Bool-cases (is_none l.queue)) [
    | inl n ↦ rw (s, n) λ h. absurd (ground arith)
    | inr n ↦ rw (s, n) λ h. absurd (ground arith)
  ]
]

go_on-EndsStopped : (p : Phase) (l : Logger) → l.phase ≡ p → EndsStopped l → EndsStopped (go_on p l)
unfolding go_on
go_on-EndsStopped unlocked l e w = λ h. absurd (ground arith)
go_on-EndsStopped testing l e w = test-EndsStopped l
go_on-EndsStopped settling l e w = λ h. absurd (ground arith)
go_on-EndsStopped asleep l e w = w
go_on-EndsStopped ended l e w = w
go_on-EndsStopped (writing []) l e w = λ h. absurd (ground arith)
go_on-EndsStopped (writing (x ∷ xs)) l e w = λ h. absurd (ground arith)

notify-EndsStopped : (k : ℕ) (l : Logger) → EndsStopped l → EndsStopped (notify k l)
unfolding notify
notify-EndsStopped zero l w = w
notify-EndsStopped (suc k) l w = λ h. w (wake-ended l.phase h)

step-EndsStopped : (l : Logger) (e : Event) → EndsStopped l → EndsStopped (step l e)
unfolding step
step-EndsStopped l (logs line) w = elim (Bool-cases (is_locked l.phase)) [
  | inl b ↦ rw b w
  | inr b ↦ rw b w
]
step-EndsStopped l stops w = elim (Bool-cases l.stopping) [
  | inl b ↦ rw b (λ h. refl)
  | inr b ↦ rw b (λ h. refl)
]
step-EndsStopped l notifies w = notify-EndsStopped l.owed l w
step-EndsStopped l wakes w = λ h. w (wake-ended l.phase h)
step-EndsStopped l goes_on w = go_on-EndsStopped l.phase l refl w

run-EndsStopped : (l : Logger) (es : List Event) → EndsStopped l → EndsStopped (run l es)
unfolding run
run-EndsStopped l [] w = w
run-EndsStopped l (e ∷ es) w = run-EndsStopped (step l e) es (step-EndsStopped l e w)

new-EndsStopped : EndsStopped new_logger
unfolding new_logger
new-EndsStopped = λ h. absurd (ground arith)

from_new : (es : List Event) → held (run new_logger es) ≡ logged new_logger es
unfolding new_logger
from_new es = held-run new_logger es

held-stops : (l : Logger) → held (step l stops) ≡ held l
unfolding taken
held-stops l = held-step l stops ∙ append-nil (held l)

at_stop :
    (l : Logger) (es : List Event)
    → EndsStopped l
    → held l ≡ logged new_logger es
    → l.stopping ≡ false
    → Drained (length (logged new_logger es)) (step l stops)
unfolding step
at_stop l es w e running = rw running (record {
  stopping = refl;
  enough = omega (arith, ap length e);
  written = λ h. absurd (ground (arith, w h));
})

unfoldable pub is_ended : Phase → Bool
is_ended ended = true
is_ended _ = false

is_ended-eq : (p : Phase) → is_ended p ≡ true → p ≡ ended
unfolding is_ended
is_ended-eq ended e = refl
is_ended-eq unlocked e = absurd (ground arith)
is_ended-eq testing e = absurd (ground arith)
is_ended-eq settling e = absurd (ground arith)
is_ended-eq asleep e = absurd (ground arith)
is_ended-eq (writing xs) e = absurd (ground arith)

-- Whatever the threads do, each line that was queued is written once and in order: the file, the rest
-- of the batch and the queue are together the lines queued so far. Where `stop` is first called after
-- some events, then once the thread has ended the file holds all the lines queued before.
pub lines_in_order :
    (es fs : List Event)
    → (run new_logger es).stopping ≡ false
    → let l = run new_logger es in
      let after = run (step l stops) fs in
      (held l ≡ logged new_logger es)
      × (held after ≡ logged new_logger es ++ logged (step l stops) fs)
      × ((is_ended after.phase ≡ false) ⊎ (length (logged new_logger es) ≤ length after.file))
lines_in_order es fs running =
    let l = run new_logger es in
    let before : held l ≡ logged new_logger es = from_new es in
    let d =
      Drained-run (length (logged new_logger es)) (step l stops) fs
        (at_stop l es (run-EndsStopped new_logger es new-EndsStopped) before running) in
    (
      before,
      held-run (step l stops) fs ∙ ap (◌++ logged (step l stops) fs) (held-stops l ∙ before),
      elim (Bool-cases (is_ended (run (step l stops) fs).phase)) [
        | inl e ↦ inr (d.written (is_ended-eq (run (step l stops) fs).phase e))
        | inr e ↦ inl e
      ],
    )
