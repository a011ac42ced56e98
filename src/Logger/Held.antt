-- ===== src/Logger/Held.antt =====
-- What the logger holds: the file, the rest of the batch and the queue.
use echo_net.Base.{
  Bool-cases, List, Text, [], ap, append-nil, append_assoc, arith, if◌then◌else◌, inl, inr, refl,
  suc, sym, true, zero, ℕ, ◌++◌, ◌∙◌, ◌∷◌, ◌≡◌,
}
use echo_net.Logger.{
  Logger, Phase, unlocked, testing, settling, asleep, ended, writing, Event, logs, stops, notifies,
  wakes, goes_on, is_locked, wake, is_none, test, go_on, notify, step, run,
}

-- The rest of the batch.
abbrev pub in_hand : Phase → List Text
in_hand (writing xs) = xs
in_hand _ = []

-- All that was taken in, oldest first.
abbrev pub held : Logger → List Text
held l = l.file ++ (in_hand l.phase ++ l.queue)

-- The lines that the calls of `log` have queued.
unfoldable pub taken : Logger → Event → List Text
unfolding is_locked
taken l (logs line) = if is_locked l.phase then [] else line ∷ []
taken l _ = []

unfoldable pub logged : Logger → List Event → List Text
unfolding step taken
logged l [] = []
logged l (e ∷ es) = taken l e ++ logged (step l e) es

in_hand-wake : (p : Phase) → in_hand (wake p) ≡ in_hand p
unfolding wake
in_hand-wake asleep = refl
in_hand-wake _ = refl

pub is_none-nil : (xs : List Text) → is_none xs ≡ true → xs ≡ []
unfolding is_none
is_none-nil [] e = refl
is_none-nil (x ∷ xs) e = absurd (ground arith)

-- The batch is the queue, which is empty after.
held-test : (l : Logger) → l.phase ≡ testing → held (test l) ≡ held l
unfolding test
held-test l e = elim (Bool-cases l.stopping) [
  | inl s ↦ elim (Bool-cases (is_none l.queue)) [
    | inl n ↦ rw (s, n, e) refl
    | inr n ↦ rw (s, n, e, append-nil l.queue) refl
  ]
  | inr s ↦ elim (Bool-cases (is_none l.queue)) [
    | inl n ↦ rw (s, n, e) refl
    | inr n ↦ rw (s, n, e, append-nil l.queue) refl
  ]
]

held-go_on : (p : Phase) (l : Logger) → l.phase ≡ p → held (go_on p l) ≡ held l
unfolding go_on
held-go_on unlocked l e = rw e refl
held-go_on testing l e = held-test l e
held-go_on settling l e = rw e refl
held-go_on asleep l e = refl
held-go_on ended l e = refl
held-go_on (writing []) l e = rw e refl
held-go_on (writing (x ∷ xs)) l e = rw e (append_assoc l.file (x ∷ []) (xs ++ l.queue))

held-notify : (n : ℕ) (l : Logger) → held (notify n l) ≡ held l
unfolding notify
held-notify zero l = refl
held-notify (suc n) l = ap (λ h. l.file ++ (h ++ l.queue)) (in_hand-wake l.phase)

pub held-step : (l : Logger) (e : Event) → held (step l e) ≡ held l ++ taken l e
unfolding step taken
held-step l (logs line) = elim (Bool-cases (is_locked l.phase)) [
  | inl b ↦ rw b (sym (append-nil (held l)))
  | inr b ↦ rw b (
      ap (l.file ++◌) (sym (append_assoc (in_hand l.phase) l.queue (line ∷ [])))
      ∙ sym (append_assoc l.file (in_hand l.phase ++ l.queue) (line ∷ [])))
]
held-step l stops = elim (Bool-cases l.stopping) [
  | inl b ↦ rw b (sym (append-nil (held l)))
  | inr b ↦ rw b (sym (append-nil (held l)))
]
held-step l notifies = held-notify l.owed l ∙ sym (append-nil (held l))
held-step l wakes =
    ap (λ h. l.file ++ (h ++ l.queue)) (in_hand-wake l.phase) ∙ sym (append-nil (held l))
held-step l goes_on = held-go_on l.phase l refl ∙ sym (append-nil (held l))

pub held-run : (l : Logger) (es : List Event) → held (run l es) ≡ held l ++ logged l es
unfolding run logged
held-run l [] = sym (append-nil (held l))
held-run l (e ∷ es) =
    held-run (step l e) es
    ∙ ap (◌++ logged (step l e) es) (held-step l e)
    ∙ append_assoc (held l) (taken l e) (logged (step l e) es)
