-- ===== src/Logger/LostWakeup.antt =====
-- `stop` sets its flag and notifies without the mutex: between the writer's test of the condition and
-- its wait, the notification is lost.
use echo_net.Base.{Bool, List, [], arith, false, refl, true, ◌∷◌, ◌≡◌}
use echo_net.Logger.{
  Logger, settling, asleep, Event, logs, stops, notifies, wakes, goes_on, run, step, notify, wake,
  go_on, new_logger,
}

-- Nothing is logged, and no wait ends by itself.
unfoldable pub is_quiet : List Event → Bool
is_quiet [] = true
is_quiet (logs line ∷ es) = false
is_quiet (wakes ∷ es) = false
is_quiet (stops ∷ es) = is_quiet es
is_quiet (notifies ∷ es) = is_quiet es
is_quiet (goes_on ∷ es) = is_quiet es

-- The writer waits, the flag is set, and no notification is to come.
record Stuck (l : Logger) : Type 0 where
  phase : l.phase ≡ asleep
  stopping : l.stopping ≡ true
  owed : l.owed ≡ 0

Stuck-run : (l : Logger) (es : List Event) → Stuck l → is_quiet es ≡ true → Stuck (run l es)
unfolding run step notify go_on is_quiet
Stuck-run l [] s h = s
Stuck-run l (logs line ∷ es) s h = absurd (ground arith)
Stuck-run l (wakes ∷ es) s h = absurd (ground arith)
Stuck-run l (stops ∷ es) s h = simp s.stopping (Stuck-run l es s h)
Stuck-run l (notifies ∷ es) s h = simp s.owed (Stuck-run l es s h)
Stuck-run l (goes_on ∷ es) s h = simp s.phase (Stuck-run l es s h)

missed :
    (l : Logger)
    → l.phase ≡ settling
    → l.stopping ≡ false
    → l.owed ≡ 0
    → Stuck (run l (stops ∷ notifies ∷ goes_on ∷ []))
unfolding run step notify wake go_on
missed l p s o = rw s (rw p (record { phase = refl; stopping = refl; owed = o }))

-- Where the writer has tested its condition and not yet begun to wait, the flag is not set and no
-- notification is to come, a call of `stop` that sets the flag and notifies before the wait begins is
-- missed: as long as nothing is logged and no wait ends by itself, the writer waits for ever, and so
-- does the `join` of `stop`.
pub stop_hangs :
    (es fs : List Event)
    → (run new_logger es).phase ≡ settling
    → (run new_logger es).stopping ≡ false
    → (run new_logger es).owed ≡ 0
    → is_quiet fs ≡ true
    → let l = run (run (run new_logger es) (stops ∷ notifies ∷ goes_on ∷ [])) fs in
      (l.phase ≡ asleep) × (l.stopping ≡ true)
stop_hangs es fs p s o quiet =
    let stuck =
      Stuck-run (run (run new_logger es) (stops ∷ notifies ∷ goes_on ∷ [])) fs
        (missed (run new_logger es) p s o) quiet in
    (stuck.phase, stuck.stopping)
