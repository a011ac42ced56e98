-- ===== src/Tests/Log.antt =====
-- The logger at concrete inputs: two lines, and an end.
use echo_net.Base.{List, [], bytes, false, length, refl, true, ◌++◌, ◌∷◌, ◌≡◌, ◌≤◌, ◌⊎◌}
use echo_net.Logger.{
  Event, logs, stops, notifies, goes_on, run, step, new_logger, is_locked, asleep, go_on, test,
  is_none, info, format_line, level_str, notify, wake,
}
use echo_net.Logger.Held.{held, logged}
use echo_net.Logger.Order.{is_ended, lines_in_order}
use echo_net.Logger.LostWakeup.{is_quiet, stop_hangs}

line : format_line (bytes "10:00") info (bytes "up") ≡ bytes "[10:00] [INFO] up" ++ 10 ∷ []
unfolding format_line level_str
line = refl

abbrev day : List Event
day = logs (bytes "a") ∷ goes_on ∷ goes_on ∷ logs (bytes "b") ∷ notifies ∷ goes_on ∷ []

abbrev evening : List Event
evening = goes_on ∷ goes_on ∷ goes_on ∷ goes_on ∷ goes_on ∷ goes_on ∷ goes_on ∷ []

lines_in_order_example :
    let l = run new_logger day in
    let after = run (step l stops) evening in
    (held l ≡ logged new_logger day)
    × (held after ≡ logged new_logger day ++ logged (step l stops) evening)
    × ((is_ended after.phase ≡ false) ⊎ (length (logged new_logger day) ≤ length after.file))
unfolding run step new_logger is_locked go_on test is_none notify wake
lines_in_order_example = lines_in_order day evening refl

stop_hangs_example :
    let l =
      run
        (run (run new_logger (goes_on ∷ goes_on ∷ [])) (stops ∷ notifies ∷ goes_on ∷ []))
        (goes_on ∷ stops ∷ []) in
    (l.phase ≡ asleep) × (l.stopping ≡ true)
unfolding run step new_logger go_on test is_none is_quiet
stop_hangs_example = stop_hangs (goes_on ∷ goes_on ∷ []) (goes_on ∷ stops ∷ []) refl refl refl refl
