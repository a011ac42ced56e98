-- ===== src/Net/Connection/Events.antt =====
-- What can happen to a connection, one event at a time, and sequences of events.
pub mod Inv
pub mod Steps
pub mod Fill
pub mod Io
pub mod Alive
pub mod Lifecycle
use echo_net.Base.{ℕ, List, [], ◌∷◌, Bool, Option, some, none, if◌then◌else◌, ◌>>=◌}
use echo_net.Net.Connection.State.{Protocol, Conn, Callback}
use echo_net.Net.Connection.Send.{
  SendResult, write, exec, send_response, close, on_task_complete, post_final, post_check,
}
use echo_net.Net.Connection.Read.{ReadResult, read}

-- A flag says whether a call is made in the thread of the event loop.
pub data Event (M : Type 0) : Type 0 where
  readable_event : List ReadResult → Event M
  writable_event : List SendResult → Event M
  respond : Bool → M → Event M
  task_done : Event M
  final_posted : Bool → Event M
  check_posted : Bool → Event M
  close_called : Bool → Event M
  run_posted : Event M

module _ {P M : Type 0} (proto : Protocol P M) where
  -- The loop runs the first callback that waits.
  unfoldable pub run_first : Conn P M → List (Callback M) → Conn P M
  run_first c [] = c
  run_first c (k ∷ ks) = exec proto (record c { posted = ks }) k

  -- One event at the time `now`. A task can be done only while one is running; its
  -- `onTaskComplete` is one event for the critical section and another for what it hands to the loop.
  unfoldable pub step : Conn P M → ℕ × Event M → Option (Conn P M)
  unfolding run_first
  step c (now, readable_event rs) = read proto now c rs
  step c (now, writable_event rs) = write now c rs
  step c (now, respond in_loop m) = some (send_response proto in_loop c m)
  step c (now, task_done) = if c.task_running then some (on_task_complete c) else some c
  step c (now, final_posted in_loop) = some (post_final proto in_loop c)
  step c (now, check_posted in_loop) = some (post_check proto in_loop c)
  step c (now, close_called in_loop) = some (close proto in_loop c)
  step c (now, run_posted) = some (run_first c c.posted)

  unfoldable pub run : Conn P M → List (ℕ × Event M) → Option (Conn P M)
  run c [] = some c
  run c (e ∷ es) = step c e >>= λ d. run d es
