-- ===== src/Net/Connection/Tasks.antt =====
-- `enqueueTask` and the critical section of `onTaskComplete`: one task at a time, in order.
use echo_net.Base.{not, List, [], ◌∷◌, ◌++◌, true, false, if◌then◌else◌}
use echo_net.Net.Connection.State.{Conn, is_connected, hands_over, runs_at_once}
use echo_net.Net.Connection.Close.{is_empty, maybe_finish, call_close_callback}

module _ {P M : Type 0} where
  -- The branch of a connection that is closing: what waits is dropped, and the close callback claimed.
  unfoldable pub drop_tasks : Conn P M → Conn P M
  drop_tasks c = record c {
    pending_tasks = [];
    task_running = false;
    close_callback_pending = false;
  }

  -- The first of `ts` is taken, and handed to the callback.
  unfoldable pub start_front : Conn P M → M → List M → Conn P M
  start_front c t ts = record c {
    pending_tasks = ts;
    task_running = true;
    submitted = c.submitted ++ t ∷ [];
  }

  -- A callback that runs tasks at once, in the thread of the event loop: each task ends in a call of
  -- `onTaskComplete`, which goes on with the next one. The tasks do not use this connection themselves.
  unfoldable pub run_at_once : Conn P M → List M → Conn P M
  unfolding drop_tasks start_front
  run_at_once c [] = c
  run_at_once c (t ∷ ts) =
      let d = start_front c t ts in
      let rest = run_at_once d ts in
      if not (is_connected d)
      then if d.close_callback_pending
        then call_close_callback (drop_tasks d)
        else maybe_finish (drop_tasks d)
      else if is_empty ts
      then maybe_finish (record d { task_running = false })
      else rest

  -- Take the first of `ts`, which is what waits now, and call `worksumbitcallback_`, where it is set.
  unfoldable pub submit_front : Conn P M → List M → Conn P M
  unfolding start_front run_at_once
  submit_front c [] = c
  submit_front c (t ∷ ts) =
      if hands_over c.work_callback
      then start_front c t ts
      else if runs_at_once c.work_callback
      then run_at_once c (t ∷ ts)
      else record c { pending_tasks = ts; task_running = true }

  -- `enqueueTask`
  unfoldable pub enqueue_task : Conn P M → M → Conn P M
  unfolding submit_front
  enqueue_task c t =
      if c.task_running
      then record c { pending_tasks = c.pending_tasks ++ t ∷ [] }
      else submit_front c (c.pending_tasks ++ t ∷ [])

-- What `onTaskComplete` still has to do when it has left the critical section.
pub data Todo : Type 0 where
  next_submitted finalize_close check_finish : Todo

module _ {P M : Type 0} where
  unfoldable pub complete_closing : Conn P M → Conn P M × Todo
  unfolding drop_tasks
  complete_closing c =
      (drop_tasks c, if c.close_callback_pending then finalize_close else check_finish)

  -- The branches of a connection that is connected. The next task is submitted behind the section; as it
  -- counts as running from the section on, no other task can be submitted in between.
  unfoldable pub complete_connected : Conn P M → List M → Conn P M × Todo
  unfolding submit_front
  complete_connected c [] = (record c { task_running = false }, check_finish)
  complete_connected c (t ∷ ts) = (submit_front c (t ∷ ts), next_submitted)

  unfoldable pub complete_section : Conn P M → Conn P M × Todo
  unfolding complete_closing complete_connected
  complete_section c =
      if is_connected c then complete_connected c c.pending_tasks else complete_closing c
