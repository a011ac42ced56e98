-- ===== src/Net/Connection/Send.antt =====
-- `sendResponse`, `flushSendQueue`, `write`, `close`, and the callbacks that run in the event loop.
use echo_net.Base.{
  ℕ, ◌+◌, ◌-◌, List, [], ◌∷◌, ◌++◌, Bool, true, false, Option, some, if◌then◌else◌, ltb, ◌==◌, take,
  ◌>>=◌,
}
use echo_net.Net.Buffer.{Buffer, readable, peek, buffer_append, move_read_ptr}
use echo_net.Reactor.Channel.{enable_writing, disable_writing}
use echo_net.Net.Connection.State.{
  Protocol, Conn, Callback, send_message, close_request, run_close_callback, finish_check,
  is_connected,
}
use echo_net.Net.Connection.Close.{handle_close, maybe_finish, call_close_callback}
use echo_net.Net.Connection.Tasks.{
  Todo, next_submitted, finalize_close, check_finish, complete_section,
}

-- `HIGH_WATER_MARK`, 64 MB.
abbrev pub high_water_mark : ℕ
high_water_mark = 67108864

-- The responses that wait, appended to the output in order.
unfoldable pub append_all : Buffer → List (List ℕ) → Buffer
append_all b [] = b
append_all b (m ∷ ms) = append_all (buffer_append b m) ms

-- What `send` returns. A list of results stands for what the kernel does; behind its end the
-- kernel has no room (EAGAIN).
pub data SendResult : Type 0 where
  sent : ℕ → SendResult
  interrupted would_block failed : SendResult

module _ {P M : Type 0} where
  -- `flushSendQueue` behind the merge: the high-water mark, and the interest in EPOLLOUT.
  unfoldable pub after_merge : Conn P M → Conn P M
  unfolding enable_writing
  after_merge c =
      if ltb high_water_mark (readable c.out_buffer)
      then handle_close c
      else if ltb 0 (readable c.out_buffer)
      then record c { channel = enable_writing c.channel }
      else c

  -- `flushSendQueue`
  unfoldable pub flush_send_queue : Conn P M → Conn P M
  flush_send_queue c =
      if is_connected c
      then after_merge
          (record c { send_queue = []; out_buffer = append_all c.out_buffer c.send_queue })
      else c

  -- The loop of `write`; `false` is its early return. `none` is a failed assertion.
  unfoldable pub write_loop : ℕ → Conn P M → List SendResult → Option (Bool × Conn P M)
  write_loop now c [] = some (true, c)
  write_loop now c (sent n ∷ rs) =
      if readable c.out_buffer == 0
      then some (true, c)
      else if n == 0
      then some (false, handle_close c)
      else (move_read_ptr c.out_buffer n >>= λ b.
          write_loop now
            (record c {
              out_buffer = b;
              wire = c.wire ++ take n (peek c.out_buffer);
              bytes_written = c.bytes_written + n;
              last_active = now;
            })
            rs)
  write_loop now c (interrupted ∷ rs) =
      if readable c.out_buffer == 0 then some (true, c) else write_loop now c rs
  write_loop now c (would_block ∷ rs) = some (true, c)
  write_loop now c (failed ∷ rs) =
      if readable c.out_buffer == 0 then some (true, c) else some (false, handle_close c)

  -- `write` behind its loop.
  unfoldable pub after_write : Conn P M → Conn P M
  unfolding disable_writing
  after_write c =
      if readable c.out_buffer == 0
      then maybe_finish (record c { channel = disable_writing c.channel })
      else c

  -- `write`
  unfoldable pub write : ℕ → Conn P M → List SendResult → Option (Conn P M)
  unfolding write_loop after_write
  write now c rs =
      if is_connected c
      then (write_loop now c rs >>= λ (on, d). some (if on then after_write d else d))
      else some c

  -- `runInLoop`: at once in the thread of the loop, else later.
  unfoldable pub post : Conn P M → Callback M → Conn P M
  post c k = record c { posted = c.posted ++ k ∷ [] }

module _ {P M : Type 0} (proto : Protocol P M) where
  -- The callback of `sendResponse`.
  unfoldable pub deliver : Conn P M → M → Conn P M
  deliver c m =
      let c1 = record c { pending_send_callbacks = c.pending_send_callbacks - 1 } in
      if is_connected c1
      then maybe_finish
          (flush_send_queue (record c1 { send_queue = c.send_queue ++ proto.encode m ∷ [] }))
      else c1

  -- A callback in the thread of the event loop.
  unfoldable pub exec : Conn P M → Callback M → Conn P M
  unfolding deliver
  exec c (send_message m) = deliver c m
  exec c close_request = handle_close c
  exec c run_close_callback = call_close_callback c
  exec c finish_check = maybe_finish c

  unfoldable pub run_in_loop : Bool → Conn P M → Callback M → Conn P M
  unfolding exec post
  run_in_loop in_loop c k = if in_loop then exec c k else post c k

  -- `sendResponse`
  unfoldable pub send_response : Bool → Conn P M → M → Conn P M
  unfolding run_in_loop
  send_response in_loop c m =
      run_in_loop in_loop (record c { pending_send_callbacks = c.pending_send_callbacks + 1 })
        (send_message m)

  -- `close`
  unfoldable pub close : Bool → Conn P M → Conn P M
  unfolding run_in_loop
  close in_loop c = run_in_loop in_loop c close_request

module _ {P M : Type 0} where
  -- What a call of `onTaskComplete` that has left the critical section will still do.
  unfoldable pub note_todo : Conn P M × Todo → Conn P M
  note_todo (c, next_submitted) = c
  note_todo (c, finalize_close) = record c { finals_due = c.finals_due + 1 }
  note_todo (c, check_finish) = record c { checks_due = c.checks_due + 1 }

  -- `onTaskComplete` up to the end of its critical section, with the next task submitted.
  unfoldable pub on_task_complete : Conn P M → Conn P M
  unfolding note_todo
  on_task_complete c = note_todo (complete_section c)

module _ {P M : Type 0} (proto : Protocol P M) where
  -- The `runInLoop` of an `onTaskComplete` that claimed the close callback, in any thread.
  unfoldable pub post_final : Bool → Conn P M → Conn P M
  unfolding run_in_loop
  post_final in_loop c =
      if c.finals_due == 0
      then c
      else run_in_loop proto in_loop (record c { finals_due = c.finals_due - 1 }) run_close_callback

  -- The `runInLoop` of one that found no more tasks.
  unfoldable pub post_check : Bool → Conn P M → Conn P M
  unfolding run_in_loop
  post_check in_loop c =
      if c.checks_due == 0
      then c
      else run_in_loop proto in_loop (record c { checks_due = c.checks_due - 1 }) finish_check
