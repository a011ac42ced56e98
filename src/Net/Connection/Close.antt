-- ===== src/Net/Connection/Close.antt =====
-- `handleClose`, `maybeFinishAfterPeerEof`, `finishClose`, and the close callback that
-- `IoThreadPool::submit` installs.
use echo_net.Base.{List, [], ◌∷◌, ◌++◌, Bool, true, false, not, ◌&&◌, none, if◌then◌else◌, ◌==◌}
use echo_net.Net.Buffer.{Buffer, readable, advance}
use echo_net.Reactor.Channel.{disable_all}
use echo_net.Net.Connection.State.{Conn, closing, closed, is_connected}

abbrev pub is_empty {ℓ} : {A : Type ℓ} → List A → Bool
is_empty [] = true
is_empty (x ∷ xs) = false

-- `buffer.moveReadPtr(buffer.getreadable())`, whose assertion holds.
unfoldable pub discard_all : Buffer → Buffer
discard_all b = advance b (readable b)

module _ {P M : Type 0} where
  -- `finishClose`
  unfoldable pub finish_close : Conn P M → Conn P M
  finish_close c = elim c.state [ closed ↦ c | _ ↦ record c { state = closed; afd = none } ]

  -- `EventLoop::removeConnection` for the descriptor of this connection.
  unfoldable pub remove_connection : Conn P M → Conn P M
  unfolding finish_close disable_all
  remove_connection c =
      let c1 =
        if c.in_channels
        then record c { channel = disable_all c.channel; in_channels = false }
        else c in
      if c1.in_connections then record (finish_close c1) { in_connections = false } else c1

  -- `closeCallBack_(afd_)`: the business layer is told, then the event loop lets go.
  unfoldable pub call_close_callback : Conn P M → Conn P M
  unfolding remove_connection
  call_close_callback c =
      if c.close_callback
      then remove_connection (record c { notices = c.notices ++ c.afd ∷ [] })
      else c

  -- `handleClose` once the exchange of the state has succeeded, up to the deferral.
  unfoldable pub begin_close : Conn P M → Conn P M
  begin_close c = record c {
    state = closing;
    pending_tasks = [];
    close_callback_pending = c.task_running;
    send_queue = [];
    in_buffer = discard_all c.in_buffer;
    out_buffer = discard_all c.out_buffer;
  }

  -- `EventLoop::removeChannel`
  unfoldable pub remove_channel : Conn P M → Conn P M
  unfolding disable_all
  remove_channel c = record c { channel = disable_all c.channel; in_channels = false }

  -- `handleClose`; `compare_exchange_strong` lets one call through.
  unfoldable pub handle_close : Conn P M → Conn P M
  unfolding begin_close remove_channel call_close_callback
  handle_close c =
      if is_connected c
      then if c.task_running
        then remove_channel (begin_close c)
        else call_close_callback (begin_close c)
      else c

  -- `maybeFinishAfterPeerEof`
  unfoldable pub maybe_finish : Conn P M → Conn P M
  maybe_finish c =
      if not (c.peer_read_closed && is_connected c)
      then c
      else if not (not c.task_running && is_empty c.pending_tasks)
      then c
      else if not (c.pending_send_callbacks == 0)
      then c
      else if not (is_empty c.send_queue)
      then c
      else if not (readable c.out_buffer == 0)
      then c
      else handle_close c
