-- ===== src/Net/Connection/State.antt =====
-- The members of a connection, and the interface of its protocol.
-- The connection is used by its event loop and by worker threads. A critical section is one step;
-- what a worker hands to the event loop waits in `posted` until the loop runs it.
use echo_net.Base.{ℕ, ◌-◌, ◌/◌, List, [], Bool, true, false, Option, some}
use echo_net.Net.Buffer.{Buffer, new_buffer}
use echo_net.Protocol.{ParseResult}
use echo_net.Reactor.Channel.{Channel, new_channel, enable_reading}

-- include/Protocol/Protocol.h: `P` is the state of the protocol object, `M` its messages.
-- A parser returns `none` where an assertion of the buffer fails.
pub record Protocol (P M : Type 0) : Type 0 where
  pub parse : P → Buffer → Option (ParseResult × P × Buffer)
  pub encode : M → List ℕ
  pub get_message : P → M
  pub reset : P → P
  pub get_error_response : P → Option M

-- `enum class State`
pub data State : Type 0 where
  connected closing closed : State

abbrev pub is_connected_state : State → Bool
is_connected_state connected = true
is_connected_state _ = false

-- The functions that the connection hands to `runInLoop`.
pub data Callback (M : Type 0) : Type 0 where
  send_message : M → Callback M
  close_request : Callback M
  run_close_callback : Callback M
  finish_check : Callback M

-- What the connection calls with a task: nothing, a pool that takes the task in and runs it later, as the
-- callback of `IoThreadPool::submit` does while its pool has not stopped, or a function that runs the
-- task and reports its end before it returns, as the gateway sets for its connections to backends.
pub data WorkCallback : Type 0 where
  unset to_workers at_once : WorkCallback

abbrev pub hands_over : WorkCallback → Bool
hands_over to_workers = true
hands_over _ = false

abbrev pub runs_at_once : WorkCallback → Bool
runs_at_once at_once = true
runs_at_once _ = false

-- `finals_due` and `checks_due` count the calls of `onTaskComplete` that have left the critical section
-- and have not yet handed their close callback, or their check, to the event loop.
-- `afd` is `none` for -1. `submitted`, `notices` and `wire` record what the connection has handed
-- out so far: tasks to the workers, descriptors to the close callback, bytes to the socket.
-- `last_active` is a time of the steady clock, in nanoseconds; `bytes_read` and `bytes_written` are
-- this connection's share of the counters of `Metrics`.
-- `in_channels` and `in_connections` say whether the maps of the event loop hold it.
pub record Conn (P M : Type 0) : Type 0 where
  pub afd : Option ℕ
  pub state : State
  pub channel : Channel
  pub protocol : P
  pub in_buffer : Buffer
  pub out_buffer : Buffer
  pub peer_read_closed : Bool
  pub pending_send_callbacks : ℕ
  pub pending_tasks : List M
  pub task_running : Bool
  pub close_callback_pending : Bool
  pub send_queue : List (List ℕ)
  pub close_callback : Bool
  pub work_callback : WorkCallback
  pub in_channels : Bool
  pub in_connections : Bool
  pub finals_due : ℕ
  pub checks_due : ℕ
  pub posted : List (Callback M)
  pub submitted : List M
  pub notices : List (Option ℕ)
  pub wire : List ℕ
  pub bytes_read : ℕ
  pub bytes_written : ℕ
  pub last_active : ℕ

abbrev pub is_connected : {P M : Type 0} → Conn P M → Bool
is_connected c = is_connected_state c.state

-- A connection as `IoThreadPool::submit` leaves it: callbacks set, registered for reading.
unfoldable pub new_conn : {P M : Type 0} → ℕ → P → ℕ → Conn P M
unfolding new_buffer new_channel enable_reading
new_conn fd p now = record {
  afd = some fd;
  state = connected;
  channel = record (enable_reading (new_channel fd)) {
    read_callback = true;
    write_callback = true;
    close_callback = true;
  };
  protocol = p;
  in_buffer = new_buffer;
  out_buffer = new_buffer;
  peer_read_closed = false;
  pending_send_callbacks = 0;
  pending_tasks = [];
  task_running = false;
  close_callback_pending = false;
  send_queue = [];
  close_callback = true;
  work_callback = to_workers;
  in_channels = true;
  in_connections = true;
  finals_due = 0;
  checks_due = 0;
  posted = [];
  submitted = [];
  notices = [];
  wire = [];
  bytes_read = 0;
  bytes_written = 0;
  last_active = now;
}

-- `idleSeconds`
unfoldable pub idle_seconds : {P M : Type 0} → Conn P M → ℕ → ℕ
idle_seconds c now = (now - c.last_active) / 1000000000
