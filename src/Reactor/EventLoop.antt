-- ===== src/Reactor/EventLoop.antt =====
-- The tables of an event loop (src/Reactor/EventLoop.cpp): its channels, its connections, and those
-- that wait to be destroyed. All of this runs in the thread of the loop. What epoll answers is an
-- input; a connection and a channel are numbers that stand for their objects.
use echo_net.Base.{
  ℕ, ◌+◌, ◌*◌, ◌<◌, List, [], ◌∷◌, ◌++◌, Bool, true, false, ◌&&◌, Option, none, some, if◌then◌else◌,
  ◌==◌, ltb, map,
}
use echo_net.Base.Maps.{find, put, remove}
pub mod Outlives

pub record EventLoop : Type 0 where
  pub channels : List (ℕ × ℕ)
  pub connections : List (ℕ × ℕ)
  pub pending_connections : List ℕ
  pub garbage : List ℕ
  pub events_size : ℕ

unfoldable pub new_event_loop : EventLoop
new_event_loop = record {
  channels = [];
  connections = [];
  pending_connections = [];
  garbage = [];
  events_size = 1024;
}

-- `updateChannel`, where `added` tells whether `epoll_ctl` succeeds. A failure changes nothing.
unfoldable pub update_channel : Bool → ℕ → ℕ → EventLoop → EventLoop
update_channel added fd ch l = if added then record l { channels = put fd ch l.channels } else l

-- `removeChannel`: a failure of `epoll_ctl` is only logged.
unfoldable pub remove_channel : ℕ → EventLoop → EventLoop
remove_channel fd l = record l { channels = remove fd l.channels }

-- `updateConnection`
unfoldable pub update_connection : ℕ → ℕ → EventLoop → EventLoop
update_connection fd conn l = record l { connections = put fd conn l.connections }

unfoldable pub take_connection : ℕ → EventLoop → Option ℕ → EventLoop
take_connection fd l none = l
take_connection fd l (some conn) = record l {
  connections = remove fd l.connections;
  pending_connections = l.pending_connections ++ conn ∷ [];
}

-- Whose `finishClose` a removal calls.
unfoldable pub finish_closed : Option ℕ → List ℕ
finish_closed none = []
finish_closed (some conn) = conn ∷ []

-- `removeConnection`: the channel, if it is still there, and the connection, which is kept for the
-- rest of the round; with the connections whose `finishClose` it calls.
unfoldable pub remove_connection : ℕ → EventLoop → EventLoop × List ℕ
unfolding remove_channel take_connection finish_closed
remove_connection fd l =
    let found = find fd l.connections in
    (take_connection fd (remove_channel fd l) found, finish_closed found)

-- The start of a round of `loop`: the objects of the last but one are destroyed.
unfoldable pub start_round : EventLoop → EventLoop
start_round l = record l { garbage = [] }

-- The array of events grows when `epoll_wait` has filled it.
unfoldable pub grow_events : ℕ → EventLoop → EventLoop
grow_events n l =
    if n == l.events_size && ltb l.events_size 65536
    then record l { events_size = l.events_size * 2 }
    else l

-- The channel whose `handleEvent` an event calls.
unfoldable pub channel_of : ℕ → EventLoop → Option ℕ
channel_of fd l = find fd l.channels

-- The end of a round: the vectors are swapped.
unfoldable pub end_round : EventLoop → EventLoop
end_round l = record l { garbage = l.pending_connections; pending_connections = l.garbage }

-- What `close` of a connection does to the loop is a parameter: it may remove the connection at once,
-- or later.
module _ (close : ℕ → EventLoop → EventLoop) where
  unfoldable pub close_each : List ℕ → EventLoop → EventLoop
  close_each [] l = l
  close_each (conn ∷ conns) l = close_each conns (close conn l)

  -- `closeAllConnections`, in the thread of the loop: over a copy of the table.
  unfoldable pub close_all_connections : EventLoop → EventLoop
  unfolding close_each
  close_all_connections l = close_each (map (λ (x : ℕ × ℕ). x.1) l.connections) l

  unfoldable pub close_found : Option ℕ → EventLoop → EventLoop
  close_found none l = l
  close_found (some conn) l = close conn l

  unfoldable pub close_idle : List ℕ → EventLoop → EventLoop
  unfolding close_found
  close_idle [] l = l
  close_idle (fd ∷ fds) l = close_idle fds (close_found (find fd l.connections) l)

-- The descriptors whose connection has been idle for too long, where `idle` has the seconds.
unfoldable pub timeout_fds : (ℕ → ℕ) → ℕ → List (ℕ × ℕ) → List ℕ
timeout_fds idle limit [] = []
timeout_fds idle limit ((fd, conn) ∷ rest) =
    let others = timeout_fds idle limit rest in
    if ltb limit (idle conn) then fd ∷ others else others

-- `checkIdleConnections`
unfoldable pub check_idle_connections :
    (ℕ → EventLoop → EventLoop) → (ℕ → ℕ) → ℕ → EventLoop → EventLoop
unfolding timeout_fds close_idle
check_idle_connections close idle limit l =
    close_idle close (timeout_fds idle limit l.connections) l
