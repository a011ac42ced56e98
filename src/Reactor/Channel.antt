-- ===== src/Reactor/Channel.antt =====
-- include/Reactor/Channel.h and src/Reactor/Channel.cpp: a file descriptor, the events it waits
-- for, and the callbacks that an event runs. The bit masks are records of the bits that are used.
use echo_net.Base.{ℕ, List, [], ◌∷◌, Bool, true, false, ◌&&◌, ◌||◌, if◌then◌else◌}

-- The bits of `events_`: EPOLLIN and EPOLLOUT. A callback counts as set or not set.
pub record Channel : Type 0 where
  pub fd : ℕ
  pub reading : Bool
  pub writing : Bool
  pub read_callback : Bool
  pub write_callback : Bool
  pub close_callback : Bool

-- The bits that epoll reports: EPOLLERR, EPOLLRDHUP, EPOLLHUP, EPOLLIN and EPOLLOUT.
pub record Ready : Type 0 where
  pub err : Bool
  pub rdhup : Bool
  pub hup : Bool
  pub input : Bool
  pub output : Bool

pub data Call : Type 0 where
  on_read on_write on_close : Call

unfoldable pub new_channel : ℕ → Channel
new_channel fd = record {
  fd = fd;
  reading = false;
  writing = false;
  read_callback = false;
  write_callback = false;
  close_callback = false;
}

unfoldable pub enable_reading : Channel → Channel
enable_reading c = record c { reading = true }

unfoldable pub disable_reading : Channel → Channel
disable_reading c = record c { reading = false }

unfoldable pub enable_writing : Channel → Channel
enable_writing c = record c { writing = true }

unfoldable pub disable_writing : Channel → Channel
disable_writing c = record c { writing = false }

unfoldable pub disable_all : Channel → Channel
disable_all c = record c { reading = false; writing = false }

-- `handleEvent` behind the error case, with EPOLLIN set for a hang-up.
unfoldable pub dispatch : Channel → Ready → List Call
dispatch c e =
    let writes = if e.output then if c.write_callback then on_write ∷ [] else [] else [] in
    if e.input || (e.rdhup || e.hup)
    then if c.read_callback
      then on_read ∷ writes
      else if e.hup && c.close_callback
      then on_close ∷ []
      else writes
    else writes

-- The callbacks that `handleEvent` runs, in order.
unfoldable pub handle_event : Channel → Ready → List Call
unfolding dispatch
handle_event c e = if e.err then if c.close_callback then on_close ∷ [] else [] else dispatch c e
