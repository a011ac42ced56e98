-- ===== src/ThreadPool/IoPool.antt =====
-- src/ThreadPool/IoThreadPool.cpp: the event loops that share the connections, each with its thread.
-- The pool hands callbacks to the loops from other threads.
use echo_net.Base.{
  ℕ, zero, suc, ◌+◌, ◌%◌, ◌^◌, List, [], ◌∷◌, Bool, true, false, if◌then◌else◌, ◌==◌, length,
  replicate, map,
}
use echo_net.Reactor.Callbacks.{Loop, posted, stopping, new_loop, step}

-- `build_connection` makes the connection of a descriptor and registers it; `closing` starts the
-- close of every connection of the loop; it and `reached` then fulfil the promise with a number.
-- `from_connection` is what a connection hands over to its loop from another thread: a response to
-- write, or the end of its close.
pub data Callback : Type 0 where
  build_connection closing reached from_connection : ℕ → Callback

pub record IoThreadPool : Type 0 where
  pub loops : List (Loop Callback)
  pub next : ℕ
  pub stop : Bool

-- `IoThreadPool`; a number that is not positive counts as 0 here.
unfoldable pub new_io_pool : ℕ → IoThreadPool
new_io_pool num = record {
  loops = replicate (if num == 0 then 8 else num) new_loop;
  next = 0;
  stop = false;
}

unfoldable pub post_at : List (Loop Callback) → ℕ → Callback → List (Loop Callback)
post_at [] i cb = []
post_at (l ∷ ls) zero cb = step l (posted cb) ∷ ls
post_at (l ∷ ls) (suc i) cb = l ∷ post_at ls i cb

-- `submit`: the loops in turn.
unfoldable pub submit : ℕ → IoThreadPool → IoThreadPool
unfolding post_at
submit fd p = record p {
  loops = post_at p.loops (p.next % length p.loops) (build_connection fd);
  next = (p.next + 1) % 2 ^ 64;
}

unfoldable pub post_all : Callback → IoThreadPool → IoThreadPool
post_all cb p = record p { loops = map (λ l. step l (posted cb)) p.loops }

-- `closeAllConnections`, up to its wait; `id` is new for each call.
unfoldable pub close_all_connections : ℕ → IoThreadPool → IoThreadPool
unfolding post_all
close_all_connections id p = post_all (closing id) p

-- `waitForPendingCallbacks`, up to its wait.
unfoldable pub wait_for_pending_callbacks : ℕ → IoThreadPool → IoThreadPool
unfolding post_all
wait_for_pending_callbacks id p = post_all (reached id) p

-- `stop`, up to its joins: only the first call does anything.
unfoldable pub stop_pool : IoThreadPool → IoThreadPool
stop_pool p =
    if p.stop then p else record p { loops = map (λ l. step l stopping) p.loops; stop = true }
