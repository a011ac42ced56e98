-- ===== src/Reactor/Callbacks.antt =====
-- The callbacks that other threads hand to an event loop (`runInLoop`, `wakeUp`, `stop` and the part of
-- `loop` about them in src/Reactor/EventLoop.cpp): a queue, and an eventfd that wakes the loop. A
-- thread puts its callback into the queue, and writes to the eventfd later.
use echo_net.Base.{
  ℕ, zero, suc, ◌+◌, ◌-◌, ◌^◌, List, [], ◌∷◌, ◌++◌, Bool, true, false, if◌then◌else◌, ltb,
}
pub mod Order
pub mod Wakeup
pub mod Progress

-- Where the thread of the loop is: at the test of `stop_`, in `epoll_wait`, between the read of the
-- eventfd and the swap of the queue, before each callback, or after the loop.
pub data Phase (A : Type 0) : Type 0 where
  checking waiting draining ended : Phase A
  running : List A → Phase A

-- `writers` are the threads that are between the queue or the flag and the write to the eventfd.
pub record Loop (A : Type 0) : Type 0 where
  pub task_queue : List A
  pub counter : ℕ
  pub writers : ℕ
  pub stop : Bool
  pub phase : Phase A
  pub executed : List A

pub data Event (A : Type 0) : Type 0 where
  posted : A → Event A
  stopping signalled : Event A
  checked polled interrupted failed swapped ran : Event A

module _ {A : Type 0} where
  unfoldable pub new_loop : Loop A
  new_loop = record {
    task_queue = [];
    counter = 0;
    writers = 0;
    stop = false;
    phase = checking;
    executed = [];
  }

  -- `wakeUp`: the write adds 1, and fails where the counter is full.
  unfoldable pub wake_up : Loop A → ℕ → Loop A
  wake_up l zero = l
  wake_up l (suc n) = record l {
    counter = if ltb l.counter (2 ^ 64 - 2) then l.counter + 1 else l.counter;
    writers = n;
  }

  -- `while (!stop_)`
  unfoldable pub check_stop : Loop A → Phase A → Loop A
  check_stop l checking = record l { phase = if l.stop then ended else waiting }
  check_stop l _ = l

  -- `epoll_wait` returns, with the eventfd among the events when its counter is not 0; reading it
  -- clears the counter.
  unfoldable pub poll : Loop A → Phase A → Loop A
  poll l waiting =
      if ltb 0 l.counter
      then record l { counter = 0; phase = draining }
      else record l { phase = checking }
  poll l _ = l

  -- A signal interrupts `epoll_wait`.
  unfoldable pub interrupt : Loop A → Phase A → Loop A
  interrupt l waiting = record l { phase = checking }
  interrupt l _ = l

  -- `epoll_wait` fails for another reason than a signal.
  unfoldable pub fail : Loop A → Phase A → Loop A
  fail l waiting = record l { phase = ended }
  fail l _ = l

  unfoldable pub swap : Loop A → Phase A → Loop A
  swap l draining = record l { task_queue = []; phase = running l.task_queue }
  swap l _ = l

  unfoldable pub run_next : Loop A → Phase A → Loop A
  run_next l (running []) = record l { phase = checking }
  run_next l (running (t ∷ ts)) = record l { executed = l.executed ++ t ∷ []; phase = running ts }
  run_next l _ = l

  -- `posted` is `runInLoop` from another thread, `stopping` is `stop`; `signalled` is the write of
  -- one of those.
  unfoldable pub step : Loop A → Event A → Loop A
  unfolding wake_up check_stop poll interrupt fail swap run_next
  step l (posted t) = record l { task_queue = l.task_queue ++ t ∷ []; writers = l.writers + 1 }
  step l stopping = record l { stop = true; writers = l.writers + 1 }
  step l signalled = wake_up l l.writers
  step l checked = check_stop l l.phase
  step l polled = poll l l.phase
  step l interrupted = interrupt l l.phase
  step l failed = fail l l.phase
  step l swapped = swap l l.phase
  step l ran = run_next l l.phase

  unfoldable pub run : Loop A → List (Event A) → Loop A
  unfolding step
  run l [] = l
  run l (e ∷ es) = run (step l e) es

  -- What the thread of the loop does next.
  unfoldable pub next_event : Phase A → Event A
  next_event checking = checked
  next_event waiting = polled
  next_event draining = swapped
  next_event ended = checked
  next_event (running ts) = ran

  -- The thread of the loop alone, for some steps.
  unfoldable pub advance : ℕ → Loop A → Loop A
  unfolding step next_event
  advance zero l = l
  advance (suc n) l = advance n (step l (next_event l.phase))
