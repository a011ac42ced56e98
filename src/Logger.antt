-- ===== src/Logger.antt =====
-- `AsyncLogger` (src/Logger/AsyncLogger.cpp): lines are queued by any thread and written by one. Order
-- has what reaches the file, LostWakeup the end that `stop` may miss.
use echo_net.Base.{
  ℕ, suc, ◌+◌, ◌-◌, List, [], ◌∷◌, ◌++◌, Bool, true, false, ◌&&◌, ◌||◌, not, Text, bytes, zero,
  if◌then◌else◌,
}
pub mod Held
pub mod Order
pub mod LostWakeup

pub data Level : Type 0 where
  info warn error : Level

unfoldable pub level_str : Level → Text
level_str info = bytes "INFO"
level_str warn = bytes "WARN"
level_str error = bytes "ERROR"

-- The line that `log` queues; `time` is the text of `currentTime`.
unfoldable pub format_line : Text → Level → Text → Text
unfolding level_str
format_line time level msg =
    bytes "[" ++ time ++ bytes "] [" ++ level_str level ++ bytes "] " ++ msg ++ 10 ∷ []

-- Where the thread of `writeLoop` is: before it takes the mutex; with it, before the condition is
-- tested; with it, after a test that failed, on its way into `wait`; inside `wait`, without the mutex;
-- at work on a batch, without the mutex; past the loop.
pub data Phase : Type 0 where
  unlocked testing settling asleep ended : Phase
  writing : List Text → Phase

-- `owed` counts the calls of `notify_one` that `log` and `stop` have still to make.
pub record Logger : Type 0 where
  pub queue : List Text
  pub stopping : Bool
  pub phase : Phase
  pub owed : ℕ
  pub file : List Text

unfoldable pub new_logger : Logger
new_logger = record { queue = []; stopping = false; phase = unlocked; owed = 0; file = [] }

-- What may happen next, in any thread: `log` queues a line; `stop` sets the flag; one of them
-- notifies; a wait ends by itself; the writer goes on.
pub data Event : Type 0 where
  logs : Text → Event
  stops notifies wakes goes_on : Event

-- The writer holds the mutex.
unfoldable pub is_locked : Phase → Bool
is_locked testing = true
is_locked settling = true
is_locked _ = false

-- A wait that ends takes the mutex again before the next test.
unfoldable pub wake : Phase → Phase
wake asleep = unlocked
wake p = p

unfoldable pub is_none : List Text → Bool
is_none [] = true
is_none (x ∷ xs) = false

-- The test of the wait, and of the end of the loop.
unfoldable pub test : Logger → Logger
unfolding is_none
test l =
    if l.stopping || not (is_none l.queue)
    then if l.stopping && is_none l.queue
      then record l { phase = ended }
      else record l { phase = writing l.queue; queue = [] }
    else record l { phase = settling }

-- The next step of `writeLoop`.
unfoldable pub go_on : Phase → Logger → Logger
unfolding test
go_on unlocked l = record l { phase = testing }
go_on testing l = test l
go_on settling l = record l { phase = asleep }
go_on asleep l = l
go_on ended l = l
go_on (writing []) l = record l { phase = unlocked }
go_on (writing (x ∷ xs)) l = record l { file = l.file ++ x ∷ []; phase = writing xs }

-- `notify_one`: without a wait it is lost.
unfoldable pub notify : ℕ → Logger → Logger
unfolding wake
notify zero l = l
notify (suc n) l = record l { owed = n; phase = wake l.phase }

-- One step. The critical section of `log` has to wait for the mutex; `stop` takes no mutex, and only
-- the first call does anything.
unfoldable pub step : Logger → Event → Logger
unfolding is_locked notify wake go_on
step l (logs line) =
    if is_locked l.phase then l else record l { queue = l.queue ++ line ∷ []; owed = suc l.owed }
step l stops = if l.stopping then l else record l { stopping = true; owed = suc l.owed }
step l notifies = notify l.owed l
step l wakes = record l { phase = wake l.phase }
step l goes_on = go_on l.phase l

unfoldable pub run : Logger → List Event → Logger
unfolding step
run l [] = l
run l (e ∷ es) = run (step l e) es
