-- ===== src/Chat/Writer.antt =====
-- The queue of messages to store, and the thread that writes them to the database in batches.
pub mod Batches
pub mod Threads
pub mod Exit
use echo_net.Base.{
  Option, none, some, ◌>>=◌, true, false, ltb, ◌&&◌, bytes, ℕ, ◌+◌, ◌%◌, ◌^◌, List, [], ◌∷◌, ◌++◌,
  Bool, if◌then◌else◌, leb, Text, length,
}

pub record MessageRecord : Type 0 where
  pub room_id : ℕ
  pub user_id : ℕ
  pub content : Text

-- The queue, with what its lock guards.
pub record Writer : Type 0 where
  pub msg_queue : List MessageRecord
  pub db_writer_stop : Bool
  pub dropped_messages : ℕ

-- `MAX_QUEUE_SIZE`
abbrev pub max_queue_size : ℕ
max_queue_size = 500000

-- `BATCH_MAX_SIZE`
abbrev pub batch_max_size : ℕ
batch_max_size = 2000

-- `enqueueMessage`
unfoldable pub enqueue_message : MessageRecord → Writer → Writer
enqueue_message m w =
    if leb max_queue_size (length w.msg_queue)
    then record w { dropped_messages = (w.dropped_messages + 1) % 2 ^ 64 }
    else record w { msg_queue = w.msg_queue ++ m ∷ [] }

abbrev pub is_none_left : List MessageRecord → Bool
is_none_left [] = true
is_none_left (m ∷ ms) = false

-- The loop that moves messages from the queue to the batch: what stays, and the batch.
unfoldable pub fill :
    List MessageRecord → List MessageRecord → List MessageRecord × List MessageRecord
fill [] batch = ([], batch)
fill (m ∷ queue) batch =
    let more = fill queue (batch ++ m ∷ []) in
    if ltb (length batch) batch_max_size then more else (m ∷ queue, batch)

-- The part of a round of `dbWriterLoop` under the lock: the queue, the batch, and whether this is the
-- last round. `wait_for` may return at any time.
pub record Locked : Type 0 where
  pub writer : Writer
  pub batch : List MessageRecord
  pub should_exit : Bool

unfoldable pub take_batch : Writer → List MessageRecord → Locked
unfolding fill
take_batch w batch =
    let (queue, filled) = fill w.msg_queue batch in
    record {
      writer = record w { msg_queue = queue };
      batch = filled;
      should_exit = w.db_writer_stop && is_none_left queue && is_none_left filled;
    }

-- The parameters that are bound, three for each message.
pub data Bind : Type 0 where
  number : ℕ → Bind
  content : Text → Bind

unfoldable pub binds : List MessageRecord → List Bind
binds [] = []
binds (m ∷ batch) = number m.room_id ∷ number m.user_id ∷ content m.content ∷ binds batch

-- The placeholders, with a comma before each but the first.
unfoldable pub placeholders : List MessageRecord → Text
placeholders [] = []
placeholders (m ∷ []) = bytes "(?,?,?)"
placeholders (m ∷ n ∷ batch) = bytes "(?,?,?)," ++ placeholders (n ∷ batch)

unfoldable pub insert_sql : List MessageRecord → Text
unfolding placeholders
insert_sql batch =
    bytes "INSERT INTO messages (room_id, user_id, content) VALUES " ++ placeholders batch

-- What a statement does: its text, its parameters, and whether it succeeds.
pub record Insertion : Type 0 where
  pub batch : List MessageRecord
  pub stored : Bool

-- `batchInsertMessages` of a batch that is not empty, where `answer` tells whether every call of the
-- database succeeds.
unfoldable pub batch_insert_messages : Bool → List MessageRecord → List Insertion
batch_insert_messages answer [] = []
batch_insert_messages answer (m ∷ batch) = record { batch = m ∷ batch; stored = answer } ∷ []

-- The loop ends, or goes on with the other rounds.
unfoldable pub after_round :
    Bool → List Insertion → Option (List Insertion) → Option (List Insertion)
after_round true done rest = some done
after_round false done rest = rest >>= λ more. some (done ++ more)

-- `dbWriterLoop`, with an answer of the database for each round: what it hands to the database.
-- `none` is a loop that goes on when the answers are used up.
unfoldable pub db_writer_loop : List Bool → Writer → Option (List Insertion)
unfolding take_batch batch_insert_messages after_round
db_writer_loop [] w = none
db_writer_loop (answer ∷ answers) w =
    let locked = take_batch w [] in
    let rest = db_writer_loop answers locked.writer in
    after_round locked.should_exit (batch_insert_messages answer locked.batch) rest
