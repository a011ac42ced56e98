-- ===== src/Chat/Writer/Threads.antt =====
-- The writer among the threads that enqueue messages: what happens to each message in any order of
-- their steps.
use echo_net.Base.{
  ℕ, ◌+◌, ◌%◌, ◌^◌, ◌≡◌, refl, sym, ap, ◌∙◌, List, [], ◌∷◌, ◌++◌, Bool, true, arith, if◌then◌else◌,
  leb, length, length-append, append_assoc, append-nil, Bool-cases, inl, inr,
}
use echo_net.Chat.Writer.{
  MessageRecord, Writer, take_batch, enqueue_message, max_queue_size, batch_insert_messages,
  Insertion,
}
use echo_net.Chat.Writer.Batches.{settled, settled-append, settled-insert, take_batch-append}

-- Where the writer is in its loop: before the lock, or after it, with what it decided there.
pub data Phase : Type 0 where
  waiting ended : Phase
  writing : Bool → Phase

pub record Storage : Type 0 where
  pub writer : Writer
  pub batch : List MessageRecord
  pub phase : Phase
  pub log : List Insertion

-- The destructor is `stopping`. The writer takes the lock, and later calls the database.
pub data Event : Type 0 where
  enqueued : MessageRecord → Event
  stopping locked : Event
  inserted : Bool → Event

unfoldable pub lock_batch : Storage → Phase → Storage
unfolding take_batch
lock_batch s waiting =
    let l = take_batch s.writer s.batch in
    record s { writer = l.writer; batch = l.batch; phase = writing l.should_exit }
lock_batch s ended = s
lock_batch s (writing b) = s

unfoldable pub insert_batch : Bool → Storage → Phase → Storage
unfolding batch_insert_messages
insert_batch answer s waiting = s
insert_batch answer s ended = s
insert_batch answer s (writing exit) = record s {
  batch = [];
  phase = if exit then ended else waiting;
  log = s.log ++ batch_insert_messages answer s.batch;
}

unfoldable pub step : Storage → Event → Storage
unfolding enqueue_message lock_batch insert_batch
step s (enqueued m) = record s { writer = enqueue_message m s.writer }
step s stopping = record s { writer = record s.writer { db_writer_stop = true } }
step s locked = lock_batch s s.phase
step s (inserted answer) = insert_batch answer s s.phase

unfoldable pub run : Storage → List Event → Storage
unfolding step
run s [] = s
run s (e ∷ es) = run (step s e) es

abbrev enqueues : Event → ℕ
enqueues (enqueued m) = 1
enqueues stopping = 0
enqueues locked = 0
enqueues (inserted b) = 0

-- How many messages are enqueued.
unfoldable pub offered : List Event → ℕ
offered [] = 0
offered (e ∷ es) = enqueues e + offered es

abbrev taken_on : Storage → Event → List MessageRecord
taken_on s (enqueued m) = if leb max_queue_size (length s.writer.msg_queue) then [] else m ∷ []
taken_on s stopping = []
taken_on s locked = []
taken_on s (inserted b) = []

-- The messages that find room in the queue.
unfoldable pub accepted : Storage → List Event → List MessageRecord
accepted s [] = []
accepted s (e ∷ es) = taken_on s e ++ accepted (step s e) es

-- All messages that are not dropped, the oldest first.
abbrev pub held : Storage → List MessageRecord
held s = settled s.log ++ (s.batch ++ s.writer.msg_queue)

lock_batch-held : (s : Storage) (p : Phase) → held (lock_batch s p) ≡ held s
unfolding lock_batch
lock_batch-held s waiting = ap (◌++◌ (settled s.log)) (take_batch-append s.writer s.batch)
lock_batch-held s ended = refl
lock_batch-held s (writing b) = refl

insert_batch-held :
    (answer : Bool) (s : Storage) (p : Phase) → held (insert_batch answer s p) ≡ held s
unfolding insert_batch
insert_batch-held answer s waiting = refl
insert_batch-held answer s ended = refl
insert_batch-held answer s (writing exit) =
    let queue = s.writer.msg_queue in
    rw (settled-append s.log (batch_insert_messages answer s.batch), settled-insert answer s.batch)
      (append_assoc (settled s.log) s.batch queue)

step-held : (s : Storage) (e : Event) → held (step s e) ≡ held s ++ taken_on s e
unfolding step enqueue_message
step-held s (enqueued m) = elim (Bool-cases (leb max_queue_size (length s.writer.msg_queue))) [
  | inl e ↦ rw e (sym (append-nil (held s)))
  | inr e ↦ rw e (
      ap (◌++◌ (settled s.log)) (sym (append_assoc s.batch s.writer.msg_queue (m ∷ [])))
      ∙ sym (append_assoc (settled s.log) (s.batch ++ s.writer.msg_queue) (m ∷ [])))
]
step-held s stopping = sym (append-nil (held s))
step-held s locked = lock_batch-held s s.phase ∙ sym (append-nil (held s))
step-held s (inserted answer) = insert_batch-held answer s s.phase ∙ sym (append-nil (held s))

lock_batch-dropped :
    (s : Storage) (p : Phase) → (lock_batch s p).writer.dropped_messages ≡ s.writer.dropped_messages
unfolding lock_batch take_batch
lock_batch-dropped s waiting = refl
lock_batch-dropped s ended = refl
lock_batch-dropped s (writing b) = refl

insert_batch-writer :
    (answer : Bool) (s : Storage) (p : Phase) → (insert_batch answer s p).writer ≡ s.writer
unfolding insert_batch
insert_batch-writer answer s waiting = refl
insert_batch-writer answer s ended = refl
insert_batch-writer answer s (writing b) = refl

step-dropped :
    (s : Storage) (e : Event)
    → ((step s e).writer.dropped_messages + length (taken_on s e)) % 2 ^ 64
      ≡ (s.writer.dropped_messages + enqueues e) % 2 ^ 64
unfolding step enqueue_message
step-dropped s (enqueued m) = elim (Bool-cases (leb max_queue_size (length s.writer.msg_queue))) [
  | inl e ↦ rw e (omega arith)
  | inr e ↦ rw e refl
]
step-dropped s stopping = refl
step-dropped s locked = omega (arith, lock_batch-dropped s s.phase)
step-dropped s (inserted answer) =
    ap (λ (w : Writer). (w.dropped_messages + 0) % 2 ^ 64) (insert_batch-writer answer s s.phase)

run-held : (s : Storage) (es : List Event) → held (run s es) ≡ held s ++ accepted s es
unfolding run accepted
run-held s [] = sym (append-nil (held s))
run-held s (e ∷ es) =
    run-held (step s e) es
    ∙ ap (λ x. x ++ accepted (step s e) es) (step-held s e)
    ∙ append_assoc (held s) (taken_on s e) (accepted (step s e) es)

run-dropped :
    (s : Storage) (es : List Event)
    → ((run s es).writer.dropped_messages + length (accepted s es)) % 2 ^ 64
      ≡ (s.writer.dropped_messages + offered es) % 2 ^ 64
unfolding run accepted offered
run-dropped s [] = refl
run-dropped s (e ∷ es) = omega (
  arith,
  run-dropped (step s e) es,
  step-dropped s e,
  length-append (taken_on s e) (accepted (step s e) es),
)

-- In any order of the steps, each message that found room in the queue is, in the order of arrival
-- and exactly once, handed to the database, in the batch, or in the queue; the other ones are
-- counted, modulo `2 ^ 64`.
pub each_message_once :
    (s : Storage) (es : List Event)
    → (held (run s es) ≡ held s ++ accepted s es)
      × (((run s es).writer.dropped_messages + length (accepted s es)) % 2 ^ 64
          ≡ (s.writer.dropped_messages + offered es) % 2 ^ 64)
each_message_once s es = (run-held s es, run-dropped s es)
