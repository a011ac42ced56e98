-- ===== src/Chat/Writer/Exit.antt =====
-- The writer after the stop: its rounds end, and leave nothing behind.
use echo_net.Base.{
  ◌+◌, ◌-◌, ◌*◌, ◌≤◌, ◌<◌, ◌≡◌, refl, sym, ap, ◌∙◌, List, [], ◌∷◌, ◌++◌, Bool, true, false, ◌&&◌,
  Option, some, arith, length, Returns, Returns-bind, append-nil,
}
use echo_net.Chat.Writer.{
  MessageRecord, Writer, take_batch, fill, batch_max_size, is_none_left, batch_insert_messages,
  db_writer_loop, after_round, Insertion,
}
use echo_net.Chat.Writer.Batches.{
  settled, settled-append, settled-insert, take_batch-append, length-fill-left,
}

both_empty : (b q : List MessageRecord) → is_none_left q && is_none_left b ≡ true → b ≡ b ++ q
both_empty b [] e = sym (append-nil b)
both_empty b (m ∷ q) e = absurd (ground arith)

-- A round that exits has everything in the batch.
exit-batch :
    (w : Writer)
    → (take_batch w []).should_exit ≡ true
    → (take_batch w []).batch ≡ (take_batch w []).batch ++ (take_batch w []).writer.msg_queue
unfolding take_batch
exit-batch w e = both_empty (fill w.msg_queue []).1 (fill w.msg_queue []).0 (ground (arith, e))

-- A round that does not exit, once the writer is stopped, had a message.
goes_on :
    (w : Writer)
    → w.db_writer_stop ≡ true
    → (take_batch w []).should_exit ≡ false
    → 0 < length w.msg_queue
unfolding take_batch fill
goes_on w h e = goes_on_at w.msg_queue w.db_writer_stop h e
  where
    goes_on_at :
        (q : List MessageRecord) (stop : Bool)
        → stop ≡ true
        → stop && is_none_left (fill q []).0 && is_none_left (fill q []).1 ≡ false
        → 0 < length q
    goes_on_at [] stop h e = absurd (ground arith)
    goes_on_at (m ∷ q) stop h e = omega arith

left_length :
    (w : Writer) → length (take_batch w []).writer.msg_queue ≤ length w.msg_queue - batch_max_size
unfolding take_batch
left_length w = omega (arith, length-fill-left w.msg_queue [])

still_stopped :
    (w : Writer) → w.db_writer_stop ≡ true → (take_batch w []).writer.db_writer_stop ≡ true
unfolding take_batch
still_stopped w h = h

after_round-Returns :
    (exit : Bool) (done : List Insertion) (rest : Option (List Insertion))
    (batch queue all : List MessageRecord)
    → settled done ≡ batch
    → batch ++ queue ≡ all
    → (exit ≡ true → batch ≡ batch ++ queue)
    → (exit ≡ false → Returns (λ log. settled log ≡ queue) rest)
    → Returns (λ log. settled log ≡ all) (after_round exit done rest)
unfolding after_round
after_round-Returns true done rest batch queue all s e h k = s ∙ h refl ∙ e
after_round-Returns false done rest batch queue all s e h k =
    Returns-bind (λ more. settled more ≡ queue) (λ log. settled log ≡ all) rest
      (λ more. some (done ++ more)) (k refl)
      (λ more i. settled-append done more ∙ ap (λ x. x ++ settled more) s ∙ ap (◌++◌ batch) i ∙ e)

-- With the stop set and no message arriving any more, the loop ends within the rounds that take the
-- queue and one batch more, whatever the database answers, and has then handed it every message of
-- the queue, in order.
pub db_writer_loop-Returns :
    (answers : List Bool) (w : Writer)
    → w.db_writer_stop ≡ true
    → length w.msg_queue + 2000 ≤ length answers * 2000
    → Returns (λ log. settled log ≡ w.msg_queue) (db_writer_loop answers w)
unfolding db_writer_loop
db_writer_loop-Returns [] w h l = absurd (omega arith)
db_writer_loop-Returns (a ∷ answers) w h l =
    let locked = take_batch w [] in
    after_round-Returns locked.should_exit (batch_insert_messages a locked.batch)
      (db_writer_loop answers locked.writer) locked.batch locked.writer.msg_queue w.msg_queue
      (settled-insert a locked.batch) (take_batch-append w []) (exit-batch w)
      (λ e.
        db_writer_loop-Returns answers locked.writer (still_stopped w h)
          (omega (arith, goes_on w h e, left_length w, l)))
