-- ===== src/Chat/Writer/Batches.antt =====
-- One round of the writer, and its rounds up to the exit.
use echo_net.Base.{
  ◌+◌, ◌-◌, ◌≤◌, ◌≡◌, refl, sym, ap, ◌∙◌, List, [], ◌∷◌, ◌++◌, Bool, arith, ltb, length,
  length-append, append_assoc, append-nil, Bool-cases, inl, inr,
}
use echo_net.Chat.Writer.{
  MessageRecord, Writer, fill, take_batch, batch_max_size, batch_insert_messages, Insertion,
}

-- The loop keeps the messages and their order.
fill-append :
    (queue batch : List MessageRecord)
    → (fill queue batch).1 ++ (fill queue batch).0 ≡ batch ++ queue
unfolding fill
fill-append [] batch = refl
fill-append (m ∷ queue) batch = elim (Bool-cases (ltb (length batch) batch_max_size)) [
  | inl e ↦ rw e (fill-append queue (batch ++ m ∷ []) ∙ append_assoc batch (m ∷ []) queue)
  | inr e ↦ rw e refl
]

-- A batch does not grow over its limit.
pub length-fill :
    (queue batch : List MessageRecord)
    → length batch ≤ batch_max_size
    → length (fill queue batch).1 ≤ batch_max_size
unfolding fill
length-fill [] batch h = h
length-fill (m ∷ queue) batch h = elim (Bool-cases (ltb (length batch) batch_max_size)) [
  | inl e ↦
      rw e (length-fill queue (batch ++ m ∷ []) (ground (arith, length-append batch (m ∷ []))))
  | inr e ↦ rw e h
]

-- What is left does not fit.
pub length-fill-left :
    (queue batch : List MessageRecord)
    → length (fill queue batch).0 ≤ length queue + length batch - batch_max_size
unfolding fill
length-fill-left [] batch = omega arith
length-fill-left (m ∷ queue) batch = elim (Bool-cases (ltb (length batch) batch_max_size)) [
  | inl e ↦
      rw e (omega (arith, length-fill-left queue (batch ++ m ∷ []), length-append batch (m ∷ [])))
  | inr e ↦ rw e (ground arith)
]

-- The queue does not grow.
pub length-fill-queue :
    (queue batch : List MessageRecord) → length (fill queue batch).0 ≤ length queue
unfolding fill
length-fill-queue [] batch = omega arith
length-fill-queue (m ∷ queue) batch = elim (Bool-cases (ltb (length batch) batch_max_size)) [
  | inl e ↦ rw e (omega (arith, length-fill-queue queue (batch ++ m ∷ [])))
  | inr e ↦ rw e (omega arith)
]

-- What was handed to the database, in order.
unfoldable pub settled : List Insertion → List MessageRecord
settled [] = []
settled (i ∷ log) = i.batch ++ settled log

pub settled-append : (l k : List Insertion) → settled (l ++ k) ≡ settled l ++ settled k
unfolding settled
settled-append [] k = refl
settled-append (i ∷ l) k =
    ap (◌++◌ i.batch) (settled-append l k) ∙ sym (append_assoc i.batch (settled l) (settled k))

pub settled-insert :
    (answer : Bool) (batch : List MessageRecord)
    → settled (batch_insert_messages answer batch) ≡ batch
unfolding settled batch_insert_messages
settled-insert answer [] = refl
settled-insert answer (m ∷ batch) = append-nil (m ∷ batch)

-- The part under the lock keeps the messages and their order.
pub take_batch-append :
    (w : Writer) (batch : List MessageRecord)
    → (take_batch w batch).batch ++ (take_batch w batch).writer.msg_queue ≡ batch ++ w.msg_queue
unfolding take_batch
take_batch-append w batch = fill-append w.msg_queue batch
