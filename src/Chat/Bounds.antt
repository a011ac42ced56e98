-- ===== src/Chat/Bounds.antt =====
-- Bounds of the counters, the ids and the queue in any history.
use echo_net.Base.{
  ◌^◌, ◌≤◌, ◌<◌, ◌≡◌, refl, List, [], ◌∷◌, arith, length, Bool-cases, inl, inr, leb, length-append,
}
use echo_net.Chat.Writer.{Writer, take_batch, enqueue_message, MessageRecord, max_queue_size}
use echo_net.Chat.Writer.Batches.{length-fill-queue}
use echo_net.Chat.State.{Chat}
use echo_net.Chat.Login.{add_session}
use echo_net.Chat.Changes.{Change, kept, added, numbered, created, moved, talked, refused, closed}
use echo_net.Chat.History.{Event, run, step, step-case}

-- Every integer fits into its type, and the queue keeps its limit.
pub record IsBounded (c : Chat) : Type 0 where
  pub session_id : c.next_session_id < 2 ^ 32
  pub room_id : c.next_room_id < 2 ^ 32
  pub queue : length c.writer.msg_queue ≤ 500000
  pub dropped : c.writer.dropped_messages < 2 ^ 64
  pub logins : c.total_connections < 2 ^ 64
  pub active : c.active_connections < 2 ^ 64
  pub requests : c.total_requests < 2 ^ 64
  pub errors : c.error_requests < 2 ^ 64

enqueue-length :
    (m : MessageRecord) (w : Writer)
    → length w.msg_queue ≤ 500000
    → length (enqueue_message m w).msg_queue ≤ 500000
unfolding enqueue_message
enqueue-length m w h = elim (Bool-cases (leb max_queue_size (length w.msg_queue))) [
  | inl e ↦ rw e h
  | inr e ↦ rw e (ground (arith, length-append w.msg_queue (m ∷ [])))
]

enqueue-dropped :
    (m : MessageRecord) (w : Writer)
    → w.dropped_messages < 2 ^ 64
    → (enqueue_message m w).dropped_messages < 2 ^ 64
unfolding enqueue_message
enqueue-dropped m w h = elim (Bool-cases (leb max_queue_size (length w.msg_queue))) [
  | inl e ↦ rw e (omega arith)
  | inr e ↦ rw e h
]

take_batch-length : (w : Writer) → length (take_batch w []).writer.msg_queue ≤ length w.msg_queue
unfolding take_batch
take_batch-length w = length-fill-queue w.msg_queue []

take_batch-dropped : (w : Writer) → (take_batch w []).writer.dropped_messages ≡ w.dropped_messages
unfolding take_batch
take_batch-dropped w = refl

Change-IsBounded : {c d : Chat} → Change c d → IsBounded c → IsBounded d
unfolding add_session
Change-IsBounded {c} kept h = h
Change-IsBounded {c} (added a conn msg name) h = record {
  session_id = omega arith;
  room_id = h.room_id;
  queue = h.queue;
  dropped = h.dropped;
  logins = omega arith;
  active = omega arith;
  requests = h.requests;
  errors = h.errors;
}
Change-IsBounded {c} numbered h = record {
  session_id = h.session_id;
  room_id = omega arith;
  queue = h.queue;
  dropped = h.dropped;
  logins = h.logins;
  active = h.active;
  requests = h.requests;
  errors = h.errors;
}
Change-IsBounded {c} (created o s name) h = record {
  session_id = h.session_id;
  room_id = omega arith;
  queue = h.queue;
  dropped = h.dropped;
  logins = h.logins;
  active = h.active;
  requests = h.requests;
  errors = h.errors;
}
Change-IsBounded {c} (moved o r s rooms k e) h = record {
  session_id = h.session_id;
  room_id = h.room_id;
  queue = h.queue;
  dropped = h.dropped;
  logins = h.logins;
  active = h.active;
  requests = h.requests;
  errors = h.errors;
}
Change-IsBounded {c} (talked m) h = record {
  session_id = h.session_id;
  room_id = h.room_id;
  queue = enqueue-length m c.writer h.queue;
  dropped = enqueue-dropped m c.writer h.dropped;
  logins = h.logins;
  active = h.active;
  requests = h.requests;
  errors = h.errors;
}
Change-IsBounded {c} refused h = record {
  session_id = h.session_id;
  room_id = h.room_id;
  queue = h.queue;
  dropped = h.dropped;
  logins = h.logins;
  active = h.active;
  requests = h.requests;
  errors = omega arith;
}
Change-IsBounded {c} (closed fd o rooms e k) h = record {
  session_id = h.session_id;
  room_id = h.room_id;
  queue = h.queue;
  dropped = h.dropped;
  logins = h.logins;
  active = omega arith;
  requests = h.requests;
  errors = h.errors;
}

step-IsBounded : (c : Chat) (e : Event) → IsBounded c → IsBounded (step c e)
step-IsBounded c e h =
    step-case IsBounded IsBounded c e (λ x y is k p. Change-IsBounded k p)
      (λ p. record {
        session_id = p.session_id;
        room_id = p.room_id;
        queue = p.queue;
        dropped = p.dropped;
        logins = p.logins;
        active = p.active;
        requests = omega arith;
        errors = p.errors;
      })
      (λ p. record {
        session_id = p.session_id;
        room_id = p.room_id;
        queue = omega (arith, p.queue, take_batch-length c.writer);
        dropped = omega (arith, p.dropped, take_batch-dropped c.writer);
        logins = p.logins;
        active = p.active;
        requests = p.requests;
        errors = p.errors;
      })
      (λ p. record {
        session_id = p.session_id;
        room_id = p.room_id;
        queue = p.queue;
        dropped = p.dropped;
        logins = p.logins;
        active = p.active;
        requests = p.requests;
        errors = p.errors;
      })
      h

-- From a state within the bounds, as that of a new service, in any history every id stays below `2
-- ^ 32`, every counter below `2 ^ 64`, and at most 500000 messages wait in the queue.
pub run-IsBounded : (c : Chat) (es : List Event) → IsBounded c → IsBounded (run c es)
unfolding run
run-IsBounded c [] h = h
run-IsBounded c (e ∷ es) h = run-IsBounded (step c e) es (step-IsBounded c e h)
