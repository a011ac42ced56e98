-- ===== src/Net/Connection/Chat.antt =====
-- A connection that speaks the binary protocol, from the bytes of the socket to the tasks.
use echo_net.Base.{
  ℕ, suc, zero, ◌<◌, ◌≡◌, refl, sym, ap, ◌∙◌, List, [], ◌∷◌, ◌++◌, Bool, true, false, Option, arith,
  length, Returns, Returns-map, append_assoc, append-nil, subst,
}
use echo_net.Net.Buffer.{Buffer, readable}
use echo_net.Net.Buffer.Bounds.{IsValid}
use echo_net.Net.Buffer.Contents.{contents, length-contents}
use echo_net.Protocol.{ParseResult, ok}
use echo_net.Protocol.MyProtocol.Message.{Message, encode}
use echo_net.Protocol.MyProtocol.Parse.{MyProtocol, parse, get_message, reset, get_error_response}
use echo_net.Protocol.MyProtocol.Frames.{
  Outcome, incomplete, malformed, frame, spec, Shows, parse_refines,
}
use echo_net.Protocol.MyProtocol.RoundTrip.{spec-shorter}
use echo_net.Protocol.MyProtocol.Stream.{
  Batch, waits, fails, put, round, frames, all_frames, encode_all, AllFit, all_frames-encode_all,
}
use echo_net.Net.Connection.State.{Protocol, Conn, is_connected}
use echo_net.Net.Connection.Close.{handle_close}
use echo_net.Net.Connection.Tasks.{enqueue_task, submit_front, start_front}
use echo_net.Net.Connection.Read.{
  parse_loop, parse_round, accept_request, protocol_error, drop_tail,
}
use echo_net.Net.Connection.Events.Inv.{Inv}
use echo_net.Net.Connection.Events.Io.{Laws, accept_request-Inv, enqueue_task-kept}

-- The overrides of class `MyProtocol`.
abbrev pub my_protocol : Protocol MyProtocol Message
my_protocol = record {
  parse = parse;
  encode = encode;
  get_message = get_message;
  reset = reset;
  get_error_response = get_error_response;
}

-- What the parser returns for an outcome of the specification.
Shows-Returns :
    (p : MyProtocol) (b : Buffer) (r : Option (ParseResult × MyProtocol × Buffer)) (o : Outcome)
    → IsValid b
    → spec (contents b) ≡ o
    → Shows p b r o
    → Returns (λ t. IsValid t.2 × (t.0 ≡ ok → readable t.2 < readable b)) r
Shows-Returns p b r incomplete v e s = rw s (v, λ h. absurd (ground arith))
Shows-Returns p b r (malformed rest) v e (c, s, w, l) = rw s (w, λ h. absurd (ground arith))
Shows-Returns p b r (frame m rest) v e (c, s, w, l) = rw s (
  w,
  λ h. omega (
    arith,
    spec-shorter (contents b) m rest e,
    length-contents b v,
    length-contents c w,
    ap length l,
  ),
)

pub my_protocol-Laws : Laws my_protocol
my_protocol-Laws = record {
  parses = λ p b v. Shows-Returns p b (parse p b) (spec (contents b)) v refl (parse_refines p b v);
}

-- Everything that was put into the queue of tasks, oldest first.
abbrev pub line : {P M : Type 0} → Conn P M → List M
line c = c.submitted ++ c.pending_tasks

-- What the workers get of new messages before any task ends, by whether a task is running.
abbrev pub handed : {M : Type 0} → Bool → List M → List M
handed true ms = []
handed false [] = []
handed false (m ∷ ms) = m ∷ []

-- The outcome of the parse loop: the messages of a batch have joined the queue, in order, and the
-- connection is closed exactly where the stream is malformed; then what waits is dropped.
abbrev pub Delivered : Conn MyProtocol Message → Batch → Conn MyProtocol Message → Type 0
Delivered c (ms, waits rest) d = (line d ≡ line c ++ ms) × (is_connected d ≡ true)
Delivered c (ms, fails rest) d =
    (d.submitted ≡ c.submitted ++ handed c.task_running ms)
    × (d.pending_tasks ≡ [])
    × (is_connected d ≡ false)

module _ {P M : Type 0} where
  enqueue_task-line :
      {done : ℕ} (c : Conn P M) (t : M) → Inv done c → line (enqueue_task c t) ≡ line c ++ t ∷ []
  unfolding enqueue_task submit_front start_front
  enqueue_task-line c t v = ground (
    arith,
    append_assoc c.submitted c.pending_tasks (t ∷ []),
    append-nil c.submitted,
    append-nil (c.submitted ++ t ∷ []),
  )

  enqueue_task-handed :
      {done : ℕ} (c : Conn P M) (t : M) (ms : List M)
      → Inv done c
      → ((enqueue_task c t).submitted ≡ c.submitted ++ handed c.task_running (t ∷ ms))
        × ((enqueue_task c t).task_running ≡ true)
  unfolding enqueue_task submit_front start_front
  enqueue_task-handed c t ms v = ground (arith, v.wired, v.queue, append-nil c.submitted)

  drop_tail-kept :
      (c : Conn P M) → (line (drop_tail c) ≡ line c) × (is_connected (drop_tail c) ≡ is_connected c)
  unfolding drop_tail
  drop_tail-kept c = ground arith

  -- Closing hands out no task, and drops what waits.
  handle_close-submitted :
      (c : Conn P M)
      → is_connected c ≡ true
      → ((handle_close c).submitted ≡ c.submitted)
        × ((handle_close c).pending_tasks ≡ [])
        × (is_connected (handle_close c) ≡ false)
  unfolding handle_close
  handle_close-submitted c on = ground arith

  accept_request-line :
      {done : ℕ} (proto : Protocol P M) (c : Conn P M)
      → Inv done c
      → (line (accept_request proto c) ≡ line c ++ proto.get_message c.protocol ∷ [])
        × (is_connected (accept_request proto c) ≡ is_connected c)
  unfolding accept_request
  accept_request-line proto c v = (
    enqueue_task-line c (proto.get_message c.protocol) v,
    (enqueue_task-kept c (proto.get_message c.protocol) (ground (arith, v.wired))).1,
  )

  accept_request-handed :
      {done : ℕ} (proto : Protocol P M) (c : Conn P M) (ms : List M)
      → Inv done c
      → ((accept_request proto c).submitted
          ≡ c.submitted ++ handed c.task_running (proto.get_message c.protocol ∷ ms))
        × ((accept_request proto c).task_running ≡ true)
  unfolding accept_request
  accept_request-handed proto c ms v = enqueue_task-handed c (proto.get_message c.protocol) ms v

Delivered-put :
    (c c' d : Conn MyProtocol Message) (m : Message) (b : Batch)
    → line c' ≡ line c ++ m ∷ []
    → ((ms : List Message)
        → (c'.submitted ≡ c.submitted ++ handed c.task_running (m ∷ ms)) × (c'.task_running ≡ true))
    → Delivered c' b d
    → Delivered c (put m b) d
Delivered-put c c' d m (ms, waits r) e k (l, on) =
    (l ∙ ap (λ t. t ++ ms) e ∙ append_assoc (line c) (m ∷ []) ms, on)
Delivered-put c c' d m (ms, fails r) e k (l, dropped, off) = (
  l ∙ ap (λ b. c'.submitted ++ handed b ms) (k ms).1 ∙ append-nil c'.submitted ∙ (k ms).0,
  dropped,
  off,
)

-- One round of the loop, for each outcome of the parser.
round-Delivered :
    {done : ℕ} (c : Conn MyProtocol Message) (o : Outcome)
    (r : Option (ParseResult × MyProtocol × Buffer)) (batches : List ℕ → Batch)
    (next : Conn MyProtocol Message → Option (Conn MyProtocol Message))
    → Inv done c
    → is_connected c ≡ true
    → Shows c.protocol c.in_buffer r o
    → ((d : Conn MyProtocol Message) (m : Message) (rest : List ℕ)
        → o ≡ frame m rest
        → Inv done d
        → is_connected d ≡ true
        → contents d.in_buffer ≡ rest
        → Returns (Delivered d (batches rest)) (next d))
    → Returns
        (Delivered c (round o (contents c.in_buffer) batches))
        (parse_round my_protocol c r next)
unfolding parse_round protocol_error get_error_response get_message
round-Delivered c incomplete r batches next v on s k = rw s (
  (drop_tail-kept (record c { protocol = c.protocol; in_buffer = c.in_buffer })).0
      ∙ sym (append-nil (line c)),
  (drop_tail-kept (record c { protocol = c.protocol; in_buffer = c.in_buffer })).1 ∙ on,
)
round-Delivered c (malformed rest) r batches next v on (b, s, w, l) k =
    let d = record c { in_buffer = b } in
    rw s (
      (handle_close-submitted d on).0
          ∙ sym (append-nil c.submitted)
          ∙ ap (◌++◌ c.submitted) (sym (nothing_new c.task_running)),
      (handle_close-submitted d on).1,
      (handle_close-submitted d on).2,
    )
  where
    nothing_new : (b : Bool) → handed {M = Message} b [] ≡ []
    nothing_new true = refl
    nothing_new false = refl
round-Delivered {done} c (frame m rest) r batches next v on (b, s, w, l) k =
    let d = record c { protocol = record { current = m }; in_buffer = b } in
    let u : Inv done d = ground arith in
    let a = accept_request-Inv my_protocol my_protocol-Laws d u on in
    rw s (
      rw on (
        Returns-map _ _ (next (accept_request my_protocol d))
          (k (accept_request my_protocol d) m rest refl a.0
            ((accept_request-line my_protocol d u).1 ∙ on) (ap contents a.1 ∙ l))
          λ e.
            Delivered-put c (accept_request my_protocol d) e m (batches rest)
              (accept_request-line my_protocol d u).0
              (λ ms. accept_request-handed my_protocol d ms u)))

-- On a connected connection whose tasks go to workers and that keeps the invariant, the parse loop of
-- `read`, over this protocol and with more fuel than there are unread bytes, turns these bytes into
-- tasks. Where an incomplete frame or nothing follows the complete frames at their front, exactly the
-- messages of these join the queue of tasks, in order, and the connection stays connected. Where a
-- malformed frame follows them, the connection is closed and no task waits any more: the workers have
-- got what they had and, if no task was running, the first of the messages.
pub parse_loop_delivers :
    {done : ℕ} (fuel : ℕ) (c : Conn MyProtocol Message)
    → Inv done c
    → is_connected c ≡ true
    → length (contents c.in_buffer) < fuel
    → Returns (Delivered c (frames fuel (contents c.in_buffer))) (parse_loop my_protocol fuel c)
unfolding parse_loop frames
parse_loop_delivers zero c v on h = absurd (omega arith)
parse_loop_delivers (suc fuel) c v on h =
    round-Delivered c (spec (contents c.in_buffer)) (my_protocol.parse c.protocol c.in_buffer)
      (λ r. frames fuel r) (λ d. parse_loop my_protocol fuel d) v on
      (parse_refines c.protocol c.in_buffer v.in_valid)
      λ d m rest e w up l.
        subst (λ t. Returns (Delivered d (frames fuel t)) (parse_loop my_protocol fuel d)) l
          (parse_loop_delivers fuel d w up
            (omega (arith, spec-shorter (contents c.in_buffer) m rest e, ap length l)))

-- From the peer's encoder to the workers: where the unread bytes of a connected connection, whose tasks
-- go to workers and that keeps the invariant, are a sequence of encoded messages that each fit into a
-- frame, and behind them the first part of a frame, the parse loop, with a round more than there are
-- bytes, puts exactly these messages into the queue of tasks, in order, and the connection stays
-- connected.
pub parse_loop-encode_all :
    {done : ℕ} (c : Conn MyProtocol Message) (ms : List Message) (part : List ℕ)
    → Inv done c
    → is_connected c ≡ true
    → AllFit ms
    → spec part ≡ incomplete
    → contents c.in_buffer ≡ encode_all ms ++ part
    → Returns
        (Delivered c (ms, waits part))
        (parse_loop my_protocol (suc (length (contents c.in_buffer))) c)
unfolding all_frames
parse_loop-encode_all c ms part v on fit short e =
    let q = contents c.in_buffer in
    subst (λ t. Returns (Delivered c t) (parse_loop my_protocol (suc (length q)) c))
      (ap all_frames e ∙ all_frames-encode_all ms part fit short)
      (parse_loop_delivers (suc (length q)) c v on (omega arith))
