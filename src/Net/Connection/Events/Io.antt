-- ===== src/Net/Connection/Events/Io.antt =====
-- Reading and writing keep the invariant, and never trip an assertion or run out of fuel.
use echo_net.Base.{
  ◌++◌, ℕ, suc, zero, ◌+◌, ◌≤◌, ◌<◌, ◌≡◌, refl, inl, inr, List, [], ◌∷◌, Bool, true, false, ◌&&◌,
  not, Option, some, none, arith, if◌then◌else◌, length, ◌==◌, Bool-cases, Returns, Returns-bind,
  ◌>>=◌,
}
use echo_net.Net.Buffer.{Buffer, readable, writable_bytes}
use echo_net.Net.Buffer.Contents.{contents}
use echo_net.Net.Buffer.Bounds.{IsValid, advance-IsValid, readable-advance, move_read_ptr-eq}
use echo_net.Protocol.{ParseResult, ok, need_more, error}
use echo_net.Net.Connection.State.{Protocol, Conn, is_connected, hands_over}
use echo_net.Net.Connection.Close.{maybe_finish}
use echo_net.Net.Connection.Tasks.{enqueue_task, submit_front, start_front}
use echo_net.Net.Connection.Send.{SendResult, sent, write_loop, after_write, write}
use echo_net.Net.Connection.Read.{
  ReadResult, received, interrupted, would_block, failed, extra_buf_size, make_room, take_in,
  peer_eof, read_loop, drop_tail, protocol_error, accept_request, parse_loop, parse_round, read,
}
use echo_net.Net.Connection.Events.Inv.{
  Inv, handle_close-Inv, maybe_finish-Inv, discard_all-IsValid,
}
use echo_net.Net.Connection.Events.Steps.{enqueue_task-Inv, send_response-Inv}
use echo_net.Net.Connection.Events.Fill.{make_room_lem, take_in_lem}

-- The bytes that the kernel says it took.
abbrev pub total_sent : List SendResult → ℕ
total_sent [] = 0
total_sent (sent n ∷ rs) = n + total_sent rs
total_sent (_ ∷ rs) = total_sent rs

-- No result of `readv` is larger than the two blocks that it was given: the free part of the buffer as
-- it is at that round, and the second block.
abbrev pub Chunks : Buffer → List ReadResult → Type 0
Chunks b [] = Unit {0}
Chunks b (received [] ∷ rs) = Unit {0}
Chunks b (received (x ∷ xs) ∷ rs) =
    (length (x ∷ xs) ≤ writable_bytes (make_room b) + extra_buf_size)
    × ((next : Buffer) → take_in (make_room b) (x ∷ xs) ≡ some next → Chunks next rs)
Chunks b (interrupted ∷ rs) = Chunks (make_room b) rs
Chunks b (would_block ∷ rs) = Unit {0}
Chunks b (failed ∷ rs) = Unit {0}

-- What the connection relies on in a protocol: a parser keeps a buffer well formed, and consumes
-- at least a byte with each message.
pub record Laws {P M : Type 0} (proto : Protocol P M) : Type 0 where
  pub parses :
      (p : P) (b : Buffer)
      → IsValid b
      → Returns (λ t. IsValid t.2 × (t.0 ≡ ok → readable t.2 < readable b)) (proto.parse p b)

-- As `Returns-bind`, where what follows needs to know which value was returned.
Returns-next :
    {A B : Type 0} (P : A → Type 0) (Q : B → Type 0) (o : Option A) (f : A → Option B)
    → Returns P o
    → ((a : A) → o ≡ some a → P a → Returns Q (f a))
    → Returns Q (o >>= f)
Returns-next P Q none f r k = r
Returns-next P Q (some a) f r k = k a refl r

module _ {P M : Type 0} {done : ℕ} where
  pub write_loop-Inv :
      (now : ℕ) (rs : List SendResult) (c : Conn P M)
      → Inv done c
      → total_sent rs ≤ readable c.out_buffer
      → Returns (λ r. Inv done r.1) (write_loop now c rs)
  unfolding write_loop
  write_loop-Inv now [] c v h = v
  write_loop-Inv now (sent n ∷ rs) c v h = elim (Bool-cases (readable c.out_buffer == 0)) [
    | inl e ↦ rw e v
    | inr ne ↦ elim (Bool-cases (n == 0)) [
      | inl e ↦ rw (ne, e) (handle_close-Inv c v)
      | inr pos ↦
          rw (ne, pos, move_read_ptr-eq c.out_buffer n (omega arith))
            (write_loop-Inv now rs _ (ground (arith, advance-IsValid c.out_buffer n v.out_valid))
              (omega (arith, readable-advance c.out_buffer n v.out_valid)))
    ]
  ]
  write_loop-Inv now (SendResult.interrupted ∷ rs) c v h =
      elim (Bool-cases (readable c.out_buffer == 0)) [
        | inl e ↦ rw e v
        | inr ne ↦ rw ne (write_loop-Inv now rs c v h)
      ]
  write_loop-Inv now (SendResult.would_block ∷ rs) c v h = v
  write_loop-Inv now (SendResult.failed ∷ rs) c v h =
      elim (Bool-cases (readable c.out_buffer == 0)) [
        | inl e ↦ rw e v
        | inr ne ↦ rw ne (handle_close-Inv c v)
      ]

  pub after_write-Inv : (c : Conn P M) → Inv done c → Inv done (after_write c)
  unfolding after_write
  after_write-Inv c v = elim (Bool-cases (readable c.out_buffer == 0)) [
    | inl e ↦ rw e (maybe_finish-Inv _ (ground arith))
    | inr ne ↦ rw ne v
  ]

  -- `write` succeeds for every answer of the kernel that takes no more bytes than it was given.
  pub write-Inv :
      (now : ℕ) (c : Conn P M) (rs : List SendResult)
      → Inv done c
      → total_sent rs ≤ readable c.out_buffer
      → Returns (Inv done) (write now c rs)
  unfolding write
  write-Inv now c rs v h = elim (Bool-cases (is_connected c)) [
    | inl on ↦ rw on (
        Returns-bind (λ r. Inv done r.1) (Inv done) _ _ (write_loop-Inv now rs c v h)
          λ (go, d) w. either go d w)
    | inr off ↦ rw off v
  ]
    where
      either : (go : Bool) (d : Conn P M) → Inv done d → Inv done (if go then after_write d else d)
      either true d w = after_write-Inv d w
      either false d w = w

  pub read_loop-Inv :
      (now : ℕ) (rs : List ReadResult) (c : Conn P M)
      → Inv done c
      → Chunks c.in_buffer rs
      → Returns (λ r. Inv done r.1) (read_loop now c rs)
  unfolding read_loop peer_eof
  read_loop-Inv now [] c v h = ground (arith, make_room_lem c.in_buffer)
  read_loop-Inv now (received [] ∷ rs) c v h = ground (arith, make_room_lem c.in_buffer)
  read_loop-Inv now (received (x ∷ xs) ∷ rs) c v h =
      let room = make_room_lem c.in_buffer v.in_valid in
      Returns-next (λ b. IsValid b × (contents b ≡ contents (make_room c.in_buffer) ++ x ∷ xs))
        (λ r. Inv done r.1) (take_in (make_room c.in_buffer) (x ∷ xs)) _
        (take_in_lem (make_room c.in_buffer) (x ∷ xs) room.0 h.0)
        λ b e w. read_loop-Inv now rs _ (ground (arith, w.0)) (h.1 b e)
  read_loop-Inv now (ReadResult.interrupted ∷ rs) c v h =
      read_loop-Inv now rs _ (ground (arith, make_room_lem c.in_buffer)) h
  read_loop-Inv now (ReadResult.would_block ∷ rs) c v h = ground (arith, make_room_lem c.in_buffer)
  read_loop-Inv now (ReadResult.failed ∷ rs) c v h =
      handle_close-Inv _ (ground (arith, make_room_lem c.in_buffer))

  drop_tail-Inv : (c : Conn P M) → Inv done c → Inv done (drop_tail c)
  unfolding drop_tail
  drop_tail-Inv c v = ground (arith, discard_all-IsValid c.in_buffer)

module _ {P M : Type 0} where
  pub enqueue_task-kept :
      (c : Conn P M) (t : M)
      → hands_over c.work_callback ≡ true
      → ((enqueue_task c t).in_buffer ≡ c.in_buffer)
        × (is_connected (enqueue_task c t) ≡ is_connected c)
  unfolding enqueue_task submit_front start_front
  enqueue_task-kept c t wired = ground arith

module _ {P M : Type 0} {done : ℕ} (proto : Protocol P M) (laws : Laws proto) where
  protocol_error-Inv :
      (c : Conn P M) (m : Option M) → Inv done c → Inv done (protocol_error proto c m)
  unfolding protocol_error
  protocol_error-Inv c none v = handle_close-Inv c v
  protocol_error-Inv c (some m) v = let w = send_response-Inv proto true c m v in ground (arith, w)

  pub accept_request-Inv :
      (c : Conn P M)
      → Inv done c
      → is_connected c ≡ true
      → Inv done (accept_request proto c) × ((accept_request proto c).in_buffer ≡ c.in_buffer)
  unfolding accept_request
  accept_request-Inv c v on =
      let w = enqueue_task-Inv c (proto.get_message c.protocol) v on in
      (
        ground (arith, w),
        (enqueue_task-kept c (proto.get_message c.protocol) (ground (arith, v.wired))).0,
      )

  parse_round-Inv :
      (c : Conn P M) (t : Option (ParseResult × P × Buffer)) (next : Conn P M → Option (Conn P M))
      → Inv done c
      → Returns (λ t. IsValid t.2 × (t.0 ≡ ok → readable t.2 < readable c.in_buffer)) t
      → ((d : Conn P M)
          → Inv done d
          → readable d.in_buffer < readable c.in_buffer
          → Returns (Inv done) (next d))
      → Returns (Inv done) (parse_round proto c t next)
  unfolding parse_round
  parse_round-Inv c none next v h k = h
  parse_round-Inv c (some (ok, p, b)) next v h k = elim (Bool-cases (is_connected c)) [
    | inl on ↦
        let w =
          accept_request-Inv (record c { protocol = p; in_buffer = b }) (ground (arith, h.0)) on in
        rw on (k _ w.0 (rw w.1 (h.1 refl)))
    | inr off ↦ rw off (ground (arith, h.0))
  ]
  parse_round-Inv c (some (error, p, b)) next v h k =
      protocol_error-Inv _ (proto.get_error_response p) (ground (arith, h.0))
  parse_round-Inv c (some (need_more, p, b)) next v h k = drop_tail-Inv _ (ground (arith, h.0))

  pub parse_loop-Inv :
      (fuel : ℕ) (c : Conn P M)
      → Inv done c
      → readable c.in_buffer < fuel
      → Returns (Inv done) (parse_loop proto fuel c)
  unfolding parse_loop
  parse_loop-Inv zero c v h = absurd (omega arith)
  parse_loop-Inv (suc fuel) c v h =
      parse_round-Inv c (proto.parse c.protocol c.in_buffer) (λ d. parse_loop proto fuel d) v
        (laws.parses c.protocol c.in_buffer v.in_valid)
        λ d w less. parse_loop-Inv fuel d w (omega arith)

  -- `read` succeeds for every answer of the kernel that fits, in each round, into the two blocks.
  pub read-Inv :
      (now : ℕ) (c : Conn P M) (rs : List ReadResult)
      → Inv done c
      → Chunks c.in_buffer rs
      → Returns (Inv done) (read proto now c rs)
  unfolding read
  read-Inv now c rs v h = elim (Bool-cases (is_connected c && not c.peer_read_closed)) [
    | inl on ↦ rw on (
        Returns-bind (λ r. Inv done r.1) (Inv done) _ _ (read_loop-Inv now rs c v h)
          λ (go, d) w. either go d w)
    | inr off ↦ rw off v
  ]
    where
      either :
          (go : Bool) (d : Conn P M)
          → Inv done d
          → Returns (Inv done) (
              if go
              then (parse_loop proto (suc (readable d.in_buffer)) d >>= λ e. some (maybe_finish e))
              else some d)
      either true d w =
          Returns-bind (Inv done) (Inv done) _ _
            (parse_loop-Inv (suc (readable d.in_buffer)) d w (omega arith))
            λ e x. maybe_finish-Inv e x
      either false d w = w
