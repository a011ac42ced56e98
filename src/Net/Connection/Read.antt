-- ===== src/Net/Connection/Read.antt =====
-- `read`: fill the input buffer from the socket, then parse and enqueue what has arrived.
use echo_net.Base.{
  ℕ, suc, zero, ◌+◌, List, [], ◌∷◌, Bool, true, false, ◌&&◌, not, Option, some, none, if◌then◌else◌,
  ltb, leb, ◌==◌, take, drop, length, ◌>>=◌,
}
use echo_net.Net.Buffer.{
  Buffer, poke, readable, writable_bytes, enable_write, buffer_append, move_write_ptr,
}
use echo_net.Protocol.{ParseResult, ok, need_more, error}
use echo_net.Reactor.Channel.{disable_reading}
use echo_net.Net.Connection.State.{Protocol, Conn, is_connected}
use echo_net.Net.Connection.Close.{handle_close, maybe_finish, discard_all}
use echo_net.Net.Connection.Tasks.{enqueue_task}
use echo_net.Net.Connection.Send.{send_response}

-- `EXTRA_BUF_SIZE`
abbrev pub extra_buf_size : ℕ
extra_buf_size = 65536

-- The buffer with room for a byte at least, as each round starts.
unfoldable pub make_room : Buffer → Buffer
make_room b = if writable_bytes b == 0 then enable_write b extra_buf_size else b

-- `readv` has stored `bytes` in the buffer's free part and, where that was full, in `extrabuf`.
-- `none` is a failed assertion, or more bytes than the two blocks hold.
unfoldable pub take_in : Buffer → List ℕ → Option Buffer
take_in b bytes =
    let writable = writable_bytes b in
    if leb (length bytes) writable
    then move_write_ptr (record b { store = poke b.store b.write_ptr bytes }) (length bytes)
    else if leb (length bytes) (writable + extra_buf_size)
    then (move_write_ptr (record b { store = poke b.store b.write_ptr (take writable bytes) })
          writable
        >>= λ c. some (buffer_append c (drop writable bytes)))
    else none

-- What `readv` returns: bytes, of which none is the end of the stream, or an error. Behind the end
-- of a list of results nothing has arrived (EAGAIN).
pub data ReadResult : Type 0 where
  received : List ℕ → ReadResult
  interrupted would_block failed : ReadResult

module _ {P M : Type 0} where
  -- The end of the stream.
  unfoldable pub peer_eof : Conn P M → Conn P M
  unfolding disable_reading
  peer_eof c = record c { peer_read_closed = true; channel = disable_reading c.channel }

  -- The first loop of `read`; `false` is its early return.
  unfoldable pub read_loop : ℕ → Conn P M → List ReadResult → Option (Bool × Conn P M)
  read_loop now c [] = some (true, record c { in_buffer = make_room c.in_buffer })
  read_loop now c (received [] ∷ rs) =
      some (true, peer_eof (record c { in_buffer = make_room c.in_buffer }))
  read_loop now c (received (x ∷ xs) ∷ rs) = take_in (make_room c.in_buffer) (x ∷ xs) >>= λ b.
      read_loop now
        (record c { in_buffer = b; bytes_read = c.bytes_read + length (x ∷ xs); last_active = now })
        rs
  read_loop now c (interrupted ∷ rs) =
      read_loop now (record c { in_buffer = make_room c.in_buffer }) rs
  read_loop now c (would_block ∷ rs) = some (true, record c { in_buffer = make_room c.in_buffer })
  read_loop now c (failed ∷ rs) =
      some (false, handle_close (record c { in_buffer = make_room c.in_buffer }))

  -- A frame that can no longer be completed is thrown away.
  unfoldable pub drop_tail : Conn P M → Conn P M
  drop_tail c =
      if c.peer_read_closed && ltb 0 (readable c.in_buffer)
      then record c { in_buffer = discard_all c.in_buffer }
      else c

module _ {P M : Type 0} (proto : Protocol P M) where
  -- An error of the protocol: answer, or close.
  unfoldable pub protocol_error : Conn P M → Option M → Conn P M
  protocol_error c none = handle_close c
  protocol_error c (some m) =
      let d = send_response proto true c m in record d { protocol = proto.reset d.protocol }

  -- A request that is complete becomes a task.
  unfoldable pub accept_request : Conn P M → Conn P M
  accept_request c =
      let d = enqueue_task c (proto.get_message c.protocol) in
      record d { protocol = proto.reset d.protocol }

  -- A round of the second loop, by what the parser has returned; `next` is the next round.
  unfoldable pub parse_round :
      Conn P M
      → Option (ParseResult × P × Buffer)
      → (Conn P M → Option (Conn P M))
      → Option (Conn P M)
  parse_round c none next = none
  parse_round c (some (ok, p, b)) next =
      let d = record c { protocol = p; in_buffer = b } in
      if is_connected d then next (accept_request d) else some d
  parse_round c (some (error, p, b)) next =
      some (protocol_error (record c { protocol = p; in_buffer = b }) (proto.get_error_response p))
  parse_round c (some (need_more, p, b)) next =
      some (drop_tail (record c { protocol = p; in_buffer = b }))

  -- The second loop of `read`, with fuel. `none` is a failed assertion, or no fuel left.
  unfoldable pub parse_loop : ℕ → Conn P M → Option (Conn P M)
  parse_loop zero c = none
  parse_loop (suc fuel) c =
      parse_round c (proto.parse c.protocol c.in_buffer) (λ d. parse_loop fuel d)

  -- `read`; each request takes a byte of input at least, so there is fuel for all of them.
  unfoldable pub read : ℕ → Conn P M → List ReadResult → Option (Conn P M)
  unfolding read_loop
  read now c rs =
      if is_connected c && not c.peer_read_closed
      then (read_loop now c rs >>= λ (on, d).
          if on
          then (parse_loop (suc (readable d.in_buffer)) d >>= λ e. some (maybe_finish e))
          else some d)
      else some c
