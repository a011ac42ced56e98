-- ===== src/Tests/Link.antt =====
-- A connection that speaks the binary protocol.
use echo_net.Base.{
  ◌⊎◌, ◌+◌, ◌≤◌, ◌≡◌, refl, [], ◌∷◌, Option, some, none, true, false, not, arith, length, Returns,
  suc, ◌++◌, take, ap, ◌∙◌,
}
use echo_net.Net.Buffer.{Buffer, readable, advance, new_buffer, buffer_append}
use echo_net.Net.Buffer.Bounds.{IsValid, new_buffer-IsValid, buffer_append-IsValid}
use echo_net.Net.Buffer.Contents.{contents, contents-buffer_append, new_buffer-contents}
use echo_net.Protocol.MyProtocol.Message.{
  Message, no_message, heartbeat_req, encode, is_valid_msg_type, type_code,
}
use echo_net.Protocol.MyProtocol.RoundTrip.{Fits, spec-take-encode}
use echo_net.Protocol.MyProtocol.Parse.{MyProtocol}
use echo_net.Protocol.MyProtocol.Stream.{frames, waits, encode_all}
use echo_net.Net.Connection.State.{Conn, new_conn, is_connected, at_once}
use echo_net.Net.Connection.Tasks.{enqueue_task, submit_front, run_at_once, start_front}
use echo_net.Net.Connection.Read.{received, parse_loop}
use echo_net.Net.Connection.Send.{close, run_in_loop, exec}
use echo_net.Net.Connection.Close.{
  handle_close, begin_close, call_close_callback, maybe_finish, discard_all,
}
use echo_net.Net.Connection.Events.{readable_event, close_called, step}
use echo_net.Net.Connection.Events.Inv.{Inv, finals, bit, new_conn-Inv}
use echo_net.Net.Connection.Events.Lifecycle.{
  Reach, here, next, never_stuck, closed_at_most_once, closed_once, one_task_at_a_time,
}
use echo_net.Net.Connection.Chat.{
  my_protocol, my_protocol-Laws, Delivered, parse_loop_delivers, parse_loop-encode_all,
}
use Prim.{tt}

abbrev fresh : MyProtocol
fresh = record { current = no_message }

abbrev ping : Message
ping = record { type = heartbeat_req; id = 8; payload = [] }

ping-Fits : Fits ping
unfolding is_valid_msg_type type_code
ping-Fits = record { small = omega arith; word = omega arith; known = refl }

abbrev link : Conn MyProtocol Message
link = new_conn 9 fresh 0

never_stuck_example :
    (d : Conn MyProtocol Message) × (step my_protocol link (5, readable_event (received [] ∷ []))
      ≡ some d)
never_stuck_example =
    never_stuck my_protocol my_protocol-Laws 9 fresh 0 5 link (readable_event (received [] ∷ []))
      here tt

abbrev or_link : Option (Conn MyProtocol Message) → Conn MyProtocol Message
or_link none = link
or_link (some c) = c

-- The peer stops sending, and there is nothing to do.
abbrev half : Conn MyProtocol Message
half = or_link (step my_protocol link (5, readable_event (received [] ∷ [])))

abbrev shut : Conn MyProtocol Message
shut = close my_protocol true link

shut-Reach : Reach my_protocol link 0 shut
unfolding step
shut-Reach = next here 5 (close_called true) tt refl

closed_at_most_once_example :
    length shut.notices + finals shut.posted + shut.finals_due ≤ bit (not (is_connected shut))
closed_at_most_once_example =
    closed_at_most_once my_protocol my_protocol-Laws 9 fresh 0 shut shut-Reach

closed_once_example : length shut.notices ≡ 1
unfolding close run_in_loop exec handle_close new_conn begin_close call_close_callback
closed_once_example =
    closed_once my_protocol my_protocol-Laws 9 fresh 0 shut shut-Reach refl refl refl refl

one_task_at_a_time_example :
    (length shut.submitted ≡ 0 + bit shut.task_running)
    × ((shut.task_running ≡ true) ⊎ (shut.pending_tasks ≡ []))
one_task_at_a_time_example =
    one_task_at_a_time my_protocol my_protocol-Laws 9 fresh 0 shut shut-Reach

-- A request, and the first bytes of the next one, have arrived.
abbrev loaded : Conn MyProtocol Message
loaded = record link {
  in_buffer = buffer_append new_buffer (encode_all (ping ∷ []) ++ take 3 (encode ping));
}

refill :
    (c : Conn MyProtocol Message) (b : Buffer)
    → Inv 0 c
    → IsValid b
    → Inv 0 (record c { in_buffer = b })
refill c b v w = record {
  in_valid = w;
  out_valid = v.out_valid;
  wired = v.wired;
  queue = v.queue;
  flight = v.flight;
  counted = v.counted;
  flushed = v.flushed;
  claimed = v.claimed;
  budget = v.budget;
}

loaded-Inv : Inv 0 loaded
loaded-Inv = refill link loaded.in_buffer (new_conn-Inv 9 fresh 0) (
    buffer_append-IsValid new_buffer (encode_all (ping ∷ []) ++ take 3 (encode ping))
      new_buffer-IsValid)

-- The frame of a request, and behind it the header of one that is too long.
abbrev spoiled : Conn MyProtocol Message
spoiled = record link {
  in_buffer = buffer_append new_buffer (encode ping ++ 255 ∷ 255 ∷ 255 ∷ 255 ∷ []);
}

spoiled-Inv : Inv 0 spoiled
spoiled-Inv = refill link spoiled.in_buffer (new_conn-Inv 9 fresh 0) (
    buffer_append-IsValid new_buffer (encode ping ++ 255 ∷ 255 ∷ 255 ∷ 255 ∷ []) new_buffer-IsValid)

parse_loop_delivers_example :
    Returns
      (Delivered spoiled
        (frames (suc (length (contents spoiled.in_buffer))) (contents spoiled.in_buffer)))
      (parse_loop my_protocol (suc (length (contents spoiled.in_buffer))) spoiled)
unfolding new_conn
parse_loop_delivers_example =
    parse_loop_delivers (suc (length (contents spoiled.in_buffer))) spoiled spoiled-Inv refl
      (omega arith)

parse_loop-encode_all_example :
    Returns
      (Delivered loaded (ping ∷ [], waits (take 3 (encode ping))))
      (parse_loop my_protocol (suc (length (contents loaded.in_buffer))) loaded)
unfolding new_conn
parse_loop-encode_all_example =
    parse_loop-encode_all loaded (ping ∷ []) (take 3 (encode ping)) loaded-Inv refl (ping-Fits, tt)
      (spec-take-encode ping 3 ping-Fits (omega arith))
      (contents-buffer_append new_buffer (encode_all (ping ∷ []) ++ take 3 (encode ping))
          new_buffer-IsValid
        ∙ ap (λ q. q ++ (encode_all (ping ∷ []) ++ take 3 (encode ping))) new_buffer-contents)

-- A connection whose tasks are run at once.
abbrev direct : Conn MyProtocol Message
direct = record link { work_callback = at_once }

-- The task has been run and has ended.
direct_task :
    ((enqueue_task direct ping).submitted ≡ ping ∷ [])
    × ((enqueue_task direct ping).task_running ≡ false)
    × (is_connected (enqueue_task direct ping) ≡ true)
unfolding new_conn enqueue_task submit_front run_at_once start_front maybe_finish
direct_task = (refl, refl, refl)

-- Behind the end of the stream, the end of the first task closes the connection.
direct_task_after_eof :
    is_connected (enqueue_task (record direct { peer_read_closed = true }) ping) ≡ false
unfolding new_conn enqueue_task submit_front run_at_once start_front maybe_finish handle_close
    begin_close call_close_callback discard_all readable new_buffer advance
direct_task_after_eof = refl
