-- ===== src/Chat/Talk.antt =====
-- `handleSendMessage` and `handleHearbeat`.
use echo_net.Base.{
  ℕ, [], ◌∷◌, ◌++◌, Option, none, some, Text, if◌then◌else◌, bytes, ◌==◌, to_string,
}
use echo_net.Room.{Room, broadcast}
use echo_net.Protocol.MyProtocol.Message.{
  Message, error_resp, send_msg_resp, heartbeat_resp, broadcast_msg,
}
use echo_net.Chat.Writer.{enqueue_message}
use echo_net.Chat.State.{
  Conn, Session, Chat, Outcome, reply, get_session_by_conn, get_room_by_id, send_all,
}
use echo_net.Chat.Login.{with_session}

-- What the members are sent.
unfoldable pub talk_message : Session → Text → Message
talk_message s text = record {
  type = broadcast_msg;
  id = 0;
  payload = to_string s.room_id ++ bytes "|" ++ s.user_name ++ bytes "|" ++ text;
}

unfoldable pub talk_in : Conn → Message → Chat → Session → Option Room → Outcome
unfolding talk_message send_all reply enqueue_message
talk_in conn msg c s none = record {
  chat = c;
  effects = reply conn msg error_resp (bytes "Room not found") ∷ [];
}
talk_in conn msg c s (some r) = record {
  chat = record c {
    writer =
        enqueue_message (record { room_id = s.room_id; user_id = s.user_id; content = msg.payload })
          c.writer;
  };
  effects =
      send_all c.objects (broadcast r (talk_message s msg.payload))
      ++ reply conn msg send_msg_resp (bytes "OK") ∷ [];
}

unfoldable pub send_message : Conn → Message → Chat → ℕ → Session → Outcome
unfolding talk_in get_room_by_id reply
send_message conn msg c o s =
    if s.room_id == 0
    then record { chat = c; effects = reply conn msg error_resp (bytes "Not in any room") ∷ [] }
    else talk_in conn msg c s (get_room_by_id c s.room_id)

-- `handleSendMessage`
unfoldable pub handle_send_message : Conn → Message → Chat → Outcome
unfolding send_message
handle_send_message conn msg c =
    with_session c conn msg (get_session_by_conn c conn) (send_message conn msg c)

-- `handleHearbeat`
unfoldable pub handle_heartbeat : Conn → Message → Chat → Outcome
unfolding reply
handle_heartbeat conn msg c = record { chat = c; effects = reply conn msg heartbeat_resp [] ∷ [] }
